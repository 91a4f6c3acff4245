-- ===== src/HashMap/Tests.antt =====
-- The maps at work, with numbers for the connections.
use proc_bridge.Base.{
  ℤ, ℕ, zero, suc, ◌<◌, ◌≡◌, refl, arith, true, some, List, [], ◌∷◌, Every, pos, negsuc,
}
use proc_bridge.HashMap.{
  Maps, Entry, cleared, map_target, entry_fd, select, find, matches, insert_hash_map,
  del_from_hash_map, init_target_hash_map,
}
use proc_bridge.HashMap.Laws.{Unique}
use proc_bridge.HashMap.Insert.{Valid, Inserted, insert_hash_map-Inserted}
use proc_bridge.HashMap.Delete.{Deleted, del_from_hash_map-Deleted}
use proc_bridge.HashMap.Init.{Ready, init_target_hash_map-Ready}
use proc_bridge.HashMap.Check.{TargetKey, HashCall, repair, check_target_hash_map}
use proc_bridge.HashMap.Check.Once.{check_hash_calls, check_hash_calls_once}
use proc_bridge.HashMap.Check.Complete.{Grows, IsFound, check_target_hash_map-Grows}

-- Three chains; sockets 4 and 7 share one.
abbrev demo_list : ℕ → List (Entry ℕ)
demo_list zero = []
demo_list (suc zero) =
    record { entry_type = 1; value = 7; refer = 70 }
    ∷ record { entry_type = 1; value = 4; refer = 40 }
    ∷ []
demo_list (suc (suc n)) = []

abbrev demo : Maps ℕ
demo = record {
  target_hash_map = record { flag = true; len = 3; entry_count = 2; plist = some demo_list };
  client_hash_map = cleared;
}

demo-Valid : Valid demo.target_hash_map
unfolding find matches
demo-Valid = record {
  list = demo_list;
  is_map = record {
    inited = refl;
    len_pos = omega arith;
    chains = refl;
    counted = refl;
    unique = uniques;
  };
}
  where
    uniques : (i : ℕ) → i < 3 → Unique (demo_list i)
    uniques zero h = tt
    uniques (suc zero) h = (refl, (refl, tt))
    uniques (suc (suc n)) h = tt

insert_hash_map-Inserted_example :
    let r = insert_hash_map true demo map_target entry_fd 10 100 in
    Inserted true demo entry_fd 10 100 r.0 r.1
insert_hash_map-Inserted_example =
    insert_hash_map-Inserted true demo entry_fd 10 100 demo-Valid refl

del_from_hash_map-Deleted_example :
    let r = del_from_hash_map demo map_target entry_fd 4 in
    Deleted demo map_target entry_fd 4 demo.target_hash_map r.0 r.1
del_from_hash_map-Deleted_example =
    del_from_hash_map-Deleted demo map_target entry_fd 4 demo.target_hash_map
      (unfold select in refl) demo-Valid refl

fresh_map-Ready :
    let maps : Maps ℕ = record { target_hash_map = cleared; client_hash_map = cleared } in
    let r = init_target_hash_map (λ n. true) maps (pos 100) in (r.1 ≡ pos 0) × Ready r.0 100
fresh_map-Ready =
    init_target_hash_map-Ready (record { target_hash_map = cleared; client_hash_map = cleared }) 100
      (omega arith) (omega arith) refl

-- A connection that is known, and one that has no socket yet.
abbrev peers : List (TargetKey ℕ)
peers =
    record { fd = pos 7; proc_id = pos 21; refer = 70 }
    ∷ record { fd = negsuc 0; proc_id = pos 22; refer = 80 }
    ∷ []

check_target_hash_map-Grows_example :
    let maps' = (check_target_hash_map (λ ty value. true) demo 2 peers).0 in
    Grows demo maps' × Every (IsFound maps') peers
check_target_hash_map-Grows_example = check_target_hash_map-Grows demo 2 peers demo-Valid refl

-- What the ticker finds at its first and its second call.
abbrev found_at : ℤ → HashCall ℕ
found_at total_count = record {
  alloc_list = λ n. true;
  alloc = λ ty value. true;
  target_count = 2;
  targets = peers;
  total_count = total_count;
  clients = record { fd = pos 9; verify = true; refer = 90 } ∷ [];
}

check_hash_calls_once_example :
    check_hash_calls (found_at (pos 0) ∷ found_at (pos 1) ∷ []) (0, demo)
    ≡ (1, repair (found_at (pos 0)) demo)
check_hash_calls_once_example =
    check_hash_calls_once (found_at (pos 0)) (found_at (pos 1) ∷ []) demo
