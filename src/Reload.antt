-- ===== src/Reload.antt =====
-- The change of the targets while the carrier runs: `copy_target_info` of src/carrier/bridge_carrier.c
-- without `init`, and `del_one_target`. The targets that were read from the configuration are a list of
-- their own; those of the carrier are addresses, with their name and address in a memory beside
-- the rest of the target. Whether `calloc` has memory is a parameter.
pub mod Update
pub mod Each
pub mod Delete
pub mod Whole
mod Tests
use proc_bridge.Base.{
  ℕ, suc, ◌+◌, ◌-◌, Bool, true, false, not, ◌&&◌, Option, none, some, List, [], ◌∷◌, ◌++◌, ◌==◌,
  ltb, ltb_ℤ, pos_part, if◌then◌else◌, ℤ, pos, minus_one,
}
use proc_bridge.Bridge.{same_name}
use proc_bridge.HashMap.{
  Maps, map_target, entry_fd, entry_proc_id, clear_hash_map, init_target_hash_map, insert_hash_map,
}
use proc_bridge.Target.{Target, not_connected}
use proc_bridge.Carrier.{Carrier, no_traffic, update, close_target_fd, search_target}
use proc_bridge.Sending.{Outside, del_sending_list}

-- The fields of `target_detail_t` that say where a target is.
pub record Address : Type 0 where
  pub target_name : List ℕ
  pub ip_addr : List ℕ
  pub port : ℕ

-- A target of the configuration.
pub record Item : Type 0 where
  pub proc_id : ℕ
  pub at : Address

-- `freed` lists the addresses that were given to `free`; from `next` on all are free for `calloc`.
pub record Reload : Type 0 where
  pub carrier : Carrier
  pub address : ℕ → Address
  pub next : ℕ
  pub freed : List ℕ

-- `proc_id2_target` without an environment: the search along the list.
abbrev pub has_id : ℕ → Target → Bool
has_id proc_id t = t.proc_id == proc_id

abbrev pub find_target : Reload → ℕ → Option ℕ
find_target s proc_id = search_target s.carrier.targets (has_id proc_id) s.carrier.target_list

unfoldable pub has_item : List Item → ℕ → Bool
has_item [] proc_id = false
has_item (item ∷ more) proc_id =
    let rest = has_item more proc_id in if item.proc_id == proc_id then true else rest

-- A target fresh from `calloc`, and its traffic.
abbrev pub new_target : ℕ → Target
new_target proc_id = record {
  state = not_connected;
  proc_id = proc_id;
  fd = minus_one;
  delay_starts_ms = 0;
  latest_send_ts = 0;
  latest_send_bytes = 0;
  delay_time = 0;
  delay_count = 0;
  reset = 0;
  latest_reset = 0;
  snd_block = false;
  snd_buff_len = 0;
  snd_head = 0;
  snd_tail = 0;
  snd_buff = none;
  in_append = false;
}

-- A target that was found: if it moved, its connection is closed.
abbrev pub same_place : Address → Address → Bool
same_place a b = same_name a.ip_addr b.ip_addr && (a.port == b.port)

unfoldable pub set_address : ℕ → Reload → ℕ → Address → Reload
set_address curr_ts s target at = record s {
  carrier =
      if same_place (s.address target) at
      then s.carrier
      else close_target_fd s.carrier curr_ts target;
  address = update s.address target (record {
    target_name =
        if same_name (s.address target).target_name at.target_name
        then (s.address target).target_name
        else at.target_name;
    ip_addr = if same_place (s.address target) at then (s.address target).ip_addr else at.ip_addr;
    port = if same_place (s.address target) at then (s.address target).port else at.port;
  });
}

-- A new target, at the front of the list.
unfoldable pub add_target : Reload → Item → Reload
add_target s item = record s {
  carrier = record s.carrier {
    targets = update s.carrier.targets s.next (new_target item.proc_id);
    traffic = update s.carrier.traffic s.next no_traffic;
    target_list = s.next ∷ s.carrier.target_list;
    target_count = s.carrier.target_count + 1;
  };
  address = update s.address s.next item.at;
  next = s.next + 1;
}

unfoldable pub update_found : (ℕ → Bool) → ℕ → Reload → Item → Option ℕ → Reload
unfolding set_address add_target
update_found calloc_ok curr_ts s item (some target) = set_address curr_ts s target item.at
update_found calloc_ok curr_ts s item none = if calloc_ok item.proc_id then add_target s item else s

-- The first loop, over the targets of the configuration.
unfoldable pub update_each : (ℕ → Bool) → ℕ → Reload → List Item → Reload
unfolding update_found
update_each calloc_ok curr_ts s [] = s
update_each calloc_ok curr_ts s (item ∷ more) =
    update_each calloc_ok curr_ts
      (update_found calloc_ok curr_ts s item (find_target s item.proc_id)) more

-- `del_one_target`: the list without the target, and whether it was there.
unfoldable pub unlink_target : ℕ → List ℕ → List ℕ × Bool
unlink_target target [] = ([], false)
unlink_target target (a ∷ more) =
    let rest = unlink_target target more in
    if a == target then (more, true) else (a ∷ rest.0, rest.1)

unfoldable pub del_one_target : Carrier → ℕ → Carrier × ℤ
unfolding unlink_target
del_one_target c target =
    let r = unlink_target target c.target_list in
    if r.1
    then (record c { target_list = r.0; target_count = c.target_count - 1 }, pos 0)
    else (c, minus_one)

-- The end of the second loop's body: a target that could not be deleted is kept.
abbrev pub after_del : Reload → ℕ → Carrier × ℤ → Reload
after_del s target (c, ret) =
    if ltb_ℤ ret (pos 0)
    then record s { carrier = c }
    else record s { carrier = c; freed = s.freed ++ target ∷ [] }

unfoldable pub delete_target : ℕ → Reload → ℕ → Reload
unfolding del_one_target
delete_target curr_ts s target =
    after_del s target (del_one_target (close_target_fd s.carrier curr_ts target) target)

-- The second loop, over the targets from a place in the list on.
unfoldable pub delete_each : ℕ → List Item → Reload → List ℕ → Reload
unfolding delete_target
delete_each curr_ts items s [] = s
delete_each curr_ts items s (target ∷ more) =
    delete_each curr_ts items
      (if has_item items (s.carrier.targets target).proc_id
        then s
        else delete_target curr_ts s target)
      more

-- Both loops.
unfoldable pub merge_targets : (ℕ → Bool) → ℕ → Reload → List Item → Reload
unfolding update_each delete_each
merge_targets calloc_ok curr_ts s items =
    let updated = update_each calloc_ok curr_ts s items in
    delete_each curr_ts items updated updated.carrier.target_list

-- The entries of a target in the hash map. The return codes are ignored.
unfoldable pub insert_target : (ℕ → ℕ → Bool) → Carrier → Maps ℕ → ℕ → Maps ℕ
insert_target alloc c maps target =
    let t = c.targets target in
    let with_id =
      if ltb 0 t.proc_id
      then (insert_hash_map (alloc entry_proc_id t.proc_id) maps map_target entry_proc_id t.proc_id
          target).0
      else maps in
    if ltb_ℤ (pos 0) t.fd
    then (insert_hash_map (alloc entry_fd (pos_part t.fd)) with_id map_target entry_fd
        (pos_part t.fd) target).0
    else with_id

unfoldable pub insert_targets : (ℕ → ℕ → Bool) → Carrier → Maps ℕ → List ℕ → Maps ℕ
unfolding insert_target
insert_targets alloc c maps [] = maps
insert_targets alloc c maps (target ∷ more) =
    insert_targets alloc c (insert_target alloc c maps target) more

abbrev pub after_init : (ℕ → ℕ → Bool) → Carrier → Maps ℕ × ℤ → Maps ℕ
after_init alloc c (maps, ret) =
    if ltb_ℤ ret (pos 0) then maps else insert_targets alloc c maps c.target_list

-- The new hash map of the targets.
unfoldable pub rehash : (ℕ → Bool) → (ℕ → ℕ → Bool) → Carrier → Carrier
rehash alloc_list alloc c =
    let cleared_maps = (clear_hash_map c.maps map_target).0 in
    record c {
      maps = after_init alloc c (init_target_hash_map alloc_list cleared_maps (pos c.target_count));
    }

-- `copy_target_info` on a list that is there. `del_sending_list` reads the targets that were freed, where
-- they are still in the list: here they are as they were when they were freed.
unfoldable pub copy_target_info :
    (ℕ → Bool) → (ℕ → Bool) → (ℕ → ℕ → Bool) → Outside → Reload → List Item → Reload
unfolding merge_targets rehash
copy_target_info calloc_ok alloc_list alloc out s items =
    let merged = merge_targets calloc_ok out.curr_ts s items in
    record merged { carrier = rehash alloc_list alloc (del_sending_list out merged.carrier) }
