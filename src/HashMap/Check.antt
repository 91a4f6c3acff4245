-- ===== src/HashMap/Check.antt =====
-- The periodic repair of the maps: `check_target_hash_map` and `check_client_hash_map` of
-- src/carrier/carrier_base.c and `check_hash` of src/carrier/bridge_carrier.c. The linked lists of
-- targets and clients are lists, and a pointer to a list's node is the value `refer` that stands
-- for it.
pub mod Complete
pub mod Once
use proc_bridge.Base.{
  ℕ, ◌+◌, ◌-◌, ◌*◌, ◌%◌, Bool, true, false, not, ◌&&◌, ◌||◌, Option, none, some, List, [], ◌∷◌, ltb,
  leb, ◌==◌, if◌then◌else◌, ℤ, pos, negsuc, minus_one, leb_ℤ, ltb_ℤ, pos_part,
}
use proc_bridge.HashMap.{
  Entry, HashMap, Maps, cleared, entry_fd, entry_proc_id, map_target, map_client, is_some, matches,
  set_chain, hash_size_map, size_for, fetch_hash_entry, insert_hash_map, clear_hash_map,
}

module _ {ℓ} (R : Type ℓ) where
  -- What the repair reads of `target_detail_t`.
  pub record TargetKey : Type ℓ where
    pub fd : ℤ
    pub proc_id : ℤ
    pub refer : R

  -- What the repair reads of `client_info_t`.
  pub record ClientKey : Type ℓ where
    pub fd : ℤ
    pub verify : Bool
    pub refer : R

module _ {ℓ} {R : Type ℓ} where
  -- An insertion if there is no entry yet. The return code is only logged.
  unfoldable pub add_missing : Bool → Maps R → (ty value : ℕ) → R → Maps R
  add_missing alloc maps ty value refer =
      if is_some (fetch_hash_entry maps map_target ty value)
      then maps
      else (insert_hash_map alloc maps map_target ty value refer).0

  -- The body of the loop: the socket, then the process id.
  unfoldable pub check_target : (ℕ → ℕ → Bool) → Maps R → TargetKey R → Maps R
  check_target alloc maps t =
      let with_fd =
        if ltb_ℤ (pos 0) t.fd
        then add_missing (alloc entry_fd (pos_part t.fd)) maps entry_fd (pos_part t.fd) t.refer
        else maps in
      if ltb_ℤ (pos 0) t.proc_id
      then add_missing (alloc entry_proc_id (pos_part t.proc_id)) with_fd entry_proc_id
          (pos_part t.proc_id) t.refer
      else with_fd

  unfoldable pub check_each : (ℕ → ℕ → Bool) → Maps R → List (TargetKey R) → Maps R
  check_each alloc maps [] = maps
  check_each alloc maps (t ∷ ts) = check_each alloc (check_target alloc maps t) ts

  -- `check_target_hash_map`
  unfoldable pub check_target_hash_map :
      (ℕ → ℕ → Bool) → Maps R → (target_count : ℕ) → List (TargetKey R) → Maps R × ℤ
  check_target_hash_map alloc maps target_count targets =
      if maps.target_hash_map.entry_count == target_count * 2
      then (maps, pos 0)
      else (check_each alloc maps targets, pos 0)

  -- `pentry->refer = pclient` for the entry that the search finds.
  unfoldable pub update_chain : (ty value : ℕ) → R → List (Entry R) → List (Entry R)
  update_chain ty value refer [] = []
  update_chain ty value refer (entry ∷ next) =
      let rest = update_chain ty value refer next in
      if matches ty value entry then record entry { refer = refer } ∷ next else entry ∷ rest

  unfoldable pub update_plist :
      (len ty value : ℕ) → R → Option (ℕ → List (Entry R)) → Option (ℕ → List (Entry R))
  update_plist len ty value refer none = none
  update_plist len ty value refer (some list) =
      some (set_chain list (value % len) (update_chain ty value refer (list (value % len))))

  unfoldable pub update_client : Maps R → ℕ → R → Maps R
  update_client maps value refer =
      let map = maps.client_hash_map in
      record maps {
        client_hash_map = record map {
          plist = update_plist map.len entry_fd value refer map.plist;
        };
      }

  unfoldable pub check_client : (ℕ → ℕ → Bool) → Maps R → ClientKey R → Maps R
  check_client alloc maps c =
      let value = pos_part c.fd in
      if leb_ℤ c.fd (pos 0) || not c.verify
      then maps
      else if is_some (fetch_hash_entry maps map_client entry_fd value)
      then update_client maps value c.refer
      else (insert_hash_map (alloc entry_fd value) maps map_client entry_fd value c.refer).0

  unfoldable pub check_each_client : (ℕ → ℕ → Bool) → Maps R → List (ClientKey R) → Maps R
  check_each_client alloc maps [] = maps
  check_each_client alloc maps (c ∷ cs) = check_each_client alloc (check_client alloc maps c) cs

  -- The first call makes the map.
  unfoldable pub init_client_map : (ℕ → Bool) → Maps R → (total_count : ℕ) → Maps R × Bool
  init_client_map alloc maps total_count =
      let list_len = size_for total_count hash_size_map in
      if maps.client_hash_map.flag
      then (maps, true)
      else if leb list_len 0 || not (alloc list_len)
      then (record maps { client_hash_map = cleared }, false)
      else (
        record maps {
          client_hash_map = record {
            flag = true;
            len = list_len;
            entry_count = 0;
            plist = some (λ i. []);
          };
        },
        true,
      )

  -- `check_client_hash_map`
  unfoldable pub check_client_hash_map :
      (ℕ → Bool) → (ℕ → ℕ → Bool) → Maps R → (total_count : ℤ) → List (ClientKey R) → Maps R × ℤ
  check_client_hash_map alloc_list alloc maps total_count clients =
      let ready = init_client_map alloc_list maps (pos_part total_count) in
      if leb_ℤ total_count (pos 0)
      then clear_hash_map maps map_client
      else if ready.1
      then (check_each_client alloc ready.0 clients, pos 0)
      else (ready.0, minus_one)

-- What a call of `check_hash` finds: the targets, the clients, and the memory.
module _ {ℓ} (R : Type ℓ) where
  pub record HashCall : Type ℓ where
    pub alloc_list : ℕ → Bool
    pub alloc : ℕ → ℕ → Bool
    pub target_count : ℕ
    pub targets : List (TargetKey R)
    pub total_count : ℤ
    pub clients : List (ClientKey R)

module _ {ℓ} {R : Type ℓ} where
  unfoldable pub repair : HashCall R → Maps R → Maps R
  repair found maps =
      let first = (check_target_hash_map found.alloc maps found.target_count found.targets).0 in
      (check_client_hash_map found.alloc_list found.alloc first found.total_count found.clients).0

  -- `check_hash`, with its static `print_circle`.
  unfoldable pub check_hash : HashCall R → ℕ × Maps R → ℕ × Maps R
  check_hash found (print_circle, maps) =
      let now =
        if print_circle == 0 then (print_circle + 1, repair found maps) else (print_circle, maps) in
      if leb 20 now.0 then (0, now.1) else now
