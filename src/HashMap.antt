-- ===== src/HashMap.antt =====
-- The two hash maps of the carrier, from a socket or a process id to a connection: `cr_hash_map_t`
-- of src/carrier/carrier_base.h and its operations in src/carrier/carrier_base.c. What an entry
-- refers to is a type parameter. Whether `calloc` gives memory is a parameter of each call.
pub mod Laws
pub mod Insert
pub mod Delete
pub mod Check
pub mod Init
mod Tests
use proc_bridge.Base.{
  ℕ, zero, suc, ◌+◌, ◌-◌, ◌*◌, ◌%◌, Bool, true, false, not, ◌&&◌, ◌||◌, Option, none, some, List,
  [], ◌∷◌, ltb, leb, ◌==◌, if◌then◌else◌, ℤ, pos, negsuc, minus_one, minus_two, leb_ℤ, ltb_ℤ,
  pos_part,
}

-- `CR_HASH_ENTRY_T_FD` and `CR_HASH_ENTRY_T_PROCID`
abbrev pub entry_fd : ℕ
entry_fd = 1

abbrev pub entry_proc_id : ℕ
entry_proc_id = 2

-- `CR_HASH_MAP_T_TARGET` and `CR_HASH_MAP_T_CLIENT`
abbrev pub map_target : ℕ
map_target = 1

abbrev pub map_client : ℕ
map_client = 2

-- The sizes a map can have.
abbrev pub hash_size_map : List ℕ
hash_size_map =
    61 ∷ 113 ∷ 211 ∷ 379 ∷ 509 ∷ 683 ∷ 911 ∷ 1217 ∷ 1627 ∷ 2179 ∷ 2909 ∷ 3881 ∷ 6907 ∷ 9209 ∷ 12281
    ∷ 16381 ∷ 21841 ∷ 29123 ∷ 38833 ∷ 51787 ∷ 69061 ∷ 92083 ∷ 122777 ∷ 163729 ∷ 218357 ∷ 291143
    ∷ 388211 ∷ 517619 ∷ 690163 ∷ 999983 ∷ 1226959 ∷ 1635947 ∷ 2181271 ∷ 2908361 ∷ 3877817 ∷ 5170427
    ∷ 6893911 ∷ 9191891 ∷ 12255871 ∷ 16341163 ∷ 21788233 ∷ 29050993 ∷ 38734667 ∷ 51646229 ∷ 68861641
    ∷ 91815541 ∷ []

abbrev pub is_entry_type : ℕ → Bool
is_entry_type ty = (ty == entry_fd) || (ty == entry_proc_id)

-- The first size that has two places for each of `count`, or 0.
unfoldable pub size_for : ℕ → List ℕ → ℕ
size_for count [] = 0
size_for count (size ∷ sizes) =
    let rest = size_for count sizes in if leb (count * 2) size then size else rest

module _ {ℓ} (R : Type ℓ) where
  pub record Entry : Type ℓ where
    pub entry_type : ℕ
    pub value : ℕ
    pub refer : R

  -- A null `plist` is `none`; else it gives the chain behind the dummy head at each position.
  pub record HashMap : Type ℓ where
    pub flag : Bool
    pub len : ℕ
    pub entry_count : ℕ
    pub plist : Option (ℕ → List Entry)

  -- The two maps of `carrier_env_t`.
  pub record Maps : Type ℓ where
    pub target_hash_map : HashMap
    pub client_hash_map : HashMap

module _ {ℓ} {R : Type ℓ} where
  -- A map after `memset`.
  abbrev pub cleared : HashMap R
  cleared = record { flag = false; len = 0; entry_count = 0; plist = none }

  -- The map that an argument `type` names.
  unfoldable pub select : Maps R → ℕ → Option (HashMap R)
  select maps kind =
      if kind == map_target
      then some maps.target_hash_map
      else if kind == map_client
      then some maps.client_hash_map
      else none

  unfoldable pub put_back : Maps R → ℕ → HashMap R → Maps R
  put_back maps kind map =
      if kind == map_target
      then record maps { target_hash_map = map }
      else record maps { client_hash_map = map }

  unfoldable pub matches : ℕ → ℕ → Entry R → Bool
  matches ty value entry = (entry.entry_type == ty) && (entry.value == value)

  -- The search along a chain.
  unfoldable pub find : ℕ → ℕ → List (Entry R) → Option (Entry R)
  find ty value [] = none
  find ty value (entry ∷ next) =
      let rest = find ty value next in if matches ty value entry then some entry else rest

  -- The chain without the first match, and whether there was one.
  unfoldable pub unlink : ℕ → ℕ → List (Entry R) → List (Entry R) × Bool
  unlink ty value [] = ([], false)
  unlink ty value (entry ∷ next) =
      let rest = unlink ty value next in
      if matches ty value entry then (next, true) else (entry ∷ rest.0, rest.1)

  unfoldable pub set_chain : (ℕ → List (Entry R)) → ℕ → List (Entry R) → ℕ → List (Entry R)
  set_chain list at chain i = if i == at then chain else list i

  abbrev pub is_some : Option (Entry R) → Bool
  is_some none = false
  is_some (some entry) = true

  unfoldable pub fetch_chain :
      HashMap R → (ty value : ℕ) → Option (ℕ → List (Entry R)) → Option (Entry R)
  fetch_chain map ty value none = none
  fetch_chain map ty value (some list) =
      if leb map.len 0 || leb map.entry_count 0
      then none
      else find ty value (list (value % map.len))

  unfoldable pub fetch_from : Option (HashMap R) → (ty value : ℕ) → Option (Entry R)
  fetch_from none ty value = none
  fetch_from (some map) ty value =
      if not (is_entry_type ty) || not map.flag then none else fetch_chain map ty value map.plist

  -- `fetch_hash_entry`
  unfoldable pub fetch_hash_entry : Maps R → (kind ty value : ℕ) → Option (Entry R)
  fetch_hash_entry maps kind ty value = fetch_from (select maps kind) ty value

  unfoldable pub insert_chain :
      Bool → Maps R → ℕ → Entry R → HashMap R → Option (ℕ → List (Entry R)) → Maps R × ℤ
  insert_chain alloc maps kind entry map none = (maps, minus_one)
  insert_chain alloc maps kind entry map (some list) =
      let at = entry.value % map.len in
      if is_some (fetch_hash_entry maps map_target entry.entry_type entry.value)
      then (maps, minus_two)
      else if not alloc
      then (maps, minus_one)
      else (
        put_back maps kind (record map {
          entry_count = map.entry_count + 1;
          plist = some (set_chain list at (entry ∷ list at));
        }),
        pos 0,
      )

  unfoldable pub insert_into : Bool → Maps R → ℕ → Entry R → Option (HashMap R) → Maps R × ℤ
  insert_into alloc maps kind entry none = (maps, minus_one)
  insert_into alloc maps kind entry (some map) =
      if not (is_entry_type entry.entry_type) || (not map.flag || leb map.len 0)
      then (maps, minus_one)
      else insert_chain alloc maps kind entry map map.plist

  -- `insert_hash_map`: the search for an entry that is there already is made in the map of the
  -- targets, whichever map is named.
  unfoldable pub insert_hash_map : Bool → Maps R → (kind ty value : ℕ) → R → Maps R × ℤ
  insert_hash_map alloc maps kind ty value refer =
      insert_into alloc maps kind (record { entry_type = ty; value = value; refer = refer })
        (select maps kind)

  unfoldable pub del_chain :
      Maps R → (kind ty value : ℕ) → HashMap R → Option (ℕ → List (Entry R)) → Maps R × ℤ
  del_chain maps kind ty value map none = (maps, pos 0)
  del_chain maps kind ty value map (some list) =
      let at = value % map.len in
      let cut = unlink ty value (list at) in
      if leb map.len 0 || leb map.entry_count 0
      then (maps, pos 0)
      else if cut.1
      then (
        put_back maps kind (record map {
          entry_count = map.entry_count - 1;
          plist = some (set_chain list at cut.0);
        }),
        pos 0,
      )
      else (maps, minus_one)

  unfoldable pub del_from : Maps R → (kind ty value : ℕ) → Option (HashMap R) → Maps R × ℤ
  del_from maps kind ty value none = (maps, minus_one)
  del_from maps kind ty value (some map) =
      if not (is_entry_type ty) || not map.flag
      then (maps, minus_one)
      else del_chain maps kind ty value map map.plist

  -- `del_from_hash_map`
  unfoldable pub del_from_hash_map : Maps R → (kind ty value : ℕ) → Maps R × ℤ
  del_from_hash_map maps kind ty value = del_from maps kind ty value (select maps kind)

  -- `clear_hash_map`
  unfoldable pub clear_hash_map : Maps R → ℕ → Maps R × ℤ
  clear_hash_map maps kind =
      if (kind == map_target) || (kind == map_client)
      then (put_back maps kind cleared, pos 0)
      else (maps, minus_one)

  -- `init_target_hash_map`
  unfoldable pub init_target_hash_map : (ℕ → Bool) → Maps R → (target_count : ℤ) → Maps R × ℤ
  init_target_hash_map alloc maps target_count =
      let list_len = size_for (pos_part target_count) hash_size_map in
      if leb_ℤ target_count (pos 0)
      then (maps, pos 0)
      else if maps.target_hash_map.flag
      then (maps, minus_one)
      else if leb list_len 0
      then (maps, minus_one)
      else if not (alloc list_len)
      then (
        record maps { target_hash_map = record maps.target_hash_map { plist = none } },
        minus_one,
      )
      else (
        record maps {
          target_hash_map = record {
            flag = true;
            len = list_len;
            entry_count = 0;
            plist = some (λ i. []);
          };
        },
        pos 0,
      )
