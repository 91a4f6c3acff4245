-- ===== src/Carrier.antt =====
-- The state of the carrier: `carrier_env_t` and what hangs on it, of src/carrier/carrier_base.h, as far
-- as sending is concerned. A pointer to a `target_detail_t` is a number, and `targets` is the memory
-- behind these pointers. The finding of a target is that of src/carrier/carrier_lib.c.
pub mod Counts
pub mod Sample
mod Tests
use proc_bridge.Base.{
  ℕ, suc, ◌+◌, ◌*◌, ◌-◌, ◌/◌, ◌%◌, ◌^◌, Bool, true, false, ◌&&◌, Option, none, some, List, [], ◌∷◌,
  ◌==◌, ltb, leb, leb_ℤ, ltb_ℤ, if◌then◌else◌, ℤ, pos, negsuc, minus_one, Mem,
}
use proc_bridge.Hub.{clr_snd_bit}
use proc_bridge.HashMap.{
  Entry, Maps, map_target, entry_fd, entry_proc_id, fetch_hash_entry, del_from_hash_map,
}
use proc_bridge.Target.{Target, Env, ConnState, not_connected, connected, connecting}

-- The counts of packages that `half_bridge_info_t` and `conn_traffic_t` share.
pub record Traffic : Type 0 where
  pub handled : ℕ
  pub min_size : ℕ
  pub max_size : ℕ
  pub ave_size : ℕ
  pub dropped : ℕ
  pub latest_drop : ℕ

-- The counts of a new connection.
abbrev pub no_traffic : Traffic
no_traffic = record {
  handled = 0;
  min_size = 0;
  max_size = 0;
  ave_size = 0;
  dropped = 0;
  latest_drop = 0;
}

-- One package more: the count is an `unsigned int`, and so is the product behind the average.
unfoldable pub note_pkg : Traffic → ℕ → Traffic
note_pkg t len =
    let handled = (t.handled + 1) % 2 ^ 32 in
    record t {
      handled = handled;
      max_size = if ltb t.max_size len then len else t.max_size;
      min_size = if leb t.min_size 0 then len else (if ltb len t.min_size then len else t.min_size);
      ave_size = ((t.ave_size * ((handled + 2 ^ 32 - 1) % 2 ^ 32) + len) % 2 ^ 32) / handled;
    }

-- One package dropped.
abbrev pub note_drop : Traffic → ℕ → Traffic
note_drop t curr_ts = record t { dropped = (t.dropped + 1) % 2 ^ 32; latest_drop = curr_ts }

-- `sending` is the list of the targets with data, `send` the counts of `bridge_info.send`. For the
-- statements, `wire` gives the bytes that the socket of each target has taken.
pub record Carrier : Type 0 where
  pub proc_id : ℕ
  pub env : Env
  pub maps : Maps ℕ
  pub targets : ℕ → Target
  pub traffic : ℕ → Traffic
  pub target_list : List ℕ
  pub target_count : ℕ
  pub sending : List ℕ
  pub total : ℕ
  pub send : Traffic
  pub wire : ℕ → List ℕ

-- A write through a pointer.
abbrev pub update {ℓ} : {A : Type ℓ} → (ℕ → A) → ℕ → A → ℕ → A
update f a x i = if i == a then x else f i

abbrev pub is_connected : ConnState → Bool
is_connected connected = true
is_connected not_connected = false
is_connected connecting = false

-- A descriptor as the `unsigned int` of the hash map.
abbrev uint32 : ℤ → ℕ
uint32 (pos n) = n % 2 ^ 32
uint32 (negsuc n) = (2 ^ 32 - suc n) % 2 ^ 32

-- What `close_target_fd` makes of the target and of the rest of the environment.
abbrev pub closed_target : Target → ℕ → Target
closed_target t curr_ts = record t {
  fd = minus_one;
  state = not_connected;
  snd_buff = none;
  snd_buff_len = 0;
  snd_head = 0;
  snd_tail = 0;
  reset = (t.reset + 1) % 2 ^ 32;
  latest_reset = curr_ts;
  snd_block = false;
}

abbrev pub closed_env : Env → ℕ → ℕ → Env
closed_env env proc_id curr_ts = record env {
  reset_connect = (env.reset_connect + 1) % 2 ^ 32;
  latest_reset = curr_ts;
  hub = (clr_snd_bit env.hub proc_id).0;
}

-- `close_target_fd`: the target stays in the list of those with data.
unfoldable pub close_target_fd : Carrier → (curr_ts target : ℕ) → Carrier
close_target_fd c curr_ts target =
    let t = c.targets target in
    record c {
      maps = (del_from_hash_map c.maps map_target entry_fd (uint32 t.fd)).0;
      targets = update c.targets target (closed_target t curr_ts);
      env = closed_env c.env t.proc_id curr_ts;
    }

-- The search along the list of targets, by a test on the target.
unfoldable pub search_target : (ℕ → Target) → (Target → Bool) → List ℕ → Option ℕ
search_target targets test [] = none
search_target targets test (target ∷ next) =
    let rest = search_target targets test next in
    if test (targets target) then some target else rest

-- Whether the hash map has both entries of each target.
abbrev is_complete : Carrier → Bool
is_complete c =
    c.maps.target_hash_map.flag && (c.maps.target_hash_map.entry_count == c.target_count * 2)

unfoldable pub found_target : Carrier → (Target → Bool) → Option (Entry ℕ) → Option ℕ
found_target c test (some entry) = some entry.refer
found_target c test none =
    if is_complete c then none else search_target c.targets test c.target_list

-- `proc_id2_target` with an environment
unfoldable pub proc_id2_target : Carrier → ℕ → Option ℕ
unfolding found_target search_target
proc_id2_target c proc_id =
    found_target c (λ t. t.proc_id == proc_id)
      (fetch_hash_entry c.maps map_target entry_proc_id proc_id)
