-- ===== src/Bridge.antt =====
-- The bridge descriptors of a process, src/library/proc_bridge.c: `open_bridge`, `close_bridge`,
-- `send_to_bridge`, `recv_from_bridge` and `bd2bridge` over the list of opened bridges. The shared
-- memory is a function from references to hubs; which reference belongs to a name space and a process
-- (`get_bridge_shm_key`, `shmget` and `shmat`) and whether `calloc` has memory are parameters. Names
-- are lists of bytes. In an array of PROC_BRIDGE_NAME_SPACE_LEN bytes stands what `strncpy` keeps of
-- one; of a name that fills the array, which has no zero behind it, `strcmp` would read on.
pub mod Slots
pub mod Open
pub mod Room
pub mod Calls
pub mod Close
pub mod Sending
mod Tests
use proc_bridge.Base.{
  ℕ, zero, suc, ◌+◌, ◌-◌, ◌*◌, Bool, true, false, not, ◌&&◌, ◌||◌, Option, none, some, List, [],
  ◌∷◌, ltb, leb, ◌==◌, if◌then◌else◌, ℤ, pos, negsuc, minus_one, leb_ℤ, ltb_ℤ, pos_part, Mem,
}
use proc_bridge.Hub.{Hub}

-- `INIT_PB_SPACE_COUNT`
abbrev pub init_pb_space_count : ℕ
init_pb_space_count = 2

-- `proc_bridge_space_t`, less the log descriptor
pub record Space : Type 0 where
  pub opened_id : ℕ
  pub name_space : List ℕ
  pub proc_id : ℕ
  pub phub : Option ℕ

-- `PROC_BRIDGE_NAME_SPACE_LEN`
abbrev pub name_space_len : ℕ
name_space_len = 128

-- `strncpy` into `n` bytes: the characters that stand there.
unfoldable pub kept_name : ℕ → List ℕ → List ℕ
kept_name zero name = []
kept_name (suc n) [] = []
kept_name (suc n) (c ∷ name) = c ∷ kept_name n name

-- What `calloc` and `memset` leave.
abbrev pub no_space : Space
no_space = record { opened_id = 0; name_space = []; proc_id = 0; phub = none }

-- `proc_bridge_env_t`, and the hubs in the shared memory.
pub record World : Type 0 where
  pub space_count : ℕ
  pub valid_count : ℕ
  pub space_list : Option (ℕ → Space)
  pub hubs : ℕ → Hub

-- `strcmp`
unfoldable pub same_name : List ℕ → List ℕ → Bool
same_name [] [] = true
same_name [] (y ∷ ys) = false
same_name (x ∷ xs) [] = false
same_name (x ∷ xs) (y ∷ ys) = (x == y) && same_name xs ys

abbrev pub no_name : List ℕ → Bool
no_name [] = true
no_name (x ∷ xs) = false

-- The loops over the list: the first of `n` positions from `start` on that passes.
unfoldable pub first : (ℕ → Bool) → (start n : ℕ) → Option ℕ
first passes start zero = none
first passes start (suc n) =
    let rest = first passes (suc start) n in if passes start then some start else rest

abbrev pub is_opened : (ℕ → Space) → List ℕ → ℕ → ℕ → Bool
is_opened list name proc_id i = ((list i).proc_id == proc_id) && same_name (list i).name_space name

abbrev pub is_free : (ℕ → Space) → ℕ → Bool
is_free list i = ((list i).proc_id == 0) && no_name (list i).name_space

abbrev pub set_at {ℓ} : {A : Type ℓ} → (ℕ → A) → ℕ → A → ℕ → A
set_at f at x i = if i == at then x else f i

-- The checks of `_open_bridge` on the hub that it attached.
unfoldable pub attach_hub : (ℕ → Hub) → ℕ → Option ℕ → Option (ℕ × (ℕ → Hub))
attach_hub hubs proc_id none = none
attach_hub hubs proc_id (some ref) =
    let hub = hubs ref in
    if not (hub.proc_id == proc_id) || (leb hub.send_buff_size 0 || leb hub.recv_buff_size 0)
    then none
    else some (ref, set_at hubs ref (record hub { attached = hub.attached + 1 }))

-- `_open_bridge`
unfoldable pub open_hub : (List ℕ → ℕ → Option ℕ) → (ℕ → Hub) → List ℕ → ℕ → Option (ℕ × (ℕ → Hub))
open_hub shm hubs name proc_id =
    if leb proc_id 0 || no_name name then none else attach_hub hubs proc_id (shm name proc_id)

-- The end of `open_bridge`: the position is taken.
unfoldable pub take_space :
    World → (ℕ → Space) → List ℕ → ℕ → ℕ → Option (ℕ × (ℕ → Hub)) → World × ℤ
take_space w list name proc_id i none = (w, minus_one)
take_space w list name proc_id i (some (ref, hubs)) = (
  record w {
    valid_count = w.valid_count + 1;
    space_list = some (
        set_at list i (record {
          opened_id = i;
          name_space = kept_name name_space_len name;
          proc_id = proc_id;
          phub = some ref;
        }));
    hubs = hubs;
  },
  pos i,
)

unfoldable pub place_at :
    (List ℕ → ℕ → Option ℕ) → World → (ℕ → Space) → List ℕ → ℕ → Option ℕ → World × ℤ
place_at shm w list name proc_id none = (w, minus_one)
place_at shm w list name proc_id (some i) =
    take_space w list name proc_id i (open_hub shm w.hubs name proc_id)

-- The search for an empty position.
unfoldable pub place : (List ℕ → ℕ → Option ℕ) → World → (ℕ → Space) → List ℕ → ℕ → World × ℤ
place shm w list name proc_id =
    place_at shm w list name proc_id (first (is_free list) 0 w.space_count)

-- The list with twice the positions, the new ones empty.
abbrev pub longer : World → (ℕ → Space) → ℕ → Space
longer w list i = if ltb i w.space_count then list i else no_space

unfoldable pub open_new :
    (ℕ → Bool) → (List ℕ → ℕ → Option ℕ) → World → (ℕ → Space) → List ℕ → ℕ → World × ℤ
open_new alloc shm w list name proc_id =
    let new_count = w.space_count * 2 in
    if leb w.space_count w.valid_count
    then (if alloc new_count
        then place shm (record w { space_count = new_count; space_list = some (longer w list) })
            (longer w list) name proc_id
        else (w, minus_one))
    else place shm w list name proc_id

unfoldable pub open_found :
    (ℕ → Bool) → (List ℕ → ℕ → Option ℕ) → World → (ℕ → Space) → List ℕ → ℕ → Option ℕ → World × ℤ
open_found alloc shm w list name proc_id (some i) = (w, pos i)
open_found alloc shm w list name proc_id none = open_new alloc shm w list name proc_id

-- `open_bridge` once there is a list.
unfoldable pub open_listed :
    (ℕ → Bool) → (List ℕ → ℕ → Option ℕ) → World → (ℕ → Space) → List ℕ → ℕ → World × ℤ
open_listed alloc shm w list name proc_id =
    open_found alloc shm w list name proc_id (first (is_opened list name proc_id) 0 w.space_count)

unfoldable pub open_init :
    (ℕ → Bool) → (List ℕ → ℕ → Option ℕ) → World → Option (ℕ → Space) → List ℕ → ℕ → World × ℤ
open_init alloc shm w (some list) name proc_id = open_listed alloc shm w list name proc_id
open_init alloc shm w none name proc_id =
    if alloc init_pb_space_count
    then open_listed alloc shm
        (record w { space_count = init_pb_space_count; space_list = some (λ i. no_space) })
        (λ i. no_space) name proc_id
    else (w, minus_one)

-- `open_bridge`
unfoldable pub open_bridge : (ℕ → Bool) → (List ℕ → ℕ → Option ℕ) → World → List ℕ → ℤ → World × ℤ
open_bridge alloc shm w name proc_id =
    if no_name name || leb_ℤ proc_id (pos 0)
    then (w, minus_one)
    else open_init alloc shm w w.space_list name (pos_part proc_id)

-- The list after a position was cleared: it is given back with the last bridge.
abbrev pub release : World → (ℕ → Space) → World
release w list =
    if leb (w.valid_count - 1) 0
    then record w { space_count = 0; valid_count = 0; space_list = none }
    else record w { valid_count = w.valid_count - 1; space_list = some list }

unfoldable pub close_listed : World → ℕ → Option (ℕ → Space) → World × ℤ
close_listed w bd none = (w, minus_one)
close_listed w bd (some list) =
    if (list bd).opened_id == bd
    then (release w (set_at list bd no_space), pos 0)
    else (w, minus_one)

-- The tests that the calls on a descriptor share.
abbrev pub bad_bd : World → ℤ → Bool
bad_bd w bd =
    ltb_ℤ bd (pos 0)
    || (leb w.space_count 0 || (leb w.valid_count 0 || leb_ℤ (pos w.space_count) bd))

-- `close_bridge`; `_close_bridge` does nothing.
unfoldable pub close_bridge : World → ℤ → World × ℤ
close_bridge w bd =
    if bad_bd w bd then (w, minus_one) else close_listed w (pos_part bd) w.space_list
