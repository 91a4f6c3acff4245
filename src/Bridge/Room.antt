-- ===== src/Bridge/Room.antt =====
-- `open_bridge` always finds or makes room: with memory and a hub to attach it gives a descriptor.
use proc_bridge.Base.{
  ℕ, zero, suc, ◌+◌, ◌*◌, ◌≤◌, ◌<◌, ◌≡◌, ◌≢◌, refl, ap, sym, ◌∙◌, inl, inr, arith, Bool, true,
  false, ◌&&◌, ◌||◌, Option, none, some, List, leb, ◌==◌, if◌then◌else◌, Bool-cases, ==_iff, pos,
  minus_one, leb_ℤ,
}
use proc_bridge.Hub.{Hub}
use proc_bridge.Bridge.{
  Space, no_space, World, no_name, first, is_opened, is_free, open_hub, take_space, place_at, place,
  longer, open_new, open_found, open_listed, open_init, open_bridge, init_pb_space_count,
}
use proc_bridge.Bridge.Slots.{
  in_use, IsSpace, free, used, Slots, IsWorld, closed, listed, in_use-le,
}
use proc_bridge.Bridge.Open.{longer-Slots}

-- A search that finds nothing has seen every position.
first-none :
    (passes : ℕ → Bool) (start n i : ℕ)
    → first passes start n ≡ none
    → start ≤ i
    → i < start + n
    → passes i ≡ false
unfolding first
first-none passes start zero i e a b = absurd (omega arith)
first-none passes start (suc n) i e a b = elim (Bool-cases (passes start)) [
  | inl hit ↦ absurd (ground (arith, rw hit at e))
  | inr miss ↦ elim (Bool-cases (i == start)) [
    | inl here ↦ ap passes ((==_iff i start).0 here) ∙ miss
    | inr later ↦
        first-none passes (suc start) n i (rw miss at e) (ground (arith, later)) (omega arith)
  ]
]

-- A list with no empty position is all in use.
all_used :
    (list : ℕ → Space) (n : ℕ)
    → ((i : ℕ) → i < n → IsSpace i (list i))
    → ((i : ℕ) → i < n → is_free list i ≡ false)
    → in_use list n ≡ n
all_used list zero each taken = refl
all_used list (suc n) each taken =
    let rest = all_used list n (λ i h. each i (omega arith)) (λ i h. taken i (omega arith)) in
    at (each n (omega arith)) (taken n (omega arith)) rest
  where
    at :
        IsSpace n (list n)
        → is_free list n ≡ false
        → in_use list n ≡ n
        → in_use list n + (if (list n).proc_id == 0 then 0 else 1) ≡ suc n
    at (free e) t rest =
        absurd (ground (arith, sym t ∙ ap (λ s. (s.proc_id == 0) && no_name s.name_space) e))
    at (used ref p o q m) t rest = ground (arith, p, rest)

module _ (shm : List ℕ → ℕ → Option ℕ) (name : List ℕ) (proc_id : ℕ) (hubs : ℕ → Hub)
    (found : ℕ × (ℕ → Hub)) (attached : open_hub shm hubs name proc_id ≡ some found) where
  place_room :
      (w : World) (list : ℕ → Space)
      → w.hubs ≡ hubs
      → Slots w.space_count w.valid_count list
      → w.valid_count < w.space_count
      → (place shm w list name proc_id).1 ≢ minus_one
  unfolding place place_at
  place_room w list e s lt = at (first (is_free list) 0 w.space_count) refl
    where
      taken :
          (i : ℕ) → (take_space w list name proc_id i (open_hub shm w.hubs name proc_id)).1 ≡ pos i
      taken i =
          ap (λ h. (take_space w list name proc_id i (open_hub shm h name proc_id)).1) e
          ∙ ap (λ x. (take_space w list name proc_id i x).1) attached
          ∙ (unfold take_space in refl)

      at :
          (i : Option ℕ)
          → first (is_free list) 0 w.space_count ≡ i
          → (place_at shm w list name proc_id i).1 ≢ minus_one
      at none h = absurd (
          omega (
            arith,
            s.counted,
            all_used list w.space_count s.each
                (λ i k. first-none (is_free list) 0 w.space_count i h (omega arith) (omega arith)),
          ))
      at (some i) h = λ bad. absurd (ground (arith, sym (taken i) ∙ bad))

  open_listed_room :
      (w : World) (list : ℕ → Space)
      → w.hubs ≡ hubs
      → 0 < w.space_count
      → Slots w.space_count w.valid_count list
      → (open_listed (λ n. true) shm w list name proc_id).1 ≢ minus_one
  unfolding open_listed open_found open_new
  open_listed_room w list e c s = at (first (is_opened list name proc_id) 0 w.space_count)
    where
      at : (i : Option ℕ) → (open_found (λ n. true) shm w list name proc_id i).1 ≢ minus_one
      at (some i) = λ bad. absurd (ground (arith, bad))
      at none = elim (Bool-cases (leb w.space_count w.valid_count)) [
        | inl full ↦ rw full (
            place_room
              (record w { space_count = w.space_count * 2; space_list = some (longer w list) })
              (longer w list) e (longer-Slots w list s)
              (omega (arith, s.counted, in_use-le list w.space_count)))
        | inr room ↦ rw room (place_room w list e s (ground (arith, room)))
      ]

-- With memory, a non-empty name, a positive process id and a hub that can be attached, open_bridge
-- on a list in order does not fail: a position is free, or the list is made longer.
pub open_bridge_room :
    (shm : List ℕ → ℕ → Option ℕ) (w : World) (name : List ℕ) (proc_id : ℕ) (found : ℕ × (ℕ → Hub))
    → IsWorld w
    → 0 < proc_id
    → no_name name ≡ false
    → open_hub shm w.hubs name proc_id ≡ some found
    → (open_bridge (λ n. true) shm w name (pos proc_id)).1 ≢ minus_one
unfolding open_bridge
open_bridge_room shm w name proc_id found m p named attached =
    let good : (no_name name || leb_ℤ (pos proc_id) (pos 0)) ≡ false = ground (arith, named) in
    rw good (at m)
  where
    at : IsWorld w → (open_init (λ n. true) shm w w.space_list name proc_id).1 ≢ minus_one
    at (listed list e c s) = rw (ap (λ x. open_init (λ n. true) shm w x name proc_id) e) (
        unfold open_init in open_listed_room shm name proc_id w.hubs found attached w list refl c s)
    at (closed e c v) = rw (ap (λ x. open_init (λ n. true) shm w x name proc_id) e) (
        unfold open_init in
        open_listed_room shm name proc_id w.hubs found attached
          (record w { space_count = init_pb_space_count; space_list = some (λ i. no_space) })
          (λ i. no_space) refl (omega arith) (record { counted = v; each = λ i h. free refl }))
