-- ===== src/Bridge/Open.antt =====
-- What `open_bridge` does to the list of the opened bridges.
use proc_bridge.Base.{
  ℕ, ◌+◌, ◌*◌, ◌≤◌, ◌<◌, ◌≡◌, refl, ap, sym, ◌∙◌, inl, inr, arith, Bool, true, false, ◌||◌, Option,
  none, some, zero, suc, List, [], ◌∷◌, length, ltb, leb, ◌==◌, Bool-cases, ltb→lt, ==_iff, ℤ, pos,
  minus_one, leb_ℤ, pos_part,
}
use proc_bridge.Hub.{Hub}
use proc_bridge.Bridge.{
  Space, no_space, World, name_space_len, kept_name, same_name, no_name, first, is_opened, is_free,
  set_at, open_hub, take_space, place_at, place, longer, open_new, open_found, open_listed,
  open_init, open_bridge, init_pb_space_count,
}
use proc_bridge.Bridge.Slots.{
  in_use, IsSpace, free, used, Slots, IsWorld, closed, listed, first-found, in_use-set_at,
  in_use-more,
}

abbrev pub list_of : Option (ℕ → Space) → ℕ → Space
list_of none i = no_space
list_of (some list) i = list i

-- The result of an opening: the world is in order and, if a descriptor came back, it stands for the
-- process.
pub record Opened (name : List ℕ) (proc_id : ℕ) (w : World) (ret : ℤ) : Type 0 where
  pub in_order : IsWorld w
  pub answer :
      (i : ℕ)
      → ret ≡ pos i
      → (i < w.space_count) × (is_opened (list_of w.space_list) name proc_id i ≡ true)

failed_open :
    (name : List ℕ) (proc_id : ℕ) (w : World) → IsWorld w → Opened name proc_id w minus_one
failed_open name proc_id w m = record { in_order = m; answer = λ i e. absurd (ground (arith, e)) }

-- An empty position that is taken.
take_space-Slots :
    (count valid : ℕ) (list : ℕ → Space) (i : ℕ) (space : Space)
    → Slots count valid list
    → i < count
    → is_free list i ≡ true
    → 0 < space.proc_id
    → IsSpace i space
    → Slots count (valid + 1) (set_at list i space)
take_space-Slots count valid list i space s h f p is = record {
  counted = ground (arith, s.counted, in_use-set_at list count i space h);
  each = λ j k. elim (Bool-cases (j == i)) [
    | inl e ↦ let q : j ≡ i = (==_iff j i).0 e in rw (e, q) is
    | inr ne ↦ rw ne (s.each j k)
  ];
}

same_name_refl : (name : List ℕ) → same_name name name ≡ true
unfolding same_name
same_name_refl [] = refl
same_name_refl (x ∷ xs) = ground (arith, same_name_refl xs)

-- A name that is short enough is kept whole.
kept_name_all : (n : ℕ) (name : List ℕ) → length name ≤ n → kept_name n name ≡ name
unfolding kept_name
kept_name_all zero [] le = refl
kept_name_all zero (c ∷ name) le = absurd (omega arith)
kept_name_all (suc n) [] le = refl
kept_name_all (suc n) (c ∷ name) le = ap (λ t. c ∷ t) (kept_name_all n name (omega arith))

-- The list with twice the positions.
pub longer-Slots :
    (w : World) (list : ℕ → Space)
    → Slots w.space_count w.valid_count list
    → Slots (w.space_count * 2) w.valid_count (longer w list)
longer-Slots w list s = record {
  counted =
      s.counted
      ∙ sym (
          in_use-more list (longer w list) w.space_count w.space_count (λ i h. rw (inside i h) refl)
            (λ i h. rw (outside i h) refl))
      ∙ ap (in_use (longer w list)) (omega arith);
  each = λ i h. elim (Bool-cases (ltb i w.space_count)) [
    | inl lt ↦ rw lt (s.each i (ltb→lt i w.space_count lt))
    | inr ge ↦ rw ge (free refl)
  ];
}
  where
    inside : (i : ℕ) → i < w.space_count → ltb i w.space_count ≡ true
    inside i h = ground arith

    outside : (i : ℕ) → w.space_count ≤ i → ltb i w.space_count ≡ false
    outside i h = ground arith

module _ (shm : List ℕ → ℕ → Option ℕ) (name : List ℕ) (proc_id : ℕ) (p : 0 < proc_id)
    (named : no_name name ≡ false) (short : length name < name_space_len) where
  whole : kept_name name_space_len name ≡ name
  whole = kept_name_all name_space_len name (omega arith)

  take_space-Opened :
      (w : World) (list : ℕ → Space) (i : ℕ) (found : Option (ℕ × (ℕ → Hub)))
      → w.space_list ≡ some list
      → Slots w.space_count w.valid_count list
      → i < w.space_count
      → is_free list i ≡ true
      → let r = take_space w list name proc_id i found in Opened name proc_id r.0 r.1
  unfolding take_space
  take_space-Opened w list i none e s h f =
      failed_open name proc_id w (listed list e (omega arith) s)
  take_space-Opened w list i (some (ref, hubs)) e s h f = record {
    in_order = listed _ refl (omega arith) (
        take_space-Slots w.space_count w.valid_count list i space s h f p
          (used ref p refl refl (ap no_name whole ∙ named)));
    answer = λ j ej.
        let q : i ≡ j = ground (arith, ej) in
        (omega (arith, q), ap (is_opened (set_at list i space) name proc_id) (sym q) ∙ taken);
  }
    where
      space : Space
      space = record {
        opened_id = i;
        name_space = kept_name name_space_len name;
        proc_id = proc_id;
        phub = some ref;
      }

      taken : is_opened (set_at list i space) name proc_id i ≡ true
      taken =
          let self : (i == i) ≡ true = ground arith in
          rw self (ground (arith, ap (λ t. same_name t name) whole, same_name_refl name))

  place-Opened :
      (w : World) (list : ℕ → Space)
      → w.space_list ≡ some list
      → 0 < w.space_count
      → Slots w.space_count w.valid_count list
      → let r = place shm w list name proc_id in Opened name proc_id r.0 r.1
  unfolding place place_at
  place-Opened w list e c s = at (first (is_free list) 0 w.space_count) refl
    where
      at :
          (i : Option ℕ)
          → first (is_free list) 0 w.space_count ≡ i
          → let r = place_at shm w list name proc_id i in Opened name proc_id r.0 r.1
      at none h = failed_open name proc_id w (listed list e c s)
      at (some i) h =
          let (free_i, _, lt) = first-found (is_free list) 0 w.space_count i h in
          take_space-Opened w list i (open_hub shm w.hubs name proc_id) e s (omega (arith, lt))
            free_i

  open_new-Opened :
      (alloc : ℕ → Bool) (w : World) (list : ℕ → Space)
      → w.space_list ≡ some list
      → 0 < w.space_count
      → Slots w.space_count w.valid_count list
      → let r = open_new alloc shm w list name proc_id in Opened name proc_id r.0 r.1
  unfolding open_new
  open_new-Opened alloc w list e c s = elim (Bool-cases (leb w.space_count w.valid_count)) [
    | inr room ↦ rw room (place-Opened w list e c s)
    | inl full ↦ elim (Bool-cases (alloc (w.space_count * 2))) [
      | inl ok ↦
          rw (full, ok)
            (place-Opened
              (record w { space_count = w.space_count * 2; space_list = some (longer w list) })
              (longer w list) refl (omega arith) (longer-Slots w list s))
      | inr none_left ↦ rw (full, none_left) (failed_open name proc_id w (listed list e c s))
    ]
  ]

  open_listed-Opened :
      (alloc : ℕ → Bool) (w : World) (list : ℕ → Space)
      → w.space_list ≡ some list
      → 0 < w.space_count
      → Slots w.space_count w.valid_count list
      → let r = open_listed alloc shm w list name proc_id in Opened name proc_id r.0 r.1
  unfolding open_listed open_found
  open_listed-Opened alloc w list e c s =
      at (first (is_opened list name proc_id) 0 w.space_count) refl
    where
      at :
          (i : Option ℕ)
          → first (is_opened list name proc_id) 0 w.space_count ≡ i
          → let r = open_found alloc shm w list name proc_id i in Opened name proc_id r.0 r.1
      at none h = open_new-Opened alloc w list e c s
      at (some i) h =
          let (there, _, lt) = first-found (is_opened list name proc_id) 0 w.space_count i h in
          record {
            in_order = listed list e c s;
            answer = λ j ej.
                let q : i ≡ j = ground (arith, ej) in
                (
                  omega (arith, q, lt),
                  (λ k. is_opened (list_of (e k)) name proc_id (sym q k)) ∙ there,
                );
          }

open_init-Opened :
    (alloc : ℕ → Bool) (shm : List ℕ → ℕ → Option ℕ) (w : World) (name : List ℕ) (proc_id : ℕ)
    → 0 < proc_id
    → no_name name ≡ false
    → length name < name_space_len
    → IsWorld w
    → let r = open_init alloc shm w w.space_list name proc_id in Opened name proc_id r.0 r.1
unfolding open_init
open_init-Opened alloc shm w name proc_id p named short (listed list e c s) =
    rw (ap (λ x. open_init alloc shm w x name proc_id) e)
      (open_listed-Opened shm name proc_id p named short alloc w list e c s)
open_init-Opened alloc shm w name proc_id p named short (closed e c v) =
    rw (ap (λ x. open_init alloc shm w x name proc_id) e)
      (elim (Bool-cases (alloc init_pb_space_count)) [
        | inl ok ↦ rw ok (
            open_listed-Opened shm name proc_id p named short alloc
              (record w { space_count = init_pb_space_count; space_list = some (λ i. no_space) })
              (λ i. no_space) refl (omega arith) (record { counted = v; each = λ i h. free refl }))
        | inr none_left ↦ rw none_left (failed_open name proc_id w (closed e c v))
      ])

-- open_bridge, with a name shorter than the 128 bytes kept of it, keeps the list of descriptors in
-- order (the count is that of the positions in use, each of which bears its own number, a name and
-- a hub, the others being empty) for all other arguments and all failures, and a descriptor it
-- returns lies in the list and bears the name and the process asked for.
pub open_bridge-Opened :
    (alloc : ℕ → Bool) (shm : List ℕ → ℕ → Option ℕ) (w : World) (name : List ℕ) (proc_id : ℤ)
    → length name < name_space_len
    → IsWorld w
    → let r = open_bridge alloc shm w name proc_id in Opened name (pos_part proc_id) r.0 r.1
unfolding open_bridge
open_bridge-Opened alloc shm w name proc_id short m =
    elim (Bool-cases (no_name name || leb_ℤ proc_id (pos 0))) [
      | inl bad ↦ rw bad (failed_open name (pos_part proc_id) w m)
      | inr good ↦ rw good (
          open_init-Opened alloc shm w name (pos_part proc_id) (ground (arith, good))
            (ground (arith, good)) short m)
    ]
