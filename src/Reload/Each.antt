-- ===== src/Reload/Each.antt =====
-- The first loop of `copy_target_info` as a whole.
use proc_bridge.Base.{
  ℕ, suc, ◌≤◌, ◌<◌, ◌≡◌, ◌≢◌, ◌⊎◌, refl, ap, sym, ◌∙◌, arith, Bool, true, false, Bool-cases, inl,
  inr, Option, none, some, List, [], ◌∷◌, Every,
}
use proc_bridge.Carrier.{update, close_target_fd}
use proc_bridge.Sending.Linked.{occurs, Distinct}
use proc_bridge.Sending.Visit.{update_same}
use proc_bridge.Reload.{
  Address, Item, Reload, find_target, same_place, set_address, new_target, add_target, update_found,
  update_each,
}
use proc_bridge.Reload.Update.{
  Below, Apart, Apart-then, search_cong, search_found, search_here, close_id, close_list,
  set_address-Apart, add_target-Apart, set_address-Below, add_target-Below, set_address_at,
}

-- No two targets of the configuration have the same id.
abbrev pub Separate : List Item → Type 0
Separate [] = Unit
Separate (item ∷ more) = Every (λ y. item.proc_id ≢ y.proc_id) more × Separate more

-- A target of the configuration afterwards: it is in the list with its address if it was there or there
-- was memory for it, and a target that did not move is as it was, its connection included.
pub record Updated (calloc_ok : ℕ → Bool) (s s' : Reload) (item : Item) : Type 0 where
  pub placed :
      ((a : ℕ) × (find_target s item.proc_id ≡ some a)) ⊎ (calloc_ok item.proc_id ≡ true)
      → (a : ℕ) × (find_target s' item.proc_id ≡ some a) × (a < s'.next) × (s'.address a ≡ item.at)
  pub kept :
      (a : ℕ)
      → find_target s item.proc_id ≡ some a
      → same_place (s.address a) item.at ≡ true
      → s'.carrier.targets a ≡ s.carrier.targets a

module _ (calloc_ok : ℕ → Bool) (curr_ts : ℕ) (s : Reload) (below : Below s) where
  pub update_found-Apart :
      (item : Item) (found : Option ℕ) (id : ℕ)
      → find_target s item.proc_id ≡ found
      → item.proc_id ≢ id
      → Apart id s (update_found calloc_ok curr_ts s item found)
  unfolding update_found
  update_found-Apart item (some a) id e ne =
      let at = search_found s.carrier.targets item.proc_id s.carrier.target_list a e in
      set_address-Apart curr_ts s a id item.at (λ q. ne (sym at.0 ∙ q))
  update_found-Apart item none id e ne = elim (Bool-cases (calloc_ok item.proc_id)) [
    | inl memory ↦ rw memory (add_target-Apart s item id below ne)
    | inr full ↦
        rw full (record { found = refl; same = λ a lt q. (refl, refl); later = omega arith })
  ]

  pub update_found-Below :
      (item : Item) (found : Option ℕ) → Below (update_found calloc_ok curr_ts s item found)
  unfolding update_found
  update_found-Below item (some a) = set_address-Below curr_ts s a item.at below
  update_found-Below item none = elim (Bool-cases (calloc_ok item.proc_id)) [
    | inl memory ↦ rw memory (add_target-Below s item below)
    | inr full ↦ rw full below
  ]

  set_address_found :
      (item : Item) (a : ℕ)
      → find_target s item.proc_id ≡ some a
      → find_target (set_address curr_ts s a item.at) item.proc_id ≡ some a
  unfolding set_address
  set_address_found item a e = elim (Bool-cases (same_place (s.address a) item.at)) [
    | inl stays ↦ rw stays e
    | inr moved ↦
        rw (moved, close_list s.carrier curr_ts a)
          (search_cong s.carrier.targets (close_target_fd s.carrier curr_ts a).targets item.proc_id
              s.carrier.target_list (λ b o. close_id s.carrier curr_ts a b)
            ∙ e)
  ]

  set_address_kept :
      (at : Address) (a : ℕ)
      → same_place (s.address a) at ≡ true
      → (set_address curr_ts s a at).carrier.targets ≡ s.carrier.targets
  unfolding set_address
  set_address_kept at a e = rw e refl

  set_address_next : (at : Address) (a : ℕ) → (set_address curr_ts s a at).next ≡ s.next
  unfolding set_address
  set_address_next at a = refl

  add_target_placed :
      (item : Item)
      → let s' = add_target s item in
        (find_target s' item.proc_id ≡ some s.next)
        × (s.next < s'.next)
        × (s'.address s.next ≡ item.at)
  unfolding add_target
  add_target_placed item = (
    search_here (update s.carrier.targets s.next (new_target item.proc_id)) item.proc_id s.next
        s.carrier.target_list
        (ap (λ t. t.proc_id) (update_same s.carrier.targets s.next (new_target item.proc_id))),
    omega arith,
    update_same s.address s.next item.at,
  )

  update_found-Updated :
      (item : Item) (found : Option ℕ)
      → find_target s item.proc_id ≡ found
      → Updated calloc_ok s (update_found calloc_ok curr_ts s item found) item
  unfolding update_found
  update_found-Updated item (some a) e =
      let at = search_found s.carrier.targets item.proc_id s.carrier.target_list a e in
      record {
        placed = λ how. (
          a,
          set_address_found item a e,
          rw (set_address_next item.at a) (below a at.1),
          set_address_at curr_ts s a item.at,
        );
        kept = λ b q same.
            let eq : a ≡ b = let x : some a ≡ some b = sym e ∙ q in grind arith in
            ap (λ f. f b)
              (set_address_kept item.at a (ap (λ x. same_place (s.address x) item.at) eq ∙ same));
      }
  update_found-Updated item none e = elim (Bool-cases (calloc_ok item.proc_id)) [
    | inl memory ↦ rw memory (record {
      placed = λ how. let p = add_target_placed item in (s.next, p.0, p.1, p.2);
      kept = λ b q same. let x : none ≡ some b = sym e ∙ q in absurd (cc (x));
    })
    | inr full ↦ rw full (record {
      placed = λ how. elim how [
        | inl (a, q) ↦ let x : none ≡ some a = sym e ∙ q in absurd (cc (x))
        | inr memory ↦ absurd (cc (memory, full))
      ];
      kept = λ b q same. refl;
    })
  ]

pub update_each-Apart :
    (calloc_ok : ℕ → Bool) (curr_ts id : ℕ) (items : List Item) (s : Reload)
    → Below s
    → Every (λ item. item.proc_id ≢ id) items
    → Apart id s (update_each calloc_ok curr_ts s items)
unfolding update_each
update_each-Apart calloc_ok curr_ts id [] s below others = record {
  found = refl;
  same = λ a lt e. (refl, refl);
  later = omega arith;
}
update_each-Apart calloc_ok curr_ts id (item ∷ more) s below (ne, others) =
    let found = find_target s item.proc_id in
    let s1 = update_found calloc_ok curr_ts s item found in
    Apart-then id s s1 (update_each calloc_ok curr_ts s1 more)
      (update_found-Apart calloc_ok curr_ts s below item found id refl ne)
      (update_each-Apart calloc_ok curr_ts id more s1
        (update_found-Below calloc_ok curr_ts s below item found) others)

-- What holds of a target of the configuration from a step on holds from the start, if the step is
-- about another.
Updated-after :
    (calloc_ok : ℕ → Bool) (s s1 s' : Reload) (item : Item)
    → Below s
    → Apart item.proc_id s s1
    → Updated calloc_ok s1 s' item
    → Updated calloc_ok s s' item
Updated-after calloc_ok s s1 s' item below x u = record {
  placed =
      λ how. u.placed (elim how [ inl (a, e) ↦ inl (a, x.found ∙ e) | inr memory ↦ inr memory ]);
  kept = λ a e place.
      let at = search_found s.carrier.targets item.proc_id s.carrier.target_list a e in
      let (t, d) = x.same a (below a at.1) at.0 in
      u.kept a (x.found ∙ e) (ap (λ y. same_place y item.at) d ∙ place) ∙ t;
}

all_after :
    (calloc_ok : ℕ → Bool) (s s1 s' : Reload) (id : ℕ) (items : List Item)
    → Below s
    → ((other : ℕ) → id ≢ other → Apart other s s1)
    → Every (λ y. id ≢ y.proc_id) items
    → Every (Updated calloc_ok s1 s') items
    → Every (Updated calloc_ok s s') items
all_after calloc_ok s s1 s' id [] below x others u = tt
all_after calloc_ok s s1 s' id (item ∷ more) below x (ne, others) (u, more_u) = (
  Updated-after calloc_ok s s1 s' item below (x item.proc_id ne) u,
  all_after calloc_ok s s1 s' id more below x others more_u,
)

flip :
    (id : ℕ) (items : List Item)
    → Every (λ y. id ≢ y.proc_id) items
    → Every (λ y. y.proc_id ≢ id) items
flip id [] e = tt
flip id (item ∷ more) (ne, others) = ((λ q. ne (sym q)), flip id more others)

Updated-then :
    (calloc_ok : ℕ → Bool) (s s1 s' : Reload) (item : Item)
    → Below s
    → Updated calloc_ok s s1 item
    → Apart item.proc_id s1 s'
    → s.next ≤ s1.next
    → Updated calloc_ok s s' item
Updated-then calloc_ok s s1 s' item below u x grows = record {
  placed = λ how.
      let (a, e, lt, d) = u.placed how in
      let at = search_found s1.carrier.targets item.proc_id s1.carrier.target_list a e in
      (a, x.found ∙ e, omega (arith, lt, x.later), (x.same a lt at.0).1 ∙ d);
  kept = λ a e place.
      let at = search_found s.carrier.targets item.proc_id s.carrier.target_list a e in
      let t = u.kept a e place in
      let lt = below a at.1 in
      (x.same a (omega (arith, lt, grows)) (ap (λ x. x.proc_id) t ∙ at.0)).0 ∙ t;
}

pub update_each-Updated :
    (calloc_ok : ℕ → Bool) (curr_ts : ℕ) (items : List Item) (s : Reload)
    → Below s
    → Separate items
    → Every (Updated calloc_ok s (update_each calloc_ok curr_ts s items)) items
unfolding update_each
update_each-Updated calloc_ok curr_ts [] s below apart = tt
update_each-Updated calloc_ok curr_ts (item ∷ more) s below (others, apart) =
    let found = find_target s item.proc_id in
    let s1 = update_found calloc_ok curr_ts s item found in
    let s' = update_each calloc_ok curr_ts s1 more in
    let below1 = update_found-Below calloc_ok curr_ts s below item found in
    (
      Updated-then calloc_ok s s1 s' item below
          (update_found-Updated calloc_ok curr_ts s below item found refl)
          (update_each-Apart calloc_ok curr_ts item.proc_id more s1 below1
            (flip item.proc_id more others))
          (update_found-Apart calloc_ok curr_ts s below item found (suc item.proc_id) refl
            (omega arith)).later,
      all_after calloc_ok s s1 s' item.proc_id more below
          (λ other ne. update_found-Apart calloc_ok curr_ts s below item found other refl ne) others
          (update_each-Updated calloc_ok curr_ts more s1 below1 apart),
    )

-- No target comes twice into the list.
update_found-Distinct :
    (calloc_ok : ℕ → Bool) (curr_ts : ℕ) (s : Reload) (item : Item) (found : Option ℕ)
    → Below s
    → Distinct s.carrier.target_list
    → Distinct (update_found calloc_ok curr_ts s item found).carrier.target_list
unfolding update_found set_address add_target
update_found-Distinct calloc_ok curr_ts s item (some a) below d =
    elim (Bool-cases (same_place (s.address a) item.at)) [
      | inl stays ↦ rw stays d
      | inr moved ↦ rw (moved, close_list s.carrier curr_ts a) d
    ]
update_found-Distinct calloc_ok curr_ts s item none below d =
    elim (Bool-cases (calloc_ok item.proc_id)) [
      | inr full ↦ rw full d
      | inl memory ↦ rw memory (fresh, d)
    ]
  where
    fresh : occurs s.next s.carrier.target_list ≡ false
    fresh = elim (Bool-cases (occurs s.next s.carrier.target_list)) [
      | inl there ↦ let lt = below s.next there in absurd (omega (arith, lt))
      | inr e ↦ e
    ]

pub update_each-Distinct :
    (calloc_ok : ℕ → Bool) (curr_ts : ℕ) (items : List Item) (s : Reload)
    → Below s
    → Distinct s.carrier.target_list
    → Distinct (update_each calloc_ok curr_ts s items).carrier.target_list
unfolding update_each
update_each-Distinct calloc_ok curr_ts [] s below d = d
update_each-Distinct calloc_ok curr_ts (item ∷ more) s below d =
    let found = find_target s item.proc_id in
    update_each-Distinct calloc_ok curr_ts more (update_found calloc_ok curr_ts s item found)
      (update_found-Below calloc_ok curr_ts s below item found)
      (update_found-Distinct calloc_ok curr_ts s item found below d)

-- The list of the targets with data is not touched.
update_found_sending :
    (calloc_ok : ℕ → Bool) (curr_ts : ℕ) (s : Reload) (item : Item) (found : Option ℕ)
    → (update_found calloc_ok curr_ts s item found).carrier.sending ≡ s.carrier.sending
unfolding update_found set_address add_target close_target_fd
update_found_sending calloc_ok curr_ts s item (some a) = ground arith
update_found_sending calloc_ok curr_ts s item none = ground arith

pub update_each_sending :
    (calloc_ok : ℕ → Bool) (curr_ts : ℕ) (items : List Item) (s : Reload)
    → (update_each calloc_ok curr_ts s items).carrier.sending ≡ s.carrier.sending
unfolding update_each
update_each_sending calloc_ok curr_ts [] s = refl
update_each_sending calloc_ok curr_ts (item ∷ more) s =
    let found = find_target s item.proc_id in
    update_each_sending calloc_ok curr_ts more (update_found calloc_ok curr_ts s item found)
    ∙ update_found_sending calloc_ok curr_ts s item found
