-- ===== src/Reload/Update.antt =====
-- The first loop of `copy_target_info`: the targets of the configuration are found or added.
use proc_bridge.Base.{
  ℕ, ◌≤◌, ◌<◌, ◌≡◌, ◌≢◌, refl, ap, ap₂, sym, ◌∙◌, arith, true, Bool-cases, inl, inr, some, List, [],
  ◌∷◌, ◌==◌, ==-of_ne, ==_iff, if◌then◌else◌,
}
use proc_bridge.Bridge.{same_name}
use proc_bridge.Target.{Target}
use proc_bridge.Carrier.{Carrier, update, close_target_fd, search_target}
use proc_bridge.Sending.Linked.{occurs}
use proc_bridge.Sending.Visit.{update_same, update_other, close_target_fd-other}
use proc_bridge.Reload.{
  Address, Item, Reload, has_id, find_target, same_place, set_address, new_target, add_target,
}

-- Every target in the list lies below the addresses that `calloc` gives.
abbrev pub Below : Reload → Type 0
Below s = (a : ℕ) → occurs a s.carrier.target_list ≡ true → a < s.next

pub search_cong :
    (f g : ℕ → Target) (id : ℕ) (l : List ℕ)
    → ((a : ℕ) → occurs a l ≡ true → (g a).proc_id ≡ (f a).proc_id)
    → search_target g (has_id id) l ≡ search_target f (has_id id) l
unfolding search_target
search_cong f g id [] e = refl
search_cong f g id (a ∷ l) e =
    rw
      (
        ap (λ x. x == id) (e a (ground arith)),
        search_cong f g id l (λ b o. e b (ground (arith, o))),
      )
      refl

pub search_skip :
    (f : ℕ → Target) (id a : ℕ) (l : List ℕ)
    → (f a).proc_id ≢ id
    → search_target f (has_id id) (a ∷ l) ≡ search_target f (has_id id) l
unfolding search_target
search_skip f id a l ne = rw (==-of_ne (f a).proc_id id ne) refl

pub search_here :
    (f : ℕ → Target) (id a : ℕ) (l : List ℕ)
    → (f a).proc_id ≡ id
    → search_target f (has_id id) (a ∷ l) ≡ some a
unfolding search_target
search_here f id a l e = rw ((==_iff (f a).proc_id id).1 e) refl

pub search_found :
    (f : ℕ → Target) (id : ℕ) (l : List ℕ) (a : ℕ)
    → search_target f (has_id id) l ≡ some a
    → ((f a).proc_id ≡ id) × (occurs a l ≡ true)
unfolding search_target
search_found f id [] a e = absurd (cc (e))
search_found f id (b ∷ l) a e = elim (Bool-cases ((f b).proc_id == id)) [
  | inl here ↦
      let first : some b ≡ some a =
        sym (ap (λ c. if c then some b else search_target f (has_id id) l) here) ∙ e in
      let at : b ≡ a = grind arith in
      (sym (ap (λ x. (f x).proc_id) at) ∙ ground (arith, here), ground (arith, at))
  | inr next ↦
      let rest =
        search_found f id l a
          (sym (ap (λ c. if c then some b else search_target f (has_id id) l) next) ∙ e) in
      (rest.0, ground (arith, rest.1))
]

-- What a step leaves for the targets with an id.
pub record Apart (id : ℕ) (s s' : Reload) : Type 0 where
  pub found : find_target s' id ≡ find_target s id
  pub same :
      (a : ℕ)
      → a < s.next
      → (s.carrier.targets a).proc_id ≡ id
      → (s'.carrier.targets a ≡ s.carrier.targets a) × (s'.address a ≡ s.address a)
  pub later : s.next ≤ s'.next

pub Apart-then : (id : ℕ) (s s1 s2 : Reload) → Apart id s s1 → Apart id s1 s2 → Apart id s s2
Apart-then id s s1 s2 x y = record {
  found = y.found ∙ x.found;
  same = λ a lt e.
      let (t, d) = x.same a lt e in
      let (t2, d2) = y.same a (omega (arith, lt, x.later)) (ap (λ x. x.proc_id) t ∙ e) in
      (t2 ∙ t, d2 ∙ d);
  later = omega (arith, x.later, y.later);
}

-- A closed connection keeps the id, and the list.
pub close_id :
    (c : Carrier) (curr_ts target a : ℕ)
    → ((close_target_fd c curr_ts target).targets a).proc_id ≡ (c.targets a).proc_id
unfolding close_target_fd
close_id c curr_ts target a = ground arith

pub close_list :
    (c : Carrier) (curr_ts target : ℕ)
    → (close_target_fd c curr_ts target).target_list ≡ c.target_list
unfolding close_target_fd
close_list c curr_ts target = refl

pub set_address-Apart :
    (curr_ts : ℕ) (s : Reload) (target id : ℕ) (at : Address)
    → (s.carrier.targets target).proc_id ≢ id
    → Apart id s (set_address curr_ts s target at)
unfolding set_address
set_address-Apart curr_ts s target id at ne = record {
  found = elim (Bool-cases (same_place (s.address target) at)) [
    | inl stays ↦ rw stays refl
    | inr moved ↦
        rw (moved, close_list s.carrier curr_ts target)
          (search_cong s.carrier.targets (close_target_fd s.carrier curr_ts target).targets id
            s.carrier.target_list (λ a o. close_id s.carrier curr_ts target a))
  ];
  same = λ a lt e.
      let other : a ≢ target = λ q. ne (sym (ap (λ x. (s.carrier.targets x).proc_id) q) ∙ e) in
      (
        (elim (Bool-cases (same_place (s.address target) at)) [
          | inl stays ↦ rw stays refl
          | inr moved ↦ rw moved (close_target_fd-other s.carrier curr_ts target a other)
        ]),
        update_other s.address target _ a other,
      );
  later = omega arith;
}

pub add_target-Apart :
    (s : Reload) (item : Item) (id : ℕ)
    → Below s
    → item.proc_id ≢ id
    → Apart id s (add_target s item)
unfolding add_target
add_target-Apart s item id below ne = record {
  found =
      let c = s.carrier in
      let f = update c.targets s.next (new_target item.proc_id) in
      let old : search_target f (has_id id) c.target_list
          ≡ search_target c.targets (has_id id) c.target_list =
        search_cong c.targets f id c.target_list λ a o.
          ap (λ t. t.proc_id)
            (update_other c.targets s.next (new_target item.proc_id) a
              (omega (arith, below a o))) in
      let fresh : (f s.next).proc_id ≡ item.proc_id =
        ap (λ t. t.proc_id) (update_same c.targets s.next (new_target item.proc_id)) in
      search_skip f id s.next c.target_list (λ q. ne (sym fresh ∙ q)) ∙ old;
  same = λ a lt e. (
    update_other s.carrier.targets s.next (new_target item.proc_id) a (omega (arith, lt)),
    update_other s.address s.next item.at a (omega (arith, lt)),
  );
  later = omega arith;
}

-- The addresses of the list stay below those that are free.
pub set_address-Below :
    (curr_ts : ℕ) (s : Reload) (target : ℕ) (at : Address)
    → Below s
    → Below (set_address curr_ts s target at)
unfolding set_address
set_address-Below curr_ts s target at below = elim (Bool-cases (same_place (s.address target) at)) [
  | inl stays ↦ rw stays below
  | inr moved ↦ rw (moved, close_list s.carrier curr_ts target) below
]

pub add_target-Below : (s : Reload) (item : Item) → Below s → Below (add_target s item)
unfolding add_target
add_target-Below s item below a o = elim (Bool-cases (a == s.next)) [
  | inl first ↦ ground (arith, first)
  | inr other ↦ let lt = below a (ground (arith, o, other)) in omega (arith, lt)
]

same_name-eq : (x y : List ℕ) → same_name x y ≡ true → x ≡ y
unfolding same_name
same_name-eq [] [] e = refl
same_name-eq [] (b ∷ y) e = absurd (cc (e))
same_name-eq (a ∷ x) [] e = absurd (cc (e))
same_name-eq (a ∷ x) (b ∷ y) e =
    ap₂ (λ a l. a ∷ l) (ground (arith, e)) (same_name-eq x y (ground (arith, e)))

-- The address of a target that was found is that of the configuration.
pub set_address_at :
    (curr_ts : ℕ) (s : Reload) (target : ℕ) (at : Address)
    → (set_address curr_ts s target at).address target ≡ at
unfolding set_address
set_address_at curr_ts s target at =
    update_same s.address target _
    ∙ (λ i. record { target_name = name i; ip_addr = ip i; port = port i })
  where
    old : Address
    old = s.address target

    name :
        (if same_name old.target_name at.target_name then old.target_name else at.target_name)
        ≡ at.target_name
    name = elim (Bool-cases (same_name old.target_name at.target_name)) [
      | inl e ↦ rw e (same_name-eq old.target_name at.target_name e)
      | inr e ↦ rw e refl
    ]

    ip : (if same_place old at then old.ip_addr else at.ip_addr) ≡ at.ip_addr
    ip = elim (Bool-cases (same_place old at)) [
      | inl e ↦ rw e (same_name-eq old.ip_addr at.ip_addr (ground (arith, e)))
      | inr e ↦ rw e refl
    ]

    port : (if same_place old at then old.port else at.port) ≡ at.port
    port = elim (Bool-cases (same_place old at)) [
      | inl e ↦ rw e (ground (arith, e))
      | inr e ↦ rw e refl
    ]
