-- ===== src/Reload/Delete.antt =====
-- The second loop of `copy_target_info`: the targets that the configuration no longer has are deleted.
use mathlib.Core.Path.{subst}
use proc_bridge.Base.{
  ℕ, ◌-◌, ◌≡◌, ◌≢◌, refl, ap, ap₂, sym, ◌∙◌, arith, Bool, true, false, ◌||◌, Bool-cases, inl, inr,
  List, [], ◌∷◌, ◌++◌, append_assoc, ◌==◌, ==-of_ne, ==_iff,
}
use proc_bridge.Target.{Target}
use proc_bridge.Carrier.{close_target_fd, search_target}
use proc_bridge.Sending.Linked.{occurs, Distinct}
use proc_bridge.Sending.Visit.{close_target_fd-other}
use proc_bridge.Reload.{
  Item, Reload, has_id, has_item, find_target, unlink_target, delete_target, delete_each,
}
use proc_bridge.Reload.Update.{search_cong, search_skip, close_id}

search_drop :
    (f : ℕ → Target) (id a : ℕ) (kept rest : List ℕ)
    → (f a).proc_id ≢ id
    → search_target f (has_id id) (kept ++ rest) ≡ search_target f (has_id id) (kept ++ a ∷ rest)
unfolding search_target
search_drop f id a [] rest ne = sym (search_skip f id a rest ne)
search_drop f id a (b ∷ kept) rest ne = rw (search_drop f id a kept rest ne) refl

unlink_lem :
    (a : ℕ) (kept rest : List ℕ)
    → occurs a kept ≡ false
    → unlink_target a (kept ++ a ∷ rest) ≡ (kept ++ rest, true)
unfolding unlink_target
unlink_lem a [] rest e = rw ((==_iff a a).1 refl) refl
unlink_lem a (b ∷ kept) rest e =
    let other : (b == a) ≡ false = ground (arith, e) in
    rw (other, unlink_lem a kept rest (ground (arith, e))) refl

occurs-append : (a : ℕ) (l m : List ℕ) → occurs a (l ++ m) ≡ (occurs a l || occurs a m)
occurs-append a [] m = refl
occurs-append a (b ∷ l) m = ground (arith, occurs-append a l m)

or_true : (b : Bool) → (b || true) ≡ true
or_true true = refl
or_true false = refl

or_right : (b c : Bool) → c ≡ true → (b || c) ≡ true
or_right true c e = refl
or_right false c e = e

self : (a : ℕ) → (a == a) ≡ true
self a = (==_iff a a).1 refl

-- The state after a target was deleted.
abbrev deleted : ℕ → Reload → ℕ → List ℕ → Reload
deleted curr_ts s a l =
    let c = close_target_fd s.carrier curr_ts a in
    record s {
      carrier = record c { target_list = l; target_count = c.target_count - 1 };
      freed = s.freed ++ a ∷ [];
    }

delete_target_lem :
    (curr_ts : ℕ) (s : Reload) (a : ℕ) (kept rest : List ℕ)
    → s.carrier.target_list ≡ kept ++ a ∷ rest
    → occurs a kept ≡ false
    → delete_target curr_ts s a ≡ deleted curr_ts s a (kept ++ rest)
unfolding delete_target close_target_fd
delete_target_lem curr_ts s a kept rest e apart =
    rw (ap (unlink_target a) e ∙ unlink_lem a kept rest apart) refl

-- What the loop makes of the list: `rest` is the part that it has still to visit.
pub record Deleted (items : List Item) (s : Reload) (kept rest : List ℕ) (s' : Reload)
    : Type 0 where
  pub list :
      (l : List ℕ) × (s'.carrier.target_list ≡ kept ++ l)
      × ((a : ℕ) → occurs a l ≡ true → has_item items (s'.carrier.targets a).proc_id ≡ true)
  pub found : (id : ℕ) → has_item items id ≡ true → find_target s' id ≡ find_target s id
  pub same :
      (a : ℕ)
      → has_item items (s.carrier.targets a).proc_id ≡ true
      → s'.carrier.targets a ≡ s.carrier.targets a
  pub address : s'.address ≡ s.address
  pub flags :
      (a : ℕ)
      → ((s'.carrier.targets a).in_append ≡ (s.carrier.targets a).in_append)
        × ((s'.carrier.targets a).proc_id ≡ (s.carrier.targets a).proc_id)
  pub gone :
      (a : ℕ)
      → occurs a rest ≡ true
      → has_item items (s.carrier.targets a).proc_id ≡ false
      → occurs a s'.freed ≡ true
  pub grows : (a : ℕ) → occurs a s.freed ≡ true → occurs a s'.freed ≡ true
  pub sending : s'.carrier.sending ≡ s.carrier.sending

-- One target without an entry in the configuration.
module _ (curr_ts : ℕ) (items : List Item) (s : Reload) (a : ℕ) (kept rest : List ℕ)
    (whole : s.carrier.target_list ≡ kept ++ a ∷ rest)
    (orphan : has_item items (s.carrier.targets a).proc_id ≡ false) where
  abbrev s1 : Reload
  s1 = deleted curr_ts s a (kept ++ rest)

  one_found : (id : ℕ) → has_item items id ≡ true → find_target s1 id ≡ find_target s id
  one_found id e =
      let ne : (s.carrier.targets a).proc_id ≢ id = λ q. absurd (cc (q, e, orphan)) in
      search_cong s.carrier.targets s1.carrier.targets id (kept ++ rest)
        (λ b o. close_id s.carrier curr_ts a b)
      ∙ search_drop s.carrier.targets id a kept rest ne
      ∙ ap (search_target s.carrier.targets (has_id id)) (sym whole)

  one_same :
      (b : ℕ)
      → has_item items (s.carrier.targets b).proc_id ≡ true
      → s1.carrier.targets b ≡ s.carrier.targets b
  one_same b e = close_target_fd-other s.carrier curr_ts a b λ q. absurd (cc (q, e, orphan))

  one_flag : (b : ℕ) → (s1.carrier.targets b).in_append ≡ (s.carrier.targets b).in_append
  unfolding close_target_fd
  one_flag b = ground arith

  one_sending : s1.carrier.sending ≡ s.carrier.sending
  unfolding close_target_fd
  one_sending = refl

  delete_step :
      occurs a kept ≡ false
      → delete_each curr_ts items s (a ∷ rest) ≡ delete_each curr_ts items s1 rest
  unfolding delete_each
  delete_step apart = rw orphan (
      ap (λ x. delete_each curr_ts items x rest)
        (delete_target_lem curr_ts s a kept rest whole apart))

  one-Deleted : (s' : Reload) → Deleted items s1 kept rest s' → Deleted items s kept (a ∷ rest) s'
  one-Deleted s' d = record {
    list = d.list;
    found = λ id e. d.found id e ∙ one_found id e;
    same = λ b e. let t = one_same b e in d.same b (ap (λ t. has_item items t.proc_id) t ∙ e) ∙ t;
    address = d.address;
    flags = λ b. ((d.flags b).0 ∙ one_flag b, (d.flags b).1 ∙ close_id s.carrier curr_ts a b);
    gone = λ b o e. elim (Bool-cases (b == a)) [
      | inl here ↦ d.grows b (
          occurs-append b s.freed (a ∷ [])
          ∙ ap (λ x. occurs b s.freed || (x || false)) here
          ∙ or_true (occurs b s.freed))
      | inr there ↦
          d.gone b (sym (ap (λ x. x || occurs b rest) there) ∙ o)
            (ap (has_item items) (close_id s.carrier curr_ts a b) ∙ e)
    ];
    grows =
        λ b e. d.grows b (occurs-append b s.freed (a ∷ []) ∙ ap (λ x. x || occurs b (a ∷ [])) e);
    sending = d.sending ∙ one_sending;
  }

-- One target that stays.
keep_step :
    (curr_ts : ℕ) (items : List Item) (s : Reload) (a : ℕ) (rest : List ℕ)
    → has_item items (s.carrier.targets a).proc_id ≡ true
    → delete_each curr_ts items s (a ∷ rest) ≡ delete_each curr_ts items s rest
unfolding delete_each
keep_step curr_ts items s a rest e = rw e refl

keep-Deleted :
    (items : List Item) (s s' : Reload) (a : ℕ) (kept rest : List ℕ)
    → has_item items (s.carrier.targets a).proc_id ≡ true
    → Deleted items s (kept ++ a ∷ []) rest s'
    → Deleted items s kept (a ∷ rest) s'
keep-Deleted items s s' a kept rest e d = record {
  list =
      let (l, whole, only) = d.list in
      (
        a ∷ l,
        whole ∙ append_assoc kept (a ∷ []) l,
        λ b o. elim (Bool-cases (b == a)) [
          | inl here ↦
              let at : b ≡ a = ground (arith, here) in
              ap (λ x. has_item items (s'.carrier.targets x).proc_id) at
              ∙ ap (has_item items) (d.flags a).1
              ∙ e
          | inr there ↦ only b (sym (ap (λ x. x || occurs b l) there) ∙ o)
        ],
      );
  found = d.found;
  same = d.same;
  address = d.address;
  flags = d.flags;
  gone = λ b o q. elim (Bool-cases (b == a)) [
    | inl here ↦
        let at : b ≡ a = ground (arith, here) in
        let h = sym q ∙ ap (λ x. has_item items (s.carrier.targets x).proc_id) at ∙ e in
        absurd (cc (h))
    | inr there ↦ d.gone b (sym (ap (λ x. x || occurs b rest) there) ∙ o) q
  ];
  grows = d.grows;
  sending = d.sending;
}

-- The loop from any place in the list on.
pub delete_each-Deleted :
    (curr_ts : ℕ) (items : List Item) (rest : List ℕ) (s : Reload) (kept : List ℕ)
    → s.carrier.target_list ≡ kept ++ rest
    → ((b : ℕ) → occurs b rest ≡ true → occurs b kept ≡ false)
    → Distinct rest
    → Deleted items s kept rest (delete_each curr_ts items s rest)
delete_each-Deleted curr_ts items [] s kept whole apart d =
    unfold delete_each in
    record {
      list = ([], whole, (λ a o. absurd (cc (o))));
      found = λ id e. refl;
      same = λ a e. refl;
      address = refl;
      flags = λ a. (refl, refl);
      gone = λ a o e. absurd (cc (o));
      grows = λ a e. e;
      sending = refl;
    }
delete_each-Deleted curr_ts items (a ∷ rest) s kept whole apart (fresh, d) =
    elim (Bool-cases (has_item items (s.carrier.targets a).proc_id)) [
      | inl stays ↦
          subst (Deleted items s kept (a ∷ rest)) (sym (keep_step curr_ts items s a rest stays)) (
            keep-Deleted items s (delete_each curr_ts items s rest) a kept rest stays (
              delete_each-Deleted curr_ts items rest s (kept ++ a ∷ [])
                (whole ∙ sym (append_assoc kept (a ∷ []) rest)) apart_next d))
      | inr orphan ↦
          let first : occurs a kept ≡ false = apart a (ap (λ x. x || occurs a rest) (self a)) in
          subst (Deleted items s kept (a ∷ rest))
            (sym (delete_step curr_ts items s a kept rest whole orphan first))
            (one-Deleted curr_ts items s a kept rest whole orphan
              (delete_each curr_ts items (s1 curr_ts items s a kept rest whole orphan) rest)
              (delete_each-Deleted curr_ts items rest (s1 curr_ts items s a kept rest whole orphan)
                kept refl (λ b o. apart b (or_right (b == a) (occurs b rest) o)) d))
    ]
  where
    apart_next : (b : ℕ) → occurs b rest ≡ true → occurs b (kept ++ a ∷ []) ≡ false
    apart_next b o =
        let other : (b == a) ≡ false =
          ==-of_ne b a λ q. let h = sym o ∙ ap (λ x. occurs x rest) q ∙ fresh in absurd (cc (h)) in
        occurs-append b kept (a ∷ [])
        ∙ ap₂ (λ x y. x || (y || false)) (apart b (or_right (b == a) (occurs b rest) o)) other
