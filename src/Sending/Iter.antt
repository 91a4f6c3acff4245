-- ===== src/Sending/Iter.antt =====
-- The round of `iter_sending_list` over all targets of the list.
use mathlib.Core.Path.{subst}
use proc_bridge.Base.{
  ℕ, ◌+◌, ◌≡◌, ◌≢◌, ◌⊎◌, refl, ap, sym, ◌∙◌, arith, Bool, true, false, ◌||◌, List, [], ◌∷◌, length,
  ◌==◌, ==_iff, if◌then◌else◌, Bool-cases, inl, inr,
}
use proc_bridge.Target.{is_empty}
use proc_bridge.Carrier.{Carrier, is_connected}
use proc_bridge.Sending.{Outside, visit, unlisted, iter_nodes}
use proc_bridge.Sending.Linked.{occurs, Distinct, is_busy}
use proc_bridge.Sending.Visit.{Served, Ready, Visited, visit-Visited, update_same, update_other}

-- The state of the loop: `nodes` are still to be served, `reserv` stay.
pub record Before (out : Outside) (c : Carrier) (nodes reserv : List ℕ) (n : ℕ) : Type 0 where
  pub counted : n ≡ length reserv
  pub flags : (a : ℕ) → (c.targets a).in_append ≡ (occurs a nodes || occurs a reserv)
  pub distinct_nodes : Distinct nodes
  pub distinct_reserv : Distinct reserv
  pub apart : (a : ℕ) → occurs a nodes ≡ true → occurs a reserv ≡ false
  pub ready : (a : ℕ) → occurs a nodes ≡ true → Ready out (c.targets a) a

pub record After (del : Bool) (c : Carrier) (nodes reserv : List ℕ) (r : Carrier × List ℕ × ℕ)
    : Type 0 where
  pub counted : r.2 ≡ length r.1
  pub flags : (a : ℕ) → (r.0.targets a).in_append ≡ occurs a r.1
  pub distinct : Distinct r.1
  pub served :
      (a : ℕ) → occurs a nodes ≡ true → Served (c.targets a) (r.0.targets a) (c.wire a) (r.0.wire a)
  pub others :
      (a : ℕ) → occurs a nodes ≡ false → (r.0.targets a ≡ c.targets a) × (r.0.wire a ≡ c.wire a)
  pub kept : (a : ℕ) → occurs a reserv ≡ true → occurs a r.1 ≡ true
  pub from :
      (a : ℕ)
      → occurs a r.1 ≡ true
      → (occurs a reserv ≡ true)
        ⊎ ((occurs a nodes ≡ true) × (is_connected (r.0.targets a).state ≡ true) × (del ≡ false))
  pub none_lost :
      (a : ℕ)
      → occurs a nodes ≡ true
      → del ≡ false
      → is_busy (r.0.targets a) ≡ true
      → occurs a r.1 ≡ true

-- One target served, its flag cleared if it does not stay.
record Advanced (del : Bool) (c : Carrier) (target : ℕ) (c' : Carrier) (stay : Bool) : Type 0 where
  others : (a : ℕ) → a ≢ target → (c'.targets a ≡ c.targets a) × (c'.wire a ≡ c.wire a)
  served : Served (c.targets target) (c'.targets target) (c.wire target) (c'.wire target)
  flag : (c'.targets target).in_append ≡ stay
  stays : stay ≡ true → (is_connected (c'.targets target).state ≡ true) × (del ≡ false)
  leaves : stay ≡ false → del ≡ false → is_busy (c'.targets target) ≡ false

advance :
    (del : Bool) (c : Carrier) (target : ℕ) (c' : Carrier) (stay : Bool)
    → (c.targets target).in_append ≡ true
    → Visited del c target c' stay
    → Advanced del c target (if stay then c' else unlisted c' target) stay
unfolding is_empty
advance del c target c' true listed v = record {
  others = v.others;
  served = v.served;
  flag = v.flag ∙ listed;
  stays = v.stays;
  leaves = v.leaves;
}
advance del c target c' false listed v =
    let e = update_same c'.targets target (record (c'.targets target) { in_append = false }) in
    record {
      others = λ a ne. (
        update_other c'.targets target (record (c'.targets target) { in_append = false }) a ne
            ∙ (v.others a ne).0,
        (v.others a ne).1,
      );
      served = rw e (record {
        outcome = v.served.outcome;
        open_still = λ x.
            let o = v.served.open_still x in record { head_in = o.head_in; tail_in = o.tail_in };
      });
      flag = ap (λ t. t.in_append) e;
      stays = λ x. cc;
      leaves = λ x d. ap is_busy e ∙ v.leaves x d;
    }

-- A member of a list that another is put before.
occurs_later : (a b : ℕ) (l : List ℕ) → occurs a l ≡ true → occurs a (b ∷ l) ≡ true
occurs_later a b l e = ground (arith, e)

occurs_apart : (a b : ℕ) (l : List ℕ) → occurs a l ≡ true → occurs b l ≡ false → a ≢ b
occurs_apart a b l e f same = cc (e, f, ap (λ x. occurs x l) same)

module _ (del : Bool) (out : Outside) (c : Carrier) (target : ℕ) (next reserv : List ℕ) (n : ℕ)
    (b : Before out c (target ∷ next) reserv n) where
  next_apart : (a : ℕ) → occurs a next ≡ true → a ≢ target
  next_apart a e = occurs_apart a target next e b.distinct_nodes.0

  here_listed : occurs target (target ∷ next) ≡ true
  here_listed = ground arith

  -- The flag of each target, by whether it is the one just served.
  next_flags :
      (c' : Carrier) (stay : Bool) (reserv' : List ℕ)
      → Advanced del c target c' stay
      → occurs target reserv' ≡ stay
      → ((a : ℕ) → a ≢ target → occurs a reserv' ≡ occurs a reserv)
      → (a : ℕ) → (c'.targets a).in_append ≡ (occurs a next || occurs a reserv')
  next_flags c' stay reserv' v here there a = elim (Bool-cases (a == target)) [
    | inl same ↦
        let at : a ≡ target = ground (arith, same) in
        ap (λ x. (c'.targets x).in_append) at
        ∙ v.flag
        ∙ ground (
          arith,
          b.distinct_nodes.0,
          here,
          ap (λ x. occurs x next) at,
          ap (λ x. occurs x reserv') at,
        )
    | inr other ↦
        let ne : a ≢ target = ground (arith, other) in
        ap (λ t. t.in_append) (v.others a ne).0 ∙ b.flags a ∙ ground (arith, other, there a ne)
  ]

  next-Ready :
      (c' : Carrier) (stay : Bool)
      → Advanced del c target c' stay
      → (a : ℕ) → occurs a next ≡ true
      → Ready out (c'.targets a) a
  next-Ready c' stay v a e =
      rw (v.others a (next_apart a e)).0 (b.ready a (occurs_later a target next e))

  Before-next :
      (c' : Carrier) (stay : Bool)
      → Advanced del c target c' stay
      → Before out c' next (if stay then target ∷ reserv else reserv) (if stay then n + 1 else n)
  Before-next c' true v = record {
    counted = omega (arith, b.counted);
    flags = next_flags c' true (target ∷ reserv) v (ground arith) (λ a ne. ground arith);
    distinct_nodes = b.distinct_nodes.1;
    distinct_reserv = (b.apart target here_listed, b.distinct_reserv);
    apart = λ a e. ground (arith, b.apart a (occurs_later a target next e), next_apart a e);
    ready = next-Ready c' true v;
  }
  Before-next c' false v = record {
    counted = b.counted;
    flags = next_flags c' false reserv v (b.apart target here_listed) (λ a ne. refl);
    distinct_nodes = b.distinct_nodes.1;
    distinct_reserv = b.distinct_reserv;
    apart = λ a e. b.apart a (occurs_later a target next e);
    ready = next-Ready c' false v;
  }

  reserve_kept :
      (stay : Bool) (a : ℕ)
      → occurs a reserv ≡ true
      → occurs a (if stay then target ∷ reserv else reserv) ≡ true
  reserve_kept true a e = occurs_later a target reserv e
  reserve_kept false a e = e

  reserve_from :
      (stay : Bool) (a : ℕ)
      → occurs a (if stay then target ∷ reserv else reserv) ≡ true
      → (occurs a reserv ≡ true) ⊎ ((a ≡ target) × (stay ≡ true))
  reserve_from true a e = elim (Bool-cases (a == target)) [
    | inl same ↦ inr (ground (arith, same), refl)
    | inr other ↦ inl (ground (arith, e, other))
  ]
  reserve_from false a e = inl e

  reserve_target :
      (stay : Bool) → stay ≡ true → occurs target (if stay then target ∷ reserv else reserv) ≡ true
  reserve_target true e = ground arith
  reserve_target false e = cc

  module _ (c' : Carrier) (stay : Bool) (r : Carrier × List ℕ × ℕ)
      (v : Advanced del c target c' stay)
      (w : After del c' next (if stay then target ∷ reserv else reserv) r) where
    -- The target that was served is not touched any more.
    target_done : (r.0.targets target ≡ c'.targets target) × (r.0.wire target ≡ c'.wire target)
    target_done = w.others target b.distinct_nodes.0

    target-Served : Served (c.targets target) (r.0.targets target) (c.wire target) (r.0.wire target)
    target-Served = rw (target_done.0, target_done.1) v.served

    all-Served :
        (a : ℕ)
        → occurs a (target ∷ next) ≡ true
        → Served (c.targets a) (r.0.targets a) (c.wire a) (r.0.wire a)
    all-Served a e = elim (Bool-cases (a == target)) [
      | inl same ↦
          subst (λ x. Served (c.targets x) (r.0.targets x) (c.wire x) (r.0.wire x))
            (sym ((==_iff a target).0 same)) target-Served
      | inr other ↦
          let later : occurs a next ≡ true = ground (arith, e, other) in
          let ne : a ≢ target = ground (arith, other) in
          rw (← (v.others a ne).0, ← (v.others a ne).1) (w.served a later)
    ]

    all_from :
        (a : ℕ)
        → occurs a r.1 ≡ true
        → (occurs a reserv ≡ true)
          ⊎ ((occurs a (target ∷ next) ≡ true)
              × (is_connected (r.0.targets a).state ≡ true)
              × (del ≡ false))
    all_from a e = elim (w.from a e) [
      | inr (n, up, d) ↦ inr (occurs_later a target next n, up, d)
      | inl k ↦ elim (reserve_from stay a k) [
        | inl old ↦ inl old
        | inr (same, st) ↦ inr (
          ap (λ x. occurs x (target ∷ next)) same ∙ here_listed,
          ap (λ x. is_connected (r.0.targets x).state) same
              ∙ ap (λ t. is_connected t.state) target_done.0
              ∙ (v.stays st).0,
          (v.stays st).1,
        )
      ]
    ]

    all_kept :
        (a : ℕ)
        → occurs a (target ∷ next) ≡ true
        → del ≡ false
        → is_busy (r.0.targets a) ≡ true
        → occurs a r.1 ≡ true
    all_kept a e d busy = elim (Bool-cases (a == target)) [
      | inr other ↦ w.none_lost a (ground (arith, e, other)) d busy
      | inl same ↦
          let at : a ≡ target = (==_iff a target).0 same in
          let here : is_busy (c'.targets target) ≡ true =
            sym (ap is_busy target_done.0) ∙ sym (ap (λ x. is_busy (r.0.targets x)) at) ∙ busy in
          ap (λ x. occurs x r.1) at ∙ (elim (Bool-cases stay) [
            | inl st ↦ w.kept target (reserve_target stay st)
            | inr off ↦ absurd (cc (here, v.leaves off d))
          ])
    ]

    -- What the rest of the loop does, seen from before this target.
    After-cons : After del c (target ∷ next) reserv r
    After-cons = record {
      counted = w.counted;
      flags = w.flags;
      distinct = w.distinct;
      served = all-Served;
      others = λ a e.
          let ne : a ≢ target = ground (arith, e) in
          let later : occurs a next ≡ false = ground (arith, e) in
          ((w.others a later).0 ∙ (v.others a ne).0, (w.others a later).1 ∙ (v.others a ne).1);
      kept = λ a e. w.kept a (reserve_kept stay a e);
      from = all_from;
      none_lost = all_kept;
    }

pub iter_nodes-After :
    (del : Bool) (out : Outside) (nodes : List ℕ) (c : Carrier) (reserv : List ℕ) (n : ℕ)
    → Before out c nodes reserv n
    → After del c nodes reserv (iter_nodes del out c nodes reserv n)
unfolding iter_nodes
iter_nodes-After del out [] c reserv n b = record {
  counted = b.counted;
  flags = λ a. b.flags a ∙ refl;
  distinct = b.distinct_reserv;
  served = λ a e. absurd (cc (e));
  others = λ a e. (refl, refl);
  kept = λ a e. e;
  from = λ a e. inl e;
  none_lost = λ a e d busy. absurd (cc (e));
}
iter_nodes-After del out (target ∷ next) c reserv n b =
    let r = visit del out c target in
    let listed : (c.targets target).in_append ≡ true = b.flags target ∙ ground arith in
    let v = advance del c target r.0 r.1 listed (
      visit-Visited del out c target
        (b.ready target (here_listed del out c target next reserv n b))) in
    let c' = if r.1 then r.0 else unlisted r.0 target in
    After-cons del out c target next reserv n b c' r.1 _ v (
      iter_nodes-After del out next c' (if r.1 then target ∷ reserv else reserv)
        (if r.1 then n + 1 else n) (Before-next del out c target next reserv n b c' r.1 v))
