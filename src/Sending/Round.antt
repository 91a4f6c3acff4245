-- ===== src/Sending/Round.antt =====
-- `iter_sending_list` and `del_sending_list` as a whole.
use proc_bridge.Base.{
  ℕ, ◌≡◌, refl, ap, sym, ◌∙◌, arith, Bool, true, false, ◌||◌, List, [], ◌∷◌, length, leb,
  Bool-cases, inl, inr,
}
use proc_bridge.Carrier.{Carrier, is_connected}
use proc_bridge.Sending.{
  Outside, iter_nodes, has_none, rebuilt, iter_sending_list, del_sending_list,
}
use proc_bridge.Sending.Linked.{occurs, Linked, is_busy}
use proc_bridge.Sending.Visit.{Served, Ready}
use proc_bridge.Sending.Iter.{Before, After, iter_nodes-After}

pub record Iterated (del : Bool) (c c' : Carrier) : Type 0 where
  pub linked : Linked c'
  pub served :
      (a : ℕ)
      → occurs a c.sending ≡ true
      → Served (c.targets a) (c'.targets a) (c.wire a) (c'.wire a)
  pub others :
      (a : ℕ) → occurs a c.sending ≡ false → (c'.targets a ≡ c.targets a) × (c'.wire a ≡ c.wire a)
  pub stays :
      (a : ℕ)
      → occurs a c'.sending ≡ true
      → (occurs a c.sending ≡ true) × (is_connected (c'.targets a).state ≡ true) × (del ≡ false)
  pub none_lost :
      (a : ℕ)
      → occurs a c.sending ≡ true
      → del ≡ false
      → is_busy (c'.targets a) ≡ true
      → occurs a c'.sending ≡ true

or_false : (b : Bool) → b ≡ (b || false)
or_false true = refl
or_false false = refl

rebuilt-Iterated :
    (del : Bool) (c : Carrier) (r : Carrier × List ℕ × ℕ)
    → After del c c.sending [] r
    → Iterated del c (rebuilt r)
rebuilt-Iterated del c r w = record {
  linked = record { counted = w.counted; flags = w.flags; distinct = w.distinct };
  served = w.served;
  others = w.others;
  stays = λ a e. elim (w.from a e) [ inl x ↦ absurd (cc (x)) | inr x ↦ x ];
  none_lost = w.none_lost;
}

-- The list is empty, and nothing happens.
idle-Iterated :
    (del : Bool) (c : Carrier)
    → Linked c
    → ((a : ℕ) → occurs a c.sending ≡ false)
    → Iterated del c c
idle-Iterated del c k none = record {
  linked = k;
  served = λ a e. absurd (cc (e, none a));
  others = λ a e. (refl, refl);
  stays = λ a e. absurd (cc (e, none a));
  none_lost = λ a e d busy. e;
}

occurs-none : (l : List ℕ) (a : ℕ) → (leb (length l) 0 || has_none l) ≡ true → occurs a l ≡ false
occurs-none [] a e = refl
occurs-none (b ∷ l) a e = absurd (ground (arith, e))

-- iter_sending_list, on a list that agrees with the flags and holds targets whose buffers are in
-- order, whatever the sockets take of what they are given: the list and the flags agree afterwards; of
-- each target in the list either the bytes go out from the front and those left stay in order, or the
-- connection is closed and its buffer given up; the targets that are not in the list are as they
-- were; what stays in the list was in it and is connected, and nothing stays where all are to be taken
-- out; else every target that is connected with bytes left stays.
pub iter_sending_list-Iterated :
    (del : Bool) (out : Outside) (c : Carrier)
    → Linked c
    → ((a : ℕ) → occurs a c.sending ≡ true → Ready out (c.targets a) a)
    → Iterated del c (iter_sending_list del out c)
unfolding iter_sending_list
iter_sending_list-Iterated del out c k ready =
    elim (Bool-cases (leb c.total 0 || has_none c.sending)) [
      | inl idle ↦ rw idle (
          idle-Iterated del c k λ a.
            occurs-none c.sending a
              (ap (λ n. leb n 0 || has_none c.sending) (sym k.counted) ∙ idle))
      | inr some_left ↦ rw some_left (
          rebuilt-Iterated del c (iter_nodes del out c c.sending [] 0)
            (iter_nodes-After del out c.sending c [] 0 start))
    ]
  where
    start : Before out c c.sending [] 0
    start = record {
      counted = refl;
      flags = λ a. k.flags a ∙ or_false (occurs a c.sending);
      distinct_nodes = k.distinct;
      distinct_reserv = tt;
      apart = λ a e. refl;
      ready = ready;
    }

-- del_sending_list on such a list: no target is in the list afterwards or has its flag set, and of
-- each that was either the bytes went out from the front or the connection was closed.
pub del_sending_list-Iterated :
    (out : Outside) (c : Carrier)
    → Linked c
    → ((a : ℕ) → occurs a c.sending ≡ true → Ready out (c.targets a) a)
    → Iterated true c (del_sending_list out c)
      × ((a : ℕ) → ((del_sending_list out c).targets a).in_append ≡ false)
unfolding del_sending_list
del_sending_list-Iterated out c k ready =
    let i = iter_sending_list-Iterated true out c k ready in
    let c' = iter_sending_list true out c in
    let gone : (a : ℕ) → occurs a c'.sending ≡ false = λ a.
      elim (Bool-cases (occurs a c'.sending)) [
        | inl there ↦ absurd (cc ((i.stays a there).2))
        | inr none ↦ none
      ] in
    let flags : (a : ℕ) → (c'.targets a).in_append ≡ false = λ a. i.linked.flags a ∙ gone a in
    (
      record {
        linked = record { counted = refl; flags = flags; distinct = tt };
        served = i.served;
        others = i.others;
        stays = λ a e. absurd (cc (e));
        none_lost = λ a e d busy. absurd (cc (d));
      },
      flags,
    )
