-- ===== src/Bridge/Sending.antt =====
-- `send_to_bridge` on any descriptor: the sending on the hub behind it, or a refusal.
use mathlib.Core.Path.{subst}
use proc_bridge.Base.{
  ℕ, ◌<◌, ◌≡◌, Option, none, negsuc, ltb, ltb→lt, refl, ap, sym, ◌∙◌, inl, inr, arith, true, false,
  ◌||◌, some, ◌==◌, if◌then◌else◌, Bool-cases, ℤ, pos, minus_one, leb_ℤ, Mem,
}
use proc_bridge.Hub.{Hub}
use proc_bridge.Channel.{send_to_hub}
use proc_bridge.Bridge.{Space, World, bad_bd}
use proc_bridge.Bridge.Slots.{IsSpace, free, used, Slots, IsWorld, closed, listed}
use proc_bridge.Bridge.Open.{list_of}
use proc_bridge.Bridge.Calls.{send_ref, send_listed, send_to_bridge}
use proc_bridge.Bridge.Close.{Uses, counted_pos, own_id}

-- The world after a call on the hub `ref`: this hub is new, and nothing else changed.
pub record OnHub (w : World) (ref : ℕ) (hub' : Hub) (w' : World) : Type 0 where
  pub hub : w'.hubs ref ≡ hub'
  pub others : (j : ℕ) → (j == ref) ≡ false → w'.hubs j ≡ w.hubs j
  pub list : w'.space_list ≡ w.space_list
  pub counts : (w'.space_count ≡ w.space_count) × (w'.valid_count ≡ w.valid_count)

-- A descriptor in use.
in_use-OnHub :
    (w : World) (list : ℕ → Space) (i ref : ℕ) (target_id len : ℤ) (src : Mem) (ms : ℕ)
    → Uses w list i
    → (list i).phub ≡ some ref
    → let r = send_to_bridge w (pos i) target_id (some src) len ms in
      let s = send_to_hub (w.hubs ref) target_id (some src) len ms in
      (r.1 ≡ s.1) × OnHub w ref s.0 r.0
unfolding send_to_bridge send_ref
in_use-OnHub w list i ref target_id len src ms u at =
    elim (Bool-cases (leb_ℤ target_id (pos 0) || leb_ℤ len (pos 0))) [
      | inl null ↦
          rw (null, refused null)
            (refl, record { hub = refl; others = λ j ne. refl; list = refl; counts = (refl, refl) })
      | inr full ↦
          rw (full, good, sent)
            (
              refl,
              record {
                hub = let self : (ref == ref) ≡ true = ground arith in rw self refl;
                others = λ j ne. rw ne refl;
                list = refl;
                counts = (refl, refl);
              },
            )
    ]
  where
    good : bad_bd w (pos i) ≡ false
    good = ground (arith, counted_pos w list i u, u.inside)

    own : ((list i).opened_id == i) ≡ true
    own = ground (arith, own_id i (list i) (u.in_order.each i u.inside) u.taken)

    sent :
        send_listed w i w.space_list target_id (some src) len ms
        ≡ send_ref w (some ref) target_id (some src) len ms
    sent =
        ap (λ x. send_listed w i x target_id (some src) len ms) u.at_list
        ∙ (unfold send_listed in
            λ k. if own k then send_ref w (at k) target_id (some src) len ms else (w, minus_one))

    refused :
        (leb_ℤ target_id (pos 0) || leb_ℤ len (pos 0)) ≡ true
        → send_to_hub (w.hubs ref) target_id (some src) len ms ≡ (w.hubs ref, minus_one)
    refused null = unfold send_to_hub in rw null refl

-- The hub of a descriptor: that of its position, if it is one of the list.
abbrev pub hub_of : World → ℤ → Option ℕ
hub_of w (negsuc n) = none
hub_of w (pos i) = if ltb i w.space_count then (list_of w.space_list i).phub else none

-- The sending on the hub, or -1 with nothing changed.
abbrev pub Served : World → (target_id : ℤ) → Mem → ℤ → ℕ → Option ℕ → World × ℤ → Type 0
Served w target_id src len ms none r = r ≡ (w, minus_one)
Served w target_id src len ms (some ref) r =
    let s = send_to_hub (w.hubs ref) target_id (some src) len ms in
    (r.1 ≡ s.1) × OnHub w ref s.0 r.0

module _ (w : World) (target_id len : ℤ) (src : Mem) (ms : ℕ) where
  bad-refused :
      (bd : ℤ)
      → bad_bd w bd ≡ true
      → send_to_bridge w bd target_id (some src) len ms ≡ (w, minus_one)
  unfolding send_to_bridge
  bad-refused bd bad = elim (Bool-cases (leb_ℤ target_id (pos 0) || leb_ℤ len (pos 0))) [
    | inl null ↦ rw null refl
    | inr full ↦ rw full (rw bad refl)
  ]

  -- A position that is not in use has no hub.
  free-refused :
      (list : ℕ → Space) (i : ℕ)
      → w.space_list ≡ some list
      → (list i).phub ≡ none
      → send_to_bridge w (pos i) target_id (some src) len ms ≡ (w, minus_one)
  unfolding send_to_bridge
  free-refused list i e f = elim (Bool-cases (leb_ℤ target_id (pos 0) || leb_ℤ len (pos 0))) [
    | inl null ↦ rw null refl
    | inr full ↦ elim (Bool-cases (bad_bd w (pos i))) [
      | inl bad ↦ rw (full, bad) refl
      | inr good ↦
          rw (full, good)
            (ap (λ x. send_listed w i x target_id (some src) len ms) e
              ∙ elim (Bool-cases ((list i).opened_id == i)) [
                | inl own ↦
                    unfold send_listed send_ref in
                    rw own (ap (λ x. send_ref w x target_id (some src) len ms) f)
                | inr other ↦ unfold send_listed in rw other refl
              ])
    ]
  ]

  in_list-Served :
      (list : ℕ → Space) (i : ℕ)
      → w.space_list ≡ some list
      → Slots w.space_count w.valid_count list
      → i < w.space_count
      → IsSpace i (list i)
      → Served w target_id src len ms
          (list i).phub
          (send_to_bridge w (pos i) target_id (some src) len ms)
  in_list-Served list i e s h (free f) =
      let no_hub = ap (λ x. x.phub) f in rw no_hub (free-refused list i e no_hub)
  in_list-Served list i e s h (used ref p o q named) = rw q (
      in_use-OnHub w list i ref target_id len src ms
        (record { at_list = e; in_order = s; inside = h; taken = p }) q)

-- send_to_bridge on a list in order, with data that are not null, for every descriptor, target,
-- length and time: if the descriptor is the number of a position of the list that has a hub, it is
-- _send_to_bridge on that hub, refusals included, with the same return code, that hub changed as
-- it changes it, and every other hub, the list and its counts as they were; else, for a negative
-- one, one beyond the list or one that is not open, it returns -1 and changes nothing.
pub send_to_bridge-Served :
    (w : World) (bd target_id len : ℤ) (src : Mem) (ms : ℕ)
    → IsWorld w
    → Served w target_id src len ms (hub_of w bd) (send_to_bridge w bd target_id (some src) len ms)
send_to_bridge-Served w (negsuc n) target_id len src ms m =
    bad-refused w target_id len src ms (negsuc n) (ground arith)
send_to_bridge-Served w (pos i) target_id len src ms (closed e c v) =
    let none_there : ltb i w.space_count ≡ false = ground (arith, c) in
    rw none_there (bad-refused w target_id len src ms (pos i) (ground (arith, c)))
send_to_bridge-Served w (pos i) target_id len src ms (listed list e c s) =
    elim (Bool-cases (ltb i w.space_count)) [
      | inl inside ↦
          let h : i < w.space_count = ltb→lt i w.space_count inside in
          rw inside (
            subst
              (λ x.
                Served w target_id src len ms x
                  (send_to_bridge w (pos i) target_id (some src) len ms))
              (sym (ap (λ l. (list_of l i).phub) e))
              (in_list-Served w target_id len src ms list i e s h (s.each i h)))
      | inr outside ↦
          rw outside (bad-refused w target_id len src ms (pos i) (ground (arith, outside)))
    ]
