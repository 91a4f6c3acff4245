-- ===== src/Bridge/Close.antt =====
-- What `close_bridge` does to the list of the opened bridges, and to the calls on their descriptors.
use proc_bridge.Base.{
  ℕ, ◌+◌, ◌-◌, ◌<◌, ◌≡◌, ◌≢◌, refl, ap, ◌∙◌, inl, inr, arith, true, false, ◌||◌, Option, none, some,
  leb, ◌==◌, if◌then◌else◌, Bool-cases, ==-of_ne, ℤ, pos, minus_one, leb_ℤ, ltb_ℤ, Mem,
}
use proc_bridge.Bridge.{Space, no_space, World, set_at, release, bad_bd, close_listed, close_bridge}
use proc_bridge.Bridge.Slots.{IsSpace, free, used, Slots, IsWorld, closed, listed, in_use-set_at}
use proc_bridge.Bridge.Open.{list_of}
use proc_bridge.Bridge.Calls.{is_null, send_to_bridge, bd2bridge}

-- A world with a list, and its position.
pub record Uses (w : World) (list : ℕ → Space) (i : ℕ) : Type 0 where
  pub at_list : w.space_list ≡ some list
  pub in_order : Slots w.space_count w.valid_count list
  pub inside : i < w.space_count
  pub taken : 0 < (list i).proc_id

-- A bridge in use is counted.
pub counted_pos : (w : World) (list : ℕ → Space) (i : ℕ) → Uses w list i → 0 < w.valid_count
counted_pos w list i u =
    let change = in_use-set_at list w.space_count i no_space u.inside in
    ground (arith, u.in_order.counted, u.taken, change)

pub own_id : (i : ℕ) (space : Space) → IsSpace i space → 0 < space.proc_id → space.opened_id ≡ i
own_id i space (free e) h = absurd (omega (arith, ap (λ s. s.proc_id) e))
own_id i space (used ref p o q n) h = o

close_step :
    (w : World) (list : ℕ → Space) (i : ℕ)
    → w.space_list ≡ some list
    → 0 < w.valid_count
    → i < w.space_count
    → (list i).opened_id ≡ i
    → close_bridge w (pos i) ≡ (release w (set_at list i no_space), pos 0)
unfolding close_bridge close_listed
close_step w list i e c h o =
    (λ k. if good k then (w, minus_one) else close_listed w i (e k))
    ∙ (λ k. if own k then (release w (set_at list i no_space), pos 0) else (w, minus_one))
  where
    good : bad_bd w (pos i) ≡ false
    good = ground arith

    own : ((list i).opened_id == i) ≡ true
    own = ground (arith, o)

-- The bridge is closed, the others stay as they were, and with the last one the list is given back.
pub record Closed (w : World) (list : ℕ → Space) (i : ℕ) (w' : World) : Type 0 where
  pub in_order : IsWorld w'
  pub one_less : w'.valid_count + 1 ≡ w.valid_count
  pub others : (j : ℕ) → 0 < w'.valid_count → j ≢ i → list_of w'.space_list j ≡ list j
  pub gone : list_of w'.space_list i ≡ no_space

release-Closed :
    (w : World) (list : ℕ → Space) (i : ℕ)
    → Uses w list i
    → Closed w list i (release w (set_at list i no_space))
release-Closed w list i u = elim (Bool-cases (leb (w.valid_count - 1) 0)) [
  | inl last ↦ rw last (record {
    in_order = closed refl refl refl;
    one_less = ground (arith, last, counted_pos w list i u);
    others = λ j h ne. absurd (omega (arith, h));
    gone = refl;
  })
  | inr more ↦ rw more (record {
    in_order = listed (set_at list i no_space) refl (omega (arith, u.inside)) (record {
      counted = ground (
        arith,
        u.in_order.counted,
        u.taken,
        in_use-set_at list w.space_count i no_space u.inside,
      );
      each = λ j k. elim (Bool-cases (j == i)) [
        | inl e ↦ rw e (free refl)
        | inr ne ↦ rw ne (u.in_order.each j k)
      ];
    });
    one_less = omega (arith, counted_pos w list i u);
    others = λ j h ne. rw (==-of_ne j i ne) refl;
    gone = let self : (i == i) ≡ true = ground arith in rw self refl;
  })
]

-- close_bridge on a descriptor in use returns 0, empties its position, leaves one bridge less and
-- the others as they were, gives the list back with the last, and keeps the list in order.
pub close_bridge-Closed :
    (w : World) (list : ℕ → Space) (i : ℕ)
    → Uses w list i
    → let r = close_bridge w (pos i) in (r.1 ≡ pos 0) × Closed w list i r.0
close_bridge-Closed w list i u =
    rw
      (close_step w list i u.at_list (counted_pos w list i u) u.inside
        (own_id i (list i) (u.in_order.each i u.inside) u.taken))
      (refl, release-Closed w list i u)

-- With one bridge open, at a position other than 0, and position 0 empty, close_bridge(0) returns
-- 0 and frees the list: bd2bridge then gives no hub for the open descriptor and send_to_bridge
-- refuses it.
pub close_bridge_zero :
    (w : World) (list : ℕ → Space) (i : ℕ) (target_id len : ℤ) (sending_data : Option Mem) (ms : ℕ)
    → Uses w list i
    → list 0 ≡ no_space
    → w.valid_count ≡ 1
    → let r = close_bridge w (pos 0) in
      (r.1 ≡ pos 0)
      × (bd2bridge r.0 (pos i) ≡ none)
      × (send_to_bridge r.0 (pos i) target_id sending_data len ms ≡ (r.0, minus_one))
close_bridge_zero w list i target_id len sending_data ms u z one = rw step (refl, found, refused)
  where
    lost : World
    lost = record w { space_count = 0; valid_count = 0; space_list = none }

    step : close_bridge w (pos 0) ≡ (lost, pos 0)
    step =
        close_step w list 0 u.at_list (counted_pos w list i u) (omega (arith, u.inside))
          (ap (λ s. s.opened_id) z)
        ∙ let last : leb (w.valid_count - 1) 0 ≡ true = ground (arith, one) in rw last refl

    found : bd2bridge lost (pos i) ≡ none
    found =
        let bad : (ltb_ℤ (pos i) (pos 0) || (leb 0 0 || leb_ℤ (pos 0) (pos i))) ≡ true =
          ground arith in
        unfold bd2bridge in rw bad refl

    refused : send_to_bridge lost (pos i) target_id sending_data len ms ≡ (lost, minus_one)
    refused =
        let bad : bad_bd lost (pos i) ≡ true = ground arith in
        unfold send_to_bridge in
        elim (Bool-cases (leb_ℤ target_id (pos 0) || (is_null sending_data || leb_ℤ len (pos 0)))) [
          | inl null ↦ rw null refl
          | inr full ↦ rw (full, bad) refl
        ]
