-- ===== src/Concurrent/Stale.antt =====
-- A copy into a circular queue by a writer that has loaded the head some time ago: the reader has
-- moved the head on since, over bytes that the queue held.
use proc_bridge.Base.{
  ℕ, ◌+◌, ◌≤◌, ◌<◌, ◌≡◌, ap, ◌∙◌, sym, arith, List, ◌++◌, length, length-append, slice, Mem,
  append_split,
}
use proc_bridge.Ring.{ring_put}
use proc_bridge.Ring.Laws.{slot, used, used-lt, mod_slot, slot-lt, used-slot_add, ring_put-tail}
use proc_bridge.Ring.Content.{
  window, bytes, length-bytes, length-window, bytes-ring_put, window-append,
}

-- The copy goes by the head alone where the room counted from the old head suffices.
pub ring_put_stale :
    (base cap old head : ℕ) (mem : Mem) (tail : ℕ) (src : Mem) (s n : ℕ)
    → old < cap
    → head < cap
    → tail < cap
    → used cap head tail ≤ used cap old tail
    → used cap old tail + n < cap
    → ring_put base cap old mem tail src s n ≡ ring_put base cap head mem tail src s n
unfolding ring_put
ring_put_stale base cap old head mem tail src s n ho hh ht le room =
    ground (arith, mod_slot cap tail n)

-- A queue up to a place short of the tail holds the front of the bytes up to the tail.
pub bytes_prefix :
    (base cap : ℕ) (mem : Mem) (head tail limit : ℕ) (xs ys : List ℕ)
    → head < cap
    → tail < cap
    → limit < cap
    → length xs ≡ used cap head tail
    → bytes base cap mem head limit ≡ xs ++ ys
    → bytes base cap mem head tail ≡ xs
unfolding bytes
bytes_prefix base cap mem head tail limit xs ys hh ht hl lx e =
    (append_split (window base cap mem head (used cap head tail)) xs
      (window base cap mem (slot cap head (used cap head tail)) (length ys)) ys
      (length-window base cap mem head (used cap head tail) ∙ sym lx)
      (sym (
          window-append base cap mem head (used cap head tail) (length ys) hh
            (omega (arith, used-lt cap head limit hh hl, whole)))
        ∙ ap (window base cap mem head) (sym whole)
        ∙ e)).0
  where
    whole : used cap head limit ≡ used cap head tail + length ys
    whole = omega (arith, length-bytes base cap mem head limit, ap length e, length-append xs ys)

-- What such a copy does, seen from the head as it is now.
pub record Appends (base cap old head : ℕ) (mem : Mem) (tail : ℕ) (src : Mem) (s n : ℕ)
    : Type 0 where
  pub next_in : (ring_put base cap old mem tail src s n).1 < cap
  pub counted : used cap old (ring_put base cap old mem tail src s n).1 ≡ used cap old tail + n
  pub behind :
      used cap head (ring_put base cap old mem tail src s n).1
      ≤ used cap old (ring_put base cap old mem tail src s n).1
  pub content :
      bytes base cap
        (ring_put base cap old mem tail src s n).0
        head
        (ring_put base cap old mem tail src s n).1
      ≡ bytes base cap mem head tail ++ slice src s n

pub ring_put-Appends :
    (base cap old head : ℕ) (mem : Mem) (tail : ℕ) (src : Mem) (s n : ℕ)
    → old < cap
    → head < cap
    → tail < cap
    → used cap head tail ≤ used cap old tail
    → used cap old tail + n < cap
    → Appends base cap old head mem tail src s n
ring_put-Appends base cap old head mem tail src s n ho hh ht le room =
    let at = ring_put-tail base cap old mem tail src s n ho ht room in
    record {
      next_in = rw at (slot-lt cap tail n ht (omega arith));
      counted = rw at (used-slot_add cap old tail n ho ht room);
      behind = rw at (
          omega (
            arith,
            used-slot_add cap old tail n ho ht room,
            used-slot_add cap head tail n hh ht (omega arith),
          ));
      content =
          rw (ring_put_stale base cap old head mem tail src s n ho hh ht le room)
            (bytes-ring_put base cap head mem tail src s n hh ht (omega arith));
    }
