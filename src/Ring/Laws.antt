-- ===== src/Ring/Laws.antt =====
-- Where the bytes of a circular queue stand, and what the copies of `Ring` do to them.
use native.Mathlib.Nat.{mod-eq_of_lt, mod_self}
use proc_bridge.Base.{
  ℕ, ◌+◌, ◌-◌, ◌%◌, ◌≤◌, ◌<◌, ◌≡◌, ap, ◌⊎◌, inl, inr, arith, ltb, leb, if◌then◌else◌, Bool-cases,
  Mem, memcpy,
}
use proc_bridge.Ring.{ring_put, ring_get, ring_skip, ring_space}

-- The offset of the byte that stands `k` places behind offset `h`.
abbrev pub slot : (cap h k : ℕ) → ℕ
slot cap h k = if ltb (h + k) cap then h + k else h + k - cap

-- The number of bytes between head and tail.
abbrev pub used : (cap head tail : ℕ) → ℕ
used cap head tail = if leb head tail then tail - head else cap - head + tail

-- `%=` on an offset that does not pass the end by more than nothing.
pub mod_slot : (cap h n : ℕ) → 0 < cap → h + n ≤ cap → (h + n) % cap ≡ slot cap h n
mod_slot cap h n p le = elim (Bool-cases (ltb (h + n) cap)) [
  | inl lt ↦ let l : h + n < cap = ground arith in ground (arith, mod-eq_of_lt l)
  | inr ge ↦ let e : h + n ≡ cap = ground arith in ground (arith, ap (λ t. t % cap) e, mod_self cap)
]

-- One step behind the other.
pub slot-slot :
    (cap h k j : ℕ) → h < cap → k + j < cap → slot cap (slot cap h k) j ≡ slot cap h (k + j)
slot-slot cap h k j hh hk = ground arith

-- The tail is the slot behind the bytes in use.
pub slot-used : (cap h t : ℕ) → h < cap → t < cap → slot cap h (used cap h t) ≡ t
slot-used cap h t hh ht = ground arith

pub used-lt : (cap h t : ℕ) → h < cap → t < cap → used cap h t < cap
used-lt cap h t hh ht = ground arith

pub used-slot : (cap h n : ℕ) → h < cap → n < cap → used cap h (slot cap h n) ≡ n
used-slot cap h n hh hn = ground arith

pub used-slot_add :
    (cap h t n : ℕ)
    → h < cap
    → t < cap
    → used cap h t + n < cap
    → used cap h (slot cap t n) ≡ used cap h t + n
used-slot_add cap h t n hh ht fits = ground arith

-- Moving the head over `n` of the bytes in use leaves the others.
pub used-slot_head :
    (cap h t n : ℕ)
    → h < cap
    → t < cap
    → n ≤ used cap h t
    → used cap (slot cap h n) t + n ≡ used cap h t
used-slot_head cap h t n hh ht le = ground arith

pub slot-lt : (cap h k : ℕ) → h < cap → k < cap → slot cap h k < cap
slot-lt cap h k hh hk = ground arith

-- The space that the code counts is what is not used.
pub ring_space_lem : (cap h t : ℕ) → h < cap → t < cap → ring_space cap h t + used cap h t ≡ cap
unfolding ring_space
ring_space_lem cap h t hh ht = ground arith

module _ (base cap head : ℕ) (mem : Mem) (tail : ℕ) (src : Mem) (s n : ℕ) (hh : head < cap)
    (ht : tail < cap) (fits : used cap head tail + n < cap) where
  pub ring_put-tail : (ring_put base cap head mem tail src s n).1 ≡ slot cap tail n
  unfolding ring_put
  ring_put-tail = ground (arith, mod_slot cap tail n)

  -- The bytes stand behind the tail.
  pub ring_put-new :
      (j : ℕ)
      → j < n
      → (ring_put base cap head mem tail src s n).0 (base + slot cap tail j) ≡ src (s + j)
  unfolding ring_put memcpy
  ring_put-new j h = ground arith

  -- Nothing else changes, in the queue or outside of it.
  pub ring_put-old :
      (k : ℕ)
      → k < used cap head tail
      → (ring_put base cap head mem tail src s n).0 (base + slot cap head k)
        ≡ mem (base + slot cap head k)
  unfolding ring_put memcpy
  ring_put-old k h = ground arith

  pub ring_put-outside :
      (a : ℕ)
      → (a < base) ⊎ (base + cap ≤ a)
      → (ring_put base cap head mem tail src s n).0 a ≡ mem a
  unfolding ring_put memcpy
  ring_put-outside a h = ground arith

module _ (base cap : ℕ) (mem : Mem) (head : ℕ) (dst : Mem) (d n : ℕ) (hh : head < cap)
    (fits : n < cap) where
  pub ring_get-head : (ring_get base cap mem head dst d n).1 ≡ slot cap head n
  unfolding ring_get
  ring_get-head = ground (arith, mod_slot cap head n)

  -- The destination receives the bytes behind the head.
  pub ring_get-bytes :
      (j : ℕ)
      → j < n
      → (ring_get base cap mem head dst d n).0 (d + j) ≡ mem (base + slot cap head j)
  unfolding ring_get memcpy
  ring_get-bytes j h = ground arith

  -- And nothing else in it changes.
  pub ring_get-outside :
      (a : ℕ) → (a < d) ⊎ (d + n ≤ a) → (ring_get base cap mem head dst d n).0 a ≡ dst a
  unfolding ring_get memcpy
  ring_get-outside a h = ground arith

pub ring_skip-slot :
    (cap head n : ℕ) → head < cap → n < cap → ring_skip cap head n ≡ slot cap head n
unfolding ring_skip
ring_skip-slot cap head n hh fits = ground (arith, mod_slot cap head n)
