-- ===== src/Ring/Content.antt =====
-- A circular queue as the list of its bytes: what `ring_put` appends and `ring_get` takes off.
use proc_bridge.Base.{
  refl, [], ◌∷◌, ◌≤◌, length, length-append, length-slice, append_split, sym, arith, ℕ, ◌+◌, ◌<◌,
  ◌≡◌, ap, ap₂, ◌∙◌, List, ◌++◌, slice, slice_cong, slice-append, Mem,
}
use proc_bridge.Ring.{ring_put, ring_get}
use proc_bridge.Ring.Laws.{
  slot, used, used-lt, used-slot_head, used-slot_add, ring_put-tail, ring_put-new, ring_put-old,
  ring_get-bytes,
}

-- The byte that stands `k` places behind the head.
abbrev pub cell : (base cap : ℕ) → Mem → ℕ → ℕ → ℕ
cell base cap mem head k = mem (base + slot cap head k)

-- The `n` bytes from the head on.
unfoldable pub window : (base cap : ℕ) → Mem → ℕ → ℕ → List ℕ
window base cap mem head n = slice (cell base cap mem head) 0 n

-- The bytes of a queue, oldest first.
unfoldable pub bytes : (base cap : ℕ) → Mem → ℕ → ℕ → List ℕ
unfolding window
bytes base cap mem head tail = window base cap mem head (used cap head tail)

zero_add : (x : ℕ) → 0 + x ≡ x
zero_add x = omega arith

-- A window is cut anywhere: the second part is the window from the slot there on.
pub window-append :
    (base cap : ℕ) (mem : Mem) (head n m : ℕ)
    → head < cap
    → n + m < cap + 1
    → window base cap mem head (n + m)
      ≡ window base cap mem head n ++ window base cap mem (slot cap head n) m
unfolding window
window-append base cap mem head n m hh h =
    slice-append (cell base cap mem head) 0 n m
    ∙ ap (λ t. slice (cell base cap mem head) 0 n ++ t)
        (slice_cong _ _ (0 + n) 0 m λ k hk. ground arith)

-- What is put stands behind what was there.
pub ring_put-window :
    (base cap head : ℕ) (mem : Mem) (tail : ℕ) (src : Mem) (s n : ℕ)
    → head < cap
    → tail < cap
    → used cap head tail + n < cap
    → window base cap (ring_put base cap head mem tail src s n).0 head (used cap head tail + n)
      ≡ bytes base cap mem head tail ++ slice src s n
unfolding bytes
ring_put-window base cap head mem tail src s n hh ht fits =
    window-append base cap (ring_put base cap head mem tail src s n).0 head (used cap head tail) n
      hh (omega arith)
    ∙ ap₂ ◌++◌
        (slice_cong _ _ 0 0 (used cap head tail)
          λ k hk. ground (arith, ring_put-old base cap head mem tail src s n hh ht fits k))
        (slice_cong _ _ 0 s n
          λ k hk. ground (arith, ring_put-new base cap head mem tail src s n hh ht fits k))

-- What is taken is the front of the queue.
pub ring_get-slice :
    (base cap : ℕ) (mem : Mem) (head : ℕ) (dst : Mem) (d n : ℕ)
    → head < cap
    → n < cap
    → slice (ring_get base cap mem head dst d n).0 d n ≡ window base cap mem head n
unfolding window
ring_get-slice base cap mem head dst d n hh h =
    slice_cong _ _ d 0 n λ k hk. ring_get-bytes base cap mem head dst d n hh h k hk ∙ ground arith

-- What is put stands behind what was there: the bytes of the queue grow by those of the source.
pub bytes-ring_put :
    (base cap head : ℕ) (mem : Mem) (tail : ℕ) (src : Mem) (s n : ℕ)
    → head < cap
    → tail < cap
    → used cap head tail + n < cap
    → let (mem', tail') = ring_put base cap head mem tail src s n in
      bytes base cap mem' head tail' ≡ bytes base cap mem head tail ++ slice src s n
bytes-ring_put base cap head mem tail src s n hh ht fits =
    unfold bytes in
    rw
      (
        ring_put-tail base cap head mem tail src s n hh ht fits,
        used-slot_add cap head tail n hh ht fits,
      )
      (ring_put-window base cap head mem tail src s n hh ht fits)

pub length-window :
    (base cap : ℕ) (mem : Mem) (head n : ℕ) → length (window base cap mem head n) ≡ n
unfolding window
length-window base cap mem head n = length-slice (cell base cap mem head) 0 n

pub length-bytes :
    (base cap : ℕ) (mem : Mem) (head tail : ℕ)
    → length (bytes base cap mem head tail) ≡ used cap head tail
unfolding bytes
length-bytes base cap mem head tail = length-slice (cell base cap mem head) 0 (used cap head tail)

-- The front of a queue is cut off by moving the head.
pub bytes_front :
    (base cap : ℕ) (mem : Mem) (head tail n : ℕ) (a rest : List ℕ)
    → head < cap
    → tail < cap
    → length a ≡ n
    → bytes base cap mem head tail ≡ a ++ rest
    → (n < cap)
      × (used cap head tail ≡ n + length rest)
      × (window base cap mem head n ≡ a)
      × (bytes base cap mem (slot cap head n) tail ≡ rest)
bytes_front base cap mem head tail n a rest hh ht la e =
    (omega (arith, count, used-lt cap head tail hh ht), count, parts.0, left ∙ parts.1)
  where
    count : used cap head tail ≡ n + length rest
    count = omega (arith, length-bytes base cap mem head tail, ap length e, length-append a rest)

    cut :
        window base cap mem head n ++ window base cap mem (slot cap head n) (length rest)
        ≡ a ++ rest
    cut =
        sym (
          window-append base cap mem head n (length rest) hh
            (omega (arith, count, used-lt cap head tail hh ht)))
        ∙ ap (window base cap mem head) (sym count)
        ∙ unfold bytes in e

    parts :
        (window base cap mem head n ≡ a)
        × (window base cap mem (slot cap head n) (length rest) ≡ rest)
    parts =
        append_split (window base cap mem head n) a
          (window base cap mem (slot cap head n) (length rest)) rest
          (length-window base cap mem head n ∙ sym la) cut

    left :
        bytes base cap mem (slot cap head n) tail
        ≡ window base cap mem (slot cap head n) (length rest)
    left =
        unfold bytes in
        ap (window base cap mem (slot cap head n))
          (omega (arith, count, used-slot_head cap head tail n hh ht (omega (arith, count))))

-- The bytes of a queue depend on its own addresses alone.
pub bytes_frame :
    (base cap : ℕ) (mem mem' : Mem) (head tail : ℕ)
    → head < cap
    → tail < cap
    → ((a : ℕ) → base ≤ a → a < base + cap → mem' a ≡ mem a)
    → bytes base cap mem' head tail ≡ bytes base cap mem head tail
unfolding bytes window
bytes_frame base cap mem mem' head tail hh ht same = slice_cong _ _ 0 0 (used cap head tail) λ k hk.
    same (base + slot cap head (0 + k)) (omega arith) (ground (arith, used-lt cap head tail hh ht))

-- Up to the end of the memory a window is a plain range.
pub window_flat :
    (base cap : ℕ) (mem : Mem) (head n : ℕ)
    → head + n ≤ cap
    → window base cap mem head n ≡ slice mem (base + head) n
unfolding window
window_flat base cap mem head n le = slice_cong _ _ 0 (base + head) n λ k hk. ground arith

-- Moving the head over a part of the bytes takes that part off.
pub bytes_drop :
    (base cap : ℕ) (mem : Mem) (head tail n : ℕ)
    → head < cap
    → tail < cap
    → n ≤ used cap head tail
    → bytes base cap mem head tail
      ≡ window base cap mem head n ++ bytes base cap mem (slot cap head n) tail
unfolding bytes
bytes_drop base cap mem head tail n hh ht le =
    ap (window base cap mem head) (omega (arith, used-slot_head cap head tail n hh ht le))
    ∙ window-append base cap mem head n (used cap (slot cap head n) tail) hh
        (omega (arith, used-slot_head cap head tail n hh ht le, used-lt cap head tail hh ht))

pub bytes_same : (base cap : ℕ) (mem : Mem) (pos : ℕ) → bytes base cap mem pos pos ≡ []
bytes_same base cap mem pos =
    empty (bytes base cap mem pos pos) (ground (arith, length-bytes base cap mem pos pos))
  where
    empty : (xs : List ℕ) → length xs ≡ 0 → xs ≡ []
    empty [] e = refl
    empty (x ∷ xs) e = absurd (omega arith)
