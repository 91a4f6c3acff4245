-- ===== src/Base/Memory.antt =====
-- Byte memory as C sees it: a pointer to bytes is a function from offsets, `memcpy` copies a range.
use Prim.Native.Nat.{ℕ, zero, suc, ◌+◌, ◌-◌, ◌≤◌, ◌<◌}
use mathlib.Core.Path.{◌≡◌, refl, ap, ◌∙◌}
use mathlib.Core.List.{List, [], ◌∷◌}
use mathlib.Core.Logic.{◌⊎◌}
use mathlib.Core.Bool.{◌&&◌}
use native.Mathlib.Omega.{arith}
use proc_bridge.Base.Tests.{ltb, leb, ◌==◌, if◌then◌else◌}
use proc_bridge.Base.Lists.{length, slice, slice_cong}

abbrev pub Mem : Type 0
Mem = ℕ → ℕ

-- memcpy(&dst[d] , &src[s] , n)
unfoldable pub memcpy : Mem → ℕ → Mem → ℕ → ℕ → Mem
memcpy dst d src s n j = if leb d j && ltb j (d + n) then src (s + (j - d)) else dst j

-- dst[i] = v
unfoldable pub store : Mem → ℕ → ℕ → Mem
store dst i v j = if j == i then v else dst j

-- Zeroed memory, as `calloc`, `memset` and `= {0}` give it.
abbrev pub zeroed : Mem
zeroed _ = 0

-- Inside the range that is written stand the bytes of the source.
pub memcpy_inside :
    (dst : Mem) (d : ℕ) (src : Mem) (s n j k : ℕ)
    → k < n
    → j ≡ d + k
    → memcpy dst d src s n j ≡ src (s + k)
unfolding memcpy
memcpy_inside dst d src s n j k h e =
    let same : s + (j - d) ≡ s + k = omega arith in ground (arith, ap src same)

-- Outside of it nothing changes.
pub memcpy_outside :
    (dst : Mem) (d : ℕ) (src : Mem) (s n j : ℕ)
    → (j < d) ⊎ (d + n ≤ j)
    → memcpy dst d src s n j ≡ dst j
unfolding memcpy
memcpy_outside dst d src s n j h = ground arith

-- The bytes of a list from offset 0 on.
unfoldable pub as_mem : List ℕ → Mem
as_mem [] i = 0
as_mem (b ∷ bs) zero = b
as_mem (b ∷ bs) (suc i) = as_mem bs i

pub slice-as_mem : (bs : List ℕ) → slice (as_mem bs) 0 (length bs) ≡ bs
unfolding as_mem slice
slice-as_mem [] = refl
slice-as_mem (b ∷ bs) =
    ap (λ t. b ∷ t)
      (slice_cong (as_mem (b ∷ bs)) (as_mem bs) 1 0 (length bs) (shift b bs) ∙ slice-as_mem bs)
  where
    step : (k : ℕ) → 1 + k ≡ suc k
    step k = omega arith

    start : (k : ℕ) → 0 + k ≡ k
    start k = omega arith

    shift :
        (b : ℕ) (bs : List ℕ) (k : ℕ) → k < length bs → as_mem (b ∷ bs) (1 + k) ≡ as_mem bs (0 + k)
    shift b bs k h = rw (step k, start k)
