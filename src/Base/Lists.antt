-- ===== src/Base/Lists.antt =====
-- Lists measured by native numbers, under the library's names, and lists read off a function.
use Prim.Native.Nat.{ℕ, zero, suc, ◌+◌, ◌<◌}
use mathlib.Core.Path.{◌≡◌, refl, ap, ap₂}
use mathlib.Core.List.{List, [], ◌∷◌, ◌++◌}
use native.Mathlib.Omega.{arith}

module _ {ℓ} {A : Type ℓ} where
  abbrev pub length : List A → ℕ
  length [] = 0
  length (x ∷ xs) = suc (length xs)

  -- What holds of each member.
  abbrev pub Every {κ} : (A → Type κ) → List A → Type κ
  Every Good [] = Unit
  Every Good (head ∷ more) = Good head × Every Good more

  pub Every-append {κ} :
      (Good : A → Type κ) (left right : List A)
      → Every Good left
      → Every Good right
      → Every Good (left ++ right)
  Every-append Good [] right l r = r
  Every-append Good (head ∷ more) right l r = (l.0, Every-append Good more right l.1 r)

  pub length-append : (xs ys : List A) → length (xs ++ ys) ≡ length xs + length ys
  length-append [] ys = omega arith
  length-append (x ∷ xs) ys = omega (arith, length-append xs ys)

  -- The `n` values of `f` from `i` on.
  unfoldable pub slice : (ℕ → A) → ℕ → ℕ → List A
  slice f i zero = []
  slice f i (suc n) = f i ∷ slice f (suc i) n

  pub length-slice : (f : ℕ → A) (i n : ℕ) → length (slice f i n) ≡ n
  unfolding slice
  length-slice f i zero = refl
  length-slice f i (suc n) = ap suc (length-slice f (suc i) n)

  -- Two functions that agree on the ranges give the same list.
  pub slice_cong :
      (f g : ℕ → A) (i j n : ℕ)
      → ((k : ℕ) → k < n → f (i + k) ≡ g (j + k))
      → slice f i n ≡ slice g j n
  unfolding slice
  slice_cong f g i j zero h = refl
  slice_cong f g i j (suc n) h =
      ap₂ ◌∷◌ (cc (h 0 (omega arith), at_zero i, at_zero j))
        (slice_cong f g (suc i) (suc j) n λ k hk. cc (h (suc k) (omega arith), step i k, step j k))
    where
      at_zero : (x : ℕ) → x + 0 ≡ x
      at_zero x = omega arith

      step : (x k : ℕ) → x + suc k ≡ suc x + k
      step x k = omega arith

  pub slice-append : (f : ℕ → A) (i n m : ℕ) → slice f i (n + m) ≡ slice f i n ++ slice f (i + n) m
  unfolding slice
  slice-append f i zero m = cc (zero_add m, add_zero i)
    where
      zero_add : (x : ℕ) → zero + x ≡ x
      zero_add x = omega arith

      add_zero : (x : ℕ) → x + zero ≡ x
      add_zero x = omega arith
  slice-append f i (suc n) m = cc (suc_add n m, add_suc i n, slice-append f (suc i) n m)
    where
      suc_add : (x y : ℕ) → suc x + y ≡ suc (x + y)
      suc_add x y = omega arith

      add_suc : (x y : ℕ) → x + suc y ≡ suc x + y
      add_suc x y = omega arith

  -- Equal lists cut at equal lengths have equal parts.
  pub append_split : (a b x y : List A) → length a ≡ length b → a ++ x ≡ b ++ y → (a ≡ b) × (x ≡ y)
  append_split [] [] x y l e = (refl, e)
  append_split [] (c ∷ b) x y l e = absurd (omega arith)
  append_split (c ∷ a) [] x y l e = absurd (omega arith)
  append_split (c ∷ a) (d ∷ b) x y l e =
      let (p, q) = append_split a b x y (omega arith) (cc) in (cc, q)
