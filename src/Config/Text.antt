-- ===== src/Config/Text.antt =====
-- The strings of the configuration: cutting, numbers in decimal, and what survives the stripping of
-- a line.
use native.Mathlib.Nat.{pow-succ'}
use proc_bridge.Base.{
  ℕ, zero, suc, ◌+◌, ◌*◌, ◌-◌, ◌^◌, ◌≤◌, ◌<◌, ◌≡◌, refl, ap, ◌∙◌, arith, true, false, some, List,
  [], ◌∷◌, ◌++◌, length, Every, ◌==◌, pos, int32-of_small, Bool-cases, inl, inr,
}
use proc_bridge.Config.{
  strncpy, put_first, cut_at, is_space, is_digit, read_digits, read_sign, strtol, atoi, to_long,
  to_int, strip_last, shrink, uncomment,
}

-- A character of a name or an address: no end of the string, space, `#` or `&`.
pub record IsPlain (c : ℕ) : Type 0 where
  pub not_mark : (c == 38) ≡ false
  pub not_comment : (c == 35) ≡ false
  pub not_space : is_space c ≡ false

abbrev pub IsDigit : ℕ → Type 0
IsDigit c = (48 ≤ c) × (c ≤ 57)

-- The number that decimal digits stand for.
abbrev pub decimal : List ℕ → ℕ
decimal [] = 0
decimal (c ∷ s) = (c - 48) * 10 ^ length s + decimal s

pub digit-IsPlain : (c : ℕ) → IsDigit c → IsPlain c
digit-IsPlain c d = record {
  not_mark = ground arith;
  not_comment = ground arith;
  not_space = ground arith;
}

pub digits-IsPlain : (s : List ℕ) → Every IsDigit s → Every IsPlain s
digits-IsPlain [] d = tt
digits-IsPlain (c ∷ s) d = (digit-IsPlain c d.0, digits-IsPlain s d.1)

read_digits-decimal :
    (s : List ℕ) (acc : ℕ) → Every IsDigit s → read_digits acc s ≡ acc * 10 ^ length s + decimal s
unfolding read_digits
read_digits-decimal [] acc d = omega arith
read_digits-decimal (c ∷ s) acc d =
    let here : is_digit c ≡ true = ground arith in
    rw here
      (read_digits-decimal s (acc * 10 + (c - 48)) d.1 ∙ rw (pow-succ' 10 (length s)) (omega arith))

small : (n : ℕ) → n < 2 ^ 31 → to_long false n ≡ (pos n, false)
small n h = ground arith

pub atoi-digits :
    (c : ℕ) (s : List ℕ)
    → Every IsDigit (c ∷ s)
    → decimal (c ∷ s) < 2 ^ 31
    → atoi (c ∷ s) ≡ pos (decimal (c ∷ s))
unfolding atoi strtol read_sign
atoi-digits c s d fits =
    let no_space : is_space c ≡ false = ground arith in
    let no_minus : (c == 45) ≡ false = ground arith in
    let no_plus : (c == 43) ≡ false = ground arith in
    let value : read_digits 0 (c ∷ s) ≡ decimal (c ∷ s) =
      read_digits-decimal (c ∷ s) 0 d ∙ omega arith in
    rw (no_space, no_minus, no_plus, value)
      (ap (λ t. to_int t.0) (small (decimal (c ∷ s)) fits) ∙ int32-of_small (decimal (c ∷ s)) fits)

pub cut_at-append :
    (s more : List ℕ) → Every IsPlain s → cut_at 38 (s ++ 38 ∷ more) ≡ some (s, more)
unfolding cut_at put_first
cut_at-append [] more p = refl
cut_at-append (c ∷ s) more p = rw (p.0.not_mark) (rw (cut_at-append s more p.1) refl)

-- The characters of a line that `read_carrier_cfg` keeps.
pub record Stays (c : ℕ) : Type 0 where
  pub not_comment : (c == 35) ≡ false
  pub not_space : is_space c ≡ false

pub IsPlain-Stays : (s : List ℕ) → Every IsPlain s → Every Stays s
IsPlain-Stays [] p = tt
IsPlain-Stays (c ∷ s) p =
    (record { not_comment = p.0.not_comment; not_space = p.0.not_space }, IsPlain-Stays s p.1)

pub shrink-Stays : (s : List ℕ) → Every Stays s → shrink s ≡ s
unfolding shrink
shrink-Stays [] p = refl
shrink-Stays (c ∷ s) p = rw (p.0.not_space) (ap (λ t. c ∷ t) (shrink-Stays s p.1))

pub uncomment-Stays : (s : List ℕ) → Every Stays s → uncomment s ≡ s
unfolding uncomment
uncomment-Stays [] p = refl
uncomment-Stays (c ∷ s) p = rw (p.0.not_comment) (ap (λ t. c ∷ t) (uncomment-Stays s p.1))

pub strip_last-append : (s : List ℕ) (c : ℕ) → strip_last (s ++ c ∷ []) ≡ s
unfolding strip_last
strip_last-append [] c = refl
strip_last-append (d ∷ []) c = refl
strip_last-append (d ∷ e ∷ s) c = ap (λ t. d ∷ t) (strip_last-append (e ∷ s) c)

strncpy_nil : (n : ℕ) → strncpy n (strncpy n []) ≡ strncpy n []
unfolding strncpy
strncpy_nil zero = refl
strncpy_nil (suc n) = refl

-- A copy of a copy is the copy.
pub strncpy-strncpy : (n : ℕ) (s : List ℕ) → strncpy n (strncpy n s) ≡ strncpy n s
unfolding strncpy
strncpy-strncpy zero s = refl
strncpy-strncpy (suc n) [] = refl
strncpy-strncpy (suc n) (c ∷ s) = elim (Bool-cases (c == 0)) [
  | inl e ↦ rw e refl
  | inr e ↦ rw e (rw e (ap (λ t. c ∷ t) (strncpy-strncpy n s)))
]
