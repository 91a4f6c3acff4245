-- ===== src/Carrier/Counts.antt =====
-- The counts of packages: while the bytes counted stay below 2^32 the average lies between the least and
-- the greatest size, and beyond it falls short.
use native.Mathlib.Nat.{
  mod-eq_of_lt, le-div_iff_mul-le, div-lt_iff_lt-mul, mul-le-mul_left, mul-le-mul_right, mul_comm,
}
use proc_bridge.Base.{
  ℕ, ◌+◌, ◌-◌, ◌*◌, ◌/◌, ◌%◌, ◌^◌, ◌≤◌, ◌<◌, ◌≡◌, ◌⊎◌, inl, inr, ap, sym, ◌∙◌, arith, ltb, leb,
  if◌then◌else◌,
}
use proc_bridge.Carrier.{Traffic, note_pkg}

-- No package so far.
abbrev pub IsFresh : Traffic → Type 0
IsFresh t = (t.handled ≡ 0) × (t.min_size ≡ 0) × (t.max_size ≡ 0) × (t.ave_size ≡ 0)

pub record Within (t : Traffic) : Type 0 where
  pub some_handled : 0 < t.handled
  pub some_size : 0 < t.min_size
  pub least : t.min_size ≤ t.ave_size
  pub greatest : t.ave_size ≤ t.max_size

abbrev pub max : ℕ → ℕ → ℕ
max a b = if ltb a b then b else a

-- The average of `h` packages of `a` bytes and one of `len`.
average_bounds :
    (a h len lo hi : ℕ)
    → lo ≤ a
    → a ≤ hi
    → lo ≤ len
    → len ≤ hi
    → (h + 1) * hi < 2 ^ 32
    → (lo ≤ ((a * h + len) % 2 ^ 32) / (h + 1)) × (((a * h + len) % 2 ^ 32) / (h + 1) ≤ hi)
average_bounds a h len lo hi p q r s fits =
    let above : a * h ≤ hi * h = mul-le-mul_right h q in
    let below : lo * h ≤ a * h = mul-le-mul_right h p in
    let top : (h + 1) * hi ≡ hi * h + hi = grind arith in
    let bottom : lo * (h + 1) ≡ lo * h + lo = grind arith in
    let over : (hi + 1) * (h + 1) ≡ hi * h + hi + (h + 1) = grind arith in
    let whole : (a * h + len) % 2 ^ 32 ≡ a * h + len = mod-eq_of_lt (omega arith) in
    let some : 0 < h + 1 = omega arith in
    let low : lo ≤ (a * h + len) / (h + 1) = (le-div_iff_mul-le some).1 (omega arith) in
    let high : (a * h + len) / (h + 1) < hi + 1 = (div-lt_iff_lt-mul some).1 (omega arith) in
    rw whole (low, omega arith)

-- The count and the count before it, where no 32 bits are full.
counts_back :
    (h : ℕ) → h + 1 < 2 ^ 32 → ((h + 1) % 2 ^ 32 ≡ h + 1) × (((h + 1) + 2 ^ 32 - 1) % 2 ^ 32 ≡ h)
counts_back h lt = (omega arith, omega arith)

few : (h m : ℕ) → 0 < m → (h + 1) * m < 2 ^ 32 → h + 1 < 2 ^ 32
few h m p lt = let le : (h + 1) * 1 ≤ (h + 1) * m = mul-le-mul_left (h + 1) p in omega (arith, le)

-- note_pkg, for a package with data, on counts that are fresh or have their average between the least
-- and the greatest size, keeps it there as long as the number of packages times the greatest size
-- is below 2^32.
pub note_pkg-Within :
    (t : Traffic) (len : ℕ)
    → IsFresh t ⊎ Within t
    → 0 < len
    → (t.handled + 1) * max t.max_size len < 2 ^ 32
    → Within (note_pkg t len)
unfolding note_pkg
note_pkg-Within t len (inl (h, lo, hi, av)) some fits =
    let back = counts_back t.handled (few t.handled (max t.max_size len) (ground arith) fits) in
    let one =
      average_bounds len t.handled len len len (omega arith) (omega arith) (omega arith)
        (omega arith) (at_max (ground (arith, hi)) fits) in
    let same : t.ave_size * t.handled + len ≡ len * t.handled + len =
      ap (λ x. t.ave_size * x + len) h ∙ omega arith ∙ ap (λ x. len * x + len) (sym h) in
    rw (back.0, back.1, same)
      (record {
        some_handled = omega arith;
        some_size = ground (arith, lo);
        least = ground (arith, one, lo);
        greatest = ground (arith, one, hi);
      })
  where
    at_max : {m : ℕ} → m ≡ len → (t.handled + 1) * m < 2 ^ 32 → (t.handled + 1) * len < 2 ^ 32
    at_max e f = rw (sym e) f
note_pkg-Within t len (inr w) some fits =
    let back = counts_back t.handled (few t.handled (max t.max_size len) (ground arith) fits) in
    let lo = if leb t.min_size 0 then len else (if ltb len t.min_size then len else t.min_size) in
    let both =
      average_bounds t.ave_size t.handled len lo (max t.max_size len)
        (ground (arith, w.least, w.some_size)) (ground (arith, w.greatest))
        (ground (arith, w.some_size)) (ground arith) fits in
    rw (back.0, back.1)
      (record {
        some_handled = omega arith;
        some_size = ground (arith, w.some_size);
        least = both.0;
        greatest = both.1;
      })

-- After some packages of `len` bytes each, the next such one takes the average below all sizes, once
-- the bytes of all of them reach 2^32.
pub note_pkg_short :
    (t : Traffic) (len : ℕ)
    → 0 < t.handled
    → t.handled + 1 < 2 ^ 32
    → t.min_size ≡ len
    → t.max_size ≡ len
    → t.ave_size ≡ len
    → 2 ^ 32 ≤ (t.handled + 1) * len
    → (note_pkg t len).ave_size < (note_pkg t len).min_size
unfolding note_pkg
note_pkg_short t len some small lo hi av full =
    let back = counts_back t.handled small in
    let sum : t.ave_size * t.handled + len ≡ (t.handled + 1) * len =
      ap (λ x. x * t.handled + len) av ∙ grind arith in
    let cut : (t.ave_size * t.handled + len) % 2 ^ 32 < (t.handled + 1) * len =
      omega (arith, sum, full) in
    let under : (t.ave_size * t.handled + len) % 2 ^ 32 < len * (t.handled + 1) =
      omega (arith, cut, mul_comm len (t.handled + 1)) in
    let short : (t.ave_size * t.handled + len) % 2 ^ 32 / (t.handled + 1) < len =
      (div-lt_iff_lt-mul (omega arith)).1 under in
    rw (back.0, back.1) (ground (arith, short, lo))
