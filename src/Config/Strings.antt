-- ===== src/Config/Strings.antt =====
-- The calls of the C library on strings, and the stripping of a line in `read_carrier_cfg` of
-- src/carrier/bridge_carrier.c.
use proc_bridge.Base.{
  ℕ, zero, suc, ◌+◌, ◌*◌, ◌-◌, ◌%◌, ◌^◌, Bool, true, false, ◌&&◌, ◌||◌, Option, none, some, List,
  [], ◌∷◌, ◌==◌, ltb, leb, if◌then◌else◌, ℤ, pos, negsuc, sub_ℕ, int32,
}

-- `strncpy`: exactly `n` bytes, zeros behind the end of the string.
unfoldable pub strncpy : ℕ → List ℕ → List ℕ
strncpy zero s = []
strncpy (suc n) [] = 0 ∷ strncpy n []
strncpy (suc n) (c ∷ s) = let rest = strncpy n s in if c == 0 then 0 ∷ strncpy n [] else c ∷ rest

-- `strchr` with the string cut there: what stands before the mark, and behind it.
unfoldable pub put_first : ℕ → Option (List ℕ × List ℕ) → Option (List ℕ × List ℕ)
put_first c none = none
put_first c (some (left, right)) = some (c ∷ left, right)

unfoldable pub cut_at : ℕ → List ℕ → Option (List ℕ × List ℕ)
unfolding put_first
cut_at mark [] = none
cut_at mark (c ∷ s) =
    let rest = put_first c (cut_at mark s) in if c == mark then some ([], s) else rest

abbrev pub is_space : ℕ → Bool
is_space c = (c == 32) || (leb 9 c && leb c 13)

abbrev pub is_digit : ℕ → Bool
is_digit c = leb 48 c && leb c 57

-- `strtol` in base 10, less its end pointer: the value, and whether it did not fit a `long`.
unfoldable pub read_digits : ℕ → List ℕ → ℕ
read_digits acc [] = acc
read_digits acc (c ∷ s) =
    let rest = read_digits (acc * 10 + (c - 48)) s in if is_digit c then rest else acc

abbrev pub to_long : Bool → ℕ → ℤ × Bool
to_long negative n =
    let limit = if negative then 2 ^ 63 else 2 ^ 63 - 1 in
    let m = if leb n limit then n else limit in (if negative then sub_ℕ 0 m else pos m, ltb limit n)

unfoldable pub read_sign : List ℕ → ℤ × Bool
unfolding read_digits
read_sign [] = (pos 0, false)
read_sign (c ∷ s) =
    if c == 45
    then to_long true (read_digits 0 s)
    else if c == 43
    then to_long false (read_digits 0 s)
    else to_long false (read_digits 0 (c ∷ s))

unfoldable pub strtol : List ℕ → ℤ × Bool
unfolding read_sign
strtol [] = (pos 0, false)
strtol (c ∷ s) = let rest = strtol s in if is_space c then rest else read_sign (c ∷ s)

-- Whether `strtol` finds a digit to begin with.
abbrev first_digit : List ℕ → Bool
first_digit [] = false
first_digit (c ∷ s) = is_digit c

unfoldable pub has_digits : List ℕ → Bool
has_digits [] = false
has_digits (c ∷ s) =
    let rest = has_digits s in
    if is_space c then rest else if (c == 45) || (c == 43) then first_digit s else is_digit c

-- A `long` stored in an `int` and in a `short`.
abbrev pub to_int : ℤ → ℤ
to_int (pos n) = int32 n
to_int (negsuc n) = int32 (2 ^ 32 - 1 - n % 2 ^ 32)

abbrev short : ℕ → ℤ
short n = if ltb n (2 ^ 15) then pos n else negsuc (2 ^ 16 - 1 - n)

abbrev pub to_short : ℤ → ℤ
to_short (pos n) = short (n % 2 ^ 16)
to_short (negsuc n) = short (2 ^ 16 - 1 - n % 2 ^ 16)

-- `atoi`
unfoldable pub atoi : List ℕ → ℤ
unfolding strtol
atoi s = to_int (strtol s).0

-- The newline goes, whatever the last character is.
unfoldable pub strip_last : List ℕ → List ℕ
strip_last [] = []
strip_last (c ∷ []) = []
strip_last (c ∷ d ∷ s) = c ∷ strip_last (d ∷ s)

-- White space goes, and so does all from a `#` on.
unfoldable pub shrink : List ℕ → List ℕ
shrink [] = []
shrink (c ∷ s) = let rest = shrink s in if is_space c then rest else c ∷ rest

unfoldable pub uncomment : List ℕ → List ℕ
uncomment [] = []
uncomment (c ∷ s) = let rest = uncomment s in if c == 35 then [] else c ∷ rest
