-- ===== src/Stlv/Sample.antt =====
-- A packer to try the carrier with: a start byte, a length byte and the value.
use proc_bridge.Base.{
  Bool-cases, true, false, inl, inr, arith, ◌≢◌, length-append, ℕ, zero, suc, ◌+◌, ◌<◌, ◌≡◌, refl,
  ap, sym, ◌∙◌, List, [], ◌∷◌, ◌++◌, length, leb, ltb, ◌==◌, ◌||◌, ◌&&◌, if◌then◌else◌,
}
use proc_bridge.Stlv.{
  IsWhole, Stlv, IsSafe, IsWaiting, Unpacked, not_unpacked, unpacked, buff_len, check_sum,
}

abbrev take : ℕ → List ℕ → List ℕ
take zero bs = []
take (suc n) [] = []
take (suc n) (b ∷ bs) = b ∷ take n bs

abbrev pack : List ℕ → List ℕ
pack value = if leb (length value) 0 || leb 256 (length value) then [] else 2 ∷ length value ∷ value

abbrev unpack : List ℕ → Unpacked
unpack [] = not_unpacked buff_len
unpack (start ∷ []) = not_unpacked buff_len
unpack (start ∷ n ∷ bs) =
    if (start == 2) && (ltb 0 n && ltb n 256)
    then (if ltb (length bs) n then not_unpacked buff_len else unpacked (take n bs) (n + 2))
    else not_unpacked check_sum

abbrev pub sample_stlv : Stlv
sample_stlv = record { pack = pack; safe_len = λ n. n + 8; unpack = unpack }

pub sample_stlv-IsSafe : IsSafe sample_stlv
sample_stlv-IsSafe = record { within = λ value. ground arith }

some_length : (l : List ℕ) → l ≢ [] → 0 < length l
some_length [] p = absurd (p refl)
some_length (b ∷ l) p = omega arith

part :
    (packed bs rest value : List ℕ) (n : ℕ)
    → pack packed ≡ bs ++ rest
    → rest ≢ []
    → unpack bs ≢ unpacked value n
part packed [] rest value n e more q = cc (q)
part packed (start ∷ []) rest value n e more q = cc (q)
part packed (start ∷ k ∷ bs) rest value n e more q =
    elim (Bool-cases (leb (length packed) 0 || leb 256 (length packed))) [
      | inl bad ↦ let no_pack : pack packed ≡ [] = rw bad refl in absurd (cc (no_pack, e))
      | inr good ↦
          let whole : pack packed ≡ 2 ∷ length packed ∷ packed = rw good refl in
          let all : 2 ∷ length packed ∷ packed ≡ start ∷ k ∷ (bs ++ rest) = sym whole ∙ e in
          let body : packed ≡ bs ++ rest = cc (all) in
          let size : length packed ≡ k = cc (all) in
          let two : 2 ≡ start = cc (all) in
          let some_more = some_length rest more in
          let short : length bs < k =
            omega (arith, size, ap length body, length-append bs rest, some_more) in
          ground (arith, short, q)
    ]

pub sample_stlv-IsWaiting : IsWaiting sample_stlv
sample_stlv-IsWaiting = record { nothing = λ value n q. cc (q); part = part }

take_all : (value rest : List ℕ) → take (length value) (value ++ rest) ≡ value
take_all [] rest = refl
take_all (b ∷ value) rest = ap (λ x. b ∷ x) (take_all value rest)

back :
    (value rest : List ℕ)
    → pack value ≢ []
    → unpack (pack value ++ rest) ≡ unpacked value (length (pack value))
back value rest some_pack = elim (Bool-cases (leb (length value) 0 || leb 256 (length value))) [
  | inl bad ↦ absurd (some_pack (rw bad refl))
  | inr good ↦
      let enough : ltb (length (value ++ rest)) (length value) ≡ false =
        ground (arith, length-append value rest) in
      let least : ltb 0 (length value) ≡ true = ground (arith, good) in
      let most : ltb (length value) 256 ≡ true = ground (arith, good) in
      rw good (rw (least, most, enough, take_all value rest) (ap (unpacked value) (omega arith)))
]

pub sample_stlv-IsWhole : IsWhole sample_stlv
sample_stlv-IsWhole = record { back = back }
