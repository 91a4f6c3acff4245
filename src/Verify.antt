-- ===== src/Verify.antt =====
-- The key by which a carrier shows that it belongs to the same name space: `gen_verify_key` and
-- `do_verify_key` of src/carrier/carrier_lib.c. A name space is the list of its characters, as bytes; a
-- `char` is signed.
mod Tests
use proc_bridge.Base.{
  ℕ, zero, suc, ◌+◌, ◌-◌, ◌%◌, ◌<◌, ◌≡◌, refl, ap, ◌∙◌, arith, Bool, true, false, List, [], ◌∷◌,
  Every, ltb, ◌==◌, if◌then◌else◌, Bool-cases, inl, inr, ℤ, pos, negsuc, minus_one, pred_ℤ,
  pos_part, neg_part, Mem, store, zeroed,
}

-- `BRIDGE_PROC_CONN_VERIFY_KEY_LEN`
abbrev pub verify_key_len : ℕ
verify_key_len = 64

-- A byte read as a `char`.
abbrev pub char_value : ℕ → ℤ
char_value c = if ltb c 128 then pos c else negsuc (255 - c)

abbrev equal_ℤ : ℤ → ℤ → Bool
equal_ℤ a b = pos_part a + neg_part b == pos_part b + neg_part a

-- The loops from index `i` on, with `n` places of the key left.
unfoldable pub gen_loop : List ℕ → (i n : ℕ) → Mem → Mem
gen_loop [] i n key = key
gen_loop (c ∷ name_space) i zero key = key
gen_loop (c ∷ name_space) i (suc n) key =
    gen_loop name_space (suc i) n (store key i ((c + 1) % 256))

unfoldable pub check_loop : List ℕ → (i n : ℕ) → Mem → ℤ
check_loop [] i n key = pos 0
check_loop (c ∷ name_space) i zero key = pos 0
check_loop (c ∷ name_space) i (suc n) key =
    let rest = check_loop name_space (suc i) n key in
    if equal_ℤ (pred_ℤ (char_value (key i))) (char_value c) then rest else minus_one

-- `gen_verify_key`
unfoldable pub gen_verify_key : List ℕ → Mem → ℕ → Mem
unfolding gen_loop
gen_verify_key name_space key key_len = gen_loop name_space 0 key_len key

-- `do_verify_key`
unfoldable pub do_verify_key : List ℕ → Mem → ℕ → ℤ
unfolding check_loop
do_verify_key name_space key key_len = check_loop name_space 0 key_len key

-- Whether the first `n` characters of a name begin another name.
abbrev pub begins : ℕ → List ℕ → List ℕ → Bool
begins n [] peer = true
begins zero (c ∷ own) peer = true
begins (suc n) (c ∷ own) [] = false
begins (suc n) (c ∷ own) (d ∷ peer) = if c == d then begins n own peer else false

-- A character of plain ASCII text.
abbrev pub IsAscii : ℕ → Type 0
IsAscii c = c < 127

-- The test of one place of the key.
abbrev fits_char : ℕ → ℕ → Bool
fits_char k c = equal_ℤ (pred_ℤ (char_value k)) (char_value c)

next_char : (c d : ℕ) → c < 127 → d < 127 → fits_char ((d + 1) % 256) c ≡ (c == d)
next_char c d h k = ground arith

gen_loop_before :
    (peer : List ℕ) (i n : ℕ) (key : Mem) (j : ℕ) → j < i → gen_loop peer i n key j ≡ key j
unfolding gen_loop store
gen_loop_before [] i n key j h = refl
gen_loop_before (c ∷ peer) i zero key j h = refl
gen_loop_before (c ∷ peer) i (suc n) key j h =
    gen_loop_before peer (suc i) n (store key i ((c + 1) % 256)) j (omega arith) ∙ ground arith

-- The key that was made for `peer` meets the check for `own`.
loops_meet :
    (own peer : List ℕ) (i n : ℕ) (key : Mem)
    → Every IsAscii own
    → Every IsAscii peer
    → ((j : ℕ) → key (i + j) ≡ 0)
    → check_loop own i n (gen_loop peer i n key) ≡ (if begins n own peer then pos 0 else minus_one)
unfolding check_loop gen_loop store
loops_meet [] peer i n key a b z = refl
loops_meet (c ∷ own) peer i zero key a b z = refl
loops_meet (c ∷ own) [] i (suc n) key a b z =
    let here : key i ≡ 0 = ap key (omega arith) ∙ z 0 in
    let unequal : equal_ℤ (pred_ℤ (char_value (key i))) (char_value c) ≡ false =
      ap (λ x. equal_ℤ (pred_ℤ (char_value x)) (char_value c)) here ∙ ground (arith, a.0) in
    rw unequal refl
loops_meet (c ∷ own) (d ∷ peer) i (suc n) key a b z =
    let key' = store key i ((d + 1) % 256) in
    let here : gen_loop peer (suc i) n key' i ≡ (d + 1) % 256 =
      gen_loop_before peer (suc i) n key' i (omega arith) ∙ (unfold store in ground arith) in
    let test : fits_char (gen_loop peer (suc i) n key' i) c ≡ (c == d) =
      ap (λ x. fits_char x c) here ∙ next_char c d a.0 b.0 in
    let rest = loops_meet own peer (suc i) n key' a.1 b.1 (λ j. behind j ∙ z (suc j)) in
    elim (Bool-cases (c == d)) [
      | inl same ↦ rw (test, same) rest
      | inr other ↦ rw (test, other) refl
    ]
  where
    behind : (j : ℕ) → store key i ((d + 1) % 256) (suc i + j) ≡ key (i + suc j)
    behind j = let e : suc i + j ≡ i + suc j = omega arith in ground (arith, ap key e)

-- do_verify_key on the key that gen_verify_key makes for a peer into an array of zeros, for name
-- spaces of plain ASCII text: the key is accepted, with 0, exactly if the characters of the own name
-- space, as many as the key has places, are the first of the peer's; else the result is -1.
pub do_verify_key-gen_verify_key :
    (own peer : List ℕ) (key_len : ℕ)
    → Every IsAscii own
    → Every IsAscii peer
    → do_verify_key own (gen_verify_key peer zeroed key_len) key_len
      ≡ (if begins key_len own peer then pos 0 else minus_one)
unfolding do_verify_key gen_verify_key
do_verify_key-gen_verify_key own peer key_len a b =
    loops_meet own peer 0 key_len zeroed a b (λ j. refl)
