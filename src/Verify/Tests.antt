-- ===== src/Verify/Tests.antt =====
-- Keys of two name spaces.
use proc_bridge.Base.{
  ℕ, ◌≡◌, refl, arith, List, [], ◌∷◌, if◌then◌else◌, pos, minus_one, zeroed, store,
}
use proc_bridge.Verify.{
  begins, verify_key_len, gen_verify_key, do_verify_key, do_verify_key-gen_verify_key,
}

-- "echo" and "echo2"
abbrev echo : List ℕ
echo = 101 ∷ 99 ∷ 104 ∷ 111 ∷ []

abbrev echo2 : List ℕ
echo2 = 101 ∷ 99 ∷ 104 ∷ 111 ∷ 50 ∷ []

do_verify_key-gen_verify_key_example :
    do_verify_key echo (gen_verify_key echo zeroed verify_key_len) verify_key_len
    ≡ (if begins verify_key_len echo echo then pos 0 else minus_one)
do_verify_key-gen_verify_key_example =
    do_verify_key-gen_verify_key echo echo verify_key_len
      (omega arith, (omega arith, (omega arith, (omega arith, tt))))
      (omega arith, (omega arith, (omega arith, (omega arith, tt))))

-- A carrier of "echo" takes the key of "echo2", but not the other way round.
takes_longer :
    do_verify_key echo (gen_verify_key echo2 zeroed verify_key_len) verify_key_len ≡ pos 0
unfolding do_verify_key gen_verify_key store
takes_longer = refl

refuses_shorter :
    do_verify_key echo2 (gen_verify_key echo zeroed verify_key_len) verify_key_len ≡ minus_one
unfolding do_verify_key gen_verify_key store
refuses_shorter = refl
