-- ===== src/Target/Stray.antt =====
-- A buffer that `check_snd_buff_memory` shrinks while it is empty keeps its offsets, which then lie
-- outside of it, and `pkg_2_target_stlv` writes there.
use native.Mathlib.Nat.{mod-eq_of_lt}
use proc_bridge.Base.{
  ℕ, ◌+◌, ◌-◌, ◌*◌, ◌/◌, ◌%◌, ◌^◌, ◌≤◌, ◌<◌, ◌≡◌, refl, ap, ◌∙◌, arith, Bool, true, false, some,
  ltb, leb, ◌==◌, ◌||◌, Mem, memcpy, zeroed, pos,
}
use proc_bridge.Target.{Target, data_len, empty_space, buff_of}
use proc_bridge.Target.Stream.{IsOpen}
use proc_bridge.Target.Buffer.{mega, shrink_buff, shrink_target, pkg_2_target_stlv}
use proc_bridge.Target.Shrink.{shrinks}

-- The target after the shrinking.
abbrev stray : Target → Target
stray t = record t { snd_buff = some zeroed; snd_buff_len = t.snd_buff_len * 2 / 3 }

shrink_buff-stray :
    (calloc_ok : ℕ → Bool) (t : Target) (m : Mem)
    → IsOpen t
    → mega ≤ t.snd_buff_len
    → t.snd_buff_len < 2 ^ 32
    → t.snd_head ≡ t.snd_tail
    → calloc_ok (t.snd_buff_len * 2 / 3) ≡ true
    → (shrink_buff calloc_ok t (some m)).0 ≡ stray t
unfolding shrink_buff
shrink_buff-stray calloc_ok t m o big fits e ok = rw (mod-eq_of_lt small, tests, ok, none_used) refl
  where
    small : t.snd_buff_len * 2 / 3 < 2 ^ 32
    small = omega arith

    tests : (ltb t.snd_buff_len mega || leb (t.snd_buff_len / 3) (data_len t % 2 ^ 32)) ≡ false
    tests = ground (arith, shrinks t o fits)

    none_used : (data_len t % 2 ^ 32 == 0) ≡ true
    none_used = ground (arith, shrinks t o fits)

put_stray :
    (t : Target) (src : Mem) (n : ℕ)
    → t.snd_head ≡ t.snd_tail
    → t.snd_tail < 2 ^ 32
    → t.snd_buff_len < t.snd_tail
    → 0 < n
    → n < t.snd_buff_len
    → let r = pkg_2_target_stlv t src n in (r.1 ≡ pos 0) × (buff_of r.0 t.snd_tail ≡ src 0)
unfolding pkg_2_target_stlv memcpy
put_stray t src n e small far p lt = rw (around, wide, here, whole, not_self) (refl, ground arith)
  where
    around : (t.snd_buff_len + 2 ^ 64 - t.snd_tail) % 2 ^ 64 ≡ t.snd_buff_len + 2 ^ 64 - t.snd_tail
    around = mod-eq_of_lt (omega arith)

    not_self : ltb n n ≡ false
    not_self = ground arith

    wide : ltb (empty_space t) n ≡ false
    wide = unfold empty_space in ground arith

    here : ltb t.snd_tail t.snd_head ≡ false
    here = ground arith

    whole : leb n (t.snd_buff_len + 2 ^ 64 - t.snd_tail) ≡ true
    whole = ground arith

-- An empty buffer of a megabyte or more (and shorter than 2^32) whose offsets lie beyond two
-- thirds of it is left by check_snd_buff_memory with its tail beyond the new end, and
-- pkg_2_target_stlv then returns 0 and writes its bytes there.
pub shrink_target_stray :
    (calloc_ok : ℕ → Bool) (t : Target) (m src : Mem) (n : ℕ)
    → IsOpen t
    → t.snd_buff ≡ some m
    → mega ≤ t.snd_buff_len
    → t.snd_buff_len < 2 ^ 32
    → t.snd_head ≡ t.snd_tail
    → t.snd_buff_len * 2 / 3 < t.snd_tail
    → calloc_ok (t.snd_buff_len * 2 / 3) ≡ true
    → 0 < n
    → n < t.snd_buff_len * 2 / 3
    → let t' = (shrink_target calloc_ok t).0 in
      let r = pkg_2_target_stlv t' src n in
      (t'.snd_buff_len < t'.snd_tail) × (r.1 ≡ pos 0) × (buff_of r.0 t'.snd_tail ≡ src 0)
unfolding shrink_target
shrink_target_stray calloc_ok t m src n o b big fits e far ok p lt =
    let put = put_stray (stray t) src n e (omega (arith, o.tail_in)) far p lt in
    rw (ap (λ x. (shrink_buff calloc_ok t x).0) b ∙ shrink_buff-stray calloc_ok t m o big fits e ok)
      (omega arith, put.0, put.1)
