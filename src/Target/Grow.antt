-- ===== src/Target/Grow.antt =====
-- A move of the data to another buffer keeps the bytes, and an expansion leaves more room.
use native.Mathlib.Nat.{mod-eq_of_lt}
use proc_bridge.Base.{
  ◌&&◌, ap₂, ◌^◌, int32, int32-of_small, ==_iff, ℕ, ◌+◌, ◌-◌, ◌≤◌, ◌<◌, ◌≡◌, ◌≢◌, ◌⊎◌, inl, inr,
  refl, ap, sym, ◌∙◌, arith, Bool, [], false, some, slice, slice_cong, ltb, leb, ◌==◌, Bool-cases,
  ℤ, pos, minus_one, Mem, memcpy, zeroed,
}
use proc_bridge.Ring.Laws.{slot, used, used-lt}
use proc_bridge.Ring.Content.{bytes, window, bytes_same}
use proc_bridge.Target.{Target, Env, buff_of, mem_of}
use proc_bridge.Target.Stream.{IsOpen, content}
use proc_bridge.Target.Buffer.{
  grown_len, next_len, relocate, move_data, add_int, expand_copy, expand_target_buff,
}

abbrev pub used_of : Target → ℕ
used_of t = used t.snd_buff_len t.snd_head t.snd_tail

-- The move with lengths that fit an `unsigned int`.
abbrev pub exact : Target → Mem → ℕ → Target
exact t m new_len = move_data t m new_len (t.snd_tail - t.snd_head) (t.snd_buff_len - t.snd_head)

pub relocate-exact :
    (t : Target) (m : Mem) (new_len : ℕ)
    → IsOpen t
    → t.snd_buff_len < 2 ^ 32
    → relocate t m new_len ≡ exact t m new_len
unfolding relocate
relocate-exact t m new_len o fits =
    ap₂ (move_data t m new_len) (mod-eq_of_lt (omega (arith, o.tail_in)))
      (mod-eq_of_lt (omega arith))

-- The offsets after a move of data that are there.
pub relocate_offsets :
    (t : Target) (m : Mem) (new_len : ℕ)
    → IsOpen t
    → t.snd_head ≢ t.snd_tail
    → ((exact t m new_len).snd_head ≡ 0)
      × ((exact t m new_len).snd_tail ≡ used_of t)
      × ((exact t m new_len).snd_buff_len ≡ new_len)
unfolding move_data
relocate_offsets t m new_len o ne = ground arith

-- Each byte stands at its place from the front on.
relocate_byte :
    (t : Target) (m : Mem) (new_len k : ℕ)
    → IsOpen t
    → t.snd_head ≢ t.snd_tail
    → k < used_of t
    → buff_of (exact t m new_len) k ≡ m (slot t.snd_buff_len t.snd_head k)
unfolding move_data memcpy
relocate_byte t m new_len k o ne lt = ground arith

-- The bytes in their order are kept by a move to a buffer that is longer than the data.
pub relocate-content :
    (t : Target) (m : Mem) (new_len : ℕ)
    → IsOpen t
    → t.snd_head ≢ t.snd_tail
    → used_of t < new_len
    → content (exact t m new_len) ≡ bytes 0 t.snd_buff_len m t.snd_head t.snd_tail
unfolding bytes window
relocate-content t m new_len o ne fits =
    let (h, l, s) = relocate_offsets t m new_len o ne in
    (λ i.
      slice (λ k. buff_of (exact t m new_len) (0 + slot (s i) (h i) k)) 0 (used (s i) (h i) (l i)))
    ∙ ap (slice (λ k. buff_of (exact t m new_len) (0 + slot new_len 0 k)) 0)
        (front new_len (used_of t))
    ∙ slice_cong _ _ 0 0 (used_of t) λ k hk.
      ap (buff_of (exact t m new_len)) (place new_len k (omega arith))
      ∙ relocate_byte t m new_len k o ne hk
      ∙ ap m (shift t.snd_buff_len t.snd_head k)
  where
    front : (cap n : ℕ) → used cap 0 n ≡ n
    front cap n = ground arith

    shift : (cap h k : ℕ) → slot cap h k ≡ 0 + slot cap h (0 + k)
    shift cap h k = ground arith

    place : (cap k : ℕ) → k < cap → 0 + slot cap 0 (0 + k) ≡ k
    place cap k lt = ground arith

pub relocate-IsOpen :
    (t : Target) (m : Mem) (new_len : ℕ)
    → IsOpen t
    → t.snd_head ≢ t.snd_tail
    → used_of t < new_len
    → IsOpen (exact t m new_len)
relocate-IsOpen t m new_len o ne fits =
    let (h, l, s) = relocate_offsets t m new_len o ne in
    record { head_in = omega arith; tail_in = omega arith }

-- With no data the offsets stay, inside a buffer that is not shorter.
relocate_none :
    (t : Target) (m : Mem) (new_len : ℕ)
    → IsOpen t
    → t.snd_head ≡ t.snd_tail
    → t.snd_buff_len ≤ new_len
    → (content (exact t m new_len) ≡ content t) × IsOpen (exact t m new_len)
unfolding move_data
relocate_none t m new_len o e le =
    rw (there, back)
      (here, record { head_in = omega (arith, o.head_in); tail_in = omega (arith, o.tail_in) })
  where
    there : ltb t.snd_head t.snd_tail ≡ false
    there = ground arith

    back : ltb t.snd_tail t.snd_head ≡ false
    back = ground arith

    empty : (cap : ℕ) (mem : Mem) → bytes 0 cap mem t.snd_head t.snd_tail ≡ []
    empty cap mem = ap (λ p. bytes 0 cap mem t.snd_head p) (sym e) ∙ bytes_same 0 cap mem t.snd_head

    here : bytes 0 new_len zeroed t.snd_head t.snd_tail ≡ content t
    here = empty new_len zeroed ∙ sym (empty t.snd_buff_len (buff_of t))

pub add_int-of_small : (x n : ℕ) → n < 2 ^ 31 → x < 2 ^ 63 → add_int x (int32 n) ≡ x + n
add_int-of_small x n h k =
    ap (add_int x) (int32-of_small n h) ∙ (unfold add_int in mod-eq_of_lt (omega arith))

-- How far a buffer grows: always by something, and past the limit by the blocking distance.
pub grown_len_bounds :
    (env : Env) (len : ℕ)
    → 0 < len
    → len < 2 ^ 32
    → env.max_expand_size < 2 ^ 32
    → env.block_snd_size < 2 ^ 31
    → (len < grown_len env len)
      × (env.max_expand_size ≤ grown_len env len
          → env.max_expand_size + env.block_snd_size ≤ grown_len env len)
unfolding grown_len
grown_len_bounds env len p q r s =
    elim (Bool-cases (
      leb env.max_expand_size (next_len len)
      && ltb (next_len len - env.max_expand_size) env.block_snd_size)) [
        | inl near ↦
            rw
              (
                near,
                add_int-of_small (next_len len)
                    (env.block_snd_size - (next_len len - env.max_expand_size)) (omega arith)
                    (ground arith),
              )
              (ground (arith, near), ground (arith, near))
        | inr far ↦ rw far (ground arith, ground (arith, far))
      ]

-- What the caller of an expansion gets: the bytes as they were and, if it returns 0, a longer
-- buffer, which past the limit has the blocking distance beyond it.
pub record Expanded (env : Env) (t t' : Target) (ret : ℤ) : Type 0 where
  pub kept : content t' ≡ content t
  pub open_still : IsOpen t'
  pub outcome :
      ((ret ≡ minus_one) × (t' ≡ t))
      ⊎ ((ret ≡ pos 0)
          × (t.snd_buff_len < t'.snd_buff_len)
          × (env.max_expand_size ≤ t'.snd_buff_len
              → env.max_expand_size + env.block_snd_size ≤ t'.snd_buff_len))

-- The limits are fields of 32 bits, and no buffer is longer than that.
pub record Sizes (env : Env) (t : Target) : Type 0 where
  pub max_fits : env.max_expand_size < 2 ^ 32
  pub block_fits : env.block_snd_size < 2 ^ 31
  pub len_fits : t.snd_buff_len < 2 ^ 32

-- The move to a buffer of the grown length is an expansion.
exact-Expanded :
    (env : Env) (t : Target) (m : Mem)
    → IsOpen t
    → Sizes env t
    → t.snd_buff ≡ some m
    → Expanded env t (exact t m (grown_len env t.snd_buff_len)) (pos 0)
exact-Expanded env t m o z b = elim (Bool-cases (t.snd_head == t.snd_tail)) [
  | inl e ↦
      let (c, o') =
        relocate_none t m (grown_len env t.snd_buff_len) o ((==_iff t.snd_head t.snd_tail).0 e)
          (omega (arith, grows)) in
      record { kept = c; open_still = o'; outcome = inr (refl, longer.0, longer.1) }
  | inr ne ↦
      let apart : t.snd_head ≢ t.snd_tail = ground (arith, ne) in
      record {
        kept =
            relocate-content t m (grown_len env t.snd_buff_len) o apart room
            ∙ ap (λ x. bytes 0 t.snd_buff_len (mem_of x) t.snd_head t.snd_tail) (sym b);
        open_still = relocate-IsOpen t m (grown_len env t.snd_buff_len) o apart room;
        outcome = inr (refl, longer.0, longer.1);
      }
]
  where
    grows : t.snd_buff_len < grown_len env t.snd_buff_len
    grows =
        (grown_len_bounds env t.snd_buff_len (omega (arith, o.head_in)) z.len_fits z.max_fits
          z.block_fits).0

    room : used_of t < grown_len env t.snd_buff_len
    room = omega (arith, grows, used-lt t.snd_buff_len t.snd_head t.snd_tail o.head_in o.tail_in)

    new_len : (exact t m (grown_len env t.snd_buff_len)).snd_buff_len ≡ grown_len env t.snd_buff_len
    new_len = unfold move_data in ground arith

    longer :
        let len = (exact t m (grown_len env t.snd_buff_len)).snd_buff_len in
        (t.snd_buff_len < len)
        × (env.max_expand_size ≤ len → env.max_expand_size + env.block_snd_size ≤ len)
    longer = rw new_len (
        grown_len_bounds env t.snd_buff_len (omega (arith, o.head_in)) z.len_fits z.max_fits
          z.block_fits)

-- expand_target_buff on an existing buffer keeps the waiting bytes and the offsets inside; it
-- returns -1 with the target as it was, or 0 with a longer buffer that, once it reaches
-- max_expand_size, has block_snd_size bytes beyond it (lengths and limits of 32 bits,
-- block_snd_size below 2^31).
pub expand_target_buff-Expanded :
    (calloc_ok : ℕ → Bool) (env : Env) (t : Target) (m : Mem)
    → IsOpen t
    → Sizes env t
    → t.snd_buff ≡ some m
    → let r = expand_target_buff calloc_ok env t in Expanded env t r.0 r.1
unfolding expand_target_buff
expand_target_buff-Expanded calloc_ok env t m o z b =
    elim (Bool-cases (leb env.max_expand_size t.snd_buff_len)) [
      | inl full ↦ rw full same
      | inr less ↦ elim (Bool-cases (calloc_ok (grown_len env t.snd_buff_len))) [
        | inl ok ↦ rw (less, some_len, ok, copies) (exact-Expanded env t m o z b)
        | inr none_left ↦ rw (less, some_len, none_left) same
      ]
    ]
  where
    some_len : (t.snd_buff_len == 0) ≡ false
    some_len = ground arith

    same : Expanded env t t minus_one
    same = record { kept = refl; open_still = o; outcome = inl (refl, refl) }

    copies :
        expand_copy t t.snd_buff (grown_len env t.snd_buff_len)
        ≡ exact t m (grown_len env t.snd_buff_len)
    copies =
        unfold expand_copy in
        ap (λ x. expand_copy t x (grown_len env t.snd_buff_len)) b
        ∙ relocate-exact t m (grown_len env t.snd_buff_len) o z.len_fits
