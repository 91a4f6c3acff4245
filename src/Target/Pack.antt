-- ===== src/Target/Pack.antt =====
-- `pkg_2_target` of src/carrier/carrier_lib.c: a package is packed behind the tail of a target's
-- buffer, or, where the end of the buffer is near, into an array whose bytes are then copied round the
-- end.
use proc_bridge.Base.{
  ℕ, ◌+◌, ◌-◌, ◌%◌, ◌^◌, ◌≤◌, ◌<◌, ◌≡◌, ◌≢◌, ◌⊎◌, ◌∙◌, inl, inr, refl, ap, sym, arith, true, false,
  some, List, [], ◌∷◌, ◌++◌, length, length-slice, slice, slice-as_mem, ltb, leb, Bool-cases,
  if◌then◌else◌, ℤ, pos, minus_one, Mem, memcpy, as_mem,
}
use proc_bridge.Stlv.{Stlv, IsSafe, write}
use proc_bridge.Target.{Target, empty_space, buff_of}
use proc_bridge.Target.Stream.{IsOpen, content}
use proc_bridge.Target.Grow.{used_of}
use proc_bridge.Target.Buffer.{pkg_2_target_stlv}
use proc_bridge.Target.Put.{put_offsets, put-content, put-IsOpen, empty_space-used, room_to_end}

-- The offset goes on over `n` bytes, and round at the end.
abbrev tail_after : Target → ℕ → ℕ
tail_after t n = (t.snd_tail + n) % t.snd_buff_len

-- The copies out of the array: up to the end of the buffer, and the rest to its front.
unfoldable pub put_round : Target → List ℕ → Target
put_round t bs =
    let stlv_len = length bs in
    let room = (t.snd_buff_len + 2 ^ 64 - t.snd_tail) % 2 ^ 64 in
    let copy = if leb stlv_len room then stlv_len else room in
    let first = memcpy (buff_of t) t.snd_tail (as_mem bs) 0 copy in
    let mid = tail_after t copy in
    if ltb copy stlv_len
    then record t {
      snd_buff = some (memcpy first mid (as_mem bs) copy (stlv_len - copy));
      snd_tail = (mid + (stlv_len - copy)) % t.snd_buff_len;
    }
    else record t { snd_buff = some first; snd_tail = mid }

-- The three places where the packer is called, with what it gave: nothing where it failed.
unfoldable pub put_packed : Target → ℕ → List ℕ → Target × ℤ
unfolding put_round
put_packed t stlv_pre_len [] = (t, minus_one)
put_packed t stlv_pre_len (b ∷ bs) =
    let packed = write (buff_of t) t.snd_tail (b ∷ bs) in
    if ltb t.snd_tail t.snd_head
    then (
      record t { snd_buff = some packed; snd_tail = (t.snd_tail + length (b ∷ bs)) % 2 ^ 64 },
      pos 0,
    )
    else if leb stlv_pre_len ((t.snd_buff_len + 2 ^ 64 - t.snd_tail) % 2 ^ 64)
    then (record t { snd_buff = some packed; snd_tail = tail_after t (length (b ∷ bs)) }, pos 0)
    else (put_round t (b ∷ bs), pos 0)

-- `pkg_2_target`
unfoldable pub pkg_2_target : Stlv → Target → Mem → ℕ → Target × ℤ
unfolding put_packed
pkg_2_target stlv t pkg pkg_len =
    let stlv_pre_len = stlv.safe_len pkg_len in
    if ltb (empty_space t) stlv_pre_len
    then (t, minus_one)
    else put_packed t stlv_pre_len (stlv.pack (slice pkg 0 pkg_len))

-- All three ways are `pkg_2_target_stlv` on the packed bytes.
put_packed-stlv :
    (t : Target) (pre b : ℕ) (bs : List ℕ)
    → IsOpen t
    → t.snd_buff_len < 2 ^ 63
    → length (b ∷ bs) ≤ pre
    → used_of t + pre < t.snd_buff_len
    → put_packed t pre (b ∷ bs) ≡ pkg_2_target_stlv t (as_mem (b ∷ bs)) (length (b ∷ bs))
unfolding put_packed put_round pkg_2_target_stlv
put_packed-stlv t pre b bs o fits safe room =
    rw (room_to_end t.snd_buff_len t.snd_tail o.tail_in fits, enough)
      (elim (Bool-cases (ltb t.snd_tail t.snd_head)) [
        | inl before ↦ rw (before, small before) refl
        | inr after ↦ elim (Bool-cases (leb pre (t.snd_buff_len - t.snd_tail))) [
          | inl flat ↦ rw (after, flat, short flat, not_self) refl
          | inr round ↦
              rw (after, round)
                (elim (Bool-cases (leb (length (b ∷ bs)) (t.snd_buff_len - t.snd_tail))) [
                  | inl e ↦ rw (e, not_self) refl
                  | inr e ↦ rw (e, less e) refl
                ])
        ]
      ])
  where
    not_self : ltb (length (b ∷ bs)) (length (b ∷ bs)) ≡ false
    not_self = ground arith

    enough : ltb (empty_space t) (length (b ∷ bs)) ≡ false
    enough = ground (arith, empty_space-used t o fits)

    small :
        ltb t.snd_tail t.snd_head ≡ true
        → (t.snd_tail + length (b ∷ bs)) % 2 ^ 64 ≡ t.snd_tail + length (b ∷ bs)
    small e = ground (arith, e, o.head_in, o.tail_in)

    short :
        leb pre (t.snd_buff_len - t.snd_tail) ≡ true
        → leb (length (b ∷ bs)) (t.snd_buff_len - t.snd_tail) ≡ true
    short e = ground (arith, e)

    less :
        leb (length (b ∷ bs)) (t.snd_buff_len - t.snd_tail) ≡ false
        → ltb (t.snd_buff_len - t.snd_tail) (length (b ∷ bs)) ≡ true
    less e = ground (arith, e)

-- The contract on the list of the bytes: the pack stands behind what waited, or nothing changed.
pub record Packed (stlv : Stlv) (t : Target) (value : List ℕ) (t' : Target) (ret : ℤ) : Type 0 where
  pub open_still : IsOpen t'
  pub same_len : t'.snd_buff_len ≡ t.snd_buff_len
  pub outcome :
      ((used_of t + stlv.safe_len (length value) < t.snd_buff_len)
        × (stlv.pack value ≢ [])
        × (ret ≡ pos 0)
        × (content t' ≡ content t ++ stlv.pack value))
      ⊎ (((t.snd_buff_len ≤ used_of t + stlv.safe_len (length value)) ⊎ (stlv.pack value ≡ []))
          × (ret ≡ minus_one)
          × (t' ≡ t))

put_packed-Packed :
    (stlv : Stlv) (t : Target) (value bs : List ℕ)
    → IsSafe stlv
    → IsOpen t
    → t.snd_buff_len < 2 ^ 63
    → used_of t + stlv.safe_len (length value) < t.snd_buff_len
    → stlv.pack value ≡ bs
    → let r = put_packed t (stlv.safe_len (length value)) bs in Packed stlv t value r.0 r.1
unfolding put_packed
put_packed-Packed stlv t value [] safe o fits room e = record {
  open_still = o;
  same_len = refl;
  outcome = inr (inr e, refl, refl);
}
put_packed-Packed stlv t value (b ∷ bs) safe o fits room e =
    let within : length (b ∷ bs) ≤ stlv.safe_len (length value) =
      omega (arith, ap length e, safe.within value) in
    let fit : used_of t + length (b ∷ bs) < t.snd_buff_len = omega arith in
    let src = as_mem (b ∷ bs) in
    let offsets = put_offsets t src (length (b ∷ bs)) o fits fit in
    rw (put_packed-stlv t (stlv.safe_len (length value)) b bs o fits within room) (record {
      open_still = put-IsOpen t src (length (b ∷ bs)) o fits fit;
      same_len = offsets.2;
      outcome = inl (
        room,
        (λ none. cc),
        offsets.0,
        put-content t src (length (b ∷ bs)) o fits fit
            ∙ ap (λ x. content t ++ x) (slice-as_mem (b ∷ bs) ∙ sym e),
      );
    })

-- pkg_2_target, with a packer whose packs are no longer than STLV_PACK_SAFE_LEN says, on a buffer
-- shorter than 2^63 with its offsets inside: if the waiting bytes and STLV_PACK_SAFE_LEN of the
-- package leave one byte free and the packer does not fail, it returns 0 and the packed package
-- stands whole behind the bytes that waited; else it returns -1 and the target is as it was.
pub pkg_2_target-Packed :
    (stlv : Stlv) (t : Target) (pkg : Mem) (n : ℕ)
    → IsSafe stlv
    → IsOpen t
    → t.snd_buff_len < 2 ^ 63
    → let r = pkg_2_target stlv t pkg n in Packed stlv t (slice pkg 0 n) r.0 r.1
unfolding pkg_2_target
pkg_2_target-Packed stlv t pkg n safe o fits =
    elim (Bool-cases (ltb (empty_space t) (stlv.safe_len n))) [
      | inl full ↦
          rw full
            record { open_still = o; same_len = refl; outcome = inr (inl (over full), refl, refl) }
      | inr fit ↦
          rw (fit, ap stlv.safe_len (sym size))
            (put_packed-Packed stlv t (slice pkg 0 n) (stlv.pack (slice pkg 0 n)) safe o fits
              (room fit) refl)
    ]
  where
    size : length (slice pkg 0 n) ≡ n
    size = length-slice pkg 0 n

    over :
        ltb (empty_space t) (stlv.safe_len n) ≡ true
        → t.snd_buff_len ≤ used_of t + stlv.safe_len (length (slice pkg 0 n))
    over e = rw size (ground (arith, e, empty_space-used t o fits))

    room :
        ltb (empty_space t) (stlv.safe_len n) ≡ false
        → used_of t + stlv.safe_len (length (slice pkg 0 n)) < t.snd_buff_len
    room e = rw size (ground (arith, e, empty_space-used t o fits))

-- What the packing leaves alone.
put_packed_same :
    (t : Target) (pre : ℕ) (bs : List ℕ)
    → let t' = (put_packed t pre bs).0 in
      (t'.state ≡ t.state)
      × (t'.in_append ≡ t.in_append)
      × (t.snd_buff ≡ some (buff_of t) → t'.snd_buff ≡ some (buff_of t'))
unfolding put_packed put_round
put_packed_same t pre [] = (refl, refl, λ e. e)
put_packed_same t pre (b ∷ bs) = (ground arith, ground arith, λ e. ground arith)

pub pkg_2_target_same :
    (stlv : Stlv) (t : Target) (pkg : Mem) (n : ℕ)
    → let t' = (pkg_2_target stlv t pkg n).0 in
      (t'.state ≡ t.state)
      × (t'.in_append ≡ t.in_append)
      × (t.snd_buff ≡ some (buff_of t) → t'.snd_buff ≡ some (buff_of t'))
unfolding pkg_2_target
pkg_2_target_same stlv t pkg n = elim (Bool-cases (ltb (empty_space t) (stlv.safe_len n))) [
  | inl full ↦ rw full (refl, refl, λ e. e)
  | inr fit ↦ rw fit (put_packed_same t (stlv.safe_len n) (stlv.pack (slice pkg 0 n)))
]
