-- ===== src/Target/Put.antt =====
-- `pkg_2_target_stlv` as a queue of bytes: what it takes stands at the end of the waiting bytes.
use proc_bridge.Base.{
  ltb→lt, ltb-ge, ℤ, ℕ, ◌+◌, ◌-◌, ◌%◌, ◌^◌, ◌≤◌, ◌<◌, ◌≡◌, ◌⊎◌, ◌++◌, inl, inr, refl, ◌∙◌, arith,
  true, false, slice, ltb, leb, Bool-cases, pos, minus_one, Mem, memcpy,
}
use proc_bridge.Ring.{ring_put}
use proc_bridge.Ring.Content.{bytes, bytes_frame, bytes-ring_put}
use proc_bridge.Ring.Laws.{mod_slot, slot-lt, ring_put-tail}
use proc_bridge.Target.{Target, empty_space, buff_of}
use proc_bridge.Target.Stream.{IsOpen, content}
use proc_bridge.Target.Buffer.{pkg_2_target_stlv}
use proc_bridge.Target.Grow.{used_of}

pub empty_space-used :
    (t : Target)
    → IsOpen t
    → t.snd_buff_len < 2 ^ 63
    → empty_space t + used_of t + 1 ≡ t.snd_buff_len
unfolding empty_space
empty_space-used t o fits = ground arith

-- The length of the first copy, over `unsigned long`.
pub room_to_end :
    (len tail : ℕ) → tail < len → len < 2 ^ 63 → (len + 2 ^ 64 - tail) % 2 ^ 64 ≡ len - tail
room_to_end len tail lt fits = omega arith

-- The offset after both copies, where the second is made.
mod_round :
    (cap tail n : ℕ)
    → tail < cap
    → cap - tail < n
    → n < cap
    → ((tail + (cap - tail)) % cap ≡ 0) × ((0 + (n - (cap - tail))) % cap ≡ n - (cap - tail))
mod_round cap tail n lt more small = (
  ground (arith, mod_slot cap tail (cap - tail)),
  ground (arith, mod_slot cap 0 (n - (cap - tail))),
)

-- The copies are those of `ring_put`.
module _ (t : Target) (src : Mem) (n : ℕ) (o : IsOpen t) (fits : t.snd_buff_len < 2 ^ 63)
    (room : used_of t + n < t.snd_buff_len) where
  pub put_offsets :
      let r = pkg_2_target_stlv t src n in
      (r.1 ≡ pos 0)
      × (r.0.snd_head ≡ t.snd_head)
      × (r.0.snd_buff_len ≡ t.snd_buff_len)
      × (r.0.snd_tail ≡ (ring_put 0 t.snd_buff_len t.snd_head (buff_of t) t.snd_tail src 0 n).1)
  unfolding pkg_2_target_stlv ring_put
  put_offsets = rw (room_to_end t.snd_buff_len t.snd_tail o.tail_in fits) (
      ground (
        arith,
        empty_space-used t o fits,
        mod_slot t.snd_buff_len t.snd_tail n,
        mod_round t.snd_buff_len t.snd_tail n o.tail_in,
      ))

  put_bytes :
      (i : ℕ)
      → buff_of (pkg_2_target_stlv t src n).0 i
        ≡ (ring_put 0 t.snd_buff_len t.snd_head (buff_of t) t.snd_tail src 0 n).0 i
  unfolding pkg_2_target_stlv ring_put memcpy
  put_bytes i =
      rw (room_to_end t.snd_buff_len t.snd_tail o.tail_in fits, enough)
        (elim (Bool-cases (ltb t.snd_tail t.snd_head)) [
          | inl before ↦ rw (before, behind before) (ground arith)
          | inr after ↦ elim (Bool-cases (leb n (t.snd_buff_len - t.snd_tail))) [
            | inl flat ↦ rw (after, ahead after, flat, not_self) (ground arith)
            | inr round ↦
                let m0 =
                  mod_round t.snd_buff_len t.snd_tail n o.tail_in (ground (arith, round))
                    (omega arith) in
                rw (after, ahead after, round, le_lt round, m0.0) (ground arith)
          ]
        ])
    where
      not_self : ltb n n ≡ false
      not_self = ground arith

      enough : ltb (empty_space t) n ≡ false
      enough = ground (arith, empty_space-used t o fits)

      behind : ltb t.snd_tail t.snd_head ≡ true → leb t.snd_head t.snd_tail ≡ false
      behind e = ground (arith, e)

      ahead : ltb t.snd_tail t.snd_head ≡ false → leb t.snd_head t.snd_tail ≡ true
      ahead e = ground (arith, e)

      le_lt :
          leb n (t.snd_buff_len - t.snd_tail) ≡ false → ltb (t.snd_buff_len - t.snd_tail) n ≡ true
      le_lt e = ground (arith, e)

  -- The bytes that wait are then those before and the ones that were put.
  pub put-content : content (pkg_2_target_stlv t src n).0 ≡ content t ++ slice src 0 n
  put-content =
      let (z, h, l, b) = put_offsets in
      let put = ring_put 0 t.snd_buff_len t.snd_head (buff_of t) t.snd_tail src 0 n in
      (λ i. bytes 0 (l i) (buff_of (pkg_2_target_stlv t src n).0) (h i) (b i))
      ∙ bytes_frame 0 t.snd_buff_len put.0 (buff_of (pkg_2_target_stlv t src n).0) t.snd_head put.1
          o.head_in put_in (λ a _ _. put_bytes a)
      ∙ bytes-ring_put 0 t.snd_buff_len t.snd_head (buff_of t) t.snd_tail src 0 n o.head_in
          o.tail_in room
    where
      put_in :
          (ring_put 0 t.snd_buff_len t.snd_head (buff_of t) t.snd_tail src 0 n).1 < t.snd_buff_len
      put_in = omega (
        arith,
        ring_put-tail 0 t.snd_buff_len t.snd_head (buff_of t) t.snd_tail src 0 n o.head_in o.tail_in
            room,
        slot-lt t.snd_buff_len t.snd_tail n o.tail_in (omega arith),
      )

  pub put-IsOpen : IsOpen (pkg_2_target_stlv t src n).0
  put-IsOpen =
      let (z, h, l, b) = put_offsets in
      record {
        head_in = omega (arith, o.head_in);
        tail_in = omega (
          arith,
          ring_put-tail 0 t.snd_buff_len t.snd_head (buff_of t) t.snd_tail src 0 n o.head_in
              o.tail_in room,
          slot-lt t.snd_buff_len t.snd_tail n o.tail_in (omega arith),
        );
      }

-- The contract on the list of the bytes: all is taken, or nothing.
pub record Put (t : Target) (src : Mem) (n : ℕ) (t' : Target) (ret : ℤ) : Type 0 where
  pub open_still : IsOpen t'
  pub outcome :
      ((used_of t + n < t.snd_buff_len) × (ret ≡ pos 0) × (content t' ≡ content t ++ slice src 0 n))
      ⊎ ((t.snd_buff_len ≤ used_of t + n) × (ret ≡ minus_one) × (t' ≡ t))

-- pkg_2_target_stlv on a buffer shorter than 2^63 with its offsets inside: it returns 0 exactly if
-- the waiting bytes and the new ones leave one byte free, and then the new bytes wait behind the
-- others; else it returns -1 and nothing changed.
pub pkg_2_target_stlv-Put :
    (t : Target) (src : Mem) (n : ℕ)
    → IsOpen t
    → t.snd_buff_len < 2 ^ 63
    → let r = pkg_2_target_stlv t src n in Put t src n r.0 r.1
pkg_2_target_stlv-Put t src n o fits = elim (Bool-cases (ltb (used_of t + n) t.snd_buff_len)) [
  | inl room ↦
      let lt : used_of t + n < t.snd_buff_len = ltb→lt _ _ room in
      record {
        open_still = put-IsOpen t src n o fits lt;
        outcome = inl (lt, (put_offsets t src n o fits lt).0, put-content t src n o fits lt);
      }
  | inr full ↦
      let ge : t.snd_buff_len ≤ used_of t + n = ltb-ge _ _ full in
      rw (refused ge) record { open_still = o; outcome = inr (ge, refl, refl) }
]
  where
    refused : t.snd_buff_len ≤ used_of t + n → pkg_2_target_stlv t src n ≡ (t, minus_one)
    refused ge =
        let over : ltb (empty_space t) n ≡ true = ground (arith, empty_space-used t o fits) in
        unfold pkg_2_target_stlv in rw over refl
