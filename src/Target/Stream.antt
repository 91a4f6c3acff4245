-- ===== src/Target/Stream.antt =====
-- The stream contract of `flush_target`: the bytes that the socket takes are the oldest ones of the
-- buffer, and the others stay, in order.
use proc_bridge.Base.{
  ap₂, ℕ, ◌+◌, ◌-◌, ◌≤◌, ◌<◌, ◌≡◌, refl, ap, sym, ◌∙◌, inl, inr, List, ◌++◌, append_assoc, arith,
  slice, ltb, ◌==◌, if◌then◌else◌, Bool-cases, ltb→lt,
}
use proc_bridge.Ring.Laws.{slot, used, used-lt, slot-lt}
use proc_bridge.Ring.Content.{bytes, window_flat, bytes_drop}
use proc_bridge.Target.{
  Target, Env, buff_of, mem_of, Sent, again, failed, sent, Flushed, block_if_full, check_block,
  unblock_if_set, note_delay, all_sent, part_sent, flush_target_1, flush_second, flush_target_2,
  flush_target,
}

-- The buffer has a length, and the offsets lie inside.
pub record IsOpen (t : Target) : Type 0 where
  pub head_in : t.snd_head < t.snd_buff_len
  pub tail_in : t.snd_tail < t.snd_buff_len

-- The bytes that wait, oldest first.
abbrev pub content : Target → List ℕ
content t = bytes 0 t.snd_buff_len (buff_of t) t.snd_head t.snd_tail

-- `send` takes no more than it is given.
abbrev pub Takes : Sent → ℕ → Type 0
Takes again k = Unit
Takes failed k = Unit
Takes (sent n) k = n ≤ k

-- What the first call is given.
abbrev pub first_part : Target → ℕ
first_part t =
    if ltb t.snd_head t.snd_tail then t.snd_tail - t.snd_head else t.snd_buff_len - t.snd_head

-- The target with its head at `p`, and what else may have changed.
abbrev AtHead : Target → ℕ → Target → Type 0
AtHead t p t' =
    (t'.snd_head ≡ p)
    × (t'.snd_tail ≡ t.snd_tail)
    × (t'.snd_buff_len ≡ t.snd_buff_len)
    × (t'.snd_buff ≡ t.snd_buff)

block_if_full-AtHead :
    (env : Env) (t : Target) (e : ℕ) → AtHead t t.snd_head (block_if_full env t e).1
unfolding block_if_full
block_if_full-AtHead env t e = ground arith

check_block-AtHead : (env : Env) (t : Target) (e : ℕ) → AtHead t t.snd_head (check_block env t e).1
unfolding check_block
check_block-AtHead env t e = ground arith

all_sent-AtHead :
    (env : Env) (t : Target) (ms k : ℕ)
    → AtHead t t.snd_tail (unblock_if_set env (all_sent t ms k)).1
unfolding unblock_if_set note_delay
all_sent-AtHead env t ms k = ground arith

-- The stream of a flush: what went out and what stays are what was there.
pub record Streams (t : Target) (f : Flushed) : Type 0 where
  pub kept : f.wire ++ content f.target ≡ content t
  pub open_still : IsOpen f.target

content_of_AtHead :
    (t t' : Target) (p : ℕ)
    → AtHead t p t'
    → content t' ≡ bytes 0 t.snd_buff_len (buff_of t) p t.snd_tail
content_of_AtHead t t' p (h, l, s, b) = λ i. bytes 0 (s i) (mem_of (b i)) (h i) (l i)

-- A move of the head over `n` bytes that do not pass the end of the buffer.
moved :
    (t t' : Target) (n p : ℕ)
    → IsOpen t
    → n ≤ used t.snd_buff_len t.snd_head t.snd_tail
    → t.snd_head + n ≤ t.snd_buff_len
    → p ≡ slot t.snd_buff_len t.snd_head n
    → AtHead t p t'
    → (slice (buff_of t) t.snd_head n ++ content t' ≡ content t) × IsOpen t'
moved t t' n p o le flat e at = (
  ap₂ ◌++◌
        (ap (λ k. slice (buff_of t) k n) (omega arith)
          ∙ sym (window_flat 0 t.snd_buff_len (buff_of t) t.snd_head n flat))
        (content_of_AtHead t t' p at ∙ ap (λ k. bytes 0 t.snd_buff_len (buff_of t) k t.snd_tail) e)
      ∙ sym
          (bytes_drop 0 t.snd_buff_len (buff_of t) t.snd_head t.snd_tail n o.head_in o.tail_in le),
  record {
    head_in = omega (
      arith,
      at,
      e,
      slot-lt t.snd_buff_len t.snd_head n o.head_in
          (omega (arith, used-lt t.snd_buff_len t.snd_head t.snd_tail o.head_in o.tail_in)),
    );
    tail_in = omega (arith, at);
  },
)

-- No move.
stays : (t t' : Target) → IsOpen t → AtHead t t.snd_head t' → (content t' ≡ content t) × IsOpen t'
stays t t' o at = (
  content_of_AtHead t t' t.snd_head at,
  record { head_in = omega (arith, at); tail_in = omega (arith, at) },
)

flush_target_1-Streams :
    (env : Env) (t : Target) (ms : ℕ) (s : Sent)
    → IsOpen t
    → t.snd_head < t.snd_tail
    → Takes s (t.snd_tail - t.snd_head)
    → Streams t (flush_target_1 env t ms s)
unfolding flush_target_1
flush_target_1-Streams env t ms again o lt k =
    let (c, o') = stays t _ o (block_if_full-AtHead env t _) in record { kept = c; open_still = o' }
flush_target_1-Streams env t ms failed o lt k = record { kept = refl; open_still = o }
flush_target_1-Streams env t ms (sent n) o lt k = elim (Bool-cases (n == t.snd_tail - t.snd_head)) [
  | inl all ↦ rw all (
      let (c, o') =
        moved t _ n t.snd_tail o (ground arith) (ground arith) (ground arith)
          (all_sent-AtHead env t ms n) in
      record { kept = c; open_still = o' })
  | inr part ↦ rw part (
      let (c, o') =
        moved t _ n (t.snd_head + n) o (ground arith) (ground arith) (ground arith)
          (check_block-AtHead env (part_sent t (t.snd_head + n) ms n) _) in
      record { kept = c; open_still = o' })
]

-- The second call goes on from what the first left: `wire` is what the first took.
flush_second-Streams :
    (env : Env) (t : Target) (ms done : ℕ) (wire : List ℕ) (s : Sent)
    → IsOpen t
    → t.snd_head ≡ 0
    → Takes s t.snd_tail
    → let f = flush_second env t ms done wire s in
      (f.wire ++ content f.target ≡ wire ++ content t) × IsOpen f.target
unfolding flush_second
flush_second-Streams env t ms done wire again o z k =
    let (c, o') = stays t _ o (block_if_full-AtHead env t _) in (ap (λ x. wire ++ x) c, o')
flush_second-Streams env t ms done wire failed o z k = (refl, o)
flush_second-Streams env t ms done wire (sent n) o z k = elim (Bool-cases (n == t.snd_tail)) [
  | inl all ↦ rw all (
      let (c, o') =
        moved t _ n t.snd_tail o (ground arith) (ground arith) (ground arith)
          (all_sent-AtHead env t ms (n + done)) in
      (join (unblock_if_set env (all_sent t ms (n + done))).1 c, o'))
  | inr part ↦ rw part (
      let (c, o') = moved t _ n (t.snd_head + n) o (ground arith) (ground arith) (ground arith) (
        check_block-AtHead env (part_sent t (t.snd_head + n) ms (n + done))
          (t.snd_buff_len - t.snd_tail + n)) in
      (
        join
            (check_block env (part_sent t (t.snd_head + n) ms (n + done))
              (t.snd_buff_len - t.snd_tail + n)).1
            c,
        o',
      ))
]
  where
    join :
        (t' : Target)
        → slice (buff_of t) t.snd_head n ++ content t' ≡ content t
        → (wire ++ slice (buff_of t) 0 n) ++ content t' ≡ wire ++ content t
    join t' c =
        append_assoc wire (slice (buff_of t) 0 n) (content t')
        ∙ ap (λ x. wire ++ (slice (buff_of t) x n ++ content t')) (sym z)
        ∙ ap (λ x. wire ++ x) c

flush_target_2-Streams :
    (env : Env) (t : Target) (ms : ℕ) (s r : Sent)
    → IsOpen t
    → t.snd_tail < t.snd_head
    → Takes s (t.snd_buff_len - t.snd_head)
    → Takes r t.snd_tail
    → Streams t (flush_target_2 env t ms s r)
unfolding flush_target_2
flush_target_2-Streams env t ms again r o lt k l =
    let (c, o') = stays t _ o (block_if_full-AtHead env t _) in record { kept = c; open_still = o' }
flush_target_2-Streams env t ms failed r o lt k l = record { kept = refl; open_still = o }
flush_target_2-Streams env t ms (sent n) r o lt k l =
    elim (Bool-cases (n == t.snd_buff_len - t.snd_head)) [
      | inl all ↦ rw all (
          let (c, o') =
            moved t (part_sent t 0 ms n) n 0 o (ground arith) (ground arith) (ground arith)
              (refl, refl, refl, refl) in
          let (c2, o2) =
            flush_second-Streams env (part_sent t 0 ms n) ms n (slice (buff_of t) t.snd_head n) r o'
              refl l in
          record { kept = c2 ∙ c; open_still = o2 })
      | inr part ↦ rw part (
          let (c, o') =
            moved t _ n (t.snd_head + n) o (ground arith) (ground arith) (ground arith)
              (check_block-AtHead env (part_sent t (t.snd_head + n) ms n) _) in
          record { kept = c; open_still = o' })
    ]

-- flush_target, whatever send takes of what it is given and whether it fails: the bytes that the
-- socket took, followed by the bytes that wait in the buffer afterwards, are the bytes that waited
-- before, and the offsets stay inside the buffer.
pub flush_target-Streams :
    (env : Env) (t : Target) (ms : ℕ) (first second : Sent)
    → IsOpen t
    → Takes first (first_part t)
    → Takes second t.snd_tail
    → Streams t (flush_target env t ms first second)
unfolding flush_target
flush_target-Streams env t ms first second o k l = elim (Bool-cases (t.snd_head == t.snd_tail)) [
  | inl none_left ↦ rw none_left (record { kept = refl; open_still = o })
  | inr some_left ↦ elim (Bool-cases (ltb t.snd_head t.snd_tail)) [
    | inl flat ↦
        rw (some_left, flat)
          (flush_target_1-Streams env t ms first o (ltb→lt _ _ flat) (rw flat at k))
    | inr round ↦
        rw (some_left, round)
          (flush_target_2-Streams env t ms first second o (ground arith) (rw round at k) l)
  ]
]
