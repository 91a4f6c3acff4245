-- ===== src/Target/Margin.antt =====
-- The room that is left when the peer is not blocked after `flush_target`.
use proc_bridge.Base.{
  ℕ, ◌+◌, ◌-◌, ◌≤◌, ◌<◌, ◌≡◌, ◌≢◌, refl, inl, inr, arith, false, ltb, ◌==◌, Bool-cases, minus_one,
  ltb→lt, List, ==_iff,
}
use proc_bridge.Target.{
  Target, Env, Sent, again, failed, sent, block_if_full, check_block, unblock_if_set, note_delay,
  all_sent, part_sent, flush_target_1, flush_second, flush_target_2, flush_target,
}
use proc_bridge.Target.Stream.{IsOpen, Takes, first_part}
use proc_bridge.Target.Grow.{used_of}

-- At the largest size, with bytes left to send, a peer that may be sent to has the blocking
-- distance free.
abbrev pub Margin : Env → Target → Type 0
Margin env t =
    t.snd_head ≢ t.snd_tail
    → env.max_expand_size ≤ t.snd_buff_len
    → t.snd_block ≡ false
    → env.block_snd_size + used_of t ≤ t.snd_buff_len

block_if_full-Margin :
    (env : Env) (t : Target) (e : ℕ)
    → IsOpen t
    → e + used_of t ≡ t.snd_buff_len
    → Margin env (block_if_full env t e).1
unfolding block_if_full
block_if_full-Margin env t e o k = ground arith

check_block-Margin :
    (env : Env) (t : Target) (e : ℕ)
    → e + used_of t ≡ t.snd_buff_len
    → Margin env (check_block env t e).1
unfolding check_block
check_block-Margin env t e k = ground arith

all_sent-Margin :
    (env : Env) (t : Target) (ms k : ℕ) → Margin env (unblock_if_set env (all_sent t ms k)).1
unfolding unblock_if_set note_delay
all_sent-Margin env t ms k = ground arith

flush_target_1-Margin :
    (env : Env) (t : Target) (ms : ℕ) (s : Sent)
    → IsOpen t
    → t.snd_head < t.snd_tail
    → Takes s (t.snd_tail - t.snd_head)
    → let f = flush_target_1 env t ms s in f.ret ≢ minus_one → Margin env f.target
unfolding flush_target_1
flush_target_1-Margin env t ms again o lt k _ = block_if_full-Margin env t _ o (ground arith)
flush_target_1-Margin env t ms failed o lt k ok = absurd (ok refl)
flush_target_1-Margin env t ms (sent n) o lt k ok =
    elim (Bool-cases (n == t.snd_tail - t.snd_head)) [
      | inl all ↦ rw all (all_sent-Margin env t ms n)
      | inr part ↦
          rw part
            (check_block-Margin env (part_sent t (t.snd_head + n) ms n) _ (ground (arith, part)))
    ]

flush_second-Margin :
    (env : Env) (t : Target) (ms done : ℕ) (wire : List ℕ) (s : Sent)
    → IsOpen t
    → t.snd_head ≡ 0
    → Takes s t.snd_tail
    → let f = flush_second env t ms done wire s in f.ret ≢ minus_one → Margin env f.target
unfolding flush_second
flush_second-Margin env t ms done wire again o z k _ = block_if_full-Margin env t _ o (ground arith)
flush_second-Margin env t ms done wire failed o z k ok = absurd (ok refl)
flush_second-Margin env t ms done wire (sent n) o z k ok = elim (Bool-cases (n == t.snd_tail)) [
  | inl all ↦ rw all (all_sent-Margin env t ms (n + done))
  | inr part ↦
      rw part (
        check_block-Margin env (part_sent t (t.snd_head + n) ms (n + done)) _
          (ground (arith, part)))
]

flush_target_2-Margin :
    (env : Env) (t : Target) (ms : ℕ) (s r : Sent)
    → IsOpen t
    → t.snd_tail < t.snd_head
    → Takes s (t.snd_buff_len - t.snd_head)
    → Takes r t.snd_tail
    → let f = flush_target_2 env t ms s r in f.ret ≢ minus_one → Margin env f.target
unfolding flush_target_2
flush_target_2-Margin env t ms again r o lt k l _ = block_if_full-Margin env t _ o (ground arith)
flush_target_2-Margin env t ms failed r o lt k l ok = absurd (ok refl)
flush_target_2-Margin env t ms (sent n) r o lt k l ok =
    elim (Bool-cases (n == t.snd_buff_len - t.snd_head)) [
      | inl all ↦ rw all (
          flush_second-Margin env (part_sent t 0 ms n) ms n _ r
            (record { head_in = omega (arith, o.head_in); tail_in = o.tail_in }) refl l
            (rw all at ok))
      | inr part ↦
          rw part
            (check_block-Margin env (part_sent t (t.snd_head + n) ms n) _ (ground (arith, part)))
    ]

-- After a flush that does not fail, a target with bytes left to send, at the largest size and with
-- its peer not blocked, has at least block_snd_size bytes of its buffer free.
pub flush_target-Margin :
    (env : Env) (t : Target) (ms : ℕ) (first second : Sent)
    → IsOpen t
    → Takes first (first_part t)
    → Takes second t.snd_tail
    → let f = flush_target env t ms first second in f.ret ≢ minus_one → Margin env f.target
unfolding flush_target
flush_target-Margin env t ms first second o k l = elim (Bool-cases (t.snd_head == t.snd_tail)) [
  | inl none_left ↦ rw none_left (λ _ some_left. absurd (some_left ((==_iff _ _).0 none_left)))
  | inr some_left ↦ elim (Bool-cases (ltb t.snd_head t.snd_tail)) [
    | inl flat ↦
        rw (some_left, flat)
          (flush_target_1-Margin env t ms first o (ltb→lt _ _ flat) (rw flat at k))
    | inr round ↦
        rw (some_left, round)
          (flush_target_2-Margin env t ms first second o (ground arith) (rw round at k) l)
  ]
]
