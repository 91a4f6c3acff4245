-- ===== src/Target/Tests.antt =====
-- A target's buffer at work.
use proc_bridge.Base.{
  ℕ, ◌+◌, ◌<◌, ◌≡◌, ◌≢◌, refl, arith, true, false, pos, minus_one, [], ◌∷◌, some, slice,
}
use proc_bridge.Hub.Sample.{sample_hub, sample_hub-IsHub}
use proc_bridge.Hub.{get_snd_bit}
use proc_bridge.Target.{
  Target, Env, connected, again, sent, flush_target, flush_target_2, flush_second, block_if_full,
  check_block, buff_of,
}
use proc_bridge.Target.Buffer.{
  mega, expand_target_buff, pkg_2_target_stlv, shrink_target, check_targets,
}
use proc_bridge.Target.Stream.{IsOpen, Streams, flush_target-Streams}
use proc_bridge.Target.Grow.{Expanded, expand_target_buff-Expanded}
use proc_bridge.Target.Shrink.{Pairwise, intact, check_targets-Pairwise}
use proc_bridge.Target.Put.{Put, pkg_2_target_stlv-Put}
use proc_bridge.Stlv.Sample.{sample_stlv, sample_stlv-IsSafe}
use proc_bridge.Target.Pack.{Packed, pkg_2_target, pkg_2_target-Packed}
use proc_bridge.Target.Stray.{shrink_target_stray}
use proc_bridge.Target.Block.{Synced, Steady, flush_target-Steady}
use proc_bridge.Target.Margin.{Margin, flush_target-Margin}

-- At the limit with 16 bytes, and blocking below 12.
abbrev demo_env : Env
demo_env = record {
  max_expand_size = 16;
  block_snd_size = 12;
  hub = sample_hub;
  reset_connect = 0;
  latest_reset = 0;
}

-- A buffer of `len` bytes whose byte `i` is `i`.
abbrev target_at : (len head tail : ℕ) → Target
target_at len head tail = record {
  state = connected;
  proc_id = 12;
  fd = pos 7;
  delay_starts_ms = 1000;
  latest_send_ts = 0;
  latest_send_bytes = 0;
  delay_time = 0;
  delay_count = 0;
  reset = 0;
  latest_reset = 0;
  snd_block = false;
  snd_buff_len = len;
  snd_head = head;
  snd_tail = tail;
  snd_buff = some (λ i. i);
  in_append = false;
}

-- Eight bytes that go round the end.
abbrev round : Target
round = target_at 16 12 4

round-IsOpen : IsOpen round
round-IsOpen = record { head_in = omega arith; tail_in = omega arith }

-- All of the first part goes out and two bytes of the second.
flush_target-Streams_example : Streams round (flush_target demo_env round 1500 (sent 4) (sent 2))
flush_target-Streams_example =
    flush_target-Streams demo_env round 1500 (sent 4) (sent 2) round-IsOpen (omega arith)
      (omega arith)

round-Synced : Synced demo_env round
round-Synced = record {
  valid = sample_hub-IsHub;
  id_fits = omega arith;
  bit = unfold get_snd_bit in refl;
}

flush_target-Steady_example :
    let f = flush_target demo_env round 1500 again again in Steady demo_env round f.env f.target
flush_target-Steady_example = flush_target-Steady demo_env round 1500 again again round-Synced

-- The socket takes nothing, so the peer is blocked.
flushed_full : (flush_target demo_env round 1500 again again).target.snd_block ≡ true
unfolding flush_target flush_target_2 block_if_full
flushed_full = refl

flushed_two : (flush_target demo_env round 1500 (sent 4) (sent 2)).ret ≡ pos 2
unfolding flush_target flush_target_2 flush_second check_block
flushed_two = refl

flush_target-Margin_example :
    Margin demo_env (flush_target demo_env round 1500 (sent 4) (sent 2)).target
flush_target-Margin_example =
    flush_target-Margin demo_env round 1500 (sent 4) (sent 2) round-IsOpen (omega arith)
      (omega arith) returned
  where
    returned : (flush_target demo_env round 1500 (sent 4) (sent 2)).ret ≢ minus_one
    returned = ground (arith, flushed_two)

abbrev wide_env : Env
wide_env = record demo_env { max_expand_size = 40 }

expand_target_buff-Expanded_example :
    let r = expand_target_buff (λ n. true) wide_env round in Expanded wide_env round r.0 r.1
expand_target_buff-Expanded_example =
    expand_target_buff-Expanded (λ n. true) wide_env round (λ i. i) round-IsOpen
      (record { max_fits = omega arith; block_fits = omega arith; len_fits = omega arith }) refl

pkg_2_target_stlv-Put_example :
    let r = pkg_2_target_stlv round (λ i. i + 100) 5 in Put round (λ i. i + 100) 5 r.0 r.1
pkg_2_target_stlv-Put_example =
    pkg_2_target_stlv-Put round (λ i. i + 100) 5 round-IsOpen (omega arith)

-- A megabyte with eight bytes that go round the end.
abbrev large : Target
large = target_at mega 1048572 4

checked-Pairwise : Pairwise (large ∷ []) (check_targets (λ n. true) (large ∷ [])).0
checked-Pairwise =
    check_targets-Pairwise (λ n. true) (large ∷ [])
      (
        intact (λ i. i) (record { head_in = omega arith; tail_in = omega arith }) refl (omega arith)
            (omega arith),
        tt,
      )

-- A megabyte that was emptied at its end.
abbrev emptied : Target
emptied = target_at mega 1048575 1048575

shrink_target_stray_example :
    let t' = (shrink_target (λ n. true) emptied).0 in
    let r = pkg_2_target_stlv t' (λ i. i + 100) 5 in
    (t'.snd_buff_len < t'.snd_tail) × (r.1 ≡ pos 0) × (buff_of r.0 t'.snd_tail ≡ 100)
shrink_target_stray_example =
    shrink_target_stray (λ n. true) emptied (λ i. i) (λ i. i + 100) 5
      (record { head_in = omega arith; tail_in = omega arith }) refl (omega arith) (omega arith)
      refl (omega arith) refl (omega arith) (omega arith)

-- A pack of seven bytes behind the four at the front of the buffer.
pkg_2_target-Packed_example :
    let r = pkg_2_target sample_stlv (target_at 32 28 4) (λ i. i + 100) 5 in
    Packed sample_stlv (target_at 32 28 4) (slice (λ i. i + 100) 0 5) r.0 r.1
pkg_2_target-Packed_example =
    pkg_2_target-Packed sample_stlv (target_at 32 28 4) (λ i. i + 100) 5 sample_stlv-IsSafe
      (record { head_in = omega arith; tail_in = omega arith }) (omega arith)
