-- ===== src/Concurrent/Race.antt =====
-- `sending_count`, which `_send_to_bridge` counts up and `fetch_send_channel` counts down, each by
-- a load and a store that the other side can come between.
use proc_bridge.Base.{
  ◌+◌, ◌≡◌, ◌≢◌, refl, arith, List, [], ◌∷◌, ◌++◌, Mem, is_zero, not, ◌||◌, ◌==◌, ==-of_ne, false,
  pos, ltb_ℤ, sub_ℕ, int32, suc_ℤ, pred_ℤ, length,
}
use proc_bridge.Ring.{ring_space}
use proc_bridge.Package.{Package, head_len}
use proc_bridge.Hub.{Hub, get_snd_bit}
use proc_bridge.Channel.{send_to_hub, send_checked}
use proc_bridge.Concurrent.{
  Call, idle, resting, System, Move, call_send, step_send, call_fetch, step_fetch, send_start,
  send_step, fetch_start, fetch_step, begin_send, begin_fetch, log_sent, log_fetched, move, run,
}
use proc_bridge.Concurrent.Invariant.{call_package}
use proc_bridge.Concurrent.Fifo.{at_rest}
use proc_bridge.Concurrent.Alone.{repeat, sent_call}

-- What a call that returns 0 has tested.
record Accepted (h : Hub) (c : Call) : Type 0 where
  good : (c.target_id == 0 || c.len == 0) ≡ false
  clear : not (is_zero (get_snd_bit h c.target_id)) ≡ false
  room :
      ltb_ℤ
        (sub_ℕ (ring_space h.send_buff_size h.send_head h.send_tail) 1)
        (int32 (head_len + c.len))
      ≡ false

accepted : (h : Hub) (c : Call) → (sent_call h c).1 ≡ pos 0 → Accepted h c
unfolding send_to_hub send_checked
accepted h c ok = record { good = ground arith; clear = ground arith; room = ground arith }

-- The fetcher loads the count, the sender makes its call, and the fetcher stores the count.
abbrev pub fetch_around_send : Mem → Call → List Move
fetch_around_send buff c =
    call_fetch buff ∷ repeat 4 step_fetch
    ++ (call_send c ∷ repeat 7 step_send)
    ++ repeat 2 step_fetch

-- The sender loads the count, the fetcher takes a package and counts, and the sender stores.
abbrev pub send_around_fetch : Mem → Call → List Move
send_around_fetch buff c =
    call_fetch buff ∷ step_fetch ∷ (call_send c ∷ repeat 6 step_send)
    ++ repeat 5 step_fetch
    ++ repeat 1 step_send

-- Both calls have come to an end, each with a package.
pub record Done (s : System) (sent : List Package) : Type 0 where
  pub sender_idle : s.sender ≡ idle
  pub fetcher_resting : s.fetcher ≡ resting
  pub one_sent : s.sent ≡ sent
  pub one_fetched : length s.fetched ≡ 1

module _ (h : Hub) (q : List Package) (c : Call) (buff : Mem)
    (some_left : h.send_head ≢ h.send_tail) (ok : (sent_call h c).1 ≡ pos 0) where
  -- Where a package stands in the queue and the process may send another, one package is sent and
  -- one fetched, and yet `sending_count` is one less afterwards if the call of the process stands
  -- between the load and the store of the carrier, and one more if the load and the store of the
  -- carrier stand between those of the process.
  pub run_lost :
      let down = run (fetch_around_send buff c) (at_rest h q) in
      let up = run (send_around_fetch buff c) (at_rest h q) in
      Done down (q ++ call_package h c ∷ [])
      × (down.hub.sending_count ≡ pred_ℤ h.sending_count)
      × Done up (q ++ call_package h c ∷ [])
      × (up.hub.sending_count ≡ suc_ℤ h.sending_count)
  unfolding run move begin_send send_start send_step log_sent begin_fetch fetch_start fetch_step
      log_fetched
  run_lost =
      let a = accepted h c ok in
      rw (==-of_ne h.send_head h.send_tail some_left, a.good)
        (rw a.clear (
          rw a.room (
            record {
              sender_idle = refl;
              fetcher_resting = refl;
              one_sent = refl;
              one_fetched = refl;
            },
            refl,
            record {
              sender_idle = refl;
              fetcher_resting = refl;
              one_sent = refl;
              one_fetched = refl;
            },
            refl,
          )))
