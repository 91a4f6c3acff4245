-- ===== src/Concurrent/Tests.antt =====
-- The interleavings at work on a small hub.
use proc_bridge.Base.{
  ◌≡◌, refl, arith, List, [], ◌∷◌, ◌++◌, map, zeroed, pos, as_mem, slice, if◌then◌else◌, leb_ℤ,
  ◌==◌, pos_part,
}
use proc_bridge.Package.{Package, encode}
use proc_bridge.Hub.{Hub, IsHub, get_snd_bit}
use proc_bridge.Hub.Sample.{sample_hub, sample_hub-IsHub}
use proc_bridge.Ring.{ring_space}
use proc_bridge.Ring.Content.{bytes_same}
use proc_bridge.Channel.{send_to_hub, send_checked, fetch_send_channel}
use proc_bridge.Channel.Queue.{SendHolds, encode_all}
use proc_bridge.Concurrent.{Call, Move, call_send, step_send, call_fetch, step_fetch, block, run}
use proc_bridge.Concurrent.Invariant.{Fits, call_package}
use proc_bridge.Concurrent.Fifo.{CallFits, at_rest, run-Fifo}
use proc_bridge.Concurrent.Alone.{repeat, sent_call, run-alone}
use proc_bridge.Concurrent.Race.{Done, fetch_around_send, send_around_fetch, run_lost}

-- Two bytes for process 7.
abbrev two_bytes : Call
two_bytes = record { target_id = 7; sending_data = as_mem (65 ∷ 66 ∷ []); len = 2; curr_ms = 1000 }

two_bytes-Fits : Fits two_bytes
two_bytes-Fits = record { target_fits = omega arith; len_fits = omega arith; ms_fits = omega arith }

-- The process sends, blocked too late, while the carrier looks at the queue and then fetches.
abbrev interleaved : List Move
interleaved =
    call_send two_bytes ∷ step_send ∷ call_fetch zeroed ∷ block 7 ∷ repeat 5 step_send
    ++ step_fetch ∷ step_send ∷ repeat 5 step_fetch

sample_hub-SendHolds : SendHolds sample_hub []
sample_hub-SendHolds = record {
  content = unfold encode_all in bytes_same 0 64 zeroed 50;
  packages = tt;
}

run-Fifo_example :
    let s = run interleaved (at_rest sample_hub []) in
    (q' : List Package) × IsHub s.hub
    × SendHolds s.hub q'
    × (map encode s.sent ≡ s.fetched ++ map encode q')
run-Fifo_example =
    run-Fifo sample_hub [] interleaved sample_hub-IsHub sample_hub-SendHolds
      (unfold CallFits in (two_bytes-Fits, search))

alone_at_work :
    (run (call_send two_bytes ∷ repeat 7 step_send) (at_rest sample_hub []) ≡ (
      let (h', ret) = sent_call sample_hub two_bytes in
      record (at_rest sample_hub []) {
        hub = h';
        sent = if leb_ℤ (pos 0) ret then [] ++ call_package sample_hub two_bytes ∷ [] else [];
      }))
    × (run (call_fetch zeroed ∷ repeat 6 step_fetch) (at_rest sample_hub []) ≡ (
        let (h', buff', ret) = fetch_send_channel sample_hub zeroed in
        record (at_rest sample_hub []) {
          hub = h';
          fetched =
              if sample_hub.send_head == sample_hub.send_tail
              then []
              else slice buff' 0 (pos_part ret) ∷ [];
        }))
alone_at_work = run-alone sample_hub [] two_bytes zeroed

-- The hub with something in its queue.
abbrev full_hub : Hub
full_hub = record sample_hub { send_head = 40; sending_count = pos 1 }

full_hub_accepts : (sent_call full_hub two_bytes).1 ≡ pos 0
unfolding send_to_hub send_checked get_snd_bit ring_space
full_hub_accepts = refl

run_lost_example :
    let down = run (fetch_around_send zeroed two_bytes) (at_rest full_hub []) in
    let up = run (send_around_fetch zeroed two_bytes) (at_rest full_hub []) in
    Done down ([] ++ call_package full_hub two_bytes ∷ [])
    × (down.hub.sending_count ≡ pos 0)
    × Done up ([] ++ call_package full_hub two_bytes ∷ [])
    × (up.hub.sending_count ≡ pos 2)
run_lost_example = run_lost full_hub [] two_bytes zeroed (λ e. omega arith) full_hub_accepts
