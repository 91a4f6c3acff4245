-- ===== src/Dispatch/Tests.antt =====
-- A package for a target that has data already, and one for a target without a buffer.
use proc_bridge.Base.{◌≡◌, refl, arith, inl, true, slice, Mem}
use proc_bridge.Stlv.Sample.{sample_stlv, sample_stlv-IsSafe}
use proc_bridge.Package.{Head, head_len, store_head, load_head}
use proc_bridge.Carrier.Sample.{busy-IsOpen, sample_carrier, sample_carrier-Linked}
use proc_bridge.Target.{sent, data_len, empty_space, is_empty}
use proc_bridge.Sending.{Outside, append_sending_node}
use proc_bridge.Target.Buffer.{expand_target_buff, expand_copy, relocate, move_data, grown_len}
use proc_bridge.Target.Buffer.{add_int}
use proc_bridge.Target.Pack.{pkg_2_target, put_packed, put_round}
use proc_bridge.Carrier.{note_pkg}
use proc_bridge.Dispatch.{send_pkg, save_pkg, pack_into, init_buff, flush_first}
use proc_bridge.Dispatch.Whole.{Sound, Dispatched, send_pkg-Dispatched}

abbrev partly : Outside
partly = record { curr_ms = 1500; curr_ts = 1; first = λ a. sent 4; second = λ a. sent 2 }

-- A package without data, its head only.
abbrev head_only : Head
head_only = record { data_len = 0; sender_id = 5; recver_id = 12; send_ms = 1500; pkg_type = 0 }

abbrev pkg : Mem
pkg = store_head head_only

sample_carrier-Sound : Sound sample_carrier 1
sample_carrier-Sound = record {
  linked = sample_carrier-Linked;
  scheduled = λ a e. ground (arith, e);
  limits = record { max_fits = omega arith; block_fits = omega arith };
  fit = inl ((λ i. i), refl, busy-IsOpen, omega arith);
}

send_pkg-Dispatched_example :
    Dispatched sample_stlv sample_carrier 1 pkg
      (slice pkg 0 head_len)
      1
      (send_pkg sample_stlv (λ n. true) partly sample_carrier 1 pkg head_len)
send_pkg-Dispatched_example =
    send_pkg-Dispatched sample_stlv (λ n. true) partly sample_carrier 1 pkg head_len
      sample_stlv-IsSafe sample_carrier-Sound
      (λ e. record { takes_first = omega arith; takes_second = omega arith })

counted : (send_pkg sample_stlv (λ n. true) partly sample_carrier 1 pkg head_len).send.handled ≡ 1
unfolding send_pkg save_pkg pack_into init_buff flush_first append_sending_node pkg_2_target
    put_packed put_round empty_space is_empty data_len expand_target_buff note_pkg load_head
    store_head slice expand_copy relocate move_data grown_len add_int
counted = refl
