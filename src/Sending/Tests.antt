-- ===== src/Sending/Tests.antt =====
-- The list of the targets with data, served once.
use proc_bridge.Base.{ℕ, ◌≡◌, sym, arith, true, false}
use mathlib.Core.Path.{subst}
use proc_bridge.Target.{sent}
use proc_bridge.Carrier.Sample.{busy-IsOpen, sample_carrier, sample_carrier-Linked, in_list}
use proc_bridge.Sending.{Outside, iter_sending_list}
use proc_bridge.Sending.Linked.{occurs}
use proc_bridge.Sending.Visit.{Ready}
use proc_bridge.Sending.Round.{Iterated, iter_sending_list-Iterated}

-- The socket takes the first four bytes, and then two.
abbrev partly : Outside
partly = record { curr_ms = 1500; curr_ts = 1; first = λ a. sent 4; second = λ a. sent 2 }

busy-Ready : Ready partly (sample_carrier.targets 1) 1
busy-Ready = record {
  open_target = λ e. busy-IsOpen;
  takes_first = λ e. omega arith;
  takes_second = omega arith;
}

iter_sending_list-Iterated_example :
    Iterated false sample_carrier (iter_sending_list false partly sample_carrier)
iter_sending_list-Iterated_example =
    iter_sending_list-Iterated false partly sample_carrier sample_carrier-Linked ready
  where
    ready :
        (a : ℕ) → occurs a sample_carrier.sending ≡ true → Ready partly (sample_carrier.targets a) a
    ready a e =
        subst (λ x. Ready partly (sample_carrier.targets x) x) (sym (in_list a e)) busy-Ready
