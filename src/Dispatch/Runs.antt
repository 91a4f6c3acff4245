-- ===== src/Dispatch/Runs.antt =====
-- The loop on a package, with time for more, and a package of the carrier's own.
use proc_bridge.Base.{inl, refl, arith, true, some, [], ◌∷◌, slice, pos, zeroed}
use proc_bridge.Stlv.Sample.{sample_stlv, sample_stlv-IsSafe}
use proc_bridge.Package.{Package}
use proc_bridge.Ring.{ring_space}
use proc_bridge.Ring.Content.{bytes}
use proc_bridge.Hub.{Hub, get_snd_bit}
use proc_bridge.Hub.Sample.{sample_hub, sample_hub-IsHub}
use proc_bridge.Channel.{send_to_hub, send_checked}
use proc_bridge.Channel.Queue.{encode_all}
use proc_bridge.Channel.Kept.{Queued}
use proc_bridge.Channel.Send.{sent_package, send_to_hub_push}
use proc_bridge.Target.{sent, again}
use proc_bridge.Carrier.Sample.{sample_carrier, sample_carrier-Linked, busy-IsOpen}
use proc_bridge.Sending.{Outside}
use proc_bridge.Dispatch.Loop.{Round, with_hub, dispatch_bridge}
use proc_bridge.Dispatch.Inner.{inner_send_pkg}
use proc_bridge.Dispatch.Answer.{Answered, inner_send_pkg-Answered}
use proc_bridge.Dispatch.Order.{Ordered, dispatch_bridge-Ordered}

abbrev quiet : Outside
quiet = record { curr_ms = 1500; curr_ts = 1; first = λ a. sent 4; second = λ a. sent 2 }

abbrev posted : Hub
posted = (send_to_hub sample_hub (pos 12) (some zeroed) (pos 3) 1500).0

abbrev to_twelve : Package
to_twelve = sent_package sample_hub 12 zeroed 3 1500

posted-Queued : Queued posted (to_twelve ∷ []) []
unfolding send_to_hub send_checked get_snd_bit ring_space
posted-Queued =
    let k =
      send_to_hub_push sample_hub 12 zeroed 3 1500 [] [] sample_hub-IsHub (omega arith)
        (omega arith) (omega arith)
        (record { content = unfold bytes slice encode_all in refl; packages = tt })
        (record { content = unfold bytes slice encode_all in refl; packages = tt }) refl in
    record { valid = k.0; sending = k.1; receiving = k.2 }

abbrev start : Round
start = record { carrier = with_hub sample_carrier posted; buff = zeroed; taken = [] }

dispatch_bridge-Ordered_example :
    Ordered sample_stlv
      (λ n. true)
      (quiet ∷ quiet ∷ [])
      start
      (to_twelve ∷ [])
      []
      (dispatch_bridge sample_stlv (λ n. true) (quiet ∷ quiet ∷ []) start)
dispatch_bridge-Ordered_example =
    dispatch_bridge-Ordered sample_stlv (λ n. true) (quiet ∷ quiet ∷ []) start (to_twelve ∷ []) []
      posted-Queued

-- The sockets take nothing.
abbrev stuck : Outside
stuck = record { curr_ms = 1500; curr_ts = 1; first = λ a. again; second = λ a. again }

inner_send_pkg-Answered_example :
    Answered sample_stlv sample_carrier 1
      (slice zeroed 0 7)
      (inner_send_pkg sample_stlv (λ n. true) stuck stuck sample_carrier 1 zeroed 7)
inner_send_pkg-Answered_example =
    inner_send_pkg-Answered sample_stlv (λ n. true) stuck stuck sample_carrier 1 zeroed 7
      sample_stlv-IsSafe sample_carrier-Linked
      (record { max_fits = omega arith; block_fits = omega arith })
      (inl ((λ i. i), refl, busy-IsOpen, omega arith)) (λ e. refl) (omega arith)
      (λ e. record { takes_first = tt; takes_second = tt })
      (record { takes_first = tt; takes_second = tt })
