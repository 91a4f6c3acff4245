-- ===== src/Client/Tests.antt =====
-- Arrivals at a full and at an empty queue.
use proc_bridge.Base.{
  ◌+◌, ◌<◌, ◌≡◌, refl, arith, true, false, some, [], ◌∷◌, slice, pos, minus_two, Mem, ltb,
  if◌then◌else◌,
}
use proc_bridge.Ring.Content.{bytes}
use proc_bridge.Package.{Package, IsPackage, encode, head_of, head_len, store_head}
use proc_bridge.Hub.Sample.{sample_hub, sample_hub-IsHub}
use proc_bridge.Channel.Queue.{encode_all}
use proc_bridge.Channel.Append.{Carries}
use proc_bridge.Client.{RecvBuffer, recv_client_pkg, keep_pkg}
use proc_bridge.Client.Buffer.{BuffHolds}
use proc_bridge.Client.Fifo.{InOrder, recv_client_pkg-InOrder, keep_pkg_short}

abbrev hello : Package
hello = record { sender_id = 9; recver_id = 5; send_ms = 1500; pkg_type = 0; body = 65 ∷ 66 ∷ [] }

hello-IsPackage : IsPackage hello
hello-IsPackage = record {
  len_fits = omega arith;
  sender_fits = omega arith;
  recver_fits = omega arith;
  ms_fits = omega arith;
  type_fits = omega arith;
}

-- The bytes of the package, as they come from the socket.
abbrev hello_bytes : Mem
hello_bytes i = if ltb i head_len then store_head (head_of hello) i else i + 44

hello-Carries : Carries hello_bytes hello
unfolding slice encode
hello-Carries = refl

-- A buffer that holds one package already, 23 bytes.
abbrev waiting : RecvBuffer
waiting = record {
  buff_len = 204842;
  tail = 23;
  max_tail = 0;
  buff = some hello_bytes;
  delay_starts = 1;
  given = 204842;
  client_tail = 0;
}

waiting-BuffHolds : BuffHolds waiting (hello ∷ [])
unfolding slice encode encode_all
waiting-BuffHolds = record { content = refl; packages = (hello-IsPackage, tt) }

recv_client_pkg-InOrder_example :
    InOrder [] []
      (hello ∷ [])
      hello
      (recv_client_pkg (λ n. true) 5 sample_hub waiting hello_bytes 2)
recv_client_pkg-InOrder_example =
    recv_client_pkg-InOrder (λ n. true) 5 sample_hub waiting hello_bytes hello 2 [] [] (hello ∷ [])
      sample_hub-IsHub (record { content = unfold bytes slice encode_all in refl; packages = tt })
      (record { content = unfold bytes slice encode_all in refl; packages = tt }) waiting-BuffHolds
      hello-IsPackage hello-Carries

keep_pkg_short_example :
    let c' = (keep_pkg (λ m. false) (record waiting { tail = 204800 }) hello_bytes (pos 100) 2).0 in
    let r = keep_pkg (λ m. false) c' hello_bytes (pos 100) 2 in
    ((keep_pkg (λ m. false) (record waiting { tail = 204800 }) hello_bytes (pos 100) 2).1
      ≡ minus_two)
    × (r.1 ≡ pos 0)
    × (r.0.given < r.0.tail)
keep_pkg_short_example =
    keep_pkg_short (record waiting { tail = 204800 }) hello_bytes 2 100 (omega arith) (omega arith)
      refl (omega arith) (omega arith) (omega arith)
