-- ===== src/Reading/Tests.antt =====
-- A stream that is cut in the middle of a pack.
use proc_bridge.Base.{arith, ℤ, ◌≡◌, some, List, refl, true, false, none, [], ◌∷◌, slice, zeroed}
use proc_bridge.Package.{Package, encode, store_head}
use proc_bridge.Hub.Sample.{sample_hub}
use proc_bridge.Stlv.Sample.{sample_stlv, sample_stlv-IsWaiting, sample_stlv-IsWhole}
use proc_bridge.Carrier.{no_traffic}
use proc_bridge.Reading.Refuse.{read_client_socket_unverified}
use proc_bridge.Reading.{read_client_socket, Recv, Reader, Feed, got, would_block}
use proc_bridge.Reading.Stream.{packs}
use proc_bridge.Reading.Deliver.{ForProcess}

abbrev new_client : Reader
new_client = record {
  buff = zeroed;
  back = zeroed;
  tail = 0;
  pack_buff = zeroed;
  alive = true;
  verify = false;
  name_space = 101 ∷ 99 ∷ [];
  hub = sample_hub;
  recv_buffer = record {
    buff_len = 0;
    tail = 0;
    max_tail = 0;
    buff = none;
    delay_starts = 0;
    given = 0;
    client_tail = 0;
  };
  traffic = no_traffic;
  recv = no_traffic;
  reset_connect = 0;
  handled = [];
}

abbrev sample_feed : Feed
sample_feed = record { alloc = λ n. true; rounds = 2; curr_ts = 1 }

-- A package of two bytes of process 9 for process 5.
abbrev two_bytes : Package
two_bytes = record { sender_id = 9; recver_id = 5; send_ms = 2500; pkg_type = 0; body = 7 ∷ 8 ∷ [] }

two_bytes-ForProcess : ForProcess two_bytes
two_bytes-ForProcess = record {
  fits = omega arith;
  no_msg = refl;
  no_inner = refl;
  small = omega arith;
}

abbrev verified_client : Reader
verified_client = record new_client { verify = true }

-- The pack of the package, in two parts.
abbrev two_parts : List Recv
two_parts = got (2 ∷ 23 ∷ []) ∷ got (encode two_bytes) ∷ would_block ∷ []

read_client_socket_unverified_example :
    (r' : Reader) × (ret : ℤ) × (read_client_socket sample_stlv sample_feed two_parts new_client
      ≡ some (r', ret))
    × (r'.verify ≡ false)
    × (r'.hub ≡ sample_hub)
    × (r'.recv_buffer ≡ new_client.recv_buffer)
    × (r'.recv ≡ no_traffic)
unfolding encode slice store_head packs
read_client_socket_unverified_example =
    read_client_socket_unverified sample_stlv sample_feed two_parts new_client (two_bytes ∷ []) tt
      sample_stlv-IsWaiting sample_stlv-IsWhole refl refl refl (two_bytes-ForProcess, tt)
      ((λ e. cc (e)), tt) refl
