-- ===== src/Reading.antt =====
-- The reading side of a connection: `read_client_socket` of src/carrier/bridge_carrier.c cuts the stream of
-- a socket into packages and hands each on. The unpacker, what `recv` gives and the memory are parameters;
-- the packages that go to `manager_handle` and `recv_inner_proto` are handed out of the model, but
-- for the key check of `recv_inner_proto_req` of src/carrier/carrier_lib.c, by which a client is verified.
pub mod Stream
pub mod Whole
pub mod Values
pub mod Keeps
pub mod Deliver
pub mod Refuse
mod Tests
use proc_bridge.Base.{
  ℕ, zero, suc, ◌+◌, ◌-◌, ◌%◌, ◌^◌, Bool, true, false, not, ◌&&◌, ◌||◌, Option, none, some, List,
  [], ◌∷◌, ◌++◌, length, slice, ltb, leb, ◌==◌, if◌then◌else◌, is_zero, ℤ, pos, minus_one, Mem,
  memcpy,
}
use proc_bridge.Package.{head_len, load_head}
use proc_bridge.Hub.{Hub}
use proc_bridge.Stlv.{
  Stlv, FailInfo, buff_len, check_sum, other, Unpacked, not_unpacked, unpacked, write,
}
use proc_bridge.Client.{RecvBuffer, Client, recv_client_pkg}
use proc_bridge.Carrier.{Traffic, note_pkg, note_drop}
use proc_bridge.Verify.{verify_key_len, do_verify_key}

-- `sizeof(main_buff)`, and `BRIDGE_PKG_TYPE_CR_MSG`, `BRIDGE_PKG_TYPE_INNER_PROTO` and
-- `INNER_PROTO_VERIFY_REQ`
abbrev pub main_buff_size : ℕ
main_buff_size = 1048576

abbrev pub cr_msg : ℕ
cr_msg = 1

abbrev pub inner_proto : ℕ
inner_proto = 2

abbrev pub verify_req : ℕ
verify_req = 3

-- What the client's reading needs of `client_info_t` and of the carrier. `buff` is the buffer in use and
-- `back` the other one; a client that was freed is not `alive`. For the statements, `handled` lists
-- the values of all packages that were cut off, oldest first, whatever was then done with them.
-- `pack_buff` has BRIDGE_PACK_LEN bytes in the source; its end is not modelled.
pub record Reader : Type 0 where
  pub buff : Mem
  pub back : Mem
  pub tail : ℕ
  pub pack_buff : Mem
  pub alive : Bool
  pub verify : Bool
  pub name_space : List ℕ
  pub hub : Hub
  pub recv_buffer : RecvBuffer
  pub traffic : Traffic
  pub recv : Traffic
  pub reset_connect : ℕ
  pub handled : List (List ℕ)

-- What the outside gives: memory, the rounds of `flush_recving_buff`, and the clock.
pub record Feed : Type 0 where
  pub alloc : ℕ → Bool
  pub rounds : ℕ
  pub curr_ts : ℕ

-- `free_client_info` and the counts before it
unfoldable pub freed : Reader → Reader
freed r = record r { alive = false; reset_connect = (r.reset_connect + 1) % 2 ^ 32 }

-- Where `inner_proto_t` has its fields behind the head: `type`, `arg` of 128 bytes, and `data` at a
-- multiple of 8.
abbrev inner_type : Mem → ℕ
inner_type pkg = (load_head (λ i. pkg (head_len + i))).data_len

abbrev inner_key : Mem → Mem
inner_key pkg i = pkg (head_len + 136 + i)

-- The part of `recv_inner_proto` that changes the client: the request to verify it.
unfoldable pub recv_verify : Reader → Mem → Reader
recv_verify r pkg =
    if (inner_type pkg == verify_req)
      && is_zero (do_verify_key r.name_space (inner_key pkg) verify_key_len)
    then record r { verify = true }
    else r

-- A package for the process: it is counted, posted or kept, or dropped and counted.
abbrev note_ret : Reader → Client → ℕ → Reader
note_ret r c curr_ts =
    let dropped = not (is_zero c.ret) in
    record r {
      hub = c.hub;
      recv_buffer = c.recv_buffer;
      traffic = if dropped then note_drop r.traffic curr_ts else r.traffic;
      recv = if dropped then note_drop r.recv curr_ts else r.recv;
    }

unfoldable pub recv_pkg : Feed → Reader → Mem → Reader
recv_pkg w r pkg =
    let len = (load_head pkg).data_len in
    let counted = record r { traffic = note_pkg r.traffic len; recv = note_pkg r.recv len } in
    let recv_buffer = record r.recv_buffer { client_tail = r.tail } in
    note_ret counted (recv_client_pkg w.alloc w.rounds r.hub recv_buffer pkg w.curr_ts) w.curr_ts

-- What is done with a package that was cut off, and whether the reading stops there: a client that is
-- not verified may send no package for the process.
unfoldable pub handle_pkg : Feed → Reader → Mem → Reader × Bool
unfolding recv_verify recv_pkg freed
handle_pkg w r pkg =
    let pkg_type = (load_head pkg).pkg_type in
    if pkg_type == cr_msg
    then (r, false)
    else if pkg_type == inner_proto
    then (recv_verify r pkg, false)
    else if not r.verify
    then (freed r, true)
    else (recv_pkg w r pkg, false)

abbrev pub fails_hard : FailInfo → ℕ → Bool
fails_hard buff_len waiting = leb main_buff_size waiting
fails_hard check_sum waiting = true
fails_hard other waiting = false

-- The value goes to `pack_buff`, over what was there.
abbrev pub with_value : Reader → List ℕ → Reader
with_value r value = record r {
  pack_buff = write r.pack_buff 0 value;
  handled = r.handled ++ value ∷ [];
}

-- The loop that unpacks, on fuel: the reader, how far it got, and whether the client was closed.
unfoldable pub unpack_loop : Stlv → Feed → ℕ → Reader → ℕ → Option (Reader × ℕ × Bool)
unfolding handle_pkg
unpack_loop stlv w zero r cut = none
unpack_loop stlv w (suc fuel) r cut =
    if leb r.tail cut
    then some (r, cut, false)
    else (elim (stlv.unpack (slice r.buff cut (r.tail - cut))) [
      | not_unpacked info ↦
          if fails_hard info (r.tail - cut) then some (freed r, cut, true) else some (r, cut, false)
      | unpacked value pack_len ↦
          let r' = with_value r value in
          let h = handle_pkg w r' r'.pack_buff in
          elim h.1 [
            | true ↦ some (h.0, cut + pack_len, true)
            | false ↦ unpack_loop stlv w fuel h.0 (cut + pack_len)
          ]
    ])

-- What is left goes to the front of the other buffer.
unfoldable pub compact : Reader → ℕ → Reader
compact r cut = if leb r.tail cut then record r { tail = 0 } else if cut == 0 then r else record r {
  buff = memcpy r.back 0 r.buff cut (r.tail - cut);
  back = r.buff;
  tail = r.tail - cut;
}

abbrev pub after_unpack : Option (Reader × ℕ × Bool) → Option (Reader × Bool)
after_unpack none = none
after_unpack (some (r, cut, true)) = some (r, true)
after_unpack (some (r, cut, false)) = some (compact r cut, false)

-- One round of the outer loop after `recv` gave data. Every package takes at least a byte, so the
-- number of the bytes is fuel enough.
unfoldable pub read_data : Stlv → Feed → Reader → List ℕ → Option (Reader × Bool)
unfolding unpack_loop compact
read_data stlv w r got =
    let r' = record r { buff = write r.buff r.tail got; tail = r.tail + length got } in
    after_unpack (unpack_loop stlv w (suc r'.tail) r' 0)

-- What a call of `recv` gives: data, the end of the stream, EAGAIN, or another error.
pub data Recv : Type 0 where
  got : List ℕ → Recv
  ended would_block broken : Recv

-- What follows a round: the next one, or the end.
abbrev pub on_read : (Reader → Option (Reader × ℤ)) → Option (Reader × Bool) → Option (Reader × ℤ)
on_read go_on none = none
on_read go_on (some (r, true)) = some (r, minus_one)
on_read go_on (some (r, false)) = go_on r

-- `read_client_socket` for a client that was found, over what the calls of `recv` give. It stops at the
-- first that gives no data, and with -1 where the client is closed for what it sent; `none` is a
-- reading that goes on after the calls of the list.
unfoldable pub read_client_socket : Stlv → Feed → List Recv → Reader → Option (Reader × ℤ)
unfolding read_data freed
read_client_socket stlv w [] r = none
read_client_socket stlv w (would_block ∷ more) r = some (r, pos 0)
read_client_socket stlv w (ended ∷ more) r = some (freed r, pos 0)
read_client_socket stlv w (broken ∷ more) r = some (freed r, pos 0)
read_client_socket stlv w (got bytes ∷ more) r =
    on_read (read_client_socket stlv w more) (read_data stlv w r bytes)
