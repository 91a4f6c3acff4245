-- ===== src/Client.antt =====
-- The receiving side of a carrier's connection, `recv_buffer` of `client_info_t` in
-- src/carrier/carrier_base.h: the packages that arrived while the receive queue of the hub was full.
-- The operations are `recv_client_pkg`, `expand_recv_buff` and `flush_recving_buff` of
-- src/carrier/bridge_carrier.c. Whether `calloc` has memory, and after how many rounds of the loop of
-- `flush_recving_buff` the clock shows 20 ms more, are parameters.
pub mod Buffer
pub mod Flush
pub mod Fifo
mod Tests
use proc_bridge.Base.{
  ℕ, zero, suc, ◌+◌, ◌-◌, ◌*◌, Bool, true, false, not, ◌&&◌, ◌||◌, Option, none, some, ltb, leb,
  ◌==◌, if◌then◌else◌, ℤ, pos, negsuc, minus_one, minus_two, sub_ℕ, ltb_ℤ, is_zero, int32, size_t,
  Mem, memcpy, zeroed,
}
use proc_bridge.Package.{head_len, pack_len_max, load_head}
use proc_bridge.Hub.{Hub}
use proc_bridge.Channel.{append_recv_channel}

-- `MAX_CLIENT_BUFF_SIZE`
abbrev pub max_client_buff_size : ℕ
max_client_buff_size = 1048576

-- `recv_buffer`, and with it the number of bytes that `calloc` gave for `buff` and the field `tail` of
-- the client itself, which `recv_client_pkg` reads.
pub record RecvBuffer : Type 0 where
  pub buff_len : ℕ
  pub tail : ℕ
  pub max_tail : ℕ
  pub buff : Option Mem
  pub delay_starts : ℕ
  pub given : ℕ
  pub client_tail : ℕ

abbrev pub buff_of : Option Mem → Mem
buff_of none = zeroed
buff_of (some m) = m

-- `GET_PACK_LEN`
abbrev pub pack_len : Mem → ℕ
pack_len pkg = head_len + (load_head pkg).data_len

-- `+= pkg_len` on an offset.
abbrev pub add_len : ℕ → ℤ → ℕ
add_len at (pos n) = at + n
add_len at (negsuc n) = at - suc n

abbrev pub is_stop : ℤ → Bool
is_stop (pos n) = false
is_stop (negsuc n) = ltb n 2

-- The loop of `flush_recving_buff`, over the rounds until the time is up: the hub, and how many bytes
-- of the buffer were posted. A queue that is full, -3, is tried again.
unfoldable pub flush_loop : ℕ → Hub → Mem → (tail flush_pos : ℕ) → Hub × ℕ
flush_loop zero h buff tail flush_pos = (h, flush_pos)
flush_loop (suc rounds) h buff tail flush_pos =
    let r = append_recv_channel h (λ i. buff (flush_pos + i)) in
    let next = add_len flush_pos (int32 (pack_len (λ i. buff (flush_pos + i)))) in
    let on = flush_loop rounds r.0 buff tail next in
    let again = flush_loop rounds r.0 buff tail flush_pos in
    if leb tail flush_pos
    then (h, flush_pos)
    else if is_zero r.1
    then on
    else if is_stop r.1
    then (r.0, flush_pos)
    else again

-- The end of `flush_recving_buff`: what is left moves to the front.
unfoldable pub after_flush : RecvBuffer → Mem → ℕ → RecvBuffer
after_flush c buff flush_pos =
    let rest = c.tail - flush_pos in
    let moved =
      if ltb 0 flush_pos
      then record c { buff = some (memcpy buff 0 buff flush_pos rest); tail = rest }
      else c in
    if leb moved.tail 0 then record moved { tail = 0; delay_starts = 0 } else moved

unfoldable pub flush_buff : ℕ → Hub → RecvBuffer → Option Mem → Hub × RecvBuffer
flush_buff rounds h c none = (h, c)
flush_buff rounds h c (some buff) =
    let done = flush_loop rounds h buff c.tail 0 in
    if leb c.tail 0 then (h, c) else (done.0, after_flush c buff done.1)

-- `flush_recving_buff`; the count that it returns is not used.
unfoldable pub flush_recving_buff : ℕ → Hub → RecvBuffer → Hub × RecvBuffer
flush_recving_buff rounds h c = flush_buff rounds h c c.buff

-- The copy into the new memory, if there is something to copy.
unfoldable pub copy_buff : RecvBuffer → Option Mem → Mem
copy_buff c none = zeroed
copy_buff c (some buff) = if ltb 0 c.tail then memcpy zeroed 0 buff 0 c.tail else zeroed

-- `expand_recv_buff`: the length is changed before the memory is there.
unfoldable pub expand_recv_buff : (ℕ → Bool) → RecvBuffer → RecvBuffer × ℤ
expand_recv_buff alloc c =
    let new_buff_len =
      if leb c.buff_len 0 then pack_len_max * 2 else c.buff_len + pack_len_max * 2 in
    if leb max_client_buff_size c.buff_len
    then (c, minus_two)
    else if not (alloc new_buff_len)
    then (if leb c.buff_len 0 then c else record c { buff_len = new_buff_len }, minus_two)
    else (
      record c { buff = some (copy_buff c c.buff); buff_len = new_buff_len; given = new_buff_len },
      pos 0,
    )

abbrev pub lacks : RecvBuffer → ℤ → Bool
lacks c pkg_len = ltb_ℤ (sub_ℕ c.buff_len c.tail) pkg_len

-- The package goes behind the others. A negative length is a huge size for the copy.
unfoldable pub put_pkg : RecvBuffer → Mem → (pkg_len : ℤ) → (curr_ts : ℕ) → RecvBuffer
put_pkg c pkg pkg_len curr_ts = record c {
  delay_starts = if leb c.tail 0 then curr_ts else c.delay_starts;
  buff = some (memcpy (buff_of c.buff) c.tail pkg 0 (size_t pkg_len));
  tail = add_len c.tail pkg_len;
  max_tail = if ltb c.max_tail c.client_tail then c.client_tail else c.max_tail;
}

-- The part of `recv_client_pkg` that puts a package into the buffer.
unfoldable pub keep_pkg :
    (ℕ → Bool) → RecvBuffer → Mem → (pkg_len : ℤ) → (curr_ts : ℕ) → RecvBuffer × ℤ
keep_pkg alloc c pkg pkg_len curr_ts =
    let e = expand_recv_buff alloc c in
    if lacks c pkg_len
    then (if not (is_zero e.1)
        then (e.0, minus_two)
        else if lacks e.0 pkg_len
        then (e.0, minus_two)
        else (put_pkg e.0 pkg pkg_len curr_ts, pos 0))
    else (put_pkg c pkg pkg_len curr_ts, pos 0)

-- What a call of `recv_client_pkg` leaves.
pub record Client : Type 0 where
  pub hub : Hub
  pub recv_buffer : RecvBuffer
  pub ret : ℤ

abbrev kept : Hub → RecvBuffer × ℤ → Client
kept h r = record { hub = h; recv_buffer = r.0; ret = r.1 }

-- `recv_client_pkg`, in which the length of the package is an `int`.
unfoldable pub recv_client_pkg : (ℕ → Bool) → ℕ → Hub → RecvBuffer → Mem → ℕ → Client
recv_client_pkg alloc rounds h c pkg curr_ts =
    let pkg_len = int32 (pack_len pkg) in
    let flushed = if ltb 0 c.tail then flush_recving_buff rounds h c else (h, c) in
    let posted = append_recv_channel flushed.0 pkg in
    if ltb 0 flushed.1.tail
    then kept flushed.0 (keep_pkg alloc flushed.1 pkg pkg_len curr_ts)
    else if is_zero posted.1
    then record { hub = posted.0; recv_buffer = flushed.1; ret = pos 0 }
    else kept posted.0 (keep_pkg alloc flushed.1 pkg pkg_len curr_ts)
