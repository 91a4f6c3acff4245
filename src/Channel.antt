-- ===== src/Channel.antt =====
-- The operations on the two queues of a hub: `_send_to_bridge` and `_recv_from_bridge` of
-- src/library/proc_bridge.c, which the process calls, and `fetch_send_channel`,
-- `try_fetch_send_head` (src/carrier/bridge_carrier.c) and
-- `append_recv_channel` (src/carrier/carrier_lib.c), which the carrier calls. A null pointer is `none`.
-- Offsets lie below the queue sizes in every valid hub, so no subtraction of the code wraps there.
pub mod Queue
pub mod Send
pub mod Append
pub mod Fetch
pub mod Recv
pub mod Packed
pub mod Kept
mod Tests
use proc_bridge.Base.{
  is_zero, not, Bool, ℕ, zero, suc, ◌+◌, ◌/◌, ◌&&◌, ◌||◌, Option, none, some, ◌==◌, if◌then◌else◌,
  ℤ, pos, minus_one, minus_two, minus_three, ltb_ℤ, leb_ℤ, sub_ℕ, suc_ℤ, pred_ℤ, pos_part, int32,
  size_t, Mem, zeroed,
}
use proc_bridge.Ring.{ring_put, ring_get, ring_skip, ring_space}
use proc_bridge.Package.{Head, head_len, store_head, load_head}
use proc_bridge.Hub.{Hub, recv_channel, count_up, get_snd_bit}

-- The head that `_send_to_bridge` builds in its zeroed buffer: `pkg_type` stays 0.
abbrev pub send_head_of : Hub → (target len curr_ms : ℕ) → Head
send_head_of h target len curr_ms = record {
  data_len = len;
  sender_id = h.proc_id;
  recver_id = target;
  send_ms = curr_ms;
  pkg_type = 0;
}

-- Steps 3 to 6 of `_send_to_bridge`: the head, then the body, then the tail and the counters.
unfoldable pub send_copy : Hub → ℕ → Mem → ℕ → ℕ → Hub
send_copy h target src len curr_ms =
    let head = store_head (send_head_of h target len curr_ms) in
    let first = ring_put 0 h.send_buff_size h.send_head h.all_buff h.send_tail head 0 head_len in
    let second = ring_put 0 h.send_buff_size h.send_head first.0 first.1 src 0 len in
    record h {
      all_buff = second.0;
      send_tail = second.1;
      sending_count = suc_ℤ h.sending_count;
      sended_count = count_up h.sended_count;
    }

-- Steps 1 and 2: the bitmap, then the space. The sum of the lengths goes through an `int`.
unfoldable pub send_checked : Hub → ℕ → Mem → ℕ → ℕ → Hub × ℤ
unfolding send_copy
send_checked h target src len curr_ms =
    let total_count = int32 (head_len + len) in
    let empty_space = ring_space h.send_buff_size h.send_head h.send_tail in
    if not (is_zero (get_snd_bit h target))
    then (h, minus_three)
    else if ltb_ℤ (sub_ℕ empty_space 1) total_count
    then (h, minus_three)
    else (send_copy h target src len curr_ms, pos 0)

-- `_send_to_bridge`, with the reading of the clock in milliseconds.
unfoldable pub send_to_hub : Hub → ℤ → Option Mem → ℤ → ℕ → Hub × ℤ
send_to_hub h target_id none len curr_ms = (h, minus_one)
send_to_hub h target_id (some src) len curr_ms =
    if leb_ℤ target_id (pos 0) || leb_ℤ len (pos 0)
    then (h, minus_one)
    else send_checked h (pos_part target_id) src (pos_part len) curr_ms

-- Whether `_recv_from_bridge` drops a package for its age. `drop_time` counts seconds.
unfoldable pub is_stale : (drop_time : ℤ) (curr_ts send_ms : ℕ) → Bool
is_stale drop_time curr_ts send_ms =
    leb_ℤ (pos 0) drop_time && leb_ℤ drop_time (sub_ℕ curr_ts (send_ms / 1000))

-- What a call of `_recv_from_bridge` leaves: the hub, the caller's buffer, what goes through
-- `sender`, and the return value.
pub record Received : Type 0 where
  pub hub : Hub
  pub buff : Mem
  pub sender : Option ℕ
  pub ret : ℤ

-- One package is done with: step 5 of `_recv_from_bridge`.
abbrev pub recv_advance : Hub → ℕ → Hub
recv_advance h head_pos = record h { recving_count = pred_ℤ h.recving_count; recv_head = head_pos }

-- The loop of `_recv_from_bridge` over `goto _recv_again`, on fuel; `tail_pos` is read once. Each
-- round takes the head of a package off and passes over a stale one.
unfoldable pub recv_loop :
    ℕ → Hub → (head_pos tail_pos : ℕ) → Mem → (recv_len drop_time : ℤ) → ℕ → Option Received
recv_loop zero h head_pos tail_pos recv_buff recv_len drop_time curr_ts = none
recv_loop (suc fuel) h head_pos tail_pos recv_buff recv_len drop_time curr_ts =
    let channel_len = h.recv_buff_size in
    let got = ring_get (recv_channel h) channel_len h.all_buff head_pos zeroed 0 head_len in
    let head = load_head got.0 in
    let past = ring_skip channel_len got.1 head.data_len in
    let next =
      recv_loop fuel (recv_advance h past) past tail_pos recv_buff recv_len drop_time curr_ts in
    let body = ring_get (recv_channel h) channel_len h.all_buff got.1 recv_buff 0 head.data_len in
    if head_pos == tail_pos
    then some (record { hub = h; buff = recv_buff; sender = none; ret = minus_two })
    else if is_stale drop_time curr_ts head.send_ms
    then next
    else if ltb_ℤ recv_len (pos head.data_len)
    then some (record { hub = h; buff = recv_buff; sender = none; ret = minus_three })
    else some (record {
      hub = recv_advance h body.1;
      buff = body.0;
      sender = some head.sender_id;
      ret = pos head.data_len;
    })

-- `_recv_from_bridge` with the reading of the clock in seconds. Every round takes at least a byte
-- of a valid queue, so its size is fuel enough.
unfoldable pub recv_from_hub : Hub → Mem → (recv_len drop_time : ℤ) → ℕ → Option Received
unfolding recv_loop
recv_from_hub h recv_buff recv_len drop_time curr_ts =
    recv_loop (suc h.recv_buff_size) h h.recv_head h.recv_tail recv_buff recv_len drop_time curr_ts

-- `append_recv_channel`: the package `pkg` goes to the tail of the receive queue. The length of the
-- package goes through an `int`: a negative one passes the test of the space, and the copy then
-- takes it as a `size_t`.
unfoldable pub append_recv_channel : Hub → Mem → Hub × ℤ
append_recv_channel h pkg =
    let send_count = int32 (head_len + (load_head pkg).data_len) in
    let empty_space = ring_space h.recv_buff_size h.recv_head h.recv_tail in
    let put =
      ring_put (recv_channel h) h.recv_buff_size h.recv_head h.all_buff h.recv_tail pkg 0
        (size_t send_count) in
    if ltb_ℤ (sub_ℕ empty_space 1) send_count then (h, minus_three) else (
      record h {
        all_buff = put.0;
        recv_tail = put.1;
        recving_count = suc_ℤ h.recving_count;
        recved_count = count_up h.recved_count;
      },
      pos 0,
    )

-- `fetch_send_channel`: the hub, the buffer with the package, and the length of the package.
unfoldable pub fetch_send_channel : Hub → Mem → Hub × Mem × ℤ
fetch_send_channel h buff =
    let channel_len = h.send_buff_size in
    let got = ring_get 0 channel_len h.all_buff h.send_head buff 0 head_len in
    let data_len = (load_head got.0).data_len in
    let body = ring_get 0 channel_len h.all_buff got.1 got.0 head_len data_len in
    if h.send_head == h.send_tail then (h, buff, minus_two) else (
      record h { sending_count = pred_ℤ h.sending_count; send_head = body.1 },
      body.0,
      pos (head_len + data_len),
    )

-- `try_fetch_send_head`: the head of the first package, which stays in the queue.
unfoldable pub try_fetch_send_head : Hub → Mem → Mem × ℤ
try_fetch_send_head h buff =
    if h.send_head == h.send_tail
    then (buff, minus_two)
    else ((ring_get 0 h.send_buff_size h.all_buff h.send_head buff 0 head_len).0, pos head_len)
