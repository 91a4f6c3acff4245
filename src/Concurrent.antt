-- ===== src/Concurrent.antt =====
-- The process and its carrier at work on one send queue at the same time: `_send_to_bridge` of
-- src/library/proc_bridge.c and `fetch_send_channel` of src/carrier/bridge_carrier.c cut into their
-- accesses to the shared memory, in the order of the source, and run in any interleaving. A load or
-- a store of a field is one step, and so is a copy into or out of the queue; `++` and `--` are a
-- load and a store. Memory accesses take effect in the order of the program.

pub mod Stale
pub mod Invariant
pub mod Writes
pub mod Sends
pub mod Reads
pub mod Fetches
pub mod Fifo
pub mod Alone
pub mod Race
mod Tests
use proc_bridge.Base.{
  is_zero, not, ℕ, ◌+◌, ◌||◌, ◌==◌, if◌then◌else◌, ℤ, ltb_ℤ, sub_ℕ, suc_ℤ, pred_ℤ, int32, Mem, List,
  [], ◌∷◌, ◌++◌, slice,
}
use proc_bridge.Ring.{ring_put, ring_get, ring_space}
use proc_bridge.Package.{head_len, store_head, load_head, Package}
use proc_bridge.Hub.{Hub, count_up, get_snd_bit, set_snd_bit, clr_snd_bit}
use proc_bridge.Channel.{send_head_of}
use proc_bridge.Channel.Send.{sent_package}

-- The arguments of one call of `_send_to_bridge`, and its reading of the clock.
pub record Call : Type 0 where
  pub target_id : ℕ
  pub sending_data : Mem
  pub len : ℕ
  pub curr_ms : ℕ

-- How far `_send_to_bridge` has come, with its local variables.
pub data Sender : Type 0 where
  idle : Sender
  bit_clear : Call → Sender
  head_loaded : Call → (send_head : ℕ) → Sender
  space_found : Call → (send_head tail_pos : ℕ) → Sender
  head_copied : Call → (send_head tail_pos : ℕ) → Sender
  body_copied : Call → (tail_pos : ℕ) → Sender
  tail_stored : Sender
  count_loaded : ℤ → Sender

-- A call begins: the arguments and the bitmap are checked.
unfoldable pub send_start : Hub → Call → Sender
send_start h c =
    if c.target_id == 0 || c.len == 0
    then idle
    else if not (is_zero (get_snd_bit h c.target_id))
    then idle
    else bit_clear c

-- The next access of the sender.
unfoldable pub send_step : Hub → Sender → Hub × Sender
send_step h idle = (h, idle)
send_step h (bit_clear c) = (h, head_loaded c h.send_head)
send_step h (head_loaded c send_head) =
    let empty_space = ring_space h.send_buff_size send_head h.send_tail in
    if ltb_ℤ (sub_ℕ empty_space 1) (int32 (head_len + c.len))
    then (h, idle)
    else (h, space_found c send_head h.send_tail)
send_step h (space_found c send_head tail_pos) =
    let head = store_head (send_head_of h c.target_id c.len c.curr_ms) in
    let put = ring_put 0 h.send_buff_size send_head h.all_buff tail_pos head 0 head_len in
    (record h { all_buff = put.0 }, head_copied c send_head put.1)
send_step h (head_copied c send_head tail_pos) =
    let put = ring_put 0 h.send_buff_size send_head h.all_buff tail_pos c.sending_data 0 c.len in
    (record h { all_buff = put.0 }, body_copied c put.1)
send_step h (body_copied c tail_pos) = (record h { send_tail = tail_pos }, tail_stored)
send_step h tail_stored = (h, count_loaded h.sending_count)
send_step h (count_loaded count) =
    (record h { sending_count = suc_ℤ count; sended_count = count_up h.sended_count }, idle)

-- How far `fetch_send_channel` has come, with its buffer and local variables.
pub data Fetcher : Type 0 where
  resting : Fetcher
  head_seen : (buff : Mem) (head_pos : ℕ) → Fetcher
  package_seen : (buff : Mem) (head_pos : ℕ) → Fetcher
  head_taken : (buff : Mem) (head_pos data_len : ℕ) → Fetcher
  body_taken : (buff : Mem) (head_pos data_len : ℕ) → Fetcher
  count_seen : (buff : Mem) (head_pos data_len : ℕ) → ℤ → Fetcher
  count_stored : (buff : Mem) (head_pos data_len : ℕ) → Fetcher

-- A call begins: the head is loaded.
unfoldable pub fetch_start : Hub → Mem → Fetcher
fetch_start h buff = head_seen buff h.send_head

-- The next access of the fetcher.
unfoldable pub fetch_step : Hub → Fetcher → Hub × Fetcher
fetch_step h resting = (h, resting)
fetch_step h (head_seen buff head_pos) =
    if head_pos == h.send_tail then (h, resting) else (h, package_seen buff head_pos)
fetch_step h (package_seen buff head_pos) =
    let got = ring_get 0 h.send_buff_size h.all_buff head_pos buff 0 head_len in
    (h, head_taken got.0 got.1 (load_head got.0).data_len)
fetch_step h (head_taken buff head_pos data_len) =
    let got = ring_get 0 h.send_buff_size h.all_buff head_pos buff head_len data_len in
    (h, body_taken got.0 got.1 data_len)
fetch_step h (body_taken buff head_pos data_len) =
    (h, count_seen buff head_pos data_len h.sending_count)
fetch_step h (count_seen buff head_pos data_len count) =
    (record h { sending_count = pred_ℤ count }, count_stored buff head_pos data_len)
fetch_step h (count_stored buff head_pos data_len) = (record h { send_head = head_pos }, resting)

-- The hub and its two users, with what the calls that are over have sent and fetched so far.
pub record System : Type 0 where
  pub hub : Hub
  pub sender : Sender
  pub fetcher : Fetcher
  pub sent : List Package
  pub fetched : List (List ℕ)

-- A package is sent when the tail is stored, and fetched when the head is.
unfoldable pub log_sent : Hub → Sender → List Package → List Package
log_sent h (body_copied c tail_pos) sent =
    sent ++ sent_package h c.target_id c.sending_data c.len c.curr_ms ∷ []
log_sent h _ sent = sent

unfoldable pub log_fetched : Fetcher → List (List ℕ) → List (List ℕ)
log_fetched (count_stored buff head_pos data_len) fetched =
    fetched ++ slice buff 0 (head_len + data_len) ∷ []
log_fetched _ fetched = fetched

-- What happens next: the process calls or makes an access, the carrier calls or makes an access,
-- or the carrier blocks a peer in the bitmap or frees it.
pub data Move : Type 0 where
  call_send : Call → Move
  step_send : Move
  call_fetch : Mem → Move
  step_fetch : Move
  block : ℕ → Move
  unblock : ℕ → Move

-- Each side makes one call at a time.
unfoldable pub begin_send : Hub → Call → Sender → Sender
unfolding send_start
begin_send h c idle = send_start h c
begin_send h c busy = busy

unfoldable pub begin_fetch : Hub → Mem → Fetcher → Fetcher
unfolding fetch_start
begin_fetch h buff resting = fetch_start h buff
begin_fetch h buff busy = busy

unfoldable pub move : Move → System → System
move (call_send c) s = record s { sender = begin_send s.hub c s.sender }
move step_send s =
    let next = send_step s.hub s.sender in
    record s { hub = next.0; sender = next.1; sent = log_sent s.hub s.sender s.sent }
move (call_fetch buff) s = record s { fetcher = begin_fetch s.hub buff s.fetcher }
move step_fetch s =
    let next = fetch_step s.hub s.fetcher in
    record s { hub = next.0; fetcher = next.1; fetched = log_fetched s.fetcher s.fetched }
move (block id) s = record s { hub = (set_snd_bit s.hub id).0 }
move (unblock id) s = record s { hub = (clr_snd_bit s.hub id).0 }

-- Any number of moves, one after the other.
unfoldable pub run : List Move → System → System
unfolding move
run [] s = s
run (m ∷ ms) s = run ms (move m s)
