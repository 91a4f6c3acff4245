-- ===== src/Target.antt =====
-- The sending side of a carrier's connection to a peer, `target_detail_t` of
-- src/carrier/carrier_base.h: a circular buffer of packed bytes that grows on demand, is emptied
-- into a socket, and blocks the process from sending when it is full. The operations are those of
-- src/carrier/carrier_lib.c and `check_snd_buff_memory` of src/carrier/bridge_carrier.c. In a
-- flush the offsets lie inside the buffer, and no difference of theirs wraps.
pub mod Stream
pub mod Buffer
pub mod Grow
pub mod Shrink
pub mod Put
pub mod Pack
pub mod Stray
pub mod Block
pub mod Margin
mod Tests
use proc_bridge.Base.{
  ℕ, zero, suc, ◌+◌, ◌-◌, ◌*◌, ◌/◌, ◌%◌, ◌^◌, Bool, true, false, not, ◌&&◌, ◌||◌, Option, none,
  some, List, [], ◌∷◌, ◌++◌, slice, ltb, leb, ◌==◌, if◌then◌else◌, ℤ, pos, negsuc, minus_one, ltb_ℤ,
  int32, pos_part, Mem, memcpy, zeroed,
}
use proc_bridge.Hub.{Hub, set_snd_bit, clr_snd_bit}
use proc_bridge.Package.{pack_len_max}

-- `TARGET_CONN_NONE`, `TARGET_CONN_DONE` and `TARGET_CONN_PROC`
pub data ConnState : Type 0 where
  not_connected connected connecting : ConnState

-- The fields that the operations read or write. A null `snd_buff` is `none`.
pub record Target : Type 0 where
  pub state : ConnState
  pub proc_id : ℕ
  pub fd : ℤ
  pub delay_starts_ms : ℕ
  pub latest_send_ts : ℕ
  pub latest_send_bytes : ℕ
  pub delay_time : ℕ
  pub delay_count : ℕ
  pub reset : ℕ
  pub latest_reset : ℕ
  pub snd_block : Bool
  pub snd_buff_len : ℕ
  pub snd_head : ℕ
  pub snd_tail : ℕ
  pub snd_buff : Option Mem
  pub in_append : Bool

-- What the operations use of `carrier_env_t`.
pub record Env : Type 0 where
  pub max_expand_size : ℕ
  pub block_snd_size : ℕ
  pub hub : Hub
  pub reset_connect : ℕ
  pub latest_reset : ℕ

-- The bytes behind `snd_buff`. In every target whose buffer has a length it is not null.
abbrev pub mem_of : Option Mem → Mem
mem_of none = zeroed
mem_of (some m) = m

abbrev pub buff_of : Target → Mem
buff_of t = mem_of t.snd_buff

-- `TARGET_DATA_LEN`, `TARGET_EMPTY_SPACE` and `TARGET_IS_EMPTY`, over `unsigned long`.
unfoldable pub data_len : Target → ℕ
data_len t =
    if leb t.snd_head t.snd_tail
    then t.snd_tail - t.snd_head
    else (t.snd_buff_len + 2 ^ 64 - t.snd_head + t.snd_tail) % 2 ^ 64

unfoldable pub empty_space : Target → ℕ
empty_space t =
    if leb t.snd_head t.snd_tail
    then (t.snd_buff_len + 2 ^ 64 - t.snd_tail + t.snd_head + 2 ^ 64 - 1) % 2 ^ 64
    else (t.snd_head - t.snd_tail + 2 ^ 64 - 1) % 2 ^ 64

unfoldable pub is_empty : Target → Bool
is_empty t = t.snd_head == t.snd_tail

-- The outcome of a call of `send`: the socket is full (EAGAIN), another error, or so many bytes.
pub data Sent : Type 0 where
  again failed : Sent
  sent : ℕ → Sent

-- What `flush_target` leaves: the environment, the target, the return code and, for the
-- statements, the bytes that the socket took.
pub record Flushed : Type 0 where
  pub env : Env
  pub target : Target
  pub ret : ℤ
  pub wire : List ℕ

-- The peer is marked as blocked in the bitmap of the hub, and open again.
abbrev pub block : Env → Target → Env × Target
block env t =
    (record env { hub = (set_snd_bit env.hub t.proc_id).0 }, record t { snd_block = true })

abbrev pub unblock : Env → Target → Env × Target
unblock env t =
    (record env { hub = (clr_snd_bit env.hub t.proc_id).0 }, record t { snd_block = false })

-- The test after EAGAIN: at the largest size, with little space left, the peer is blocked.
unfoldable pub block_if_full : Env → Target → ℕ → Env × Target
block_if_full env t empty_size =
    if leb env.max_expand_size t.snd_buff_len
      && (leb empty_size env.block_snd_size && not t.snd_block)
    then block env t
    else (env, t)

-- The tests after a part was sent: the peer is blocked, or opened again.
unfoldable pub check_block : Env → Target → ℕ → Env × Target
check_block env t empty_size =
    if leb env.max_expand_size t.snd_buff_len
    then (if t.snd_block
        then (if leb env.block_snd_size empty_size then unblock env t else (env, t))
        else (if leb empty_size env.block_snd_size then block env t else (env, t)))
    else (env, t)

-- The step after all was sent.
unfoldable pub unblock_if_set : Env → Target → Env × Target
unblock_if_set env t = if t.snd_block then unblock env t else (env, t)

-- The mean time that data stay in the buffer. The difference of the clocks goes through an `int`.
unfoldable pub note_delay : Target → ℕ → Target
note_delay t curr_ms =
    let diff_ms = int32 (curr_ms + 2 ^ 64 - t.delay_starts_ms) in
    if ltb_ℤ (pos 0) diff_ms
    then record t {
      delay_time = (t.delay_time * t.delay_count + pos_part diff_ms) / (t.delay_count + 1);
      delay_count = t.delay_count + 1;
    }
    else t

-- All of the buffer is sent, the last `bytes` of it by calls of this flush.
abbrev pub all_sent : Target → ℕ → ℕ → Target
all_sent t curr_ms bytes =
    let t' = note_delay (record t { snd_head = t.snd_tail }) curr_ms in
    record t' { delay_starts_ms = 0; latest_send_bytes = bytes; latest_send_ts = curr_ms / 1000 }

abbrev pub part_sent : Target → (head curr_ms bytes : ℕ) → Target
part_sent t head curr_ms bytes = record t {
  snd_head = head;
  latest_send_bytes = bytes;
  latest_send_ts = curr_ms / 1000;
}

abbrev flushed : Env × Target → ℤ → List ℕ → Flushed
flushed s ret wire = record { env = s.0; target = s.1; ret = ret; wire = wire }

-- `flush_target_1`: the data do not go round the end of the buffer. One call of `send`.
unfoldable pub flush_target_1 : Env → Target → (curr_ms : ℕ) → Sent → Flushed
flush_target_1 env t curr_ms again =
    let empty_size = t.snd_buff_len - t.snd_tail + t.snd_head in
    flushed (block_if_full env t empty_size) (pos 0) []
flush_target_1 env t curr_ms failed = flushed (env, t) minus_one []
flush_target_1 env t curr_ms (sent n) =
    let should_send = t.snd_tail - t.snd_head in
    let empty_size = t.snd_buff_len - t.snd_tail + t.snd_head in
    if n == should_send
    then flushed (unblock_if_set env (all_sent t curr_ms n)) (pos 1)
        (slice (buff_of t) t.snd_head n)
    else flushed (check_block env (part_sent t (t.snd_head + n) curr_ms n) (empty_size + n)) (pos 2)
        (slice (buff_of t) t.snd_head n)

-- The second call of `send` in `flush_target_2`, after `done` bytes up to the end of the buffer.
unfoldable pub flush_second : Env → Target → (curr_ms done : ℕ) → List ℕ → Sent → Flushed
flush_second env t curr_ms done wire again =
    flushed (block_if_full env t (t.snd_buff_len - t.snd_tail)) (pos 2) wire
flush_second env t curr_ms done wire failed = flushed (env, t) minus_one wire
flush_second env t curr_ms done wire (sent n) =
    let empty_size = t.snd_buff_len - t.snd_tail in
    if n == t.snd_tail
    then flushed (unblock_if_set env (all_sent t curr_ms (n + done))) (pos 1)
        (wire ++ slice (buff_of t) 0 n)
    else flushed
        (check_block env (part_sent t (t.snd_head + n) curr_ms (n + done)) (empty_size + n)) (pos 2)
        (wire ++ slice (buff_of t) 0 n)

-- `flush_target_2`: the data go round the end of the buffer. The second call of `send` is made only
-- if the first takes all up to the end.
unfoldable pub flush_target_2 : Env → Target → (curr_ms : ℕ) → Sent → Sent → Flushed
flush_target_2 env t curr_ms again second =
    flushed (block_if_full env t (t.snd_head - t.snd_tail)) (pos 0) []
flush_target_2 env t curr_ms failed second = flushed (env, t) minus_one []
flush_target_2 env t curr_ms (sent n) second =
    let should_send = t.snd_buff_len - t.snd_head in
    let empty_size = t.snd_head - t.snd_tail in
    let wire = slice (buff_of t) t.snd_head n in
    if n == should_send
    then flush_second env (part_sent t 0 curr_ms n) curr_ms n wire second
    else flushed (check_block env (part_sent t (t.snd_head + n) curr_ms n) (empty_size + n)) (pos 2)
        wire

-- `flush_target`, with the outcomes of the calls of `send` that it makes.
unfoldable pub flush_target : Env → Target → (curr_ms : ℕ) → Sent → Sent → Flushed
flush_target env t curr_ms first second =
    if t.snd_head == t.snd_tail
    then flushed (env, t) (pos 1) []
    else if ltb t.snd_head t.snd_tail
    then flush_target_1 env t curr_ms first
    else flush_target_2 env t curr_ms first second
