-- ===== src/Hub.antt =====
-- `bridge_hub_t` of src/library/proc_bridge_base.h: the shared memory between a process and its
-- carrier, with one circular queue for each direction and the bitmap by which the carrier stops
-- the process from sending to a peer.
pub mod Bitmap
pub mod Sample
mod Tests
use Prim.Native.Nat.{bit_and, bit_or}
use proc_bridge.Base.{
  ℕ, ◌+◌, ◌-◌, ◌/◌, ◌%◌, ◌^◌, ◌≤◌, ◌<◌, ◌&&◌, ltb, leb, if◌then◌else◌, ℤ, pos, minus_one, Mem,
  store,
}

-- The struct less `proc_name`, which only print-outs read. `all_buff` holds both queues.
pub record Hub : Type 0 where
  pub proc_id : ℕ
  pub shm_id : ℕ
  pub attached : ℕ
  pub send_buff_size : ℕ
  pub sended_count : ℕ
  pub sending_count : ℤ
  pub send_tail : ℕ
  pub send_head : ℕ
  pub recv_buff_size : ℕ
  pub recved_count : ℕ
  pub recving_count : ℤ
  pub recv_tail : ℕ
  pub recv_head : ℕ
  pub snd_bitmap : Mem
  pub all_buff : Mem

-- `CHANNEL_SAFE_AREA`
abbrev pub channel_safe_area : ℕ
channel_safe_area = 4

-- The offset in `all_buff` that `GET_RECV_CHANNEL` gives; `GET_SEND_CHANNEL` gives 0.
abbrev pub recv_channel : Hub → ℕ
recv_channel h = h.send_buff_size + channel_safe_area

-- `MAX_PROC_BRIDGE_SCALE`, and so `sizeof(snd_bitmap) * 8`.
abbrev pub max_scale : ℕ
max_scale = 80000

-- What both counters of packages do on one more: they start again before they could wrap.
unfoldable pub count_up : ℕ → ℕ
count_up n = let n' = (n + 1) % 2 ^ 32 in if leb 0xFFFFF000 n' then 0 else n'

-- `set_snd_bit`: the hub and the return code.
unfoldable pub set_snd_bit : Hub → ℕ → Hub × ℤ
set_snd_bit h id =
    let byte_seq = id / 8 in
    let bit_seq = id % 8 in
    if leb max_scale id then (h, minus_one) else (
      record h {
        snd_bitmap = store h.snd_bitmap byte_seq (bit_or (h.snd_bitmap byte_seq) (2 ^ bit_seq));
      },
      pos 0,
    )

-- `clr_snd_bit`. A byte and the complement of one bit.
unfoldable pub clr_snd_bit : Hub → ℕ → Hub × ℤ
clr_snd_bit h id =
    let byte_seq = id / 8 in
    let bit_seq = id % 8 in
    if leb max_scale id then (h, minus_one) else (
      record h {
        snd_bitmap =
            store h.snd_bitmap byte_seq (bit_and (h.snd_bitmap byte_seq) (255 - 2 ^ bit_seq));
      },
      pos 0,
    )

-- `get_snd_bit`. The masked byte goes through a `char`, which is signed: 128 reads as -128, and the
-- test is `v > 0`.
unfoldable pub get_snd_bit : Hub → ℕ → ℤ
get_snd_bit h id =
    let v = bit_and (h.snd_bitmap (id / 8)) (2 ^ (id % 8)) in
    if leb max_scale id then minus_one else if ltb 0 v && ltb v 128 then pos 1 else pos 0

-- What `create_bridge` sets up and the operations keep: sizes that an `int` holds and offsets
-- inside the queues.
pub record IsHub (h : Hub) : Type 0 where
  pub proc_id_pos : 0 < h.proc_id
  pub proc_id_fits : h.proc_id < 2 ^ 31
  pub send_size_fits : h.send_buff_size < 2 ^ 30
  pub send_head_in : h.send_head < h.send_buff_size
  pub send_tail_in : h.send_tail < h.send_buff_size
  pub recv_size_fits : h.recv_buff_size < 2 ^ 30
  pub recv_head_in : h.recv_head < h.recv_buff_size
  pub recv_tail_in : h.recv_tail < h.recv_buff_size
  pub bitmap_bytes : (i : ℕ) → h.snd_bitmap i < 256
