-- ===== src/Bridge/Calls.antt =====
-- The calls of a process on a descriptor: `send_to_bridge`, `recv_from_bridge` and `bd2bridge`.
use proc_bridge.Base.{
  ℕ, Bool, true, false, ◌||◌, Option, none, some, leb, ◌==◌, if◌then◌else◌, ℤ, pos, minus_one,
  leb_ℤ, ltb_ℤ, pos_part, Mem,
}
use proc_bridge.Channel.{Received, send_to_hub, recv_from_hub}
use proc_bridge.Bridge.{Space, World, set_at, bad_bd}

unfoldable pub send_ref : World → Option ℕ → ℤ → Option Mem → ℤ → ℕ → World × ℤ
send_ref w none target_id sending_data len curr_ms = (w, minus_one)
send_ref w (some ref) target_id sending_data len curr_ms =
    let r = send_to_hub (w.hubs ref) target_id sending_data len curr_ms in
    (record w { hubs = set_at w.hubs ref r.0 }, r.1)

unfoldable pub send_listed : World → ℕ → Option (ℕ → Space) → ℤ → Option Mem → ℤ → ℕ → World × ℤ
send_listed w bd none target_id sending_data len curr_ms = (w, minus_one)
send_listed w bd (some list) target_id sending_data len curr_ms =
    if (list bd).opened_id == bd
    then send_ref w (list bd).phub target_id sending_data len curr_ms
    else (w, minus_one)

abbrev pub is_null : Option Mem → Bool
is_null none = true
is_null (some data_buff) = false

-- `send_to_bridge`
unfoldable pub send_to_bridge : World → (bd target_id : ℤ) → Option Mem → ℤ → ℕ → World × ℤ
send_to_bridge w bd target_id sending_data len curr_ms =
    if leb_ℤ target_id (pos 0) || (is_null sending_data || leb_ℤ len (pos 0))
    then (w, minus_one)
    else if bad_bd w bd
    then (w, minus_one)
    else send_listed w (pos_part bd) w.space_list target_id sending_data len curr_ms

-- What a call of `recv_from_bridge` leaves.
pub record Answer : Type 0 where
  pub world : World
  pub buff : Mem
  pub sender : Option ℕ
  pub ret : ℤ

abbrev refuse : World → Mem → Option Answer
refuse w recv_buff = some (record { world = w; buff = recv_buff; sender = none; ret = minus_one })

-- `none` stands for a loop that does not end, which `recv_from_hub` never is.
unfoldable pub answer_of : World → ℕ → Option Received → Option Answer
answer_of w ref none = none
answer_of w ref (some r) = some (record {
  world = record w { hubs = set_at w.hubs ref r.hub };
  buff = r.buff;
  sender = r.sender;
  ret = r.ret;
})

unfoldable pub recv_ref : World → Option ℕ → Mem → (recv_len drop_time : ℤ) → ℕ → Option Answer
recv_ref w none recv_buff recv_len drop_time curr_ts = refuse w recv_buff
recv_ref w (some ref) recv_buff recv_len drop_time curr_ts =
    answer_of w ref (recv_from_hub (w.hubs ref) recv_buff recv_len drop_time curr_ts)

unfoldable pub recv_listed :
    World → ℕ → Option (ℕ → Space) → Mem → (recv_len drop_time : ℤ) → ℕ → Option Answer
recv_listed w bd none recv_buff recv_len drop_time curr_ts = refuse w recv_buff
recv_listed w bd (some list) recv_buff recv_len drop_time curr_ts =
    if (list bd).opened_id == bd
    then recv_ref w (list bd).phub recv_buff recv_len drop_time curr_ts
    else refuse w recv_buff

-- `recv_from_bridge` with a buffer that is not null.
unfoldable pub recv_from_bridge :
    World → (bd : ℤ) → Mem → (recv_len drop_time : ℤ) → ℕ → Option Answer
recv_from_bridge w bd recv_buff recv_len drop_time curr_ts =
    if leb_ℤ recv_len (pos 0) || bad_bd w bd
    then refuse w recv_buff
    else recv_listed w (pos_part bd) w.space_list recv_buff recv_len drop_time curr_ts

unfoldable pub hub_at : Option (ℕ → Space) → ℕ → Option ℕ
hub_at none bd = none
hub_at (some list) bd = (list bd).phub

-- `bd2bridge`
unfoldable pub bd2bridge : World → ℤ → Option ℕ
bd2bridge w bd =
    if ltb_ℤ bd (pos 0) || (leb w.valid_count 0 || leb_ℤ (pos w.space_count) bd)
    then none
    else hub_at w.space_list (pos_part bd)
