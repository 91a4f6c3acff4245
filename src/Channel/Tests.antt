-- ===== src/Channel/Tests.antt =====
-- The queues at work on a small hub.
use proc_bridge.Base.{
  inl, inr, ◌∙◌, ◌+◌, ◌-◌, ◌^◌, ◌≤◌, ◌<◌, ◌≡◌, refl, ◌⊎◌, some, [], ◌∷◌, arith, slice, Mem, zeroed,
  ltb, if◌then◌else◌, pos, minus_two, minus_three,
}
use proc_bridge.Ring.{ring_space, ring_put}
use proc_bridge.Ring.Content.{bytes}
use proc_bridge.Ring.Laws.{used}
use proc_bridge.Package.{head_len, load_head, store_head, Package, head_of, encode, IsPackage}
use proc_bridge.Hub.{Hub, IsHub, get_snd_bit}
use proc_bridge.Channel.{
  send_checked, is_stale, send_copy, send_to_hub, recv_from_hub, append_recv_channel,
  fetch_send_channel, try_fetch_send_head,
}
use proc_bridge.Channel.Queue.{SendHolds, RecvHolds, encode_all}
use proc_bridge.Channel.Send.{
  sent_package, send_to_hub_cases, send_to_hub_push, send_to_hub_overflow,
}
use proc_bridge.Channel.Append.{Carries, append_recv_channel_push}
use proc_bridge.Channel.Fetch.{
  fetch_send_channel_pop, fetch_send_channel_empty, try_fetch_send_head_lem,
}
use proc_bridge.Stlv.Sample.{sample_stlv}
use proc_bridge.Channel.Packed.{fetch_send_channel_stlv, pack_fetched, fetch_send_channel_stlv-eq}
use proc_bridge.Channel.Recv.{nothing, handed, recv_queue, Agrees, recv_from_hub_refines}

-- Both queues are empty, and begin near the end of their memory.
abbrev demo : Hub
demo = record {
  proc_id = 5;
  shm_id = 1;
  attached = 1;
  send_buff_size = 64;
  sended_count = 0;
  sending_count = pos 0;
  send_tail = 50;
  send_head = 50;
  recv_buff_size = 64;
  recved_count = 0;
  recving_count = pos 0;
  recv_tail = 60;
  recv_head = 60;
  snd_bitmap = zeroed;
  all_buff = zeroed;
}

demo-IsHub : IsHub demo
demo-IsHub = record {
  proc_id_pos = omega arith;
  proc_id_fits = omega arith;
  send_size_fits = omega arith;
  send_head_in = omega arith;
  send_tail_in = omega arith;
  recv_size_fits = omega arith;
  recv_head_in = omega arith;
  recv_tail_in = omega arith;
  bitmap_bytes = λ i. omega arith;
}

demo-SendHolds : SendHolds demo []
demo-SendHolds = record { content = unfold bytes slice encode_all in refl; packages = tt }

demo-RecvHolds : RecvHolds demo []
demo-RecvHolds = record { content = unfold bytes slice encode_all in refl; packages = tt }

-- "ABC"
abbrev text : Mem
text i = i + 65

-- The hub with the text sent to process 9 at 1500 ms, its head round the end of the memory.
abbrev sent : Hub
sent = (send_to_hub demo (pos 9) (some text) (pos 3) 1500).0

abbrev sent_text : Package
sent_text = sent_package demo 9 text 3 1500

room_refused : send_to_hub demo (pos 9) (some text) (pos 43) 1500 ≡ (demo, minus_three)
room_refused =
    send_to_hub_cases demo 9 text 43 1500 demo-IsHub (omega arith) ∙ unfold get_snd_bit in refl

taken : (send_to_hub demo (pos 9) (some text) (pos 3) 1500).1 ≡ pos 0
unfolding send_to_hub send_checked get_snd_bit ring_space
taken = refl

tail_wrapped : sent.send_tail ≡ 10
unfolding send_to_hub send_checked get_snd_bit ring_space send_copy ring_put
tail_wrapped = refl

send_to_hub_push_example : IsHub sent × SendHolds sent (sent_text ∷ []) × RecvHolds sent []
send_to_hub_push_example =
    send_to_hub_push demo 9 text 3 1500 [] [] demo-IsHub (omega arith) (omega arith) (omega arith)
      demo-SendHolds demo-RecvHolds taken

send_to_hub_overflow_example :
    send_to_hub demo (pos 9) (some text) (pos (2 ^ 31 - 1)) 1500
    ≡ (send_copy demo 9 text (2 ^ 31 - 1) 1500, pos 0)
send_to_hub_overflow_example =
    send_to_hub_overflow demo 9 text (2 ^ 31 - 1) 1500 (omega arith) (unfold get_snd_bit in refl)
      (omega arith) (omega arith)

fetch_send_channel_pop_example :
    let (h', buff', ret) = fetch_send_channel sent zeroed in
    (ret ≡ pos 24)
    × (slice buff' 0 24 ≡ encode sent_text)
    × SendHolds h' []
    × RecvHolds h' []
    × IsHub h'
unfolding slice
fetch_send_channel_pop_example =
    fetch_send_channel_pop sent zeroed sent_text [] [] send_to_hub_push_example.0
      send_to_hub_push_example.1 send_to_hub_push_example.2

fetch_send_channel_empty_example : fetch_send_channel demo text ≡ (demo, text, minus_two)
fetch_send_channel_empty_example = fetch_send_channel_empty demo text demo-IsHub demo-SendHolds

head_ahead :
    let (buff', ret) = try_fetch_send_head sent zeroed in
    (ret ≡ pos head_len) × (load_head buff' ≡ head_of sent_text)
head_ahead =
    try_fetch_send_head_lem sent zeroed sent_text [] send_to_hub_push_example.0
      send_to_hub_push_example.1

-- A package that comes from process 9, in a buffer of its own.
abbrev from_nine : Package
from_nine = record { sender_id = 9; recver_id = 5; send_ms = 2500; pkg_type = 0; body = 7 ∷ 8 ∷ [] }

abbrev network : Mem
network i = if ltb i 21 then store_head (head_of from_nine) i else i - 14

network-Carries : Carries network from_nine
unfolding encode slice store_head
network-Carries = refl

from_nine-IsPackage : IsPackage from_nine
from_nine-IsPackage = omega arith

append_recv_channel_push_example :
    let (h', ret) = append_recv_channel demo network in
    ((used 64 60 60 + head_len + 2 < 64)
      × (ret ≡ pos 0)
      × IsHub h'
      × RecvHolds h' (from_nine ∷ [])
      × SendHolds h' [])
    ⊎ ((64 ≤ used 64 60 60 + head_len + 2) × (ret ≡ minus_three) × (h' ≡ demo))
append_recv_channel_push_example =
    append_recv_channel_push demo network from_nine [] [] demo-IsHub from_nine-IsPackage
      network-Carries demo-SendHolds demo-RecvHolds

abbrev arrived : Hub
arrived = (append_recv_channel demo network).0

arrived_facts : IsHub arrived × RecvHolds arrived (from_nine ∷ []) × SendHolds arrived []
arrived_facts = elim append_recv_channel_push_example [
  | inl (room, ret, v, r, s) ↦ (v, r, s)
  | inr (full, rest, same) ↦ absurd (omega arith)
]

recv_from_hub_refines_example :
    Agrees zeroed
      (recv_queue (pos 10) (pos 5) 4 (from_nine ∷ []))
      []
      (recv_from_hub arrived zeroed (pos 10) (pos 5) 4)
recv_from_hub_refines_example =
    recv_from_hub_refines arrived zeroed (pos 10) (pos 5) 4 (from_nine ∷ []) [] arrived_facts.0
      arrived_facts.1 arrived_facts.2

recv_hands_over : recv_queue (pos 10) (pos 5) 4 (from_nine ∷ []) ≡ handed from_nine []
unfolding recv_queue is_stale
recv_hands_over = refl

recv_drops : recv_queue (pos 10) (pos 5) 7 (from_nine ∷ []) ≡ nothing
unfolding recv_queue is_stale
recv_drops = refl

-- The package goes round the end of the queue, and is packed from the array.
fetch_send_channel_stlv-eq_example :
    fetch_send_channel_stlv sample_stlv sent zeroed zeroed
    ≡ pack_fetched sample_stlv sent zeroed (fetch_send_channel sent zeroed)
fetch_send_channel_stlv-eq_example =
    fetch_send_channel_stlv-eq sample_stlv sent zeroed zeroed (sent_text ∷ [])
      send_to_hub_push_example.0 send_to_hub_push_example.1
