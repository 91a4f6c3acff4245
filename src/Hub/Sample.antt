-- ===== src/Hub/Sample.antt =====
-- A small hub for the tests: two empty queues of 64 bytes that begin near the end of their memory.
use proc_bridge.Base.{arith, pos, zeroed}
use proc_bridge.Hub.{Hub, IsHub}

abbrev pub sample_hub : Hub
sample_hub = record {
  proc_id = 5;
  shm_id = 1;
  attached = 1;
  send_buff_size = 64;
  sended_count = 0;
  sending_count = pos 0;
  send_tail = 50;
  send_head = 50;
  recv_buff_size = 64;
  recved_count = 0;
  recving_count = pos 0;
  recv_tail = 60;
  recv_head = 60;
  snd_bitmap = zeroed;
  all_buff = zeroed;
}

pub sample_hub-IsHub : IsHub sample_hub
sample_hub-IsHub = record {
  proc_id_pos = omega arith;
  proc_id_fits = omega arith;
  send_size_fits = omega arith;
  send_head_in = omega arith;
  send_tail_in = omega arith;
  recv_size_fits = omega arith;
  recv_head_in = omega arith;
  recv_tail_in = omega arith;
  bitmap_bytes = λ i. omega arith;
}
