-- ===== src/Hub/Tests.antt =====
-- The bitmap at concrete ids.
use proc_bridge.Base.{◌≡◌, refl, arith, pos, zeroed, store}
use proc_bridge.Hub.{Hub, IsHub, set_snd_bit, clr_snd_bit, get_snd_bit}
use proc_bridge.Hub.Bitmap.{get_snd_bit-set_snd_bit, get_snd_bit-clr_snd_bit, get_snd_bit_seven}

abbrev demo : Hub
demo = record {
  proc_id = 5;
  shm_id = 1;
  attached = 1;
  send_buff_size = 64;
  sended_count = 0;
  sending_count = pos 0;
  send_tail = 0;
  send_head = 0;
  recv_buff_size = 64;
  recved_count = 0;
  recving_count = pos 0;
  recv_tail = 0;
  recv_head = 0;
  snd_bitmap = zeroed;
  all_buff = zeroed;
}

demo-IsHub : IsHub demo
demo-IsHub = record {
  proc_id_pos = omega arith;
  proc_id_fits = omega arith;
  send_size_fits = omega arith;
  send_head_in = omega arith;
  send_tail_in = omega arith;
  recv_size_fits = omega arith;
  recv_head_in = omega arith;
  recv_tail_in = omega arith;
  bitmap_bytes = λ i. omega arith;
}

blocked : get_snd_bit (set_snd_bit demo 9).0 9 ≡ pos 1
unfolding get_snd_bit set_snd_bit store
blocked = refl

bit_set : get_snd_bit (set_snd_bit demo 9).0 9 ≡ pos 1
bit_set = get_snd_bit-set_snd_bit demo 9 9 demo-IsHub (omega arith) (omega arith)

bit_cleared : get_snd_bit (clr_snd_bit demo 9).0 9 ≡ pos 0
bit_cleared = get_snd_bit-clr_snd_bit demo 9 9 demo-IsHub (omega arith) (omega arith)

get_snd_bit_seven_example : get_snd_bit demo 15 ≡ pos 0
get_snd_bit_seven_example = get_snd_bit_seven demo 15 demo-IsHub (omega arith) refl
