-- ===== src/Carrier/Sample.antt =====
-- A carrier to try the operations with: target 1 is connected and in the list with eight bytes that go
-- round the end of its buffer, and the others have neither a connection nor a buffer.
use proc_bridge.Base.{
  ℕ, ◌≡◌, refl, arith, true, false, some, none, [], ◌∷◌, ◌==◌, if◌then◌else◌, pos, minus_one,
}
use proc_bridge.Hub.Sample.{sample_hub}
use proc_bridge.HashMap.{cleared}
use proc_bridge.Target.{Target, Env, connected, not_connected}
use proc_bridge.Target.Stream.{IsOpen}
use proc_bridge.Carrier.{Carrier, no_traffic}
use proc_bridge.Sending.Linked.{occurs, Linked}

abbrev pub idle : Target
idle = record {
  state = not_connected;
  proc_id = 13;
  fd = minus_one;
  delay_starts_ms = 0;
  latest_send_ts = 0;
  latest_send_bytes = 0;
  delay_time = 0;
  delay_count = 0;
  reset = 0;
  latest_reset = 0;
  snd_block = false;
  snd_buff_len = 0;
  snd_head = 0;
  snd_tail = 0;
  snd_buff = none;
  in_append = false;
}

abbrev pub busy : Target
busy = record idle {
  state = connected;
  proc_id = 12;
  fd = pos 7;
  snd_buff_len = 32;
  snd_head = 28;
  snd_tail = 4;
  snd_buff = some (λ i. i);
  in_append = true;
}

pub busy-IsOpen : IsOpen busy
busy-IsOpen = record { head_in = omega arith; tail_in = omega arith }

abbrev pub sample_env : Env
sample_env = record {
  max_expand_size = 64;
  block_snd_size = 12;
  hub = sample_hub;
  reset_connect = 0;
  latest_reset = 0;
}

abbrev pub sample_carrier : Carrier
sample_carrier = record {
  proc_id = 5;
  env = sample_env;
  maps = record { target_hash_map = cleared; client_hash_map = cleared };
  targets = λ a. if a == 1 then busy else idle;
  traffic = λ a. no_traffic;
  target_list = 1 ∷ 2 ∷ [];
  target_count = 2;
  sending = 1 ∷ [];
  total = 1;
  send = no_traffic;
  wire = λ a. [];
}

pub sample_carrier-Linked : Linked sample_carrier
sample_carrier-Linked = record { counted = refl; flags = λ a. ground arith; distinct = (refl, tt) }

-- Only target 1 is in the list.
pub in_list : (a : ℕ) → occurs a sample_carrier.sending ≡ true → a ≡ 1
in_list a e = ground (arith, e)
