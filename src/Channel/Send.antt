-- ===== src/Channel/Send.antt =====
-- `_send_to_bridge`: what it refuses, and that a package which it takes stands at the end of the
-- send queue, with nothing else changed.
use proc_bridge.Base.{
  is_zero, not, ◌&&◌, ◌||◌, ℕ, ◌+◌, ◌-◌, ◌^◌, ◌≤◌, ◌<◌, ◌≡◌, ap, sym, ◌∙◌, inr, true, some, List,
  [], ◌∷◌, ◌++◌, append_assoc, arith, slice, length-slice, Mem, ltb, ◌==◌, if◌then◌else◌, pos,
  minus_three, minus_one, int32, int32-of_small, ltb_ℤ, sub_ℕ,
}
use proc_bridge.Ring.{ring_put, ring_space}
use proc_bridge.Ring.Laws.{
  slot, used, slot-lt, used-slot_add, ring_put-tail, ring_put-outside, ring_space_lem,
}
use proc_bridge.Ring.Content.{bytes, bytes-ring_put, bytes_frame}
use proc_bridge.Package.{head_len, store_head, Package, encode, IsPackage}
use proc_bridge.Hub.{Hub, IsHub, get_snd_bit, recv_channel}
use proc_bridge.Channel.{send_head_of, send_copy, send_checked, send_to_hub}
use proc_bridge.Channel.Queue.{SendHolds, RecvHolds, push-Holds}

-- The package that a call sends.
abbrev pub sent_package : Hub → ℕ → Mem → ℕ → ℕ → Package
sent_package h target src len curr_ms = record {
  sender_id = h.proc_id;
  recver_id = target;
  send_ms = curr_ms;
  pkg_type = 0;
  body = slice src 0 len;
}

module _ (h : Hub) (v : IsHub h) (target : ℕ) (src : Mem) (len curr_ms : ℕ)
    (room : used h.send_buff_size h.send_head h.send_tail + head_len + len < h.send_buff_size) where
  open h use {send_buff_size as size, send_head as head, send_tail as tail, all_buff as mem}

  first : Mem × ℕ
  first = ring_put 0 size head mem tail (store_head (send_head_of h target len curr_ms)) 0 head_len

  first-tail : first.1 ≡ slot size tail head_len
  unfolding first
  first-tail =
      ring_put-tail 0 size head mem tail _ 0 head_len v.send_head_in v.send_tail_in (omega arith)

  first-used : used size head first.1 ≡ used size head tail + head_len
  first-used =
      rw first-tail
        (used-slot_add size head tail head_len v.send_head_in v.send_tail_in (omega arith))

  first-lt : first.1 < size
  first-lt = rw first-tail (slot-lt size tail head_len v.send_tail_in (omega arith))

  second : Mem × ℕ
  second = ring_put 0 size head first.0 first.1 src 0 len

  second-tail : second.1 ≡ slot size first.1 len
  unfolding second
  second-tail =
      ring_put-tail 0 size head first.0 first.1 src 0 len v.send_head_in first-lt
        (omega (arith, first-used))

  second-lt : second.1 < size
  second-lt = rw second-tail (slot-lt size first.1 len first-lt (omega arith))

  sent_bytes :
      slice (store_head (send_head_of h target len curr_ms)) 0 head_len ++ slice src 0 len
      ≡ encode (sent_package h target src len curr_ms)
  unfolding encode
  sent_bytes =
      ap (λ n. slice (store_head (send_head_of h target n curr_ms)) 0 head_len ++ slice src 0 len)
        (sym (length-slice src 0 len))

  second-bytes :
      bytes 0 size second.0 head second.1
      ≡ bytes 0 size mem head tail ++ encode (sent_package h target src len curr_ms)
  unfolding first second
  second-bytes =
      bytes-ring_put 0 size head first.0 first.1 src 0 len v.send_head_in first-lt
        (omega (arith, first-used))
      ∙ ap (λ t. t ++ slice src 0 len)
          (bytes-ring_put 0 size head mem tail (store_head (send_head_of h target len curr_ms)) 0
            head_len v.send_head_in v.send_tail_in (omega arith))
      ∙ append_assoc (bytes 0 size mem head tail) _ _
      ∙ ap (λ t. bytes 0 size mem head tail ++ t) sent_bytes

  outside : (a : ℕ) → size ≤ a → second.0 a ≡ mem a
  unfolding first second
  outside a h =
      ring_put-outside 0 size head first.0 first.1 src 0 len v.send_head_in first-lt
        (omega (arith, first-used)) a (inr (omega arith))
      ∙ ring_put-outside 0 size head mem tail _ 0 head_len v.send_head_in v.send_tail_in
          (omega arith) a (inr (omega arith))

  pub send_copy-IsHub : IsHub (send_copy h target src len curr_ms)
  unfolding send_copy first second
  send_copy-IsHub = record {
    proc_id_pos = v.proc_id_pos;
    proc_id_fits = v.proc_id_fits;
    send_size_fits = v.send_size_fits;
    send_head_in = v.send_head_in;
    send_tail_in = second-lt;
    recv_size_fits = v.recv_size_fits;
    recv_head_in = v.recv_head_in;
    recv_tail_in = v.recv_tail_in;
    bitmap_bytes = v.bitmap_bytes;
  }

  pub send_copy-SendHolds :
      (q : List Package)
      → IsPackage (sent_package h target src len curr_ms)
      → SendHolds h q
      → SendHolds
          (send_copy h target src len curr_ms)
          (q ++ sent_package h target src len curr_ms ∷ [])
  unfolding send_copy first second
  send_copy-SendHolds q w held =
      push-Holds 0 size mem second.0 head tail second.1 q _ held w second-bytes

  pub send_copy-RecvHolds :
      (r : List Package) → RecvHolds h r → RecvHolds (send_copy h target src len curr_ms) r
  unfolding send_copy first second
  send_copy-RecvHolds r held = record {
    content =
        bytes_frame (recv_channel h) h.recv_buff_size mem second.0 h.recv_head h.recv_tail
          v.recv_head_in v.recv_tail_in (λ a lo hi. outside a (omega arith))
        ∙ held.content;
    packages = held.packages;
  }

-- Room for the package and for the byte that stays free.
abbrev pub HasRoom : Hub → ℕ → Type 0
HasRoom h len = used h.send_buff_size h.send_head h.send_tail + head_len + len < h.send_buff_size

pub sent-IsPackage :
    (h : Hub) (target : ℕ) (src : Mem) (len curr_ms : ℕ)
    → IsHub h
    → target < 2 ^ 31
    → len < 2 ^ 31 - head_len
    → curr_ms < 2 ^ 63
    → IsPackage (sent_package h target src len curr_ms)
sent-IsPackage h target src len curr_ms v ht hl hm = record {
  len_fits = omega (arith, length-slice src 0 len, hl);
  sender_fits = v.proc_id_fits;
  recver_fits = ht;
  ms_fits = hm;
  type_fits = omega arith;
}

-- The test of the space, for lengths at which the sum with the head fits an `int`.
space_test :
    (h : Hub) (len : ℕ)
    → IsHub h
    → len < 2 ^ 31 - head_len
    → ltb_ℤ (sub_ℕ (ring_space h.send_buff_size h.send_head h.send_tail) 1) (int32 (head_len + len))
      ≡ not (ltb (used h.send_buff_size h.send_head h.send_tail + head_len + len) h.send_buff_size)
space_test h len v fits = rw (int32-of_small (head_len + len) (omega arith)) (
    ground (
      arith,
      ring_space_lem h.send_buff_size h.send_head h.send_tail v.send_head_in v.send_tail_in,
    ))

-- What `_send_to_bridge` does in every case, for data of less than 2^31 - 21 bytes: it refuses with
-- -1 a target or a length that is not positive and with -3 a peer whose bit is set (or which the
-- bitmap has no bit for) and a package that, with its head and the byte that stays free, does not
-- fit; in these cases the hub is as it was. It sends in all others.
pub send_to_hub_cases :
    (h : Hub) (target : ℕ) (src : Mem) (len curr_ms : ℕ)
    → IsHub h
    → len < 2 ^ 31 - head_len
    → send_to_hub h (pos target) (some src) (pos len) curr_ms ≡ (
        if target == 0 || len == 0
        then (h, minus_one)
        else if is_zero (get_snd_bit h target)
            && ltb (used h.send_buff_size h.send_head h.send_tail + head_len + len) h.send_buff_size
        then (send_copy h target src len curr_ms, pos 0)
        else (h, minus_three))
unfolding send_to_hub send_checked
send_to_hub_cases h target src len curr_ms v fits = ground (arith, space_test h len v fits)

-- A call that returns 0 found room and made the copy.
send_to_hub_taken :
    (h : Hub) (target : ℕ) (src : Mem) (len curr_ms : ℕ)
    → IsHub h
    → len < 2 ^ 31 - head_len
    → (send_to_hub h (pos target) (some src) (pos len) curr_ms).1 ≡ pos 0
    → HasRoom h len
      × (send_to_hub h (pos target) (some src) (pos len) curr_ms
          ≡ (send_copy h target src len curr_ms, pos 0))
send_to_hub_taken h target src len curr_ms v fits ok =
    ground (arith, send_to_hub_cases h target src len curr_ms v fits)

-- A call that returns 0, with a positive target and clock that fit their types and data of less
-- than 2^31 - 21 bytes, appends the package to the packages that the send queue held, keeps those
-- of the receive queue, and keeps the hub valid.
pub send_to_hub_push :
    (h : Hub) (target : ℕ) (src : Mem) (len curr_ms : ℕ) (q r : List Package)
    → IsHub h
    → target < 2 ^ 31
    → len < 2 ^ 31 - head_len
    → curr_ms < 2 ^ 63
    → SendHolds h q
    → RecvHolds h r
    → (send_to_hub h (pos target) (some src) (pos len) curr_ms).1 ≡ pos 0
    → let h' = (send_to_hub h (pos target) (some src) (pos len) curr_ms).0 in
      IsHub h' × SendHolds h' (q ++ sent_package h target src len curr_ms ∷ []) × RecvHolds h' r
send_to_hub_push h target src len curr_ms q r v ht hl hm sq rr ok =
    let (room, e) = send_to_hub_taken h target src len curr_ms v hl ok in
    rw e (
      send_copy-IsHub h v target src len curr_ms room,
      send_copy-SendHolds h v target src len curr_ms room q
          (sent-IsPackage h target src len curr_ms v ht (omega arith) hm) sq,
      send_copy-RecvHolds h v target src len curr_ms room r rr,
    )

-- With an open bit and a positive target, data of 2^31 - 21 to 2^31 - 1 bytes are taken however
-- full the queue is, since the sum of the lengths is negative as an int.
pub send_to_hub_overflow :
    (h : Hub) (target : ℕ) (src : Mem) (len curr_ms : ℕ)
    → 0 < target
    → is_zero (get_snd_bit h target) ≡ true
    → 2 ^ 31 - head_len ≤ len
    → len < 2 ^ 31
    → send_to_hub h (pos target) (some src) (pos len) curr_ms
      ≡ (send_copy h target src len curr_ms, pos 0)
unfolding send_to_hub send_checked
send_to_hub_overflow h target src len curr_ms ht bit lo hi = ground arith
