-- ===== src/Concurrent/Invariant.antt =====
-- What holds of the system between any two accesses.
use proc_bridge.Base.{
  ℕ, ◌+◌, ◌^◌, ◌≤◌, ◌<◌, ◌-◌, ◌≡◌, List, [], ◌∷◌, ◌++◌, map, length, slice, Mem, ℤ,
}
use proc_bridge.Ring.Laws.{slot, used}
use proc_bridge.Ring.Content.{bytes}
use proc_bridge.Package.{head_len, store_head, Package, head_of, encode}
use proc_bridge.Hub.{Hub, IsHub}
use proc_bridge.Channel.{send_head_of}
use proc_bridge.Channel.Send.{sent_package}
use proc_bridge.Channel.Queue.{SendHolds, encode_all}
use proc_bridge.Concurrent.{
  Call, Sender, idle, bit_clear, head_loaded, space_found, head_copied, body_copied, tail_stored,
  count_loaded, Fetcher, resting, head_seen, package_seen, head_taken, body_taken, count_seen,
  count_stored, System,
}

-- The arguments fit their types, and the sum of the lengths fits an `int`.
pub record Fits (c : Call) : Type 0 where
  pub target_fits : c.target_id < 2 ^ 31
  pub len_fits : c.len < 2 ^ 31 - head_len
  pub ms_fits : c.curr_ms < 2 ^ 63

abbrev pub call_package : Hub → Call → Package
call_package h c = sent_package h c.target_id c.sending_data c.len c.curr_ms

abbrev pub call_head : Hub → Call → List ℕ
call_head h c = slice (store_head (send_head_of h c.target_id c.len c.curr_ms)) 0 head_len

-- A head that was loaded earlier: the carrier can only have moved it on.
pub record Earlier (h : Hub) (old tail_pos : ℕ) : Type 0 where
  pub old_in : old < h.send_buff_size
  pub tail_in : tail_pos < h.send_buff_size
  pub behind : used h.send_buff_size h.send_head tail_pos ≤ used h.send_buff_size old tail_pos

-- The bytes from the head to the place that the sender has reached.
abbrev pub Written : Hub → List Package → ℕ → List ℕ → Type 0
Written h q tail_pos extra =
    bytes 0 h.send_buff_size h.all_buff h.send_head tail_pos ≡ encode_all q ++ extra

unfoldable pub SenderOk : Hub → List Package → Sender → Type 0
SenderOk h q idle = Unit
SenderOk h q (bit_clear c) = Fits c
SenderOk h q (head_loaded c old) = Fits c × Earlier h old h.send_tail
SenderOk h q (space_found c old tail_pos) =
    Fits c
    × (tail_pos ≡ h.send_tail)
    × Earlier h old tail_pos
    × (used h.send_buff_size old tail_pos + head_len + c.len < h.send_buff_size)
SenderOk h q (head_copied c old tail_pos) =
    Fits c
    × Earlier h old tail_pos
    × (used h.send_buff_size old tail_pos + c.len < h.send_buff_size)
    × Written h q tail_pos (call_head h c)
SenderOk h q (body_copied c tail_pos) =
    Fits c × (tail_pos < h.send_buff_size) × Written h q tail_pos (encode (call_package h c))
SenderOk h q tail_stored = Unit
SenderOk h q (count_loaded count) = Unit

-- The queue has a first package, and `P` is true of it.
unfoldable pub First : List Package → (Package → Type 0) → Type 0
First [] P = ⊥
First (p ∷ q) P = P p

-- The head of the first package is in the buffer, and the place is the one behind it.
pub record HeadTaken (size head : ℕ) (buff : ℕ → ℕ) (head_pos data_len : ℕ) (p : Package)
    : Type 0 where
  pub at : head_pos ≡ slot size head head_len
  pub count : data_len ≡ length p.body
  pub taken : slice buff 0 head_len ≡ slice (store_head (head_of p)) 0 head_len

-- The whole of it is in the buffer, and the place is where the next one begins.
pub record Taken (size head : ℕ) (buff : ℕ → ℕ) (head_pos data_len : ℕ) (p : Package) : Type 0 where
  pub at : head_pos ≡ slot size (slot size head head_len) (length p.body)
  pub taken : slice buff 0 (head_len + data_len) ≡ encode p

unfoldable pub FetcherOk : (size head : ℕ) → List Package → Fetcher → Type 0
unfolding First
FetcherOk size head q resting = Unit
FetcherOk size head q (head_seen buff head_pos) = head_pos ≡ head
FetcherOk size head q (package_seen buff head_pos) = (head_pos ≡ head) × First q (λ p. Unit)
FetcherOk size head q (head_taken buff head_pos data_len) =
    First q (HeadTaken size head buff head_pos data_len)
FetcherOk size head q (body_taken buff head_pos data_len) =
    First q (Taken size head buff head_pos data_len)
FetcherOk size head q (count_seen buff head_pos data_len count) =
    First q (Taken size head buff head_pos data_len)
FetcherOk size head q (count_stored buff head_pos data_len) =
    First q (Taken size head buff head_pos data_len)

-- The packages sent are those fetched and those that stand in the queue, in this order.
pub record Inv (s : System) (q : List Package) : Type 0 where
  pub valid : IsHub s.hub
  pub held : SendHolds s.hub q
  pub order : map encode s.sent ≡ s.fetched ++ map encode q
  pub sending : SenderOk s.hub q s.sender
  pub fetching : FetcherOk s.hub.send_buff_size s.hub.send_head q s.fetcher

-- The fields that the accesses store leave the hub valid if the offsets stay inside the queue.
pub set-IsHub :
    (h : Hub)
    → IsHub h
    → (mem : Mem) (head tail : ℕ) (sending : ℤ) (sended : ℕ) → head < h.send_buff_size
    → tail < h.send_buff_size
    → IsHub (record h {
      all_buff = mem;
      send_head = head;
      send_tail = tail;
      sending_count = sending;
      sended_count = sended;
    })
set-IsHub h v mem head tail sending sended hh ht = record {
  proc_id_pos = v.proc_id_pos;
  proc_id_fits = v.proc_id_fits;
  send_size_fits = v.send_size_fits;
  send_head_in = hh;
  send_tail_in = ht;
  recv_size_fits = v.recv_size_fits;
  recv_head_in = v.recv_head_in;
  recv_tail_in = v.recv_tail_in;
  bitmap_bytes = v.bitmap_bytes;
}
