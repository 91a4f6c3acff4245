-- ===== src/Channel/Fetch.antt =====
-- `fetch_send_channel` and `try_fetch_send_head`: the carrier takes the oldest package of the send
-- queue, or looks at its head.
use proc_bridge.Base.{
  ==-of_ne, ==_iff, ℕ, ◌+◌, ◌<◌, ◌≡◌, ◌≢◌, refl, ap, ap₂, ◌∙◌, inl, List, [], ◌∷◌, ◌++◌, arith,
  length, length-append, slice, length-slice, slice-append, slice_cong, Mem, pos, minus_two, pred_ℤ,
}
use proc_bridge.Ring.{ring_get}
use proc_bridge.Ring.Laws.{slot}
use proc_bridge.Ring.Content.{bytes, length-bytes}
use proc_bridge.Package.{head_len, store_head, load_head, Package, head_of, encode}
use proc_bridge.Hub.{Hub, IsHub}
use proc_bridge.Channel.{fetch_send_channel, try_fetch_send_head}
use proc_bridge.Channel.Queue
use proc_bridge.Channel.Queue.{Holds, SendHolds, RecvHolds, encode_all}

-- An empty list of packages is held exactly where head and tail meet.
pub Holds-nil :
    (base cap : ℕ) (mem : Mem) (head tail : ℕ)
    → head < cap
    → tail < cap
    → Holds base cap mem head tail []
    → head ≡ tail
unfolding encode_all
Holds-nil base cap mem head tail hh ht held =
    ground (arith, length-bytes base cap mem head tail, ap length held.content)

pub Holds-cons :
    (base cap : ℕ) (mem : Mem) (head tail : ℕ) (p : Package) (q : List Package)
    → Holds base cap mem head tail (p ∷ q)
    → head ≢ tail
unfolding encode_all encode
Holds-cons base cap mem head tail p q held same = ground (
  arith,
  length-bytes base cap mem head tail,
  ap length held.content,
  length-append (slice (store_head (head_of p)) 0 head_len ++ p.body) (encode_all q),
  length-append (slice (store_head (head_of p)) 0 head_len) p.body,
  length-slice (store_head (head_of p)) 0 head_len,
)

module _ (h : Hub) (v : IsHub h) (p : Package) (q : List Package) (held : SendHolds h (p ∷ q))
    (buff : Mem) where
  open h use {send_buff_size as size, send_head as head, send_tail as tail, all_buff as mem}

  rest_bytes : bytes 0 size mem head tail ≡ encode p ++ encode_all q
  rest_bytes = unfold encode_all in held.content

  -- The head in the buffer, then the body behind it.
  unfoldable pub with_head : Mem
  with_head = (ring_get 0 size mem head buff 0 head_len).0

  unfoldable pub with_body : Mem
  with_body = (ring_get 0 size mem (slot size head head_len) with_head head_len (length p.body)).0

  unfoldable pub fetched : Hub
  fetched = record h {
    sending_count = pred_ℤ h.sending_count;
    send_head = slot size (slot size head head_len) (length p.body);
  }

  pub head_read : load_head (ring_get 0 size mem head buff 0 head_len).0 ≡ head_of p
  head_read =
      Queue.first_head 0 size mem head tail v.send_head_in v.send_tail_in p (encode_all q)
        held.packages.0 rest_bytes buff

  pub fetch_lem : fetch_send_channel h buff ≡ (fetched, with_body, pos (head_len + length p.body))
  unfolding fetch_send_channel fetched with_body with_head
  fetch_lem =
      rw
        (
          head_read,
          Queue.first_pos 0 size mem head tail v.send_head_in v.send_tail_in p (encode_all q)
              held.packages.0 rest_bytes buff,
          ==-of_ne head tail (Holds-cons 0 size mem head tail p q held),
        )
        (rw (
          Queue.get-next_pos 0 size mem head tail v.send_head_in v.send_tail_in p (encode_all q)
            held.packages.0 rest_bytes (ring_get 0 size mem head buff 0 head_len).0 head_len))

  pub fetched_bytes : slice with_body 0 (head_len + length p.body) ≡ encode p
  unfolding encode with_body with_head
  fetched_bytes =
      slice-append with_body 0 head_len (length p.body)
      ∙ ap₂ ◌++◌
          (slice_cong with_body with_head 0 0 head_len (λ k hk.
              Queue.body_outside 0 size mem head tail v.send_head_in v.send_tail_in p (encode_all q)
                held.packages.0 rest_bytes with_head head_len (0 + k) (inl (omega arith)))
            ∙ Queue.first_head_bytes 0 size mem head tail v.send_head_in v.send_tail_in p
                (encode_all q) held.packages.0 rest_bytes buff)
          (Queue.first_body 0 size mem head tail v.send_head_in v.send_tail_in p (encode_all q)
            held.packages.0 rest_bytes with_head head_len)

  fetched-IsHub : IsHub fetched
  unfolding fetched
  fetched-IsHub = record {
    proc_id_pos = v.proc_id_pos;
    proc_id_fits = v.proc_id_fits;
    send_size_fits = v.send_size_fits;
    send_head_in =
        Queue.next_pos-lt 0 size mem head tail v.send_head_in v.send_tail_in p (encode_all q)
          held.packages.0 rest_bytes;
    send_tail_in = v.send_tail_in;
    recv_size_fits = v.recv_size_fits;
    recv_head_in = v.recv_head_in;
    recv_tail_in = v.recv_tail_in;
    bitmap_bytes = v.bitmap_bytes;
  }

  fetched-SendHolds : SendHolds fetched q
  unfolding fetched
  fetched-SendHolds = record {
    content =
        Queue.next_bytes 0 size mem head tail v.send_head_in v.send_tail_in p (encode_all q)
          held.packages.0 rest_bytes;
    packages = held.packages.1;
  }

  fetched-RecvHolds : (r : List Package) → RecvHolds h r → RecvHolds fetched r
  unfolding fetched
  fetched-RecvHolds r rr = rr

-- `fetch_send_channel` on a hub whose send queue holds packages returns the length of the first
-- with its head, writes its bytes to the front of the buffer, and leaves the others in the queue;
-- what the receive queue holds and the validity of the hub are kept.
pub fetch_send_channel_pop :
    (h : Hub) (buff : Mem) (p : Package) (q r : List Package)
    → IsHub h
    → SendHolds h (p ∷ q)
    → RecvHolds h r
    → let (h', buff', ret) = fetch_send_channel h buff in
      (ret ≡ pos (head_len + length p.body))
      × (slice buff' 0 (head_len + length p.body) ≡ encode p)
      × SendHolds h' q
      × RecvHolds h' r
      × IsHub h'
fetch_send_channel_pop h buff p q r v held rr = rw (fetch_lem h v p q held buff) (
  refl,
  fetched_bytes h v p q held buff,
  fetched-SendHolds h v p q held buff,
  fetched-RecvHolds h v p q held buff r rr,
  fetched-IsHub h v p q held buff,
)

-- On an empty send queue it returns -2 and changes nothing.
pub fetch_send_channel_empty :
    (h : Hub) (buff : Mem)
    → IsHub h
    → SendHolds h []
    → fetch_send_channel h buff ≡ (h, buff, minus_two)
unfolding fetch_send_channel
fetch_send_channel_empty h buff v held = rw (
    (==_iff h.send_head h.send_tail).1 (
      Holds-nil 0 h.send_buff_size h.all_buff h.send_head h.send_tail v.send_head_in v.send_tail_in
        held))

-- `try_fetch_send_head` shows the head of the package that the next `fetch_send_channel` takes.
pub try_fetch_send_head_lem :
    (h : Hub) (buff : Mem) (p : Package) (q : List Package)
    → IsHub h
    → SendHolds h (p ∷ q)
    → let (buff', ret) = try_fetch_send_head h buff in
      (ret ≡ pos head_len) × (load_head buff' ≡ head_of p)
unfolding try_fetch_send_head
try_fetch_send_head_lem h buff p q v held =
    rw
      (==-of_ne h.send_head h.send_tail
        (Holds-cons 0 h.send_buff_size h.all_buff h.send_head h.send_tail p q held))
      (refl, head_read h v p q held buff)
