-- ===== src/Concurrent/Reads.antt =====
-- The first package of the queue as the fetcher reads it, which the sender leaves as it is, and the
-- queue behind it.
use proc_bridge.Base.{
  ℕ, ◌+◌, ◌<◌, ◌≡◌, ap, ap₂, sym, ◌∙◌, arith, List, [], ◌∷◌, ◌++◌, length, append_assoc, append-nil,
  inl, slice-append, slice_cong, length-append, Mem,
}
use proc_bridge.Ring.{ring_get}
use proc_bridge.Ring.Laws.{slot}
use proc_bridge.Ring.Content.{bytes, length-bytes}
use proc_bridge.Package.{head_len, load_head, Package, encode}
use proc_bridge.Hub.{Hub, IsHub}
use proc_bridge.Channel.Queue
use proc_bridge.Channel.Queue.{Holds, SendHolds, encode_all}
use proc_bridge.Concurrent.{
  Sender, idle, bit_clear, head_loaded, space_found, head_copied, body_copied, tail_stored,
  count_loaded,
}
use proc_bridge.Concurrent.Invariant.{
  call_package, call_head, Earlier, Written, SenderOk, HeadTaken, Taken, set-IsHub,
}

-- The head of the first package, then its body, as they come into the buffer.
module _ (h : Hub) (v : IsHub h) (p : Package) (q : List Package) (held : SendHolds h (p ∷ q)) where
  open h use {send_buff_size as size, send_head as head, send_tail as tail, all_buff as mem}

  cut : bytes 0 size mem head tail ≡ encode p ++ encode_all q
  cut = unfold encode_all in held.content

  pub package_seen-HeadTaken :
      (buff : Mem)
      → let got = ring_get 0 size mem head buff 0 head_len in
        HeadTaken size head got.0 got.1 (load_head got.0).data_len p
  package_seen-HeadTaken buff = record {
    at =
        Queue.first_pos 0 size mem head tail v.send_head_in v.send_tail_in p (encode_all q)
          held.packages.0 cut buff;
    count =
        ap (λ t. t.data_len)
          (Queue.first_head 0 size mem head tail v.send_head_in v.send_tail_in p (encode_all q)
            held.packages.0 cut buff);
    taken =
        Queue.first_head_bytes 0 size mem head tail v.send_head_in v.send_tail_in p (encode_all q)
          held.packages.0 cut buff;
  }

  pub HeadTaken-Taken :
      (buff : Mem) (head_pos data_len : ℕ)
      → HeadTaken size head buff head_pos data_len p
      → let got = ring_get 0 size mem head_pos buff head_len data_len in
        Taken size head got.0 got.1 data_len p
  unfolding encode
  HeadTaken-Taken buff head_pos data_len w =
      rw (w.at, w.count)
        (record {
          at =
              Queue.get-next_pos 0 size mem head tail v.send_head_in v.send_tail_in p (encode_all q)
                held.packages.0 cut buff head_len;
          taken =
              slice-append _ 0 head_len (length p.body)
              ∙ ap₂ ◌++◌
                  (slice_cong _ buff 0 0 head_len (λ k hk.
                      Queue.body_outside 0 size mem head tail v.send_head_in v.send_tail_in p
                        (encode_all q) held.packages.0 cut buff head_len (0 + k)
                        (inl (omega arith)))
                    ∙ w.taken)
                  (Queue.first_body 0 size mem head tail v.send_head_in v.send_tail_in p
                    (encode_all q) held.packages.0 cut buff head_len);
        })

  -- Behind the first package stand the others, and then what the sender has written.
  abbrev pub next : ℕ
  next = slot size (slot size head head_len) (length p.body)

  next-lt : next < size
  next-lt =
      Queue.next_pos-lt 0 size mem head tail v.send_head_in v.send_tail_in p (encode_all q)
        held.packages.0 cut

  pub next-SendHolds : Holds 0 size mem next tail q
  next-SendHolds = record {
    content =
        Queue.next_bytes 0 size mem head tail v.send_head_in v.send_tail_in p (encode_all q)
          held.packages.0 cut;
    packages = held.packages.1;
  }

  next-Written :
      (limit : ℕ) (extra : List ℕ)
      → limit < size
      → Written h (p ∷ q) limit extra
      → bytes 0 size mem next limit ≡ encode_all q ++ extra
  unfolding encode_all
  next-Written limit extra hl e =
      Queue.next_bytes 0 size mem head limit v.send_head_in hl p (encode_all q ++ extra)
        held.packages.0 (e ∙ append_assoc (encode p) (encode_all q) extra)

  -- The queue has shrunk, so a head that was loaded earlier still stands before it.
  next-Earlier :
      (old limit : ℕ) (extra : List ℕ)
      → Written h (p ∷ q) limit extra
      → Earlier h old limit
      → Earlier (record h { send_head = next }) old limit
  unfolding encode_all
  next-Earlier old limit extra e w = record {
    old_in = w.old_in;
    tail_in = w.tail_in;
    behind = omega (
      arith,
      w.behind,
      ap length (next-Written limit extra w.tail_in e),
      length-bytes 0 size mem next limit,
      length-bytes 0 size mem head limit,
      ap length e,
      length-append (encode p ++ encode_all q) extra,
      length-append (encode p) (encode_all q),
      length-append (encode_all q) extra,
    );
  }

  queue-Written : Written h (p ∷ q) tail []
  queue-Written = held.content ∙ sym (append-nil (encode_all (p ∷ q)))

  pub next-SenderOk :
      (s : Sender) → SenderOk h (p ∷ q) s → SenderOk (record h { send_head = next }) q s
  unfolding SenderOk
  next-SenderOk idle ok = ok
  next-SenderOk (bit_clear c) ok = ok
  next-SenderOk (head_loaded c old) (fits, w) = (fits, next-Earlier old tail [] queue-Written w)
  next-SenderOk (space_found c old limit) (fits, e, w, room) =
      (fits, e, next-Earlier old limit [] (rw e queue-Written) w, room)
  next-SenderOk (head_copied c old limit) (fits, w, room, e) = (
    fits,
    next-Earlier old limit (call_head h c) e w,
    room,
    next-Written limit (call_head h c) w.tail_in e,
  )
  next-SenderOk (body_copied c limit) (fits, at, e) =
      (fits, at, next-Written limit (encode (call_package h c)) at e)
  next-SenderOk tail_stored ok = ok
  next-SenderOk (count_loaded count) ok = ok

  pub next-IsHub : IsHub (record h { send_head = next })
  next-IsHub = set-IsHub h v mem next tail h.sending_count h.sended_count next-lt v.send_tail_in
