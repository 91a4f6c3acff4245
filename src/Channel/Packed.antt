-- ===== src/Channel/Packed.antt =====
-- `fetch_send_channel_stlv` of src/carrier/bridge_carrier.c: the carrier takes the oldest package of the
-- send queue and packs it, straight out of the queue where the package does not go round the end.
use proc_bridge.Base.{
  ℕ, ◌+◌, ◌-◌, ◌%◌, ◌<◌, ◌≤◌, ◌≡◌, refl, ap, ap₂, sym, ◌∙◌, arith, false, List, [], ◌∷◌, ◌++◌,
  length, length-append, length-slice, slice, slice_cong, leb, ◌==◌, ==-of_ne, ==_iff, Bool-cases,
  inl, inr, if◌then◌else◌, ℤ, pos, negsuc, minus_one, minus_two, pred_ℤ, Mem, zeroed,
}
use proc_bridge.Ring.{ring_get}
use proc_bridge.Ring.Laws.{slot, used, mod_slot, slot-slot}
use proc_bridge.Ring.Content.{bytes, window, window_flat, bytes_front}
use proc_bridge.Package.{head_len, load_head, store_head, Package, head_of, encode}
use proc_bridge.Hub.{Hub, IsHub}
use proc_bridge.Stlv.{Stlv, write}
use proc_bridge.Channel.{fetch_send_channel}
use proc_bridge.Channel.Queue
use proc_bridge.Channel.Queue.{Holds, SendHolds, encode_all}
use proc_bridge.Channel.Fetch.{
  Holds-cons, with_head, with_body, fetched, head_read, fetch_lem, fetched_bytes,
  fetch_send_channel_empty, Holds-nil,
}

-- The end of both branches: the offset moves only if something was packed.
unfoldable pub finish_pack : Hub → Mem → ℕ → List ℕ → Hub × Mem × ℤ
finish_pack h stlv_buff head_pos [] = (h, stlv_buff, minus_one)
finish_pack h stlv_buff head_pos (b ∷ bs) = (
  record h { sending_count = pred_ℤ h.sending_count; send_head = head_pos },
  write stlv_buff 0 (b ∷ bs),
  pos (length (b ∷ bs)),
)

-- `fetch_send_channel_stlv`; `buff` is the local array, which is not initialised.
unfoldable pub fetch_send_channel_stlv : Stlv → Hub → (stlv_buff buff : Mem) → Hub × Mem × ℤ
unfolding finish_pack
fetch_send_channel_stlv stlv h stlv_buff buff =
    let channel_len = h.send_buff_size in
    let mem = h.all_buff in
    let head_buff = (ring_get 0 channel_len mem h.send_head zeroed 0 head_len).0 in
    let pack_len = head_len + (load_head head_buff).data_len in
    let got = ring_get 0 channel_len mem h.send_head buff 0 head_len in
    let data_len = (load_head got.0).data_len in
    let body = ring_get 0 channel_len mem got.1 got.0 head_len data_len in
    if h.send_head == h.send_tail
    then (h, stlv_buff, minus_two)
    else if leb pack_len (channel_len - h.send_head)
    then finish_pack h stlv_buff ((h.send_head + pack_len) % channel_len)
        (stlv.pack (slice mem h.send_head pack_len))
    else finish_pack h stlv_buff body.1 (stlv.pack (slice body.0 0 (head_len + data_len)))

-- The same from the parts: `fetch_send_channel`, then the packer on the package in the buffer.
-- Where the packer fails the package stays in the queue.
abbrev pub after_pack : (before after : Hub) → Mem → List ℕ → Hub × Mem × ℤ
after_pack before after stlv_buff [] = (before, stlv_buff, minus_one)
after_pack before after stlv_buff (b ∷ bs) =
    (after, write stlv_buff 0 (b ∷ bs), pos (length (b ∷ bs)))

abbrev pub pack_fetched : Stlv → Hub → Mem → Hub × Mem × ℤ → Hub × Mem × ℤ
pack_fetched stlv h stlv_buff (h', buff', negsuc n) = (h, stlv_buff, negsuc n)
pack_fetched stlv h stlv_buff (h', buff', pos n) =
    after_pack h h' stlv_buff (stlv.pack (slice buff' 0 n))

finish_pack_lem :
    (h : Hub) (stlv_buff : Mem) (at : ℕ) (bs : List ℕ)
    → finish_pack h stlv_buff at bs
      ≡ after_pack h
          (record h { sending_count = pred_ℤ h.sending_count; send_head = at })
          stlv_buff
          bs
unfolding finish_pack
finish_pack_lem h stlv_buff at [] = refl
finish_pack_lem h stlv_buff at (b ∷ bs) = refl

module _ (stlv : Stlv) (h : Hub) (v : IsHub h) (p : Package) (q : List Package)
    (held : SendHolds h (p ∷ q)) (stlv_buff buff : Mem) where
  open h use {send_buff_size as size, send_head as head, send_tail as tail, all_buff as mem}

  abbrev pack_len : ℕ
  pack_len = head_len + length p.body

  -- The head of the package is the one that is read ahead.
  unequal : (head == tail) ≡ false
  unequal = ==-of_ne head tail (Holds-cons 0 size mem head tail p q held)

  rest_bytes : bytes 0 size mem head tail ≡ encode p ++ encode_all q
  rest_bytes = unfold encode_all in held.content

  length-encode : length (encode p) ≡ pack_len
  unfolding encode
  length-encode = omega (
    arith,
    length-append (slice (store_head (head_of p)) 0 head_len) p.body,
    length-slice (store_head (head_of p)) 0 head_len,
  )

  front :
      (pack_len < size)
      × (used size head tail ≡ pack_len + length (encode_all q))
      × (window 0 size mem head pack_len ≡ encode p)
      × (bytes 0 size mem (slot size head pack_len) tail ≡ encode_all q)
  front =
      bytes_front 0 size mem head tail pack_len (encode p) (encode_all q) v.send_head_in
        v.send_tail_in length-encode rest_bytes

  pack_flat :
      pack_len ≤ size - head
      → (slice mem head pack_len ≡ encode p)
        × ((head + pack_len) % size ≡ slot size (slot size head head_len) (length p.body))
  pack_flat le = (
    slice_cong mem mem head (0 + head) pack_len (λ k hk. ap mem (omega arith))
        ∙ sym (window_flat 0 size mem head pack_len (omega (arith, v.send_head_in)))
        ∙ front.2,
    mod_slot size head pack_len (omega (arith, v.send_head_in)) (omega (arith, v.send_head_in))
        ∙ sym
            (slot-slot size head head_len (length p.body) v.send_head_in (omega (arith, front.0))),
  )

  -- What the parts make of it.
  parts :
      pack_fetched stlv h stlv_buff (fetch_send_channel h buff)
      ≡ finish_pack h stlv_buff
          (slot size (slot size head head_len) (length p.body))
          (stlv.pack (encode p))
  unfolding fetched
  parts =
      rw (fetch_lem h v p q held buff, fetched_bytes h v p q held buff)
        (sym (
          finish_pack_lem h stlv_buff (slot size (slot size head head_len) (length p.body))
            (stlv.pack (encode p))))

  stlv_lem :
      fetch_send_channel_stlv stlv h stlv_buff buff
      ≡ finish_pack h stlv_buff
          (slot size (slot size head head_len) (length p.body))
          (stlv.pack (encode p))
  unfolding fetch_send_channel_stlv
  stlv_lem =
      rw
        (
          unequal,
          head_read h v p q held zeroed,
          head_read h v p q held buff,
          Queue.first_pos 0 size mem head tail v.send_head_in v.send_tail_in p (encode_all q)
              held.packages.0 rest_bytes buff,
          Queue.get-next_pos 0 size mem head tail v.send_head_in v.send_tail_in p (encode_all q)
              held.packages.0 rest_bytes (ring_get 0 size mem head buff 0 head_len).0 head_len,
        )
        (elim (Bool-cases (leb (head_len + length p.body) (size - head))) [
          | inl flat ↦
              let (b, e) = pack_flat (ground (arith, flat)) in
              rw flat (ap₂ (λ at xs. finish_pack h stlv_buff at (stlv.pack xs)) e b)
          | inr round ↦ rw round (
              ap
                (λ xs.
                  finish_pack h stlv_buff (slot size (slot size head head_len) (length p.body))
                    (stlv.pack xs))
                (unfold with_body with_head in fetched_bytes h v p q held buff))
        ])

-- fetch_send_channel_stlv on a valid hub whose send queue holds a list of packages: it is
-- fetch_send_channel followed by the packer on the package that was fetched, whatever the packer does
-- and whatever stands in the arrays before, except that the package stays in the queue, with -1, where
-- the packer fails.
pub fetch_send_channel_stlv-eq :
    (stlv : Stlv) (h : Hub) (stlv_buff buff : Mem) (q : List Package)
    → IsHub h
    → SendHolds h q
    → fetch_send_channel_stlv stlv h stlv_buff buff
      ≡ pack_fetched stlv h stlv_buff (fetch_send_channel h buff)
unfolding fetch_send_channel_stlv
fetch_send_channel_stlv-eq stlv h stlv_buff buff [] v held = rw (
  fetch_send_channel_empty h buff v held,
  (==_iff h.send_head h.send_tail).1 (
      Holds-nil 0 h.send_buff_size h.all_buff h.send_head h.send_tail v.send_head_in v.send_tail_in
        held),
)
fetch_send_channel_stlv-eq stlv h stlv_buff buff (p ∷ q) v held =
    stlv_lem stlv h v p q held stlv_buff buff ∙ sym (parts stlv h v p q held stlv_buff buff)
