-- ===== src/Channel/Append.antt =====
-- `append_recv_channel`: the carrier delivers a package at the end of the receive queue.
use proc_bridge.Base.{
  ltb-ge, ltb→lt, Bool-cases, ◌⊎◌, ℕ, ◌+◌, ◌≤◌, ◌<◌, ◌≡◌, refl, ap, sym, ◌∙◌, inl, inr, List, [],
  ◌∷◌, ◌++◌, arith, length, slice, length-slice, slice-append, append_split, Mem, ltb,
  if◌then◌else◌, pos, minus_three, suc_ℤ, int32-of_small,
}
use proc_bridge.Ring.{ring_put}
use proc_bridge.Ring.Laws.{used, slot-lt, ring_put-tail, ring_put-outside, ring_space_lem}
use proc_bridge.Ring.Content.{bytes, bytes-ring_put, bytes_frame}
use proc_bridge.Package.{head_len, store_head, load_head, Package, head_of, encode, IsPackage}
use proc_bridge.Package.Codec.{load_head_cong, load_head-store_head}
use proc_bridge.Hub.{Hub, IsHub, recv_channel, count_up}
use proc_bridge.Channel.{append_recv_channel}
use proc_bridge.Channel.Queue.{SendHolds, RecvHolds, push-Holds}

-- A buffer that begins with the bytes of a package.
abbrev pub Carries : Mem → Package → Type 0
Carries pkg p = slice pkg 0 (head_len + length p.body) ≡ encode p

-- The head that such a buffer shows.
pub load_head_of_Carries :
    (pkg : Mem) (p : Package) → IsPackage p → Carries pkg p → load_head pkg ≡ head_of p
load_head_of_Carries pkg p v e =
    load_head_cong pkg (store_head (head_of p)) parts.0 ∙ load_head-store_head p v
  where
    parts :
        (slice pkg 0 head_len ≡ slice (store_head (head_of p)) 0 head_len)
        × (slice pkg (0 + head_len) (length p.body) ≡ p.body)
    parts =
        append_split (slice pkg 0 head_len) (slice (store_head (head_of p)) 0 head_len) _ _
          (length-slice pkg 0 head_len ∙ sym (length-slice (store_head (head_of p)) 0 head_len))
          (sym (slice-append pkg 0 head_len (length p.body)) ∙ unfold encode in e)

-- The hub with the package of `n` bytes copied in.
delivered : Hub → Mem → ℕ → Hub
delivered h pkg n =
    let put =
      ring_put (recv_channel h) h.recv_buff_size h.recv_head h.all_buff h.recv_tail pkg 0 n in
    record h {
      all_buff = put.0;
      recv_tail = put.1;
      recving_count = suc_ℤ h.recving_count;
      recved_count = count_up h.recved_count;
    }

module _ (h : Hub) (v : IsHub h) (pkg : Mem) (p : Package) (w : IsPackage p)
    (c : Carries pkg p) where
  open h use {recv_buff_size as size, recv_head as head, recv_tail as tail, all_buff as mem}

  -- A package is delivered if it fits with the byte that stays free; else the return value is -3
  -- and the hub is as it was.
  append_lem : append_recv_channel h pkg ≡ (
      if ltb (used size head tail + head_len + length p.body) size
      then (delivered h pkg (head_len + length p.body), pos 0)
      else (h, minus_three))
  unfolding append_recv_channel delivered
  append_lem =
      rw
        (
          load_head_of_Carries pkg p w c,
          int32-of_small (head_len + length p.body) (omega (arith, w.len_fits)),
        )
        (ground (arith, ring_space_lem size head tail v.recv_head_in v.recv_tail_in))

  module _ (room : used size head tail + head_len + length p.body < size) where
    delivered-IsHub : IsHub (delivered h pkg (head_len + length p.body))
    unfolding delivered
    delivered-IsHub = record {
      proc_id_pos = v.proc_id_pos;
      proc_id_fits = v.proc_id_fits;
      send_size_fits = v.send_size_fits;
      send_head_in = v.send_head_in;
      send_tail_in = v.send_tail_in;
      recv_size_fits = v.recv_size_fits;
      recv_head_in = v.recv_head_in;
      recv_tail_in =
          rw
            (ring_put-tail (recv_channel h) size head mem tail pkg 0 (head_len + length p.body)
              v.recv_head_in v.recv_tail_in (omega arith))
            (slot-lt size tail (head_len + length p.body) v.recv_tail_in (omega arith));
      bitmap_bytes = v.bitmap_bytes;
    }

    delivered-RecvHolds :
        (r : List Package)
        → RecvHolds h r
        → RecvHolds (delivered h pkg (head_len + length p.body)) (r ++ p ∷ [])
    unfolding delivered
    delivered-RecvHolds r held = push-Holds (recv_channel h) size mem _ head tail _ r p held w (
        bytes-ring_put (recv_channel h) size head mem tail pkg 0 (head_len + length p.body)
          v.recv_head_in v.recv_tail_in (omega arith)
        ∙ ap (λ t. bytes (recv_channel h) size mem head tail ++ t) c)

    delivered-SendHolds :
        (q : List Package)
        → SendHolds h q
        → SendHolds (delivered h pkg (head_len + length p.body)) q
    unfolding delivered
    delivered-SendHolds q held = record {
      content =
          bytes_frame 0 h.send_buff_size mem _ h.send_head h.send_tail v.send_head_in v.send_tail_in
            (λ a lo hi.
              ring_put-outside (recv_channel h) size head mem tail pkg 0 (head_len + length p.body)
                v.recv_head_in v.recv_tail_in (omega arith) a (inl (omega arith)))
          ∙ held.content;
      packages = held.packages;
    }

-- For a buffer that begins with the bytes of a package, whose length with the head fits an `int`,
-- append_recv_channel returns 0 exactly if the package fits with the byte that stays free. It then
-- stands at the end of the receive queue, the send queue holds what it held, and the hub is valid;
-- else the return value is -3 and the hub is as it was.
pub append_recv_channel_push :
    (h : Hub) (pkg : Mem) (p : Package) (q r : List Package)
    → IsHub h
    → IsPackage p
    → Carries pkg p
    → SendHolds h q
    → RecvHolds h r
    → let (h', ret) = append_recv_channel h pkg in
      ((used h.recv_buff_size h.recv_head h.recv_tail + head_len + length p.body < h.recv_buff_size)
        × (ret ≡ pos 0)
        × IsHub h'
        × RecvHolds h' (r ++ p ∷ [])
        × SendHolds h' q)
      ⊎ ((h.recv_buff_size
            ≤ used h.recv_buff_size h.recv_head h.recv_tail + head_len + length p.body)
          × (ret ≡ minus_three)
          × (h' ≡ h))
append_recv_channel_push h pkg p q r v w c sq rr = elim (Bool-cases (ltb need h.recv_buff_size)) [
  | inl fits ↦
      let room : need < h.recv_buff_size = ltb→lt _ _ fits in
      rw (append_lem h v pkg p w c, fits)
        (inl (
          room,
          refl,
          delivered-IsHub h v pkg p w c room,
          delivered-RecvHolds h v pkg p w c room r rr,
          delivered-SendHolds h v pkg p w c room q sq,
        ))
  | inr full ↦ rw (append_lem h v pkg p w c, full) (inr (ltb-ge _ _ full, refl, refl))
]
  where
    need : ℕ
    need = used h.recv_buff_size h.recv_head h.recv_tail + head_len + length p.body
