-- ===== src/Channel/Queue.antt =====
-- The contract of the queues of a hub: a list of packages, oldest first. A circular queue holds a
-- list if its bytes are those of the packages one behind the other.
use proc_bridge.Base.{
  ◌⊎◌, ◌≤◌, ℕ, ◌+◌, ◌<◌, ◌≡◌, refl, ap, ◌∙◌, List, [], ◌∷◌, ◌++◌, append_assoc, append-nil, arith,
  length, length-append, Every, Every-append, slice, length-slice, Mem,
}
use proc_bridge.Ring.{ring_get, ring_skip}
use proc_bridge.Ring.Laws.{slot, used, slot-lt, ring_get-outside, ring_get-head, ring_skip-slot}
use proc_bridge.Ring.Content.{bytes, window, bytes_front, ring_get-slice}
use proc_bridge.Package.{head_len, store_head, load_head, Package, head_of, encode, IsPackage}
use proc_bridge.Package.Codec.{load_head_cong, load_head-store_head}
use proc_bridge.Hub.{Hub, recv_channel}

unfoldable pub encode_all : List Package → List ℕ
encode_all [] = []
encode_all (p ∷ q) = encode p ++ encode_all q

pub encode_all-append : (q r : List Package) → encode_all (q ++ r) ≡ encode_all q ++ encode_all r
unfolding encode_all
encode_all-append [] r = refl
encode_all-append (p ∷ q) r = simp (encode_all-append q r, append_assoc)

pub record Holds (base cap : ℕ) (mem : Mem) (head tail : ℕ) (q : List Package) : Type 0 where
  pub content : bytes base cap mem head tail ≡ encode_all q
  pub packages : Every IsPackage q

-- What the process has sent and the carrier has not yet taken.
abbrev pub SendHolds : Hub → List Package → Type 0
SendHolds h q = Holds 0 h.send_buff_size h.all_buff h.send_head h.send_tail q

-- What the carrier has delivered and the process has not yet received.
abbrev pub RecvHolds : Hub → List Package → Type 0
RecvHolds h q = Holds (recv_channel h) h.recv_buff_size h.all_buff h.recv_head h.recv_tail q

-- Bytes of one more package behind the others make the queue longer by that package.
pub push-Holds :
    (base cap : ℕ) (mem mem' : Mem) (head tail tail' : ℕ) (q : List Package) (p : Package)
    → Holds base cap mem head tail q
    → IsPackage p
    → bytes base cap mem' head tail' ≡ bytes base cap mem head tail ++ encode p
    → Holds base cap mem' head tail' (q ++ p ∷ [])
push-Holds base cap mem mem' head tail tail' q p held v e = record {
  content =
      e
      ∙ ap (λ t. t ++ encode p) held.content
      ∙ (unfold encode_all in simp (encode_all-append, append-nil));
  packages = Every-append IsPackage q (p ∷ []) held.packages (v, tt);
}

module _ (base cap : ℕ) (mem : Mem) (head tail : ℕ) (hh : head < cap) (ht : tail < cap)
    (p : Package) (rest : List ℕ) (v : IsPackage p)
    (e : bytes base cap mem head tail ≡ encode p ++ rest) where
  -- The bytes, cut behind the head.
  cut : bytes base cap mem head tail ≡ slice (store_head (head_of p)) 0 head_len ++ (p.body ++ rest)
  cut = unfold encode in e ∙ append_assoc (slice (store_head (head_of p)) 0 head_len) p.body rest

  front :
      (head_len < cap)
      × (used cap head tail ≡ head_len + length (p.body ++ rest))
      × (window base cap mem head head_len ≡ slice (store_head (head_of p)) 0 head_len)
      × (bytes base cap mem (slot cap head head_len) tail ≡ p.body ++ rest)
  front =
      bytes_front base cap mem head tail head_len (slice (store_head (head_of p)) 0 head_len)
        (p.body ++ rest) hh ht (length-slice (store_head (head_of p)) 0 head_len) cut

  back :
      (length p.body < cap)
      × (used cap (slot cap head head_len) tail ≡ length p.body + length rest)
      × (window base cap mem (slot cap head head_len) (length p.body) ≡ p.body)
      × (bytes base cap mem (slot cap (slot cap head head_len) (length p.body)) tail ≡ rest)
  back =
      bytes_front base cap mem (slot cap head head_len) tail (length p.body) p.body rest
        (slot-lt cap head head_len hh front.0) ht refl front.3

  -- The head that is read at the front of the queue is that of the first package.
  pub first_head_bytes :
      (dst : Mem)
      → slice (ring_get base cap mem head dst 0 head_len).0 0 head_len
        ≡ slice (store_head (head_of p)) 0 head_len
  first_head_bytes dst = ring_get-slice base cap mem head dst 0 head_len hh front.0 ∙ front.2

  pub first_head : (dst : Mem) → load_head (ring_get base cap mem head dst 0 head_len).0 ≡ head_of p
  first_head dst = load_head_cong _ _ (first_head_bytes dst) ∙ load_head-store_head p v

  pub first_pos :
      (dst : Mem) → (ring_get base cap mem head dst 0 head_len).1 ≡ slot cap head head_len
  first_pos dst = ring_get-head base cap mem head dst 0 head_len hh front.0

  -- The data behind it is the body.
  pub first_body :
      (dst : Mem) (d : ℕ)
      → slice
          (ring_get base cap mem (slot cap head head_len) dst d (length p.body)).0
          d
          (length p.body)
        ≡ p.body
  first_body dst d =
      ring_get-slice base cap mem (slot cap head head_len) dst d (length p.body)
        (slot-lt cap head head_len hh front.0) back.0
      ∙ back.2

  pub body_outside :
      (dst : Mem) (d a : ℕ)
      → (a < d) ⊎ (d + length p.body ≤ a)
      → (ring_get base cap mem (slot cap head head_len) dst d (length p.body)).0 a ≡ dst a
  body_outside dst d a out =
      ring_get-outside base cap mem (slot cap head head_len) dst d (length p.body)
        (slot-lt cap head head_len hh front.0) back.0 a out

  -- Where the next package begins, and what stands from there on.
  pub get-next_pos :
      (dst : Mem) (d : ℕ)
      → (ring_get base cap mem (slot cap head head_len) dst d (length p.body)).1
        ≡ slot cap (slot cap head head_len) (length p.body)
  get-next_pos dst d =
      ring_get-head base cap mem (slot cap head head_len) dst d (length p.body)
        (slot-lt cap head head_len hh front.0) back.0

  pub skip-next_pos :
      ring_skip cap (slot cap head head_len) (length p.body)
      ≡ slot cap (slot cap head head_len) (length p.body)
  skip-next_pos =
      ring_skip-slot cap (slot cap head head_len) (length p.body)
        (slot-lt cap head head_len hh front.0) back.0

  pub next_pos-lt : slot cap (slot cap head head_len) (length p.body) < cap
  next_pos-lt =
      slot-lt cap (slot cap head head_len) (length p.body) (slot-lt cap head head_len hh front.0)
        back.0

  pub next_bytes :
      bytes base cap mem (slot cap (slot cap head head_len) (length p.body)) tail ≡ rest
  next_bytes = back.3

  pub first_used : used cap head tail ≡ head_len + length p.body + length rest
  first_used = omega (arith, front.1, length-append p.body rest)
