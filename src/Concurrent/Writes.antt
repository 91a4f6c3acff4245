-- ===== src/Concurrent/Writes.antt =====
-- What an access of the sender does to the hub: it writes behind the packages of the queue alone,
-- and the tail passes over what it has written only when the whole package is there.
use proc_bridge.Base.{
  ℕ, ◌+◌, ◌<◌, ◌≡◌, refl, ap, sym, ◌∙◌, arith, List, [], ◌∷◌, ◌++◌, length, append_assoc,
  append-nil, Bool-cases, inl, inr, Every-append, slice, length-slice, ◌-◌, ◌^◌, suc_ℤ, ltb_ℤ,
  sub_ℕ, int32, int32-of_small, not, ltb,
}
use proc_bridge.Ring.{ring_space}
use proc_bridge.Ring.Laws.{used, ring_space_lem}
use proc_bridge.Ring.Content.{bytes, length-bytes}
use proc_bridge.Package.{head_len, store_head, Package, encode, IsPackage}
use proc_bridge.Hub.{Hub, IsHub, count_up}
use proc_bridge.Channel.{send_head_of}
use proc_bridge.Channel.Send.{sent-IsPackage}
use proc_bridge.Channel.Queue.{Holds, SendHolds, encode_all, encode_all-append}
use proc_bridge.Concurrent.{
  Call, Sender, idle, bit_clear, head_loaded, space_found, head_copied, body_copied, tail_stored,
  count_loaded, send_step,
}
use proc_bridge.Concurrent.Stale.{bytes_prefix, ring_put-Appends}
use proc_bridge.Concurrent.Invariant.{call_package, call_head, SenderOk, set-IsHub}

-- The test of the space with the head that was loaded.
stale_space :
    (cap old tail len : ℕ)
    → old < cap
    → tail < cap
    → len < 2 ^ 31 - head_len
    → ltb_ℤ (sub_ℕ (ring_space cap old tail) 1) (int32 (head_len + len))
      ≡ not (ltb (used cap old tail + head_len + len) cap)
stale_space cap old tail len ho ht fits =
    rw (int32-of_small (head_len + len) (omega arith))
      (ground (arith, ring_space_lem cap old tail ho ht))

-- What a step of the sender leaves, for the queue that it has made.
pub record Kept (q : List Package) (r : Hub × Sender) : Type 0 where
  pub valid : IsHub r.0
  pub held : SendHolds r.0 q
  pub sending : SenderOk r.0 q r.1

sent_bytes :
    (h : Hub) (c : Call) → call_head h c ++ slice c.sending_data 0 c.len ≡ encode (call_package h c)
unfolding encode
sent_bytes h c =
    ap
      (λ n.
        slice (store_head (send_head_of h c.target_id n c.curr_ms)) 0 head_len
        ++ slice c.sending_data 0 c.len)
      (sym (length-slice c.sending_data 0 c.len))

one_more : (q : List Package) (p : Package) → encode_all q ++ encode p ≡ encode_all (q ++ p ∷ [])
unfolding encode_all
one_more q p = simp (encode_all-append q (p ∷ []), append-nil)

-- The package that a step makes the last of the queue.
unfoldable pub new_packages : Hub → Sender → List Package
new_packages h (body_copied c tail_pos) = call_package h c ∷ []
new_packages h _ = []

same : {q : List Package} {r : Hub × Sender} → Kept q r → Kept (q ++ []) r
same {q} k = rw (append-nil q) k

-- Bytes behind the tail alone have changed.
module _ (h : Hub) (v : IsHub h) (q : List Package) (held : SendHolds h q) where
  open h use {send_buff_size as size, send_head as head, send_tail as tail, all_buff as mem}

  behind_tail :
      (mem' : ℕ → ℕ) (limit : ℕ) (extra : List ℕ)
      → limit < size
      → bytes 0 size mem' head limit ≡ encode_all q ++ extra
      → Holds 0 size mem' head tail q
  behind_tail mem' limit extra hl e = record {
    content =
        bytes_prefix 0 size mem' head tail limit (encode_all q) extra v.send_head_in v.send_tail_in
          hl (ap length (sym held.content) ∙ length-bytes 0 size mem head tail) e;
    packages = held.packages;
  }

  written_head :
      (c : Call) (old tail_pos : ℕ)
      → SenderOk h q (space_found c old tail_pos)
      → Kept q (send_step h (space_found c old tail_pos))
  unfolding SenderOk send_step
  written_head c old tail_pos (fits, e, w, room) =
      let put =
        ring_put-Appends 0 size old head mem tail_pos
          (store_head (send_head_of h c.target_id c.len c.curr_ms)) 0 head_len w.old_in
          v.send_head_in w.tail_in w.behind (omega arith) in
      let now =
        put.content ∙ ap (λ t. t ++ call_head h c) (ap (bytes 0 size mem head) e ∙ held.content) in
      record {
        valid =
            set-IsHub h v _ head tail h.sending_count h.sended_count v.send_head_in v.send_tail_in;
        held = behind_tail _ _ (call_head h c) put.next_in now;
        sending = (
          fits,
          record { old_in = w.old_in; tail_in = put.next_in; behind = put.behind },
          omega (arith, put.counted),
          now,
        );
      }

  written_body :
      (c : Call) (old tail_pos : ℕ)
      → SenderOk h q (head_copied c old tail_pos)
      → Kept q (send_step h (head_copied c old tail_pos))
  unfolding SenderOk send_step
  written_body c old tail_pos (fits, w, room, e) =
      let put =
        ring_put-Appends 0 size old head mem tail_pos c.sending_data 0 c.len w.old_in v.send_head_in
          w.tail_in w.behind room in
      let now =
        put.content
        ∙ ap (λ t. t ++ slice c.sending_data 0 c.len) e
        ∙ append_assoc (encode_all q) (call_head h c) (slice c.sending_data 0 c.len)
        ∙ ap (λ t. encode_all q ++ t) (sent_bytes h c) in
      record {
        valid =
            set-IsHub h v _ head tail h.sending_count h.sended_count v.send_head_in v.send_tail_in;
        held = behind_tail _ _ (encode (call_package h c)) put.next_in now;
        sending = (fits, put.next_in, now);
      }

  published :
      (c : Call) (tail_pos : ℕ)
      → SenderOk h q (body_copied c tail_pos)
      → Kept (q ++ call_package h c ∷ []) (send_step h (body_copied c tail_pos))
  unfolding SenderOk send_step
  published c tail_pos (fits, at, e) = record {
    valid = set-IsHub h v mem head tail_pos h.sending_count h.sended_count v.send_head_in at;
    held = record {
      content = e ∙ one_more q (call_package h c);
      packages = Every-append IsPackage q (call_package h c ∷ []) held.packages (
        sent-IsPackage h c.target_id c.sending_data c.len c.curr_ms v fits.target_fits
            (omega (arith, fits.len_fits)) fits.ms_fits,
        tt,
      );
    };
    sending = tt;
  }

  looked :
      (c : Call) (old : ℕ)
      → SenderOk h q (head_loaded c old)
      → Kept q (send_step h (head_loaded c old))
  unfolding SenderOk send_step
  looked c old (fits, w) =
      let test = stale_space size old tail c.len w.old_in w.tail_in fits.len_fits in
      elim (Bool-cases (ltb (used size old tail + head_len + c.len) size)) [
        | inl room ↦
            rw (test, room)
              (record { valid = v; held = held; sending = (fits, refl, w, ground arith) })
        | inr full ↦ rw (test, full) (record { valid = v; held = held; sending = tt })
      ]

  -- A step of the sender keeps the queue, or has put the whole package behind it.
  pub send_step-Kept : (p : Sender) → SenderOk h q p → Kept (q ++ new_packages h p) (send_step h p)
  unfolding SenderOk send_step new_packages
  send_step-Kept idle ok = same (record { valid = v; held = held; sending = tt })
  send_step-Kept (bit_clear c) fits = same (record {
    valid = v;
    held = held;
    sending =
        (fits, record { old_in = v.send_head_in; tail_in = v.send_tail_in; behind = omega arith });
  })
  send_step-Kept (head_loaded c old) ok = same (looked c old ok)
  send_step-Kept (space_found c old tail_pos) ok = same (written_head c old tail_pos ok)
  send_step-Kept (head_copied c old tail_pos) ok = same (written_body c old tail_pos ok)
  send_step-Kept (body_copied c tail_pos) ok = published c tail_pos ok
  send_step-Kept tail_stored ok = same (record { valid = v; held = held; sending = tt })
  send_step-Kept (count_loaded count) ok = same (record {
    valid =
        set-IsHub h v mem head tail (suc_ℤ count) (count_up h.sended_count) v.send_head_in
          v.send_tail_in;
    held = record { content = held.content; packages = held.packages };
    sending = tt;
  })
