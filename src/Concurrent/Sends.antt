-- ===== src/Concurrent/Sends.antt =====
-- An access of the sender keeps the invariant.
use proc_bridge.Base.{
  ℕ, ◌+◌, ◌≡◌, refl, ap, sym, ◌∙◌, List, [], ◌∷◌, ◌++◌, map, append_assoc, append-nil, Bool-cases,
  inl, inr, ltb_ℤ, sub_ℕ, int32,
}
use mathlib.Core.List.{map-append}
use proc_bridge.Ring.{ring_space}
use proc_bridge.Package.{head_len, Package, encode}
use proc_bridge.Hub.{Hub}
use proc_bridge.Concurrent.{
  Sender, idle, bit_clear, head_loaded, space_found, head_copied, body_copied, tail_stored,
  count_loaded, send_step, log_sent, Fetcher, resting, head_seen, package_seen, head_taken,
  body_taken, count_seen, count_stored, System, move, step_send,
}
use proc_bridge.Concurrent.Invariant.{First, FetcherOk, Inv}
use proc_bridge.Concurrent.Writes.{new_packages, send_step-Kept}

-- A longer queue begins as the shorter one.
First-append : (q more : List Package) (P : Package → Type 0) → First q P → First (q ++ more) P
unfolding First
First-append [] more P x = absurd x
First-append (p ∷ q) more P x = x

-- The fetcher finds the first package where it was.
FetcherOk-append :
    (size head : ℕ) (q more : List Package) (f : Fetcher)
    → FetcherOk size head q f
    → FetcherOk size head (q ++ more) f
unfolding FetcherOk
FetcherOk-append size head q more resting ok = ok
FetcherOk-append size head q more (head_seen buff at) ok = ok
FetcherOk-append size head q more (package_seen buff at) ok =
    (ok.0, First-append q more (λ p. Unit) ok.1)
FetcherOk-append size head q more (head_taken buff at n) ok = First-append q more _ ok
FetcherOk-append size head q more (body_taken buff at n) ok = First-append q more _ ok
FetcherOk-append size head q more (count_seen buff at n count) ok = First-append q more _ ok
FetcherOk-append size head q more (count_stored buff at n) ok = First-append q more _ ok

-- The size and the head are not the sender's to change.
record Left (h h' : Hub) : Type 0 where
  size : h'.send_buff_size ≡ h.send_buff_size
  head : h'.send_head ≡ h.send_head

send_step-Left : (h : Hub) (p : Sender) → Left h (send_step h p).0
unfolding send_step
send_step-Left h idle = record { size = refl; head = refl }
send_step-Left h (bit_clear c) = record { size = refl; head = refl }
send_step-Left h (head_loaded c old) =
    elim (Bool-cases
      (ltb_ℤ (sub_ℕ (ring_space h.send_buff_size old h.send_tail) 1) (int32 (head_len + c.len)))) [
        | inl full ↦ rw full (record { size = refl; head = refl })
        | inr room ↦ rw room (record { size = refl; head = refl })
      ]
send_step-Left h (space_found c old at) = record { size = refl; head = refl }
send_step-Left h (head_copied c old at) = record { size = refl; head = refl }
send_step-Left h (body_copied c at) = record { size = refl; head = refl }
send_step-Left h tail_stored = record { size = refl; head = refl }
send_step-Left h (count_loaded count) = record { size = refl; head = refl }

log_sent_lem :
    (h : Hub) (p : Sender) (sent : List Package) → log_sent h p sent ≡ sent ++ new_packages h p
unfolding log_sent new_packages
log_sent_lem h idle sent = sym (append-nil sent)
log_sent_lem h (bit_clear c) sent = sym (append-nil sent)
log_sent_lem h (head_loaded c old) sent = sym (append-nil sent)
log_sent_lem h (space_found c old at) sent = sym (append-nil sent)
log_sent_lem h (head_copied c old at) sent = sym (append-nil sent)
log_sent_lem h (body_copied c at) sent = refl
log_sent_lem h tail_stored sent = sym (append-nil sent)
log_sent_lem h (count_loaded count) sent = sym (append-nil sent)

pub step_send-Inv :
    (s : System) (q : List Package)
    → Inv s q
    → Inv (move step_send s) (q ++ new_packages s.hub s.sender)
unfolding move
step_send-Inv s q i =
    let k = send_step-Kept s.hub i.valid q i.held s.sender i.sending in
    let kept = send_step-Left s.hub s.sender in
    record {
      valid = k.valid;
      held = k.held;
      order = rw (log_sent_lem s.hub s.sender s.sent) (
          map-append encode s.sent _
          ∙ ap (λ t. t ++ map encode (new_packages s.hub s.sender)) i.order
          ∙ append_assoc s.fetched (map encode q) _
          ∙ ap (λ t. s.fetched ++ t) (sym (map-append encode q _)));
      sending = k.sending;
      fetching = rw (kept.size, kept.head) (FetcherOk-append _ _ q _ s.fetcher i.fetching);
    }
