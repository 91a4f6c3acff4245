-- ===== src/Client/Fifo.antt =====
-- `recv_client_pkg` keeps the order in which packages arrive, over the queue and the buffer.
use proc_bridge.Base.{
  ℕ, ◌+◌, ◌≤◌, ◌<◌, ◌≡◌, ◌⊎◌, ◌++◌, refl, ap, sym, ◌∙◌, inl, inr, arith, Bool, true, false, List,
  [], ◌∷◌, length, length-append, length-slice, append_assoc, append-nil, ltb, leb, if◌then◌else◌,
  Bool-cases, pos, minus_two, is_zero, int32, Mem,
}
use proc_bridge.Package.{Package, encode, IsPackage}
use proc_bridge.Package.Codec.{length-encode}
use proc_bridge.Hub.{Hub, IsHub}
use proc_bridge.Channel.{append_recv_channel}
use proc_bridge.Channel.Queue.{encode_all, SendHolds, RecvHolds}
use proc_bridge.Channel.Append.{Carries, append_recv_channel_push}
use proc_bridge.Client.{
  RecvBuffer, buff_of, pack_len, keep_pkg, put_pkg, Client, kept, recv_client_pkg, lacks,
  expand_recv_buff, max_client_buff_size,
}
use proc_bridge.Client.Buffer.{BuffHolds, int32-pack_len, keep_pkg-BuffHolds}
use proc_bridge.Client.Flush.{Flushed, not_flushed, flush_recving_buff-Flushed}

-- An empty buffer holds no package.
none_waiting :
    (c : RecvBuffer) (ps : List Package) → BuffHolds c ps → ltb 0 c.tail ≡ false → ps ≡ []
unfolding encode_all
none_waiting c [] b e = refl
none_waiting c (p ∷ ps) b e = absurd (
    ground (
      arith,
      e,
      ap length b.content,
      length-slice (buff_of c.buff) 0 c.tail,
      length-append (encode p) (encode_all ps),
      length-encode p,
    ))

-- After an arrival: the queue of the process and behind it the buffer hold what they held and then the
-- new package, or what they held if it was dropped.
pub record InOrder (q r ps : List Package) (p : Package) (x : Client) : Type 0 where
  pub queued : List Package
  pub waiting : List Package
  pub valid : IsHub x.hub
  pub send_kept : SendHolds x.hub q
  pub received : RecvHolds x.hub queued
  pub held : BuffHolds x.recv_buffer waiting
  pub order :
      ((x.ret ≡ pos 0) × (queued ++ waiting ≡ (r ++ ps) ++ p ∷ []))
      ⊎ ((x.ret ≡ minus_two) × (queued ++ waiting ≡ r ++ ps))

module _ (alloc : ℕ → Bool) (pkg : Mem) (p : Package) (ts : ℕ) (w : IsPackage p)
    (carries : Carries pkg p) (q r ps : List Package) where
  -- The package is put into the buffer, or dropped.
  kept-InOrder :
      (h : Hub) (c : RecvBuffer)
      → Flushed q r ps h c
      → InOrder q r ps p (kept h (keep_pkg alloc c pkg (int32 (pack_len pkg)) ts))
  kept-InOrder h c f =
      rw (int32-pack_len pkg p w carries)
        (elim (keep_pkg-BuffHolds alloc c f.rest pkg p ts f.waiting w carries) [
          | inl (z, b) ↦ record {
            queued = r ++ f.sent;
            waiting = f.rest ++ p ∷ [];
            valid = f.valid;
            send_kept = f.send_kept;
            received = f.received;
            held = b;
            order = inl (
              z,
              sym (append_assoc (r ++ f.sent) f.rest (p ∷ [])) ∙ ap (λ l. l ++ p ∷ []) together,
            );
          }
          | inr (z, b) ↦ record {
            queued = r ++ f.sent;
            waiting = f.rest;
            valid = f.valid;
            send_kept = f.send_kept;
            received = f.received;
            held = b;
            order = inr (z, together);
          }
        ])
    where
      together : (r ++ f.sent) ++ f.rest ≡ r ++ ps
      together = append_assoc r f.sent f.rest ∙ ap (λ l. r ++ l) (sym f.parts)

  -- The rest of `recv_client_pkg`, after the flush.
  flushed-InOrder :
      (h : Hub) (c : RecvBuffer)
      → Flushed q r ps h c
      → InOrder q r ps p (
          if ltb 0 c.tail
          then kept h (keep_pkg alloc c pkg (int32 (pack_len pkg)) ts)
          else if is_zero (append_recv_channel h pkg).1
          then record { hub = (append_recv_channel h pkg).0; recv_buffer = c; ret = pos 0 }
          else kept (append_recv_channel h pkg).0 (keep_pkg alloc c pkg (int32 (pack_len pkg)) ts))
  flushed-InOrder h c f = elim (Bool-cases (ltb 0 c.tail)) [
    | inl waits ↦ rw waits (kept-InOrder h c f)
    | inr free ↦
        let gone = none_waiting c f.rest f.waiting free in
        elim (append_recv_channel_push h pkg p q (r ++ f.sent) f.valid w carries f.send_kept
          f.received) [
            | inl (_, z, v', rr', sq') ↦
                rw (free, ap is_zero z)
                  (record {
                    queued = (r ++ f.sent) ++ p ∷ [];
                    waiting = [];
                    valid = v';
                    send_kept = sq';
                    received = rr';
                    held = rw gone at f.waiting;
                    order = inl (
                      refl,
                      append-nil ((r ++ f.sent) ++ p ∷ []) ∙ ap (λ l. l ++ p ∷ []) (all_sent gone),
                    );
                  })
            | inr (_, z, same) ↦ rw (free, ap is_zero z, same) (kept-InOrder h c f)
          ]
  ]
    where
      all_sent : f.rest ≡ [] → r ++ f.sent ≡ r ++ ps
      all_sent gone =
          ap (λ l. r ++ l)
            (sym (append-nil f.sent) ∙ ap (λ l. f.sent ++ l) (sym gone) ∙ sym f.parts)

-- recv_client_pkg, for a buffer that begins with the bytes of a package, whose length with the
-- head fits an `int`, whatever the memory and the time allow: what the receive queue and then the
-- receive buffer hold afterwards is what they held and then the new package, with 0, or what they
-- held, with -2; the send queue and the validity of the hub are kept.
pub recv_client_pkg-InOrder :
    (alloc : ℕ → Bool) (rounds : ℕ) (h : Hub) (c : RecvBuffer) (pkg : Mem) (p : Package) (ts : ℕ)
    (q r ps : List Package)
    → IsHub h
    → SendHolds h q
    → RecvHolds h r
    → BuffHolds c ps
    → IsPackage p
    → Carries pkg p
    → InOrder q r ps p (recv_client_pkg alloc rounds h c pkg ts)
unfolding recv_client_pkg
recv_client_pkg-InOrder alloc rounds h c pkg p ts q r ps v sq rr b w carries =
    flushed-InOrder alloc pkg p ts w carries q r ps _ _ (elim (Bool-cases (ltb 0 c.tail)) [
      | inl full ↦ rw full (flush_recving_buff-Flushed rounds h c q r ps v sq rr b)
      | inr none_left ↦ rw none_left (not_flushed h c q r ps v sq rr b)
    ])

-- In a buffer as long as was given for it (below 1 MB, not 0), without memory: a package of n
-- bytes that lacks room, but has it with 204842 bytes more, is refused with -2, and the next one
-- of n bytes is taken with 0 and ends beyond what was given.
pub keep_pkg_short :
    (c : RecvBuffer) (pkg : Mem) (ts n : ℕ)
    → 0 < c.buff_len
    → c.buff_len < max_client_buff_size
    → c.given ≡ c.buff_len
    → c.tail ≤ c.buff_len
    → c.buff_len < c.tail + n
    → c.tail + n ≤ c.buff_len + 204842
    → let c' = (keep_pkg (λ m. false) c pkg (pos n) ts).0 in
      let r = keep_pkg (λ m. false) c' pkg (pos n) ts in
      ((keep_pkg (λ m. false) c pkg (pos n) ts).1 ≡ minus_two)
      × (r.1 ≡ pos 0)
      × (r.0.given < r.0.tail)
keep_pkg_short c pkg ts n p lt g le small fits =
    rw (failed, second) (refl, refl, unfold put_pkg in omega (arith, g))
  where
    longer : RecvBuffer
    longer = record c { buff_len = c.buff_len + 204842 }

    failed : keep_pkg (λ m. false) c pkg (pos n) ts ≡ (longer, minus_two)
    failed =
        let lacking : lacks c (pos n) ≡ true = ground arith in
        let some_len : leb c.buff_len 0 ≡ false = ground arith in
        let below : leb max_client_buff_size c.buff_len ≡ false = ground arith in
        unfold keep_pkg expand_recv_buff in rw (lacking, some_len, below) refl

    second : keep_pkg (λ m. false) longer pkg (pos n) ts ≡ (put_pkg longer pkg (pos n) ts, pos 0)
    second =
        let enough : lacks longer (pos n) ≡ false = ground arith in
        unfold keep_pkg in rw enough refl
