-- ===== src/Client/Flush.antt =====
-- `flush_recving_buff` posts packages from the front of the buffer to the receive queue.
use proc_bridge.Base.{
  ℕ, zero, suc, ◌+◌, ◌-◌, ◌≤◌, ◌<◌, ◌≡◌, ◌++◌, refl, ap, ap₂, sym, ◌∙◌, inl, inr, arith, true,
  false, Option, none, some, List, [], ◌∷◌, length, length-append, Every, slice, slice_cong,
  slice-append, length-slice, append_split, append_assoc, append-nil, leb, Bool-cases, is_zero, Mem,
  memcpy,
}
use proc_bridge.Package.{head_len, Package, encode, IsPackage}
use proc_bridge.Package.Codec.{length-encode}
use proc_bridge.Hub.{Hub, IsHub}
use proc_bridge.Channel.{append_recv_channel}
use proc_bridge.Channel.Queue.{encode_all, SendHolds, RecvHolds}
use proc_bridge.Channel.Append.{Carries, append_recv_channel_push}
use proc_bridge.Client.{
  RecvBuffer, buff_of, pack_len, is_stop, flush_loop, after_flush, flush_buff, flush_recving_buff,
}
use proc_bridge.Client.Buffer.{int32-pack_len, BuffHolds, pack_len_of_Carries}

-- The first package of what stands from a position on.
first_pkg :
    (buff : Mem) (at n : ℕ) (p : Package) (ps : List Package)
    → slice buff at n ≡ encode_all (p ∷ ps)
    → (n ≡ head_len + length p.body + length (encode_all ps))
      × Carries (λ i. buff (at + i)) p
      × (slice buff (at + (head_len + length p.body)) (length (encode_all ps)) ≡ encode_all ps)
unfolding encode_all
first_pkg buff at n p ps e = (count, carries ∙ parts.0, parts.1)
  where
    count : n ≡ head_len + length p.body + length (encode_all ps)
    count = omega (
      arith,
      length-slice buff at n,
      ap length e,
      length-append (encode p) (encode_all ps),
      length-encode p,
    )

    parts :
        (slice buff at (head_len + length p.body) ≡ encode p)
        × (slice buff (at + (head_len + length p.body)) (length (encode_all ps)) ≡ encode_all ps)
    parts =
        append_split (slice buff at (head_len + length p.body)) (encode p) _ _
          (length-slice buff at (head_len + length p.body) ∙ sym (length-encode p))
          (sym (slice-append buff at (head_len + length p.body) (length (encode_all ps)))
            ∙ ap (slice buff at) (sym count)
            ∙ e)

    carries :
        slice (λ i. buff (at + i)) 0 (head_len + length p.body)
        ≡ slice buff at (head_len + length p.body)
    carries =
        slice_cong (λ i. buff (at + i)) buff 0 at (head_len + length p.body)
          (λ k h. ap (λ j. buff (at + j)) (omega arith))

-- What a posting leaves: the packages `sent` have gone to the queue, `rest` stays.
pub record Posted (buff : Mem) (tail : ℕ) (q r ps : List Package) (h' : Hub) (at : ℕ) : Type 0 where
  pub sent : List Package
  pub rest : List Package
  pub parts : ps ≡ sent ++ rest
  pub valid : IsHub h'
  pub send_kept : SendHolds h' q
  pub received : RecvHolds h' (r ++ sent)
  pub at_in : at ≤ tail
  pub left : slice buff at (tail - at) ≡ encode_all rest

-- Nothing is posted.
none-Posted :
    (buff : Mem) (tail at : ℕ) (q r ps : List Package) (h : Hub)
    → IsHub h
    → SendHolds h q
    → RecvHolds h r
    → at ≤ tail
    → slice buff at (tail - at) ≡ encode_all ps
    → Posted buff tail q r ps h at
none-Posted buff tail at q r ps h v sq rr le e = record {
  sent = [];
  rest = ps;
  parts = refl;
  valid = v;
  send_kept = sq;
  received = rw (append-nil r) rr;
  at_in = le;
  left = e;
}

-- One package was posted before the others.
one_more :
    (buff : Mem) (tail : ℕ) (q r ps : List Package) (p : Package) (h' : Hub) (at : ℕ)
    → Posted buff tail q (r ++ p ∷ []) ps h' at
    → Posted buff tail q r (p ∷ ps) h' at
one_more buff tail q r ps p h' at x = record {
  sent = p ∷ x.sent;
  rest = x.rest;
  parts = ap (λ l. p ∷ l) x.parts;
  valid = x.valid;
  send_kept = x.send_kept;
  received = rw⁻¹ (append_assoc r (p ∷ []) x.sent) x.received;
  at_in = x.at_in;
  left = x.left;
}

flush_loop-Posted :
    (rounds : ℕ) (h : Hub) (buff : Mem) (tail at : ℕ) (q r ps : List Package)
    → IsHub h
    → SendHolds h q
    → RecvHolds h r
    → Every IsPackage ps
    → at ≤ tail
    → slice buff at (tail - at) ≡ encode_all ps
    → let x = flush_loop rounds h buff tail at in Posted buff tail q r ps x.0 x.1
unfolding flush_loop
flush_loop-Posted zero h buff tail at q r ps v sq rr ok le e =
    none-Posted buff tail at q r ps h v sq rr le e
flush_loop-Posted (suc rounds) h buff tail at q r [] v sq rr ok le e =
    let done : leb tail at ≡ true = all_done in
    rw done (none-Posted buff tail at q r [] h v sq rr le e)
  where
    nothing : length (encode_all []) ≡ 0
    nothing = unfold encode_all in refl

    all_done : leb tail at ≡ true
    all_done = ground (arith, length-slice buff at (tail - at), ap length e, nothing)
flush_loop-Posted (suc rounds) h buff tail at q r (p ∷ ps) v sq rr ok le e =
    let (count, carries, behind) = first_pkg buff at (tail - at) p ps e in
    let more : leb tail at ≡ false = ground (arith, count) in
    let size = pack_len_of_Carries (λ i. buff (at + i)) p ok.0 carries in
    elim (append_recv_channel_push h (λ i. buff (at + i)) p q r v ok.0 carries sq rr) [
      | inl (_, z, v', rr', sq') ↦
          rw (more, ap is_zero z, int32-pack_len (λ i. buff (at + i)) p ok.0 carries)
            (one_more buff tail q r ps p _ _ (
              flush_loop-Posted rounds (append_recv_channel h (λ i. buff (at + i))).0 buff tail
                (at + pack_len (λ i. buff (at + i))) q (r ++ p ∷ []) ps v' sq' rr' ok.1
                (omega (arith, count, size))
                (ap₂ (slice buff) (omega (arith, size)) (omega (arith, count, size)) ∙ behind)))
      | inr (_, z, same) ↦
          rw (more, ap is_zero z, ap is_stop z, same)
            (flush_loop-Posted rounds h buff tail at q r (p ∷ ps) v sq rr ok le e)
    ]

-- After a flush: the packages that went to the queue, and those that wait.
pub record Flushed (q r ps : List Package) (h' : Hub) (c' : RecvBuffer) : Type 0 where
  pub sent : List Package
  pub rest : List Package
  pub parts : ps ≡ sent ++ rest
  pub valid : IsHub h'
  pub send_kept : SendHolds h' q
  pub received : RecvHolds h' (r ++ sent)
  pub waiting : BuffHolds c' rest

pub not_flushed :
    (h : Hub) (c : RecvBuffer) (q r ps : List Package)
    → IsHub h
    → SendHolds h q
    → RecvHolds h r
    → BuffHolds c ps
    → Flushed q r ps h c
not_flushed h c q r ps v sq rr b = record {
  sent = [];
  rest = ps;
  parts = refl;
  valid = v;
  send_kept = sq;
  received = rw (append-nil r) rr;
  waiting = b;
}

packages_of_rest :
    (sent rest : List Package) → Every IsPackage (sent ++ rest) → Every IsPackage rest
packages_of_rest [] rest e = e
packages_of_rest (p ∷ sent) rest e = packages_of_rest sent rest e.1

after_flush-BuffHolds :
    (c : RecvBuffer) (buff : Mem) (flush_pos : ℕ) (rest : List Package)
    → c.buff ≡ some buff
    → flush_pos ≤ c.tail
    → slice buff flush_pos (c.tail - flush_pos) ≡ encode_all rest
    → Every IsPackage rest
    → BuffHolds (after_flush c buff flush_pos) rest
after_flush-BuffHolds c buff flush_pos rest b le e ok = record {
  content = bytes_left ∙ e;
  packages = ok;
}
  where
    new_tail : (after_flush c buff flush_pos).tail ≡ c.tail - flush_pos
    new_tail = unfold after_flush in ground arith

    moved :
        (k : ℕ)
        → k < c.tail - flush_pos
        → buff_of (after_flush c buff flush_pos).buff (0 + k) ≡ buff (flush_pos + k)
    moved k h = unfold after_flush memcpy in ground (arith, ap (λ x. buff_of x (0 + k)) b)

    bytes_left :
        slice (buff_of (after_flush c buff flush_pos).buff) 0 (after_flush c buff flush_pos).tail
        ≡ slice buff flush_pos (c.tail - flush_pos)
    bytes_left =
        ap (slice (buff_of (after_flush c buff flush_pos).buff) 0) (new_tail)
        ∙ slice_cong (buff_of (after_flush c buff flush_pos).buff) buff 0 flush_pos
            (c.tail - flush_pos) moved

pub flush_recving_buff-Flushed :
    (rounds : ℕ) (h : Hub) (c : RecvBuffer) (q r ps : List Package)
    → IsHub h
    → SendHolds h q
    → RecvHolds h r
    → BuffHolds c ps
    → let x = flush_recving_buff rounds h c in Flushed q r ps x.0 x.1
unfolding flush_recving_buff flush_buff
flush_recving_buff-Flushed rounds h c q r ps v sq rr b = go c.buff refl
  where
    posted :
        (buff : Mem)
        → c.buff ≡ some buff
        → Posted buff c.tail q r ps
            (flush_loop rounds h buff c.tail 0).0
            (flush_loop rounds h buff c.tail 0).1
    posted buff e =
        flush_loop-Posted rounds h buff c.tail 0 q r ps v sq rr b.packages (omega arith) (
          ap (slice buff 0) (omega arith)
          ∙ ap (λ x. slice (buff_of x) 0 c.tail) (sym e)
          ∙ b.content)

    go :
        (x : Option Mem)
        → c.buff ≡ x
        → Flushed q r ps (flush_buff rounds h c x).0 (flush_buff rounds h c x).1
    go none e = not_flushed h c q r ps v sq rr b
    go (some buff) e = elim (Bool-cases (leb c.tail 0)) [
      | inl none_left ↦ rw none_left (not_flushed h c q r ps v sq rr b)
      | inr some_left ↦
          let x = posted buff e in
          rw some_left (record {
            sent = x.sent;
            rest = x.rest;
            parts = x.parts;
            valid = x.valid;
            send_kept = x.send_kept;
            received = x.received;
            waiting =
                after_flush-BuffHolds c buff (flush_loop rounds h buff c.tail 0).1 x.rest e x.at_in
                  x.left (packages_of_rest x.sent x.rest (rw x.parts at b.packages));
          })
    ]
