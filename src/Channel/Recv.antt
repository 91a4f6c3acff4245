-- ===== src/Channel/Recv.antt =====
-- `_recv_from_bridge` against its contract on the list of packages: the stale packages at the
-- front are dropped, and the first other one is handed over if the caller's buffer takes it.
use proc_bridge.Base.{
  ==-of_ne, ==_iff, ℕ, zero, suc, ◌≤◌, ◌<◌, ◌≡◌, refl, ap, inl, inr, false, Option, none, some,
  List, [], ◌∷◌, ◌++◌, arith, length, slice, Mem, if◌then◌else◌, Bool-cases, ℤ, pos, minus_two,
  minus_three, ltb_ℤ, zeroed,
}
use proc_bridge.Ring.{ring_get}
use proc_bridge.Ring.Laws.{slot, used, used-lt}
use proc_bridge.Ring.Content.{bytes, length-bytes}
use proc_bridge.Package.{head_len, Package, encode}
use proc_bridge.Hub.{Hub, IsHub, recv_channel}
use proc_bridge.Channel.{is_stale, Received, recv_advance, recv_loop, recv_from_hub}
use proc_bridge.Channel.Queue
use proc_bridge.Channel.Queue.{Holds, SendHolds, RecvHolds, encode_all}
use proc_bridge.Channel.Fetch.{Holds-nil, Holds-cons}

-- What a caller may see of a queue, with the packages that stay in it.
pub data Outcome : Type 0 where
  nothing : Outcome
  too_long : Package → List Package → Outcome
  handed : Package → List Package → Outcome

module _ (recv_len drop_time : ℤ) (curr_ts : ℕ) where
  unfoldable pub recv_queue : List Package → Outcome
  recv_queue [] = nothing
  recv_queue (p ∷ q) =
      let next = recv_queue q in
      if is_stale drop_time curr_ts p.send_ms
      then next
      else if ltb_ℤ recv_len (pos (length p.body))
      then too_long p q
      else handed p q

-- The packages that stay.
abbrev pub left : Outcome → List Package
left nothing = []
left (too_long p q) = p ∷ q
left (handed p q) = q

-- What the call hands over agrees with an outcome: `buff` is the caller's buffer before the call.
abbrev pub Shows : Mem → Outcome → Received → Type 0
Shows buff nothing out = (out.ret ≡ minus_two) × (out.buff ≡ buff) × (out.sender ≡ none)
Shows buff (too_long p q) out = (out.ret ≡ minus_three) × (out.buff ≡ buff) × (out.sender ≡ none)
Shows buff (handed p q) out =
    (out.ret ≡ pos (length p.body))
    × (slice out.buff 0 (length p.body) ≡ p.body)
    × ((a : ℕ) → length p.body ≤ a → out.buff a ≡ buff a)
    × (out.sender ≡ some p.sender_id)

-- The call ended with a result that agrees, in a valid hub that holds what stays.
pub record Agrees (buff : Mem) (o : Outcome) (s : List Package) (res : Option Received)
    : Type 0 where
  pub out : Received
  pub ended : res ≡ some out
  pub shows : Shows buff o out
  pub holds : RecvHolds out.hub (left o)
  pub sends : SendHolds out.hub s
  pub valid : IsHub out.hub

module _ (h : Hub) (v : IsHub h) (p : Package) (q : List Package) (held : RecvHolds h (p ∷ q)) where
  open h use {recv_buff_size as size, recv_head as head, recv_tail as tail, all_buff as mem}

  rest_bytes : bytes (recv_channel h) size mem head tail ≡ encode p ++ encode_all q
  rest_bytes = unfold encode_all in held.content

  -- The hub that has done with the first package.
  past : ℕ
  past = slot size (slot size head head_len) (length p.body)

  past-IsHub : IsHub (recv_advance h past)
  unfolding past
  past-IsHub = record {
    proc_id_pos = v.proc_id_pos;
    proc_id_fits = v.proc_id_fits;
    send_size_fits = v.send_size_fits;
    send_head_in = v.send_head_in;
    send_tail_in = v.send_tail_in;
    recv_size_fits = v.recv_size_fits;
    recv_head_in =
        Queue.next_pos-lt (recv_channel h) size mem head tail v.recv_head_in v.recv_tail_in p
          (encode_all q) held.packages.0 rest_bytes;
    recv_tail_in = v.recv_tail_in;
    bitmap_bytes = v.bitmap_bytes;
  }

  past-RecvHolds : RecvHolds (recv_advance h past) q
  unfolding past
  past-RecvHolds = record {
    content =
        Queue.next_bytes (recv_channel h) size mem head tail v.recv_head_in v.recv_tail_in p
          (encode_all q) held.packages.0 rest_bytes;
    packages = held.packages.1;
  }

  past-used : used size past tail < used size head tail
  past-used = omega (
    arith,
    Queue.first_used (recv_channel h) size mem head tail v.recv_head_in v.recv_tail_in p
        (encode_all q) held.packages.0 rest_bytes,
    length-bytes (recv_channel h) size mem past tail,
    ap length (past-RecvHolds.content),
  )

  -- The body copied to the caller's buffer.
  body_to : Mem → Mem
  body_to buff =
      (ring_get (recv_channel h) size mem (slot size head head_len) buff 0 (length p.body)).0

  -- One round at a queue that is not empty.
  recv_round :
      (fuel : ℕ) (buff : Mem) (recv_len drop_time : ℤ) (curr_ts : ℕ)
      → recv_loop (suc fuel) h head tail buff recv_len drop_time curr_ts ≡ (
          let next =
            recv_loop fuel (recv_advance h past) past tail buff recv_len drop_time curr_ts in
          if is_stale drop_time curr_ts p.send_ms
          then next
          else if ltb_ℤ recv_len (pos (length p.body))
          then some (record { hub = h; buff = buff; sender = none; ret = minus_three })
          else some (record {
            hub = recv_advance h past;
            buff = body_to buff;
            sender = some p.sender_id;
            ret = pos (length p.body);
          }))
  unfolding recv_loop past body_to
  recv_round fuel buff recv_len drop_time curr_ts =
      rw
        (
          Queue.first_head (recv_channel h) size mem head tail v.recv_head_in v.recv_tail_in p
              (encode_all q) held.packages.0 rest_bytes zeroed,
          Queue.first_pos (recv_channel h) size mem head tail v.recv_head_in v.recv_tail_in p
              (encode_all q) held.packages.0 rest_bytes zeroed,
          ==-of_ne head tail (Holds-cons (recv_channel h) size mem head tail p q held),
        )
        (rw (
          Queue.get-next_pos (recv_channel h) size mem head tail v.recv_head_in v.recv_tail_in p
              (encode_all q) held.packages.0 rest_bytes buff 0,
          Queue.skip-next_pos (recv_channel h) size mem head tail v.recv_head_in v.recv_tail_in p
              (encode_all q) held.packages.0 rest_bytes,
        ))

module _ (recv_len drop_time : ℤ) (curr_ts : ℕ) (buff : Mem) (s : List Package) where
  -- The round that hands over or refuses the first package.
  recv_fresh :
      (h : Hub) (p : Package) (q : List Package) (fuel : ℕ) (v : IsHub h)
      (held : RecvHolds h (p ∷ q))
      → SendHolds h s
      → is_stale drop_time curr_ts p.send_ms ≡ false
      → Agrees buff (if ltb_ℤ recv_len (pos (length p.body)) then too_long p q else handed p q) s (
          if ltb_ℤ recv_len (pos (length p.body))
          then some (record { hub = h; buff = buff; sender = none; ret = minus_three })
          else some (record {
            hub = recv_advance h (past h v p q held);
            buff = body_to h v p q held buff;
            sender = some p.sender_id;
            ret = pos (length p.body);
          }))
  unfolding body_to
  recv_fresh h p q fuel v held sends fresh =
      elim (Bool-cases (ltb_ℤ recv_len (pos (length p.body)))) [
        | inl long ↦ rw long (record {
          out = record { hub = h; buff = buff; sender = none; ret = minus_three };
          ended = refl;
          shows = (refl, refl, refl);
          holds = held;
          sends = sends;
          valid = v;
        })
        | inr short ↦ rw short (record {
          out = record {
            hub = recv_advance h (past h v p q held);
            buff = body_to h v p q held buff;
            sender = some p.sender_id;
            ret = pos (length p.body);
          };
          ended = refl;
          shows = (
            refl,
            Queue.first_body (recv_channel h) h.recv_buff_size h.all_buff h.recv_head h.recv_tail
                v.recv_head_in v.recv_tail_in p (encode_all q) held.packages.0
                (rest_bytes h v p q held) buff 0,
            λ a le.
                Queue.body_outside (recv_channel h) h.recv_buff_size h.all_buff h.recv_head
                  h.recv_tail v.recv_head_in v.recv_tail_in p (encode_all q) held.packages.0
                  (rest_bytes h v p q held) buff 0 a (inr (omega arith)),
            refl,
          );
          holds = past-RecvHolds h v p q held;
          sends = sends;
          valid = past-IsHub h v p q held;
        })
      ]

  recv_loop_refines :
      (r : List Package) (h : Hub) (fuel : ℕ)
      → IsHub h
      → RecvHolds h r
      → SendHolds h s
      → used h.recv_buff_size h.recv_head h.recv_tail < fuel
      → Agrees buff
          (recv_queue recv_len drop_time curr_ts r)
          s
          (recv_loop fuel h h.recv_head h.recv_tail buff recv_len drop_time curr_ts)
  unfolding recv_queue
  recv_loop_refines r h zero v held sends enough = absurd (omega arith)
  recv_loop_refines [] h (suc fuel) v held sends enough = record {
    out = record { hub = h; buff = buff; sender = none; ret = minus_two };
    ended =
        unfold recv_loop in
        rw (
          (==_iff h.recv_head h.recv_tail).1 (
            Holds-nil (recv_channel h) h.recv_buff_size h.all_buff h.recv_head h.recv_tail
              v.recv_head_in v.recv_tail_in held));
    shows = (refl, refl, refl);
    holds = held;
    sends = sends;
    valid = v;
  }
  recv_loop_refines (p ∷ q) h (suc fuel) v held sends enough =
      rw (recv_round h v p q held fuel buff recv_len drop_time curr_ts)
        (elim (Bool-cases (is_stale drop_time curr_ts p.send_ms)) [
          | inl stale ↦ rw stale (
              recv_loop_refines q (recv_advance h (past h v p q held)) fuel
                (past-IsHub h v p q held) (past-RecvHolds h v p q held) sends
                (omega (arith, past-used h v p q held)))
          | inr fresh ↦ rw fresh (recv_fresh h p q fuel v held sends fresh)
        ])

-- `_recv_from_bridge` on a valid hub always ends, and does what its contract says of the list of
-- packages that the receive queue holds: it drops the stale ones at the front; with none left it
-- returns -2; where the next one is longer than the caller's buffer it returns -3 and leaves it;
-- else it returns the length of the data, writes them and nothing else to the buffer, and gives the
-- sender. The queue holds the rest afterwards, the send queue what it held, and the hub is valid.
pub recv_from_hub_refines :
    (h : Hub) (buff : Mem) (recv_len drop_time : ℤ) (curr_ts : ℕ) (r s : List Package)
    → IsHub h
    → RecvHolds h r
    → SendHolds h s
    → Agrees buff
        (recv_queue recv_len drop_time curr_ts r)
        s
        (recv_from_hub h buff recv_len drop_time curr_ts)
unfolding recv_from_hub
recv_from_hub_refines h buff recv_len drop_time curr_ts r s v held sends =
    recv_loop_refines recv_len drop_time curr_ts buff s r h (suc h.recv_buff_size) v held sends (
      omega (arith, used-lt h.recv_buff_size h.recv_head h.recv_tail v.recv_head_in v.recv_tail_in))
