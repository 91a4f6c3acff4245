-- ===== src/Concurrent/Fifo.antt =====
-- The system as a whole: what the carrier fetches is what the process sends, however their accesses
-- are interleaved.
use proc_bridge.Base.{
  ℕ, ◌≡◌, refl, List, [], ◌∷◌, ◌++◌, map, Every, Bool-cases, inl, inr, Mem, is_zero, not, ◌||◌,
  ◌==◌, true, false, Bool, if◌then◌else◌, leb, minus_one, pos, ℤ,
}
use proc_bridge.Package.{Package, encode}
use proc_bridge.Hub.{Hub, IsHub, max_scale, get_snd_bit, set_snd_bit, clr_snd_bit}
use proc_bridge.Hub.Bitmap.{set_snd_bit-IsHub, clr_snd_bit-IsHub}
use proc_bridge.Channel.Queue.{SendHolds}
use proc_bridge.Concurrent.{
  Call, Sender, idle, bit_clear, head_loaded, space_found, head_copied, body_copied, tail_stored,
  count_loaded, Fetcher, resting, head_seen, package_seen, head_taken, body_taken, count_seen,
  count_stored, System, Move, call_send, step_send, call_fetch, step_fetch, block, unblock,
  send_start, fetch_start, begin_send, begin_fetch, move, run,
}
use proc_bridge.Concurrent.Invariant.{Fits, SenderOk, FetcherOk, Inv}
use proc_bridge.Concurrent.Writes.{new_packages}
use proc_bridge.Concurrent.Sends.{step_send-Inv}
use proc_bridge.Concurrent.Fetches.{left_packages, SenderOk-frame, step_fetch-Inv}

-- Every call fits its types.
unfoldable pub CallFits : Move → Type 0
CallFits (call_send c) = Fits c
CallFits m = Unit

send_start-SenderOk :
    (h : Hub) (q : List Package) (c : Call) → Fits c → SenderOk h q (send_start h c)
unfolding send_start SenderOk
send_start-SenderOk h q c fits = elim (Bool-cases (c.target_id == 0 || c.len == 0)) [
  | inl bad ↦ rw bad tt
  | inr good ↦ rw good (elim (Bool-cases (not (is_zero (get_snd_bit h c.target_id)))) [
    | inl shut ↦ rw shut tt
    | inr clear ↦ rw clear fits
  ])
]

begin_send-SenderOk :
    (h : Hub) (q : List Package) (c : Call) (p : Sender)
    → Fits c
    → SenderOk h q p
    → SenderOk h q (begin_send h c p)
unfolding begin_send
begin_send-SenderOk h q c idle fits ok = send_start-SenderOk h q c fits
begin_send-SenderOk h q c (bit_clear d) fits ok = ok
begin_send-SenderOk h q c (head_loaded d old) fits ok = ok
begin_send-SenderOk h q c (space_found d old at) fits ok = ok
begin_send-SenderOk h q c (head_copied d old at) fits ok = ok
begin_send-SenderOk h q c (body_copied d at) fits ok = ok
begin_send-SenderOk h q c tail_stored fits ok = ok
begin_send-SenderOk h q c (count_loaded n) fits ok = ok

begin_fetch-FetcherOk :
    (h : Hub) (q : List Package) (buff : Mem) (f : Fetcher)
    → FetcherOk h.send_buff_size h.send_head q f
    → FetcherOk h.send_buff_size h.send_head q (begin_fetch h buff f)
unfolding begin_fetch fetch_start FetcherOk
begin_fetch-FetcherOk h q buff resting ok = refl
begin_fetch-FetcherOk h q buff (head_seen b at) ok = ok
begin_fetch-FetcherOk h q buff (package_seen b at) ok = ok
begin_fetch-FetcherOk h q buff (head_taken b at n) ok = ok
begin_fetch-FetcherOk h q buff (body_taken b at n) ok = ok
begin_fetch-FetcherOk h q buff (count_seen b at n count) ok = ok
begin_fetch-FetcherOk h q buff (count_stored b at n) ok = ok

bitmap-Inv :
    (s : System) (q : List Package) (bits : Mem)
    → Inv s q
    → IsHub (record s.hub { snd_bitmap = bits })
    → Inv (record s { hub = record s.hub { snd_bitmap = bits } }) q
bitmap-Inv s q bits i v = record {
  valid = v;
  held = record { content = i.held.content; packages = i.held.packages };
  order = i.order;
  sending = SenderOk-frame s.hub q s.hub.sending_count bits s.sender i.sending;
  fetching = i.fetching;
}

-- The bitmap is changed, or the id is refused.
checked-Inv :
    (s : System) (q : List Package) (refused : Bool) (bits : Mem)
    → Inv s q
    → let h' =
        if◌then◌else◌ {A = Hub × ℤ} refused
          (s.hub, minus_one)
          (record s.hub { snd_bitmap = bits }, pos 0) in
      IsHub h'.0 → Inv (record s { hub = h'.0 }) q
checked-Inv s q true bits i v = i
checked-Inv s q false bits i v = bitmap-Inv s q bits i v

block-Inv : (s : System) (q : List Package) (id : ℕ) → Inv s q → Inv (move (block id) s) q
unfolding move set_snd_bit
block-Inv s q id i = checked-Inv s q (leb max_scale id) _ i (set_snd_bit-IsHub s.hub id i.valid)

unblock-Inv : (s : System) (q : List Package) (id : ℕ) → Inv s q → Inv (move (unblock id) s) q
unfolding move clr_snd_bit
unblock-Inv s q id i = checked-Inv s q (leb max_scale id) _ i (clr_snd_bit-IsHub s.hub id i.valid)

-- The queue that a move leaves.
queue_after : Move → System → List Package → List Package
queue_after step_send s q = q ++ new_packages s.hub s.sender
queue_after step_fetch s q = left_packages s.fetcher q
queue_after m s q = q

move-Inv :
    (m : Move) (s : System) (q : List Package)
    → CallFits m
    → Inv s q
    → Inv (move m s) (queue_after m s q)
unfolding queue_after CallFits
move-Inv (call_send c) s q fits i =
    unfold move in
    record {
      valid = i.valid;
      held = i.held;
      order = i.order;
      sending = begin_send-SenderOk s.hub q c s.sender fits i.sending;
      fetching = i.fetching;
    }
move-Inv step_send s q fits i = step_send-Inv s q i
move-Inv (call_fetch buff) s q fits i =
    unfold move in
    record {
      valid = i.valid;
      held = i.held;
      order = i.order;
      sending = i.sending;
      fetching = begin_fetch-FetcherOk s.hub q buff s.fetcher i.fetching;
    }
move-Inv step_fetch s q fits i = step_fetch-Inv s q i
move-Inv (block id) s q fits i = block-Inv s q id i
move-Inv (unblock id) s q fits i = unblock-Inv s q id i

run-Inv :
    (ms : List Move) (s : System) (q : List Package)
    → Every CallFits ms
    → Inv s q
    → (q' : List Package) × Inv (run ms s) q'
unfolding run
run-Inv [] s q fits i = (q, i)
run-Inv (m ∷ ms) s q fits i =
    run-Inv ms (move m s) (queue_after m s q) fits.1 (move-Inv m s q fits.0 i)

-- Neither side is at work; `q` stands in the queue.
abbrev pub at_rest : Hub → List Package → System
at_rest h q = record { hub = h; sender = idle; fetcher = resting; sent = q; fetched = [] }

-- From a valid hub where neither side is at work, whatever the interleaving of the accesses of the
-- process, which calls `_send_to_bridge` with arguments that fit their types and data shorter than
-- 2^31 - 21 bytes, and of the carrier, which calls `fetch_send_channel` and blocks and frees peers:
-- the packages that stood in the queue at the start and those sent since are, in their order,
-- those fetched, byte for byte, and behind them those that stand in the queue, and the hub stays
-- valid.
pub run-Fifo :
    (h : Hub) (q : List Package) (ms : List Move)
    → IsHub h
    → SendHolds h q
    → Every CallFits ms
    → let s = run ms (at_rest h q) in
      (q' : List Package) × IsHub s.hub
      × SendHolds s.hub q'
      × (map encode s.sent ≡ s.fetched ++ map encode q')
run-Fifo h q ms v held fits =
    let (q', i) = run-Inv ms (at_rest h q) q fits (record {
      valid = v;
      held = held;
      order = refl;
      sending = unfold SenderOk in tt;
      fetching = unfold FetcherOk in tt;
    }) in
    (q', i.valid, i.held, i.order)
