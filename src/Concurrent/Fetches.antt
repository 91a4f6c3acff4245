-- ===== src/Concurrent/Fetches.antt =====
-- An access of the fetcher keeps the invariant: the head passes over the first package when it has
-- been read.
use proc_bridge.Base.{
  ℕ, ◌≡◌, sym, ◌∙◌, List, [], ◌∷◌, map, append_assoc, ℤ, pred_ℤ, ==_iff, ==-of_ne, Mem,
}
use proc_bridge.Package.{Package, encode}
use proc_bridge.Hub.{Hub}
use proc_bridge.Channel.Fetch.{Holds-nil, Holds-cons}
use proc_bridge.Concurrent.{
  Sender, idle, bit_clear, head_loaded, space_found, head_copied, body_copied, tail_stored,
  count_loaded, Fetcher, resting, head_seen, package_seen, head_taken, body_taken, count_seen,
  count_stored, fetch_step, log_fetched, System, move, step_fetch,
}
use proc_bridge.Concurrent.Invariant.{SenderOk, First, Taken, FetcherOk, Inv, set-IsHub}
use proc_bridge.Concurrent.Reads.{
  package_seen-HeadTaken, HeadTaken-Taken, next-SendHolds, next-SenderOk, next-IsHub,
}

-- The packages that are left when a step has been made.
unfoldable pub left_packages : Fetcher → List Package → List Package
left_packages (count_stored buff at n) (p ∷ q) = q
left_packages f q = q

-- The sender looks neither at the count nor, once it has begun, at the bitmap.
pub SenderOk-frame :
    (h : Hub) (q : List Package) (count : ℤ) (bits : Mem) (s : Sender)
    → SenderOk h q s
    → SenderOk (record h { sending_count = count; snd_bitmap = bits }) q s
unfolding SenderOk
SenderOk-frame h q count bits idle ok = ok
SenderOk-frame h q count bits (bit_clear c) ok = ok
SenderOk-frame h q count bits (head_loaded c old) (fits, w) =
    (fits, record { old_in = w.old_in; tail_in = w.tail_in; behind = w.behind })
SenderOk-frame h q count bits (space_found c old limit) (fits, e, w, room) =
    (fits, e, record { old_in = w.old_in; tail_in = w.tail_in; behind = w.behind }, room)
SenderOk-frame h q count bits (head_copied c old limit) (fits, w, room, e) =
    (fits, record { old_in = w.old_in; tail_in = w.tail_in; behind = w.behind }, room, e)
SenderOk-frame h q count bits (body_copied c limit) ok = ok
SenderOk-frame h q count bits tail_stored ok = ok
SenderOk-frame h q count bits (count_loaded n) ok = ok

-- What a step of the fetcher leaves.
abbrev Goal : System → List Package → Hub × Fetcher → List (List ℕ) → Type 0
Goal s q r fetched = Inv (record s { hub = r.0; fetcher = r.1; fetched = fetched }) q

-- The hub is as it was.
step_local :
    (s : System) (q : List Package) (f : Fetcher)
    → Inv s q
    → FetcherOk s.hub.send_buff_size s.hub.send_head q f
    → Goal s q (s.hub, f) s.fetched
step_local s q f i ok = record {
  valid = i.valid;
  held = i.held;
  order = i.order;
  sending = i.sending;
  fetching = ok;
}

seen-Inv :
    (s : System) (q : List Package) (buff : Mem) (at : ℕ)
    → Inv s q
    → at ≡ s.hub.send_head
    → Goal s q (fetch_step s.hub (head_seen buff at)) s.fetched
unfolding fetch_step
seen-Inv s [] buff at i e =
    let none_left =
      Holds-nil 0 s.hub.send_buff_size s.hub.all_buff s.hub.send_head s.hub.send_tail
        i.valid.send_head_in i.valid.send_tail_in i.held in
    rw ((==_iff at s.hub.send_tail).1 (e ∙ none_left))
      (step_local s [] resting i (unfold FetcherOk in tt))
seen-Inv s (p ∷ q) buff at i e =
    let some_left =
      Holds-cons 0 s.hub.send_buff_size s.hub.all_buff s.hub.send_head s.hub.send_tail p q i.held in
    rw (==-of_ne at s.hub.send_tail λ x. some_left (sym e ∙ x))
      (step_local s (p ∷ q) (package_seen buff at) i (unfold FetcherOk First in (e, tt)))

-- The head passes over the first package, whose bytes are those that were read.
passed-Inv :
    (s : System) (p : Package) (q : List Package) (buff : Mem) (at n : ℕ)
    → Inv s (p ∷ q)
    → Taken s.hub.send_buff_size s.hub.send_head buff at n p
    → Goal s q
        (fetch_step s.hub (count_stored buff at n))
        (log_fetched (count_stored buff at n) s.fetched)
unfolding fetch_step log_fetched
passed-Inv s p q buff at n i w =
    rw (w.at, w.taken)
      (record {
        valid = next-IsHub s.hub i.valid p q i.held;
        held = next-SendHolds s.hub i.valid p q i.held;
        order = i.order ∙ sym (append_assoc s.fetched (encode p ∷ []) (map encode q));
        sending = next-SenderOk s.hub i.valid p q i.held s.sender i.sending;
        fetching = unfold FetcherOk in tt;
      })

fetch_step-Inv :
    (s : System) (q : List Package) (f : Fetcher)
    → Inv s q
    → FetcherOk s.hub.send_buff_size s.hub.send_head q f
    → Goal s (left_packages f q) (fetch_step s.hub f) (log_fetched f s.fetched)
unfolding fetch_step log_fetched left_packages FetcherOk First
fetch_step-Inv s q resting i ok = step_local s q resting i ok
fetch_step-Inv s q (head_seen buff at) i ok = seen-Inv s q buff at i ok
fetch_step-Inv s [] (package_seen buff at) i ok = absurd ok.1
fetch_step-Inv s (p ∷ q) (package_seen buff at) i ok =
    rw ok.0 (step_local s (p ∷ q) _ i (package_seen-HeadTaken s.hub i.valid p q i.held buff))
fetch_step-Inv s [] (head_taken buff at n) i ok = absurd ok
fetch_step-Inv s (p ∷ q) (head_taken buff at n) i ok =
    step_local s (p ∷ q) _ i (HeadTaken-Taken s.hub i.valid p q i.held buff at n ok)
fetch_step-Inv s q (body_taken buff at n) i ok = step_local s q _ i ok
fetch_step-Inv s q (count_seen buff at n count) i ok = record {
  valid =
      set-IsHub s.hub i.valid s.hub.all_buff s.hub.send_head s.hub.send_tail (pred_ℤ count)
        s.hub.sended_count i.valid.send_head_in i.valid.send_tail_in;
  held = record { content = i.held.content; packages = i.held.packages };
  order = i.order;
  sending = SenderOk-frame s.hub q (pred_ℤ count) s.hub.snd_bitmap s.sender i.sending;
  fetching = ok;
}
fetch_step-Inv s [] (count_stored buff at n) i ok = absurd ok
fetch_step-Inv s (p ∷ q) (count_stored buff at n) i ok = passed-Inv s p q buff at n i ok

pub step_fetch-Inv :
    (s : System) (q : List Package) → Inv s q → Inv (move step_fetch s) (left_packages s.fetcher q)
unfolding move
step_fetch-Inv s q i = fetch_step-Inv s q s.fetcher i i.fetching
