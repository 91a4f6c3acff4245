-- ===== src/Dispatch/Order.antt =====
-- `dispatch_bridge` as a whole: in which order the packages are taken, and which are left.
use mathlib.Core.Path.{subst}
use proc_bridge.Base.{
  ℕ, zero, suc, ◌+◌, ◌<◌, ◌≡◌, ◌⊎◌, refl, ap, sym, ◌∙◌, arith, Bool, inl, inr, List, [], ◌∷◌, ◌++◌,
  append_assoc, append-nil, length, slice, pos, minus_two, Mem,
}
use proc_bridge.Package.{head_len, Package, encode}
use proc_bridge.Hub.{Hub}
use proc_bridge.Stlv.{Stlv}
use proc_bridge.Channel.{fetch_send_channel}
use proc_bridge.Channel.Kept.{Queued}
use proc_bridge.Channel.Fetch.{fetch_send_channel_pop, fetch_send_channel_empty}
use proc_bridge.Carrier.{Carrier}
use proc_bridge.Sending.{Outside}
use proc_bridge.Dispatch.{dispatch_pkg}
use proc_bridge.Dispatch.Loop.{Round, with_hub, after_fetch, dispatch_bridge}
use proc_bridge.Dispatch.Queue.{dispatch_pkg-Keeps}

-- How the carrier comes from the second last to the last argument: each package is fetched from the
-- queue and dispatched, in a round of its own, with its bytes at the front of the array.
pub data Dispatches (stlv : Stlv) (calloc_ok : ℕ → Bool)
    : List Package → List Outside → Carrier → Carrier → Type 0 where
  none_left : {c : Carrier} → Dispatches stlv calloc_ok [] [] c c
  one_more :
      {p : Package} {q : List Package} {out : Outside} {more : List Outside} {c c' : Carrier}
      (buff pkg : Mem) (h : Hub)
      → fetch_send_channel c.env.hub buff ≡ (h, pkg, pos (head_len + length p.body))
      → slice pkg 0 (head_len + length p.body) ≡ encode p
      → Dispatches stlv calloc_ok q more
          (dispatch_pkg stlv calloc_ok out (with_hub c h) pkg (head_len + length p.body)).0
          c'
      → Dispatches stlv calloc_ok (p ∷ q) (out ∷ more) c c'

abbrev pub encodings : List Package → List (List ℕ)
encodings [] = []
encodings (p ∷ q) = encode p ∷ encodings q

-- The queue `q`, cut into what was taken and what is left, and the rounds likewise.
pub record Ordered (stlv : Stlv) (calloc_ok : ℕ → Bool) (outs : List Outside) (s : Round)
    (q r : List Package) (s' : Round) : Type 0 where
  pub first : List Package
  pub rest : List Package
  pub used : List Outside
  pub unused : List Outside
  pub queue : q ≡ first ++ rest
  pub rounds : outs ≡ used ++ unused
  pub runs : Dispatches stlv calloc_ok first used s.carrier s'.carrier
  pub queued : Queued s'.carrier.env.hub rest r
  pub taken : s'.taken ≡ s.taken ++ encodings first
  pub complete : (rest ≡ []) ⊎ (unused ≡ [])

-- The state after a package of `n` bytes was dispatched.
abbrev dispatched : Stlv → (ℕ → Bool) → Outside → Round → Hub → Mem → ℕ → Round
dispatched stlv calloc_ok out s h pkg n = record {
  carrier = (dispatch_pkg stlv calloc_ok out (with_hub s.carrier h) pkg n).0;
  buff = pkg;
  taken = s.taken ++ slice pkg 0 n ∷ [];
}

after_fetch_some :
    (go_on : Round → Round) (stlv : Stlv) (calloc_ok : ℕ → Bool) (out : Outside) (s : Round)
    (h : Hub) (pkg : Mem) (n : ℕ)
    → 0 < n
    → after_fetch go_on stlv calloc_ok out s (h, pkg, pos n)
      ≡ go_on (dispatched stlv calloc_ok out s h pkg n)
after_fetch_some go_on stlv calloc_ok out s h pkg zero lt = absurd (omega (arith, lt))
after_fetch_some go_on stlv calloc_ok out s h pkg (suc n) lt = refl

one_round :
    (stlv : Stlv) (calloc_ok : ℕ → Bool) (out : Outside) (more : List Outside) (s : Round) (h : Hub)
    (pkg : Mem) (n : ℕ)
    → 0 < n
    → fetch_send_channel s.carrier.env.hub s.buff ≡ (h, pkg, pos n)
    → dispatch_bridge stlv calloc_ok (out ∷ more) s
      ≡ dispatch_bridge stlv calloc_ok more (dispatched stlv calloc_ok out s h pkg n)
unfolding dispatch_bridge
one_round stlv calloc_ok out more s h pkg n lt e =
    ap (after_fetch (dispatch_bridge stlv calloc_ok more) stlv calloc_ok out s) e
    ∙ after_fetch_some (dispatch_bridge stlv calloc_ok more) stlv calloc_ok out s h pkg n lt

no_round :
    (stlv : Stlv) (calloc_ok : ℕ → Bool) (out : Outside) (more : List Outside) (s : Round)
    → fetch_send_channel s.carrier.env.hub s.buff ≡ (s.carrier.env.hub, s.buff, minus_two)
    → dispatch_bridge stlv calloc_ok (out ∷ more) s ≡ s
unfolding dispatch_bridge
no_round stlv calloc_ok out more s e =
    ap (after_fetch (dispatch_bridge stlv calloc_ok more) stlv calloc_ok out s) e

-- dispatch_bridge, on a valid hub whose send queue holds a list of packages, for whatever the memory, the
-- sockets and the packer do in each round: it takes packages off the front of the queue, oldest first and
-- each once, and dispatches each in a round of its own; the others stay in the queue in their order,
-- and the receive queue and the validity of the hub are kept. It ends when the queue is empty or when
-- no round is left.
pub dispatch_bridge-Ordered :
    (stlv : Stlv) (calloc_ok : ℕ → Bool) (outs : List Outside) (s : Round) (q r : List Package)
    → Queued s.carrier.env.hub q r
    → Ordered stlv calloc_ok outs s q r (dispatch_bridge stlv calloc_ok outs s)
dispatch_bridge-Ordered stlv calloc_ok [] s q r k =
    unfold dispatch_bridge in
    record {
      first = [];
      rest = q;
      used = [];
      unused = [];
      queue = refl;
      rounds = refl;
      runs = none_left;
      queued = k;
      taken = sym (append-nil s.taken);
      complete = inr refl;
    }
dispatch_bridge-Ordered stlv calloc_ok (out ∷ more) s [] r k =
    subst (Ordered stlv calloc_ok (out ∷ more) s [] r)
      (sym (
        no_round stlv calloc_ok out more s
          (fetch_send_channel_empty s.carrier.env.hub s.buff k.valid k.sending)))
      (record {
        first = [];
        rest = [];
        used = [];
        unused = out ∷ more;
        queue = refl;
        rounds = refl;
        runs = none_left;
        queued = k;
        taken = sym (append-nil s.taken);
        complete = inl refl;
      })
dispatch_bridge-Ordered stlv calloc_ok (out ∷ more) s (p ∷ q) r k =
    let (h, pkg, ret) = fetch_send_channel s.carrier.env.hub s.buff in
    let (e, b, sq, rq, v) =
      fetch_send_channel_pop s.carrier.env.hub s.buff p q r k.valid k.sending k.receiving in
    let n = head_len + length p.body in
    let held : Queued h q r = record { valid = v; sending = sq; receiving = rq } in
    let whole : fetch_send_channel s.carrier.env.hub s.buff ≡ (h, pkg, pos n) =
      ap (λ x. (h, pkg, x)) e in
    let o =
      dispatch_bridge-Ordered stlv calloc_ok more (dispatched stlv calloc_ok out s h pkg n) q r
        (dispatch_pkg-Keeps stlv calloc_ok out (with_hub s.carrier h) pkg n q r held) in
    subst (Ordered stlv calloc_ok (out ∷ more) s (p ∷ q) r)
      (sym (one_round stlv calloc_ok out more s h pkg n (omega arith) whole))
      (record {
        first = p ∷ o.first;
        rest = o.rest;
        used = out ∷ o.used;
        unused = o.unused;
        queue = ap (λ x. p ∷ x) o.queue;
        rounds = ap (λ x. out ∷ x) o.rounds;
        runs = one_more s.buff pkg h whole b o.runs;
        queued = o.queued;
        taken =
            o.taken
            ∙ append_assoc s.taken (slice pkg 0 n ∷ []) (encodings o.first)
            ∙ ap (λ x. s.taken ++ x ∷ encodings o.first) b;
        complete = o.complete;
      })
