-- ===== src/Reading/Deliver.antt =====
-- What a verified client sends to the process arrives there, in order.
use proc_bridge.Base.{
  ℕ, suc, ◌+◌, ◌%◌, ◌^◌, ◌≤◌, ◌<◌, ◌≡◌, ◌⊎◌, refl, ap, ap₂, sym, ◌∙◌, arith, Bool, true, false,
  some, List, [], ◌∷◌, ◌++◌, map, length, Every, slice, slice_cong, slice-as_mem, as_mem,
  memcpy_inside, ◌==◌, ℤ, pos, minus_one, Mem,
}
use proc_bridge.Package.{head_len, pack_len_max, Package, encode, IsPackage}
use proc_bridge.Package.Codec.{length-encode}
use proc_bridge.Hub.{Hub, IsHub}
use proc_bridge.Channel.Queue.{SendHolds, RecvHolds}
use proc_bridge.Channel.Append.{Carries}
use proc_bridge.Client.{RecvBuffer}
use proc_bridge.Client.Buffer.{BuffHolds}
use proc_bridge.Carrier.{Traffic}
use proc_bridge.Stlv.{Stlv, write}
use proc_bridge.Reading.{Reader, Feed, Recv, cr_msg, inner_proto, read_client_socket}
use proc_bridge.Reading.Whole
use proc_bridge.Reading.Whole.{received}

-- A package for the process itself, which the array `pack_buff` has room for.
pub record ForProcess (p : Package) : Type 0 where
  pub fits : IsPackage p
  pub no_msg : (p.pkg_type == cr_msg) ≡ false
  pub no_inner : (p.pkg_type == inner_proto) ≡ false
  pub small : head_len + length p.body ≤ pack_len_max

-- The second list is the first with as many packages left out.
pub data LeavesOut : List Package → List Package → ℕ → Type 0 where
  nothing : LeavesOut [] [] 0
  takes :
      {all kept : List Package} {n : ℕ} (p : Package)
      → LeavesOut all kept n
      → LeavesOut (all ++ p ∷ []) (kept ++ p ∷ []) n
  drops :
      {all kept : List Package} {n : ℕ} (p : Package)
      → LeavesOut all kept n
      → LeavesOut (all ++ p ∷ []) kept (suc n)

-- What has become of the packages `all`, from a hub and a buffer that held `old` in this order: the
-- queue of the process and the buffer hold `old` and then all of them but those that were dropped,
-- which are counted, as all are.
pub record Delivered (q old : List Package) (start : Traffic) (all : List Package) (hub : Hub)
    (recv_buffer : RecvBuffer) (recv : Traffic) : Type 0 where
  pub queued : List Package
  pub waiting : List Package
  pub kept : List Package
  pub lost : ℕ
  pub left_out : LeavesOut all kept lost
  pub valid : IsHub hub
  pub send_kept : SendHolds hub q
  pub received : RecvHolds hub queued
  pub held : BuffHolds recv_buffer waiting
  pub order : queued ++ waiting ≡ old ++ kept
  pub handled : recv.handled ≡ (start.handled + length all) % 2 ^ 32
  pub dropped : recv.dropped ≡ (start.dropped + lost) % 2 ^ 32

-- A package in `pack_buff`.
pub written-Carries : (m : Mem) (p : Package) → Carries (write m 0 (encode p)) p
written-Carries m p =
    slice_cong (write m 0 (encode p)) (as_mem (encode p)) 0 0 (head_len + length p.body) (λ k hk.
      memcpy_inside m 0 (as_mem (encode p)) 0 (length (encode p)) (0 + k) k
        (omega (arith, length-encode p)) refl)
    ∙ ap (slice (as_mem (encode p)) 0) (sym (length-encode p))
    ∙ slice-as_mem (encode p)

-- The last of a list of packages, from the last of their bytes.
pub last_package :
    (vs : List (List ℕ)) (v : List ℕ) (ps : List Package)
    → vs ++ v ∷ [] ≡ map encode ps
    → (qs : List Package) × (p : Package) × (ps ≡ qs ++ p ∷ [])
      × (vs ≡ map encode qs)
      × (v ≡ encode p)
last_package [] v [] e = absurd (cc (e))
last_package [] v (p ∷ []) e = let here : v ≡ encode p = cc (e) in ([], p, refl, refl, here)
last_package [] v (p ∷ p2 ∷ ps) e = absurd (cc (e))
last_package (u ∷ vs) v [] e = absurd (cc (e))
last_package (u ∷ vs) v (p ∷ ps) e =
    let head : u ≡ encode p = cc (e) in
    let tail : vs ++ v ∷ [] ≡ map encode ps = cc (e) in
    let (qs, l, eq, front, here) = last_package vs v ps tail in
    (p ∷ qs, l, ap (λ x. p ∷ x) eq, ap₂ (λ x y. x ∷ y) head front, here)

pub Every-split :
    (P : Package → Type 0) (ps qs : List Package) → Every P (ps ++ qs) → Every P ps × Every P qs
Every-split P [] qs x = (tt, x)
Every-split P (p ∷ ps) qs x = let (a, b) = Every-split P ps qs x.1 in ((x.0, a), b)

module _ (stlv : Stlv) (w : Feed) (q old : List Package) (start : Traffic) where
  -- The client is verified, and if what was cut off are packages for the process, they are delivered.
  abbrev Inv : Hub → RecvBuffer → Bool → Traffic → List (List ℕ) → Type 0
  Inv hub recv_buffer verify recv log =
      (verify ≡ true)
      × ((ps : List Package)
          → Every ForProcess ps
          → log ≡ map encode ps
          → Delivered q old start ps hub recv_buffer recv)

-- A list of packages cut where their bytes are.
pub split_map :
    (ps : List Package) (a b : List (List ℕ))
    → map encode ps ≡ a ++ b
    → (done : List Package) × (later : List Package) × (ps ≡ done ++ later) × (a ≡ map encode done)
split_map ps [] b e = ([], ps, refl, refl)
split_map [] (u ∷ a) b e = absurd (cc (e))
split_map (p ∷ ps) (u ∷ a) b e =
    let head : u ≡ encode p = cc (e) in
    let tail : map encode ps ≡ a ++ b = cc (e) in
    let (done, later, eq, front) = split_map ps a b tail in
    (p ∷ done, later, ap (λ x. p ∷ x) eq, ap₂ (λ x y. x ∷ y) head front)

-- The start: a verified client of which nothing was cut off and nothing waits.
pub record Fresh (r : Reader) (q queued waiting : List Package) : Type 0 where
  pub verified : r.verify ≡ true
  pub no_log : r.handled ≡ []
  pub bare : Whole.held r ≡ []
  pub valid : IsHub r.hub
  pub send_holds : SendHolds r.hub q
  pub recv_holds : RecvHolds r.hub queued
  pub buff_holds : BuffHolds r.recv_buffer waiting
  pub count_fits : r.recv.handled < 2 ^ 32
  pub dropped_fits : r.recv.dropped < 2 ^ 32

-- How the reading of packages ends.
abbrev pub Arrives : Stlv → Feed → List Recv → Reader → (q old ps : List Package) → Type 0
Arrives stlv w calls r q old ps =
    (r' : Reader) × (ret : ℤ) × (read_client_socket stlv w calls r ≡ some (r', ret))
    × (((ret ≡ pos 0) × Delivered q old r.recv ps r'.hub r'.recv_buffer r'.recv)
        ⊎ ((ret ≡ minus_one)
            × (r'.alive ≡ false)
            × ((done : List Package) × (later : List Package) × (ps ≡ done ++ later)
                × Delivered q old r.recv done r'.hub r'.recv_buffer r'.recv)))
