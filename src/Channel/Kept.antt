-- ===== src/Channel/Kept.antt =====
-- What a change of the bitmap of a hub leaves of its queues.
use proc_bridge.Base.{ℕ, List, Bool-cases, inl, inr, leb}
use proc_bridge.Package.{Package}
use proc_bridge.Hub.{Hub, IsHub, max_scale, set_snd_bit, clr_snd_bit}
use proc_bridge.Hub.Bitmap.{set_snd_bit-IsHub, clr_snd_bit-IsHub}
use proc_bridge.Channel.Queue.{SendHolds, RecvHolds}

-- A valid hub with what its two queues hold.
pub record Queued (h : Hub) (q r : List Package) : Type 0 where
  pub valid : IsHub h
  pub sending : SendHolds h q
  pub receiving : RecvHolds h r

abbrev pub Keeps : Hub → Hub → Type 0
Keeps h h' = (q r : List Package) → Queued h q r → Queued h' q r

set_queues :
    (h : Hub) (id : ℕ) (q r : List Package)
    → Queued h q r
    → SendHolds (set_snd_bit h id).0 q × RecvHolds (set_snd_bit h id).0 r
unfolding set_snd_bit
set_queues h id q r k = elim (Bool-cases (leb max_scale id)) [
  | inl over ↦ rw over (k.sending, k.receiving)
  | inr fits ↦ rw fits (k.sending, k.receiving)
]

clr_queues :
    (h : Hub) (id : ℕ) (q r : List Package)
    → Queued h q r
    → SendHolds (clr_snd_bit h id).0 q × RecvHolds (clr_snd_bit h id).0 r
unfolding clr_snd_bit
clr_queues h id q r k = elim (Bool-cases (leb max_scale id)) [
  | inl over ↦ rw over (k.sending, k.receiving)
  | inr fits ↦ rw fits (k.sending, k.receiving)
]

pub set_snd_bit-Keeps : (h : Hub) (id : ℕ) → Keeps h (set_snd_bit h id).0
set_snd_bit-Keeps h id q r k = record {
  valid = set_snd_bit-IsHub h id k.valid;
  sending = (set_queues h id q r k).0;
  receiving = (set_queues h id q r k).1;
}

pub clr_snd_bit-Keeps : (h : Hub) (id : ℕ) → Keeps h (clr_snd_bit h id).0
clr_snd_bit-Keeps h id q r k = record {
  valid = clr_snd_bit-IsHub h id k.valid;
  sending = (clr_queues h id q r k).0;
  receiving = (clr_queues h id q r k).1;
}
