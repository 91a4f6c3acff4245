-- ===== src/Dispatch/Queue.antt =====
-- `dispatch_bridge` and the queues of the hub.
use mathlib.Core.Path.{subst}
use proc_bridge.Base.{
  ℕ, ◌≡◌, ◌⊎◌, sym, arith, Bool, true, false, ◌&&◌, Bool-cases, Option, none, some, inl, inr, leb,
  ◌==◌, ltb_ℤ, is_zero, pred_ℤ, ℤ, pos, Mem,
}
use proc_bridge.Package.{pack_len_max, load_head}
use proc_bridge.Hub.{set_snd_bit, clr_snd_bit}
use proc_bridge.Stlv.{Stlv}
use proc_bridge.Channel.Kept.{Queued, Keeps, set_snd_bit-Keeps, clr_snd_bit-Keeps}
use proc_bridge.Target.{
  Target, Env, Sent, again, failed, sent, data_len, flush_target, flush_target_1, flush_target_2,
  flush_second, block_if_full, check_block, unblock_if_set, note_delay,
}
use proc_bridge.Carrier.{Carrier, is_connected, close_target_fd, proc_id2_target}
use proc_bridge.Sending.{Outside, append_sending_node, flush_carrier, flushed_carrier}
use proc_bridge.Dispatch.{
  manager_proc_id_max, pack_into, save_pkg, after_flush, flush_first, init_buff, send_pkg,
  dispatch_to, dispatch_pkg,
}

-- A flush sets the bit of the peer, clears it, or leaves it.
flush_target_hub :
    (env : Env) (t : Target) (ms : ℕ) (s r : Sent)
    → let h = (flush_target env t ms s r).env.hub in
      (h ≡ env.hub)
      ⊎ ((h ≡ (set_snd_bit env.hub t.proc_id).0) ⊎ (h ≡ (clr_snd_bit env.hub t.proc_id).0))
unfolding flush_target flush_target_1 flush_target_2 flush_second block_if_full check_block
    unblock_if_set note_delay
flush_target_hub env t ms again again = ground arith
flush_target_hub env t ms again failed = ground arith
flush_target_hub env t ms again (sent k) = ground arith
flush_target_hub env t ms failed r = ground arith
flush_target_hub env t ms (sent n) again = ground arith
flush_target_hub env t ms (sent n) failed = ground arith
flush_target_hub env t ms (sent n) (sent k) = ground arith

flush_target-Keeps :
    (env : Env) (t : Target) (ms : ℕ) (s r : Sent)
    → Keeps env.hub (flush_target env t ms s r).env.hub
flush_target-Keeps env t ms s r q k held = elim (flush_target_hub env t ms s r) [
  | inl e ↦ subst (λ h. Queued h q k) (sym e) held
  | inr (inl e) ↦ subst (λ h. Queued h q k) (sym e) (set_snd_bit-Keeps env.hub t.proc_id q k held)
  | inr (inr e) ↦ subst (λ h. Queued h q k) (sym e) (clr_snd_bit-Keeps env.hub t.proc_id q k held)
]

-- The hub of a carrier after an operation.
abbrev pub KeepsQueues : Carrier → Carrier → Type 0
KeepsQueues c c' = Keeps c.env.hub c'.env.hub

close_target_fd-Keeps :
    (c : Carrier) (curr_ts target : ℕ) → KeepsQueues c (close_target_fd c curr_ts target)
unfolding close_target_fd
close_target_fd-Keeps c curr_ts target = clr_snd_bit-Keeps c.env.hub (c.targets target).proc_id

append_env : (c : Carrier) (target : ℕ) → (append_sending_node c target).env ≡ c.env
unfolding append_sending_node
append_env c target = ground arith

after_flush-Keeps :
    (c : Carrier) (out : Outside) (target : ℕ) (ret : ℤ)
    → KeepsQueues c (after_flush c out target ret).0
unfolding after_flush
after_flush-Keeps c out target ret = elim (Bool-cases (ltb_ℤ ret (pos 0))) [
  | inl bad ↦ rw bad (close_target_fd-Keeps c out.curr_ts target)
  | inr fine ↦ elim (Bool-cases (is_zero (pred_ℤ ret))) [
    | inl done ↦ rw (fine, done) (λ q r k. k)
    | inr left ↦ rw (fine, left, append_env c target) (λ q r k. k)
  ]
]

flush_first-Keeps :
    (due : Bool) (c : Carrier) (out : Outside) (target : ℕ)
    → KeepsQueues c (flush_first due c out target).0
unfolding flush_first flush_carrier
flush_first-Keeps true c out target q r k =
    let f =
      flush_target c.env (c.targets target) out.curr_ms (out.first target) (out.second target) in
    after_flush-Keeps (flushed_carrier c target f) out target f.ret q r (
      flush_target-Keeps c.env (c.targets target) out.curr_ms (out.first target) (out.second target)
        q r k)
flush_first-Keeps false c out target q r k = k

pack_into_env :
    (stlv : Stlv) (c : Carrier) (target : ℕ) (pkg : Mem) (n curr_ts : ℕ)
    → (pack_into stlv c target pkg n curr_ts).0.env ≡ c.env
unfolding pack_into
pack_into_env stlv c target pkg n curr_ts = ground arith

save_pkg_env :
    (stlv : Stlv) (calloc_ok : ℕ → Bool) (c : Carrier) (target : ℕ) (pkg : Mem) (n curr_ts : ℕ)
    → (save_pkg stlv calloc_ok c target pkg n curr_ts).env ≡ c.env
unfolding save_pkg append_sending_node
save_pkg_env stlv calloc_ok c target pkg n curr_ts = ground arith

init_buff_env :
    (calloc_ok : ℕ → Bool) (c : Carrier) (target : ℕ) → (init_buff calloc_ok c target).0.env ≡ c.env
unfolding init_buff
init_buff_env calloc_ok c target = ground arith

send_pkg-Keeps :
    (stlv : Stlv) (calloc_ok : ℕ → Bool) (out : Outside) (c : Carrier) (target : ℕ) (pkg : Mem)
    (n : ℕ)
    → KeepsQueues c (send_pkg stlv calloc_ok out c target pkg n)
unfolding send_pkg
send_pkg-Keeps stlv calloc_ok out c target pkg n q r k =
    let built = init_buff calloc_ok c target in
    let due = leb pack_len_max (data_len (built.0.targets target)) in
    let flushed = flush_first due built.0 out target in
    let first : Queued built.0.env.hub q r =
      subst (λ e. Queued e.hub q r) (sym (init_buff_env calloc_ok c target)) k in
    elim (Bool-cases built.1) [
      | inr bad ↦ rw bad first
      | inl ok ↦
          let second : Queued flushed.0.env.hub q r =
            flush_first-Keeps due built.0 out target q r first in
          elim (Bool-cases flushed.1) [
            | inr lost ↦ rw (ok, lost) second
            | inl kept ↦
                rw (ok, kept, save_pkg_env stlv calloc_ok flushed.0 target pkg n out.curr_ts) second
          ]
    ]

dispatch_to-Keeps :
    (stlv : Stlv) (calloc_ok : ℕ → Bool) (out : Outside) (c : Carrier) (found : Option ℕ)
    (pkg : Mem) (n : ℕ)
    → KeepsQueues c (dispatch_to stlv calloc_ok out c found pkg n)
unfolding dispatch_to
dispatch_to-Keeps stlv calloc_ok out c none pkg n q r k = k
dispatch_to-Keeps stlv calloc_ok out c (some target) pkg n q r k =
    elim (Bool-cases (is_connected (c.targets target).state)) [
      | inl there ↦ rw there (send_pkg-Keeps stlv calloc_ok out c target pkg n q r k)
      | inr no_connection ↦ rw no_connection k
    ]

pub dispatch_pkg-Keeps :
    (stlv : Stlv) (calloc_ok : ℕ → Bool) (out : Outside) (c : Carrier) (pkg : Mem) (n : ℕ)
    → KeepsQueues c (dispatch_pkg stlv calloc_ok out c pkg n).0
unfolding dispatch_pkg
dispatch_pkg-Keeps stlv calloc_ok out c pkg n q r k =
    elim (Bool-cases
      (leb c.proc_id manager_proc_id_max && ((load_head pkg).recver_id == c.proc_id))) [
        | inl own ↦ rw own k
        | inr other ↦ rw other (
            dispatch_to-Keeps stlv calloc_ok out c (proc_id2_target c (load_head pkg).recver_id) pkg
              n q r k)
      ]
