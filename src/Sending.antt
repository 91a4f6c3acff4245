-- ===== src/Sending.antt =====
-- The list of the targets whose buffers hold data: `append_sending_node`, `iter_sending_list` and
-- `del_sending_list` of src/carrier/carrier_lib.c. The `appending` links through the targets are a list of
-- their addresses. The readings of the clock and what the sockets take are parameters.
pub mod Linked
pub mod Visit
pub mod Iter
pub mod Round
mod Tests
use proc_bridge.Base.{
  ℕ, suc, ◌+◌, Bool, true, false, not, List, [], ◌∷◌, ◌++◌, leb, ltb_ℤ, ◌==◌, ◌||◌, if◌then◌else◌,
  is_zero, ℤ, pos, pred_ℤ,
}
use proc_bridge.Target.{Target, Env, Sent, Flushed, is_empty, flush_target}
use proc_bridge.Carrier.{Carrier, update, is_connected, close_target_fd}

-- What the outside does during a call: the clock, in milliseconds and in seconds, and for each target
-- the outcomes of the calls of `send`.
pub record Outside : Type 0 where
  pub curr_ms : ℕ
  pub curr_ts : ℕ
  pub first : ℕ → Sent
  pub second : ℕ → Sent

-- `append_sending_node`
unfoldable pub append_sending_node : Carrier → ℕ → Carrier
append_sending_node c target =
    let t = c.targets target in
    if t.in_append then c else record c {
      sending = target ∷ c.sending;
      targets = update c.targets target (record t { in_append = true });
      total = c.total + 1;
    }

-- `flush_target` on a target of the carrier: the carrier afterwards.
abbrev pub flushed_carrier : Carrier → ℕ → Flushed → Carrier
flushed_carrier c target f = record c {
  env = f.env;
  targets = update c.targets target f.target;
  wire = update c.wire target (c.wire target ++ f.wire);
}

unfoldable pub flush_carrier : Carrier → Outside → ℕ → Flushed
flush_carrier c out target =
    flush_target c.env (c.targets target) out.curr_ms (out.first target) (out.second target)

-- What follows the flush, by its return value.
unfoldable pub settle : Bool → Outside → Carrier → ℕ → ℤ → Carrier × Bool
settle del out c target ret =
    if ltb_ℤ ret (pos 0)
    then (close_target_fd c out.curr_ts target, false)
    else if is_zero (pred_ℤ ret)
    then (c, false)
    else (c, not del)

-- The `do` block of the loop: the carrier, and whether the target stays in the list.
unfoldable pub visit : Bool → Outside → Carrier → ℕ → Carrier × Bool
unfolding flush_carrier settle
visit del out c target =
    let f = flush_carrier c out target in
    if not (is_connected (c.targets target).state)
    then (c, false)
    else if is_empty (c.targets target)
    then (c, false)
    else settle del out (flushed_carrier c target f) target f.ret

abbrev pub unlisted : Carrier → ℕ → Carrier
unlisted c target = record c {
  targets = update c.targets target (record (c.targets target) { in_append = false });
}

-- The loop, with the list that is kept and its length.
unfoldable pub iter_nodes :
    Bool → Outside → Carrier → (nodes reserv : List ℕ) → ℕ → Carrier × List ℕ × ℕ
unfolding visit
iter_nodes del out c [] reserv reserv_count = (c, reserv, reserv_count)
iter_nodes del out c (target ∷ next) reserv reserv_count =
    let r = visit del out c target in
    iter_nodes del out (if r.1 then r.0 else unlisted r.0 target) next
      (if r.1 then target ∷ reserv else reserv) (if r.1 then reserv_count + 1 else reserv_count)

abbrev has_none : List ℕ → Bool
has_none [] = true
has_none (target ∷ next) = false

abbrev rebuilt : Carrier × List ℕ × ℕ → Carrier
rebuilt (c, reserv, reserv_count) = record c { sending = reserv; total = reserv_count }

-- `iter_sending_list`; the time that it took, which it returns, is a reading of the clock.
unfoldable pub iter_sending_list : Bool → Outside → Carrier → Carrier
unfolding iter_nodes
iter_sending_list del out c =
    if leb c.total 0 || has_none c.sending then c else rebuilt (iter_nodes del out c c.sending [] 0)

-- `del_sending_list`
unfoldable pub del_sending_list : Outside → Carrier → Carrier
unfolding iter_sending_list
del_sending_list out c = record (iter_sending_list true out c) { sending = []; total = 0 }
