-- ===== src/Dispatch.antt =====
-- The way of a package from the send queue to a connection: `dispatch_bridge` of
-- src/carrier/bridge_carrier.c, with the counts of packages that it keeps. The packer, the memory, the
-- sockets and the clock are parameters.
pub mod Step
pub mod Stages
pub mod Expand
pub mod Save
pub mod Whole
pub mod Loop
pub mod Queue
pub mod Order
pub mod Inner
pub mod Answer
mod Runs
mod Tests
use proc_bridge.Base.{
  ℕ, zero, suc, ◌+◌, ◌-◌, ◌*◌, ◌/◌, ◌%◌, ◌^◌, Bool, true, false, not, ◌&&◌, ◌||◌, Option, none,
  some, ltb, leb, ◌==◌, if◌then◌else◌, is_zero, ltb_ℤ, leb_ℤ, pred_ℤ, ℤ, pos, negsuc, minus_one,
  Mem,
}
use proc_bridge.Package.{pack_len_max, load_head}
use proc_bridge.Channel.{fetch_send_channel}
use proc_bridge.Stlv.{Stlv}
use proc_bridge.Target.{Target, Env, data_len, empty_space, is_empty}
use proc_bridge.Target.Buffer.{expand_target_buff}
use proc_bridge.Target.Pack.{pkg_2_target}
use proc_bridge.Carrier.{
  Carrier, note_pkg, note_drop, update, is_connected, close_target_fd, proc_id2_target,
}
use proc_bridge.Sending.{Outside, flushed_carrier, flush_carrier, append_sending_node}

-- `MANAGER_PROC_ID_MAX` and `BRIDGE_PKG_TYPE_NORMAL`
abbrev pub manager_proc_id_max : ℕ
manager_proc_id_max = 1000

abbrev pub normal : ℕ
normal = 0

abbrev pub drop_pkg : Carrier → ℕ → Carrier
drop_pkg c curr_ts = record c { send = note_drop c.send curr_ts }

abbrev pub drop_for : Carrier → ℕ → ℕ → Carrier
drop_for c target curr_ts = record c {
  send = note_drop c.send curr_ts;
  traffic = update c.traffic target (note_drop (c.traffic target) curr_ts);
}

-- The counts of a package that went into a buffer.
abbrev pub count_pkg : Carrier → ℕ → Mem → Carrier
count_pkg c target pkg =
    let head = load_head pkg in
    record c {
      send = if head.pkg_type == normal then note_pkg c.send head.data_len else c.send;
      traffic = update c.traffic target (note_pkg (c.traffic target) head.data_len);
    }

abbrev pub put_target : Carrier → ℕ → Target → Carrier
put_target c target t = record c { targets = update c.targets target t }

-- The part after the flush: the package goes into the buffer, which grows first if it holds data and
-- the package may not fit, or it is dropped.
unfoldable pub pack_into : Stlv → Carrier → ℕ → Mem → (pkg_len curr_ts : ℕ) → Carrier × Bool
pack_into stlv c target pkg pkg_len curr_ts =
    let r = pkg_2_target stlv (c.targets target) pkg pkg_len in
    if is_zero r.1
    then (count_pkg (put_target c target r.0) target pkg, true)
    else (drop_for (put_target c target r.0) target curr_ts, false)

unfoldable pub save_pkg : Stlv → (ℕ → Bool) → Carrier → ℕ → Mem → (pkg_len curr_ts : ℕ) → Carrier
unfolding pack_into
save_pkg stlv calloc_ok c target pkg pkg_len curr_ts =
    let listed = append_sending_node c target in
    let e = expand_target_buff calloc_ok listed.env (listed.targets target) in
    let expanded = put_target listed target e.0 in
    let direct = pack_into stlv c target pkg pkg_len curr_ts in
    if is_empty (c.targets target)
    then (if direct.1 then append_sending_node direct.0 target else direct.0)
    else if ltb (empty_space (listed.targets target)) (stlv.safe_len pkg_len)
    then (if ltb_ℤ e.1 (pos 0)
        then drop_for expanded target curr_ts
        else (pack_into stlv expanded target pkg pkg_len curr_ts).0)
    else (pack_into stlv listed target pkg pkg_len curr_ts).0

-- The flush before, if a package or more waits: the carrier, and whether the connection is still there.
unfoldable pub after_flush : Carrier → Outside → ℕ → ℤ → Carrier × Bool
after_flush c out target ret =
    if ltb_ℤ ret (pos 0)
    then (close_target_fd c out.curr_ts target, false)
    else if is_zero (pred_ℤ ret)
    then (c, true)
    else (append_sending_node c target, true)

unfoldable pub flush_first : Bool → Carrier → Outside → ℕ → Carrier × Bool
unfolding after_flush flush_carrier
flush_first due c out target =
    let f = flush_carrier c out target in
    if due then after_flush (flushed_carrier c target f) out target f.ret else (c, true)

abbrev pub is_unbuilt : Target → Option Mem → Bool
is_unbuilt t none = true
is_unbuilt t (some m) = t.snd_buff_len == 0

-- The first buffer, if there is none: the carrier and whether there is a buffer now.
unfoldable pub init_buff : (ℕ → Bool) → Carrier → ℕ → Carrier × Bool
init_buff calloc_ok c target =
    let t = c.targets target in
    let e = expand_target_buff calloc_ok c.env t in
    if is_unbuilt t t.snd_buff
    then (put_target c target e.0, not (ltb_ℤ e.1 (pos 0)))
    else (c, true)

-- A package for a target that was found and is connected.
unfoldable pub send_pkg : Stlv → (ℕ → Bool) → Outside → Carrier → ℕ → Mem → (pkg_len : ℕ) → Carrier
unfolding save_pkg flush_first init_buff
send_pkg stlv calloc_ok out c target pkg pkg_len =
    let built = init_buff calloc_ok c target in
    let due = leb pack_len_max (data_len (built.0.targets target)) in
    let flushed = flush_first due built.0 out target in
    if not built.1
    then drop_for built.0 target out.curr_ts
    else if not flushed.1
    then flushed.0
    else save_pkg stlv calloc_ok flushed.0 target pkg pkg_len out.curr_ts

unfoldable pub dispatch_to :
    Stlv → (ℕ → Bool) → Outside → Carrier → Option ℕ → Mem → (pkg_len : ℕ) → Carrier
unfolding send_pkg
dispatch_to stlv calloc_ok out c none pkg pkg_len = drop_pkg c out.curr_ts
dispatch_to stlv calloc_ok out c (some target) pkg pkg_len =
    if is_connected (c.targets target).state
    then send_pkg stlv calloc_ok out c target pkg pkg_len
    else drop_for c target out.curr_ts

-- The body of the loop on a package: the carrier, and whether the package is one for the manager
-- itself, which goes to `handle_manager_cmd` if its length is right and is not sent.
unfoldable pub dispatch_pkg :
    Stlv → (ℕ → Bool) → Outside → Carrier → Mem → (pkg_len : ℕ) → Carrier × Bool
unfolding dispatch_to
dispatch_pkg stlv calloc_ok out c pkg pkg_len =
    let recver = (load_head pkg).recver_id in
    if leb c.proc_id manager_proc_id_max && (recver == c.proc_id)
    then (c, true)
    else (dispatch_to stlv calloc_ok out c (proc_id2_target c recver) pkg pkg_len, false)
