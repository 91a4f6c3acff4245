-- ===== src/Dispatch/Inner.antt =====
-- `inner_send_pkg` of src/carrier/carrier_lib.c, by which the carrier sends packages of its own: like
-- `dispatch_bridge`, but the buffer is flushed before and after, and nothing is counted. The clock and
-- the sockets are read anew for the second flush.
use proc_bridge.Base.{
  ℕ, Bool, true, false, not, ltb, leb, is_zero, ltb_ℤ, ℤ, pos, minus_one, if◌then◌else◌, Mem,
}
use proc_bridge.Stlv.{Stlv}
use proc_bridge.Target.{is_empty, empty_space}
use proc_bridge.Target.Buffer.{expand_target_buff}
use proc_bridge.Target.Pack.{pkg_2_target}
use proc_bridge.Carrier.{Carrier}
use proc_bridge.Sending.{Outside}
use proc_bridge.Dispatch.{put_target, flush_first, init_buff}

-- `pkg_2_target` on a target of the carrier, and whether it succeeded.
unfoldable pub pack_inner : Stlv → Carrier → ℕ → Mem → ℕ → Carrier × Bool
pack_inner stlv c target pkg pkg_len =
    let r = pkg_2_target stlv (c.targets target) pkg pkg_len in
    (put_target c target r.0, is_zero r.1)

abbrev pub result : Carrier × Bool → Carrier × ℤ
result (c, ok) = (c, if ok then pos 0 else minus_one)

-- Behind other bytes.
unfoldable pub pack_waiting : Stlv → (ℕ → Bool) → Carrier → ℕ → Mem → ℕ → Carrier × Bool
unfolding pack_inner
pack_waiting stlv calloc_ok c target pkg pkg_len =
    let e = expand_target_buff calloc_ok c.env (c.targets target) in
    let expanded = put_target c target e.0 in
    if ltb (empty_space (c.targets target)) (stlv.safe_len pkg_len)
    then (if ltb_ℤ e.1 (pos 0)
        then (expanded, false)
        else pack_inner stlv expanded target pkg pkg_len)
    else pack_inner stlv c target pkg pkg_len

-- Into an empty buffer, which is flushed then.
unfoldable pub stamped : Carrier → Outside → ℕ → Carrier
stamped c out target =
    put_target c target (record (c.targets target) { delay_starts_ms = out.curr_ms })

unfoldable pub pack_first : Stlv → Outside → Carrier → ℕ → Mem → ℕ → Carrier × Bool
unfolding pack_inner stamped flush_first
pack_first stlv out c target pkg pkg_len =
    let r = pack_inner stlv c target pkg pkg_len in
    if r.1 then flush_first true (stamped r.0 out target) out target else r

unfoldable pub inner_send_pkg :
    Stlv → (ℕ → Bool) → (first second : Outside) → Carrier → ℕ → Mem → (pkg_len : ℕ) → Carrier × ℤ
unfolding pack_waiting pack_first init_buff flush_first
inner_send_pkg stlv calloc_ok first second c target pkg pkg_len =
    let built = init_buff calloc_ok c target in
    let due = not (is_empty (built.0.targets target)) in
    let flushed = flush_first due built.0 first target in
    if leb pkg_len 0
    then (c, minus_one)
    else if not built.1
    then (built.0, minus_one)
    else if not flushed.1
    then (flushed.0, minus_one)
    else if is_empty (flushed.0.targets target)
    then result (pack_first stlv second flushed.0 target pkg pkg_len)
    else result (pack_waiting stlv calloc_ok flushed.0 target pkg pkg_len)
