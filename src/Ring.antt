-- ===== src/Ring.antt =====
-- The circular byte queues of the program: the copies in and out that `_send_to_bridge`,
-- `_recv_from_bridge` and `fetch_send_channel` of src/library/proc_bridge.c and
-- src/carrier/bridge_carrier.c, `append_recv_channel` and `pkg_2_target_stlv` of
-- src/carrier/carrier_lib.c write out in line. A queue occupies the addresses `base` to `base + cap`
-- of a memory; `head` and `tail` are offsets below `cap`, and one byte always stays free.
pub mod Laws
pub mod Content
use proc_bridge.Base.{ℕ, ◌+◌, ◌-◌, ◌%◌, ltb, leb, if◌then◌else◌, Mem, memcpy}

-- The copy of `src[s..s+n)` to the tail, as `_send_to_bridge` does it for the head and for the
-- body of a package and `append_recv_channel` for a whole package: the new memory and tail.
unfoldable pub ring_put : (base cap head : ℕ) → Mem → ℕ → Mem → ℕ → ℕ → Mem × ℕ
ring_put base cap head mem tail src s n =
    let copyed = cap - tail in
    if leb head tail
    then (if leb n (cap - tail) then (memcpy mem (base + tail) src s n, (tail + n) % cap) else (
      memcpy (memcpy mem (base + tail) src s copyed) base src (s + copyed) (n - copyed),
      n - copyed,
    ))
    else (memcpy mem (base + tail) src s n, tail + n)

-- The copy of `n` bytes from the head to `dst[d..d+n)`: the new destination and head.
unfoldable pub ring_get : (base cap : ℕ) → Mem → ℕ → Mem → ℕ → ℕ → Mem × ℕ
ring_get base cap mem head dst d n =
    let copyed = cap - head in
    if ltb (cap - head) n
    then (
      memcpy (memcpy dst d mem (base + head) copyed) (d + copyed) mem base (n - copyed),
      n - copyed,
    )
    else (memcpy dst d mem (base + head) n, (head + n) % cap)

-- The head after `n` bytes are passed over with no copy, as for a package that is dropped.
unfoldable pub ring_skip : (cap head n : ℕ) → ℕ
ring_skip cap head n = if ltb (cap - head) n then n - (cap - head) else (head + n) % cap

-- The free bytes as the code counts them, the reserved one included.
unfoldable pub ring_space : (cap head tail : ℕ) → ℕ
ring_space cap head tail = if leb head tail then cap - tail + head else head - tail
