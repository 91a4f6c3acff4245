-- ===== src/Target/Buffer.antt =====
-- The operations on the memory of a target's buffer: `expand_target_buff` and
-- `pkg_2_target_stlv` of src/carrier/carrier_lib.c, `check_snd_buff_memory` of
-- src/carrier/bridge_carrier.c. Whether `calloc` has memory for so many bytes is a parameter.
use proc_bridge.Base.{
  ℕ, suc, ◌+◌, ◌-◌, ◌*◌, ◌/◌, ◌%◌, Bool, true, false, not, ◌&&◌, ◌||◌, Option, none, some, List, [],
  ◌∷◌, ltb, leb, ◌==◌, if◌then◌else◌, ℤ, pos, negsuc, int32, minus_one, ◌^◌, Mem, memcpy, zeroed,
}
use proc_bridge.Package.{pack_len_max}
use proc_bridge.Target.{Target, Env, buff_of, data_len, empty_space}

-- 1024 * 1024
abbrev pub mega : ℕ
mega = 1048576

-- `+=` of an `int` to an `unsigned long`
unfoldable pub add_int : ℕ → ℤ → ℕ
add_int x (pos n) = (x + n) % 2 ^ 64
add_int x (negsuc n) = (x + 2 ^ 64 - suc n) % 2 ^ 64

-- The new length for a buffer that is not empty: twice the old below a megabyte, else a megabyte
-- more.
abbrev pub next_len : ℕ → ℕ
next_len len = if ltb len mega then len * 2 else len + mega

-- Where that reaches the limit, `block_snd_size` bytes must lie beyond the limit.
unfoldable pub grown_len : Env → ℕ → ℕ
grown_len env len =
    let new_buff_len = next_len len in
    if leb env.max_expand_size new_buff_len
      && ltb (new_buff_len - env.max_expand_size) env.block_snd_size
    then add_int new_buff_len (int32 (env.block_snd_size - (new_buff_len - env.max_expand_size)))
    else new_buff_len

-- The data move to the front of a new buffer, `flat` bytes of them or, where they go round the end,
-- `to_end` and then those before the tail. With no data the offsets stay as they are.
unfoldable pub move_data : Target → Mem → (new_len flat to_end : ℕ) → Target
move_data t m new_len flat to_end =
    if ltb t.snd_head t.snd_tail
    then record t {
      snd_buff = some (memcpy zeroed 0 m t.snd_head flat);
      snd_buff_len = new_len;
      snd_head = 0;
      snd_tail = flat;
    }
    else if ltb t.snd_tail t.snd_head
    then record t {
      snd_buff = some (memcpy (memcpy zeroed 0 m t.snd_head to_end) to_end m 0 t.snd_tail);
      snd_buff_len = new_len;
      snd_head = 0;
      snd_tail = to_end + t.snd_tail;
    }
    else record t { snd_buff = some zeroed; snd_buff_len = new_len }

-- The move as the code makes it, with `should_copy` an `unsigned int`.
unfoldable pub relocate : Target → Mem → ℕ → Target
relocate t m new_len =
    move_data t m new_len ((t.snd_tail - t.snd_head) % 2 ^ 32)
      ((t.snd_buff_len - t.snd_head) % 2 ^ 32)

-- A first or a lost buffer: both offsets at the front.
abbrev pub fresh_buff : Target → ℕ → Target
fresh_buff t new_len = record t {
  snd_buff = some zeroed;
  snd_buff_len = new_len;
  snd_head = 0;
  snd_tail = 0;
}

-- The move to the longer buffer, where the old one may be missing.
unfoldable pub expand_copy : Target → Option Mem → ℕ → Target
expand_copy t none new_len = fresh_buff t new_len
expand_copy t (some m) new_len = relocate t m new_len

-- `expand_target_buff`
unfoldable pub expand_target_buff : (ℕ → Bool) → Env → Target → Target × ℤ
expand_target_buff calloc_ok env t =
    let new_len = grown_len env t.snd_buff_len in
    if leb env.max_expand_size t.snd_buff_len
    then (t, minus_one)
    else if t.snd_buff_len == 0
    then (if calloc_ok (pack_len_max * 2)
        then (fresh_buff t (pack_len_max * 2), pos 0)
        else (record t { snd_buff = none }, minus_one))
    else if calloc_ok new_len
    then (expand_copy t t.snd_buff new_len, pos 0)
    else (t, minus_one)

-- `pkg_2_target_stlv`: the packed bytes go behind the tail.
unfoldable pub pkg_2_target_stlv : Target → Mem → ℕ → Target × ℤ
pkg_2_target_stlv t stlv_buff stlv_len =
    let len = t.snd_buff_len in
    let room = (len + 2 ^ 64 - t.snd_tail) % 2 ^ 64 in
    let copy = if leb stlv_len room then stlv_len else room in
    let first = memcpy (buff_of t) t.snd_tail stlv_buff 0 copy in
    let mid = (t.snd_tail + copy) % len in
    if ltb (empty_space t) stlv_len
    then (t, minus_one)
    else if ltb t.snd_tail t.snd_head
    then (
      record t {
        snd_buff = some (memcpy (buff_of t) t.snd_tail stlv_buff 0 stlv_len);
        snd_tail = t.snd_tail + stlv_len;
      },
      pos 0,
    )
    else if ltb copy stlv_len
    then (
      record t {
        snd_buff = some (memcpy first mid stlv_buff copy (stlv_len - copy));
        snd_tail = (mid + (stlv_len - copy)) % len;
      },
      pos 0,
    )
    else (record t { snd_buff = some first; snd_tail = mid }, pos 0)

-- The body of the loop of `check_snd_buff_memory`: the target and whether the loop goes on.
unfoldable pub shrink_buff : (ℕ → Bool) → Target → Option Mem → Target × Bool
shrink_buff calloc_ok t none = (t, true)
shrink_buff calloc_ok t (some m) =
    let new_len = t.snd_buff_len * 2 / 3 % 2 ^ 32 in
    let data_size = data_len t % 2 ^ 32 in
    if ltb t.snd_buff_len mega || leb (t.snd_buff_len / 3) data_size
    then (t, true)
    else if not (calloc_ok new_len)
    then (t, false)
    else if data_size == 0
    then (record t { snd_buff = some zeroed; snd_buff_len = new_len }, true)
    else (relocate t m new_len, true)

unfoldable pub shrink_target : (ℕ → Bool) → Target → Target × Bool
shrink_target calloc_ok t = shrink_buff calloc_ok t t.snd_buff

-- The loop over the targets: it stops where there is no memory.
unfoldable pub check_targets : (ℕ → Bool) → List Target → List Target × ℤ
check_targets calloc_ok [] = ([], pos 0)
check_targets calloc_ok (t ∷ ts) =
    let one = shrink_target calloc_ok t in
    let rest = check_targets calloc_ok ts in
    if one.1 then (one.0 ∷ rest.0, rest.1) else (one.0 ∷ ts, minus_one)
