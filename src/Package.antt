-- ===== src/Package.antt =====
-- The packages of src/library/proc_bridge_base.h: `bridge_package_head_t`, a packed struct of 21 bytes
-- (three `int`, a `long long` and a `char`, least significant byte first, as the x86 targets of
-- the build store them), and the data behind it.
pub mod Codec
use proc_bridge.Base.{
  ℕ, ◌+◌, ◌-◌, ◌*◌, ◌/◌, ◌%◌, ◌^◌, ◌<◌, List, ◌++◌, length, slice, ltb, ◌==◌, if◌then◌else◌, Mem,
}

-- `bridge_package_head_t`. The numbers are the bit patterns of the fields.
pub record Head : Type 0 where
  pub data_len : ℕ
  pub sender_id : ℕ
  pub recver_id : ℕ
  pub send_ms : ℕ
  pub pkg_type : ℕ

-- `BRIDGE_PACK_HEAD_LEN` and `sizeof(bridge_package_t)`: the data array has no length of its own.
abbrev pub head_len : ℕ
head_len = 21

-- `BRIDGE_PACKAGE_DATA_LEN` and `BRIDGE_PACK_LEN`
abbrev pub pack_len_max : ℕ
pack_len_max = 1024 * 100 + 21

abbrev byte_of : ℕ → ℕ → ℕ
byte_of x k = x / 256 ^ k % 256

-- The bytes of a head, as its fields are written through `pack_head` into a zeroed buffer.
unfoldable pub store_head : Head → Mem
store_head h i =
    if ltb i 4
    then byte_of h.data_len i
    else if ltb i 8
    then byte_of h.sender_id (i - 4)
    else if ltb i 12
    then byte_of h.recver_id (i - 8)
    else if ltb i 20
    then byte_of h.send_ms (i - 12)
    else if i == 20
    then h.pkg_type % 256
    else 0

load32 : Mem → ℕ → ℕ
load32 m i = m i + 256 * m (i + 1) + 65536 * m (i + 2) + 16777216 * m (i + 3)

-- The head that stands at the front of a buffer, as it is read through `pack_head`.
unfoldable pub load_head : Mem → Head
unfolding load32
load_head m = record {
  data_len = load32 m 0;
  sender_id = load32 m 4;
  recver_id = load32 m 8;
  send_ms = load32 m 12 + 2 ^ 32 * load32 m 16;
  pkg_type = m 20;
}

-- A package as the program's users see it: where it goes, when it was sent, and its data.
pub record Package : Type 0 where
  pub sender_id : ℕ
  pub recver_id : ℕ
  pub send_ms : ℕ
  pub pkg_type : ℕ
  pub body : List ℕ

abbrev pub head_of : Package → Head
head_of p = record {
  data_len = length p.body;
  sender_id = p.sender_id;
  recver_id = p.recver_id;
  send_ms = p.send_ms;
  pkg_type = p.pkg_type;
}

-- The bytes of a package in a queue.
unfoldable pub encode : Package → List ℕ
encode p = slice (store_head (head_of p)) 0 head_len ++ p.body

-- Every field fits the type of the struct that holds it, the signed ones are not negative, and the
-- length of the whole package fits an `int`.
pub record IsPackage (p : Package) : Type 0 where
  pub len_fits : head_len + length p.body < 2 ^ 31
  pub sender_fits : p.sender_id < 2 ^ 31
  pub recver_fits : p.recver_id < 2 ^ 31
  pub ms_fits : p.send_ms < 2 ^ 63
  pub type_fits : p.pkg_type < 2 ^ 8
