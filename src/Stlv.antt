-- ===== src/Stlv.antt =====
-- The packer STLV_PACK_ARRAY and the unpacker STLV_UNPACK that src/carrier/bridge_carrier.c and
-- src/carrier/carrier_lib.c call. They belong to another library, so they are a parameter of all that
-- use them: a record of functions on bytes, and the part of their contract that the carrier relies on.
pub mod Sample
use proc_bridge.Base.{ℕ, ◌≤◌, ◌<◌, ◌≡◌, ◌≢◌, List, [], ◌∷◌, ◌++◌, length, Mem, memcpy, as_mem}

-- Why nothing was unpacked: STLV_UNPACK_FAIL_BUFF_LEN, STLV_UNPACK_FAIL_CHECK_SUM, or another reason.
pub data FailInfo : Type 0 where
  buff_len check_sum other : FailInfo

-- What STLV_UNPACK reports: 0 with `info`, or the value and the length of the pack, which it
-- stores through its last argument.
pub data Unpacked : Type 0 where
  not_unpacked : FailInfo → Unpacked
  unpacked : List ℕ → ℕ → Unpacked

-- `pack` gives the bytes that STLV_PACK_ARRAY writes, whose number it returns: none if it fails.
-- `safe_len` is STLV_PACK_SAFE_LEN.
pub record Stlv : Type 0 where
  pub pack : List ℕ → List ℕ
  pub safe_len : ℕ → ℕ
  pub unpack : List ℕ → Unpacked

-- The length that is reserved for a pack is enough.
pub record IsSafe (stlv : Stlv) : Type 0 where
  pub within : (value : List ℕ) → length (stlv.pack value) ≤ stlv.safe_len (length value)

-- A pack of which bytes are missing is not unpacked: the carrier waits for them.
pub record IsWaiting (stlv : Stlv) : Type 0 where
  pub nothing : (value : List ℕ) (n : ℕ) → stlv.unpack [] ≢ unpacked value n
  pub part :
      (packed bs rest value : List ℕ) (n : ℕ)
      → stlv.pack packed ≡ bs ++ rest
      → rest ≢ []
      → stlv.unpack bs ≢ unpacked value n

-- Whatever was packed is unpacked again, with other bytes behind it or none.
pub record IsWhole (stlv : Stlv) : Type 0 where
  pub back :
      (value rest : List ℕ)
      → stlv.pack value ≢ []
      → stlv.unpack (stlv.pack value ++ rest) ≡ unpacked value (length (stlv.pack value))

-- The packed bytes, written behind a pointer into `dst`.
abbrev pub write : Mem → ℕ → List ℕ → Mem
write dst d bs = memcpy dst d (as_mem bs) 0 (length bs)
