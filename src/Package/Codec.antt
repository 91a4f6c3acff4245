-- ===== src/Package/Codec.antt =====
-- Heads go through their bytes and back.
use proc_bridge.Base.{
  ℕ, ◌+◌, ◌*◌, ◌/◌, ◌%◌, ◌^◌, ◌<◌, ◌≡◌, arith, length, length-append, slice, length-slice, Mem,
}
use proc_bridge.Package.{head_len, store_head, load_head, Package, head_of, encode, IsPackage}

-- Only the first 21 bytes count.
pub load_head_cong :
    (m n : Mem) → slice m 0 head_len ≡ slice n 0 head_len → load_head m ≡ load_head n
unfolding load_head slice
load_head_cong m n e = cc

word32 :
    (x : ℕ)
    → x < 2 ^ 32
    → x / 1 % 256
        + 256 * (x / 256 % 256)
        + 65536 * (x / 65536 % 256)
        + 16777216 * (x / 16777216 % 256)
      ≡ x
word32 x h = omega arith

word64 :
    (x : ℕ)
    → x < 2 ^ 64
    → x / 1 % 256
        + 256 * (x / 256 % 256)
        + 65536 * (x / 65536 % 256)
        + 16777216 * (x / 16777216 % 256)
        + 4294967296
          * (x / 4294967296 % 256
              + 256 * (x / 1099511627776 % 256)
              + 65536 * (x / 281474976710656 % 256)
              + 16777216 * (x / 72057594037927936 % 256))
      ≡ x
word64 x h = omega arith

-- A head that is stored is the head that is read.
pub load_head-store_head :
    (p : Package) → IsPackage p → load_head (store_head (head_of p)) ≡ head_of p
unfolding load_head store_head
load_head-store_head p v = λ i. record {
  data_len = word32 (length p.body) (omega arith) i;
  sender_id = word32 p.sender_id (omega arith) i;
  recver_id = word32 p.recver_id (omega arith) i;
  send_ms = word64 p.send_ms (omega arith) i;
  pkg_type = small p.pkg_type v.type_fits i;
}
  where
    small : (x : ℕ) → x < 2 ^ 8 → x % 256 ≡ x
    small x h = omega arith

pub length-encode : (p : Package) → length (encode p) ≡ head_len + length p.body
unfolding encode
length-encode p = omega (
  arith,
  length-append (slice (store_head (head_of p)) 0 head_len) p.body,
  length-slice (store_head (head_of p)) 0 head_len,
)
