-- ===== src/Hub/Bitmap.antt =====
-- The bitmap of blocked peers: which ids a set or a clear changes, and what a read gives.
use Prim.Native.Nat.{bit_and, bit_or}
use proc_bridge.Base.{
  ℕ, zero, suc, ◌-◌, ◌/◌, ◌%◌, ◌^◌, ◌<◌, ◌≡◌, refl, ap, Bool, true, ◌&&◌, inl, inr, arith, ltb, leb,
  ◌==◌, ==_iff, if◌then◌else◌, Bool-cases, pos, Mem, store,
}
use proc_bridge.Hub.{Hub, IsHub, max_scale, set_snd_bit, clr_snd_bit, get_snd_bit}

-- Whether a test passes at each of the numbers below a bound, and what a pass gives.
upto : (test : ℕ → Bool) → ℕ → Bool
upto test zero = true
upto test (suc bound) = upto test bound && test bound

passes : (test : ℕ → Bool) (bound i : ℕ) → i < bound → upto test bound ≡ true → test i ≡ true
unfolding upto
passes test zero i lt all = absurd (omega arith)
passes test (suc bound) i lt all = ground (arith, passes test bound i)

-- What `get_snd_bit` makes of a byte.
abbrev read_bit : ℕ → ℕ → ℕ
read_bit b k = let v = bit_and b (2 ^ k) in if ltb 0 v && ltb v 128 then 1 else 0

abbrev bit_eq : ℕ → ℕ → Bool
bit_eq i k = i == k

set_table :
    upto
      (λ b.
        upto
          (λ i.
            upto
              (λ k.
                read_bit (bit_or b (2 ^ i)) k
                == (if k == i then (if k == 7 then 0 else 1) else read_bit b k))
              8)
          8)
      256
    ≡ true
unfolding upto
set_table = refl

clr_table :
    upto
      (λ b.
        upto
          (λ i.
            upto
              (λ k. read_bit (bit_and b (255 - 2 ^ i)) k == (if k == i then 0 else read_bit b k))
              8)
          8)
      256
    ≡ true
unfolding upto
clr_table = refl

byte_table :
    upto
      (λ b.
        upto
          (λ i.
            ltb (bit_or b (2 ^ i)) 256 && ltb (bit_and b (255 - 2 ^ i)) 256 && (read_bit b 7 == 0))
          8)
      256
    ≡ true
unfolding upto
byte_table = refl

read_set :
    (b i k : ℕ)
    → b < 256
    → i < 8
    → k < 8
    → read_bit (bit_or b (2 ^ i)) k ≡ (if k == i then (if k == 7 then 0 else 1) else read_bit b k)
read_set b i k hb hi hk =
    (==_iff _ _).0 (passes _ 8 k hk (passes _ 8 i hi (passes _ 256 b hb set_table)))

read_clr :
    (b i k : ℕ)
    → b < 256
    → i < 8
    → k < 8
    → read_bit (bit_and b (255 - 2 ^ i)) k ≡ (if k == i then 0 else read_bit b k)
read_clr b i k hb hi hk =
    (==_iff _ _).0 (passes _ 8 k hk (passes _ 8 i hi (passes _ 256 b hb clr_table)))

byte_facts :
    (b i : ℕ)
    → b < 256
    → i < 8
    → (bit_or b (2 ^ i) < 256) × (bit_and b (255 - 2 ^ i) < 256) × (read_bit b 7 ≡ 0)
byte_facts b i hb hi =
    let t : (ltb (bit_or b (2 ^ i)) 256 && ltb (bit_and b (255 - 2 ^ i)) 256 && (read_bit b 7 == 0))
        ≡ true =
      passes _ 8 i hi (passes _ 256 b hb byte_table) in
    (ground arith, ground arith, ground arith)

-- A read in range is a read of one byte.
get_lem :
    (h : Hub) (j : ℕ)
    → j < max_scale
    → get_snd_bit h j ≡ pos (read_bit (h.snd_bitmap (j / 8)) (j % 8))
unfolding get_snd_bit
get_lem h j lt = ground arith

same_id : (i j : ℕ) → i / 8 ≡ j / 8 → i % 8 ≡ j % 8 → i ≡ j
same_id i j p q = omega arith

set_byte :
    (h : Hub) (i : ℕ)
    → i < max_scale
    → (set_snd_bit h i).0.snd_bitmap
      ≡ store h.snd_bitmap (i / 8) (bit_or (h.snd_bitmap (i / 8)) (2 ^ (i % 8)))
unfolding set_snd_bit
set_byte h i lt = ground arith

clr_byte :
    (h : Hub) (i : ℕ)
    → i < max_scale
    → (clr_snd_bit h i).0.snd_bitmap
      ≡ store h.snd_bitmap (i / 8) (bit_and (h.snd_bitmap (i / 8)) (255 - 2 ^ (i % 8)))
unfolding clr_snd_bit
clr_byte h i lt = ground arith

-- Setting the bit of a peer below 80000 changes the reading for that peer alone: it reads 1, or 0
-- if the id is 7 modulo 8.
pub get_snd_bit-set_snd_bit :
    (h : Hub) (i j : ℕ)
    → IsHub h
    → i < max_scale
    → j < max_scale
    → get_snd_bit (set_snd_bit h i).0 j
      ≡ (if j == i then (if j % 8 == 7 then pos 0 else pos 1) else get_snd_bit h j)
unfolding store
get_snd_bit-set_snd_bit h i j v hi hj =
    rw (get_lem (set_snd_bit h i).0 j hj, get_lem h j hj, set_byte h i hi)
      (ground (
        arith,
        read_set (h.snd_bitmap (j / 8)) (i % 8) (j % 8) (v.bitmap_bytes (j / 8)),
        same_id i j,
      ))

-- Clearing the bit of a peer below 80000 makes it read 0 and changes no other reading.
pub get_snd_bit-clr_snd_bit :
    (h : Hub) (i j : ℕ)
    → IsHub h
    → i < max_scale
    → j < max_scale
    → get_snd_bit (clr_snd_bit h i).0 j ≡ (if j == i then pos 0 else get_snd_bit h j)
unfolding store
get_snd_bit-clr_snd_bit h i j v hi hj =
    rw (get_lem (clr_snd_bit h i).0 j hj, get_lem h j hj, clr_byte h i hi)
      (ground (
        arith,
        read_clr (h.snd_bitmap (j / 8)) (i % 8) (j % 8) (v.bitmap_bytes (j / 8)),
        same_id i j,
      ))

-- Whatever bytes the bitmap holds, get_snd_bit reads 0 for every id below 80000 that is 7 modulo
-- 8, so the carrier can never stop sending to such a peer.
pub get_snd_bit_seven :
    (h : Hub) (j : ℕ) → IsHub h → j < max_scale → j % 8 ≡ 7 → get_snd_bit h j ≡ pos 0
get_snd_bit_seven h j v hj e =
    rw (get_lem h j hj, e)
      (ap pos (byte_facts (h.snd_bitmap (j / 8)) 0 (v.bitmap_bytes (j / 8)) (omega arith)).2)

-- A hub whose bitmap is exchanged for another of bytes.
bitmap-IsHub :
    (h : Hub) (m : Mem) → ((j : ℕ) → m j < 256) → IsHub h → IsHub (record h { snd_bitmap = m })
bitmap-IsHub h m bytes v = record {
  proc_id_pos = v.proc_id_pos;
  proc_id_fits = v.proc_id_fits;
  send_size_fits = v.send_size_fits;
  send_head_in = v.send_head_in;
  send_tail_in = v.send_tail_in;
  recv_size_fits = v.recv_size_fits;
  recv_head_in = v.recv_head_in;
  recv_tail_in = v.recv_tail_in;
  bitmap_bytes = bytes;
}

store_bytes : (m : Mem) (i x : ℕ) → ((j : ℕ) → m j < 256) → x < 256 → (j : ℕ) → store m i x j < 256
unfolding store
store_bytes m i x h hx j = ground (arith, h j)

-- Both operations keep a hub valid.
pub set_snd_bit-IsHub : (h : Hub) (i : ℕ) → IsHub h → IsHub (set_snd_bit h i).0
unfolding set_snd_bit
set_snd_bit-IsHub h i v = elim (Bool-cases (leb max_scale i)) [
  | inl out ↦ rw out v
  | inr inside ↦ rw inside (
      bitmap-IsHub h _
        (store_bytes h.snd_bitmap (i / 8) _ v.bitmap_bytes
          (byte_facts (h.snd_bitmap (i / 8)) (i % 8) (v.bitmap_bytes (i / 8)) (omega arith)).0)
        v)
]

pub clr_snd_bit-IsHub : (h : Hub) (i : ℕ) → IsHub h → IsHub (clr_snd_bit h i).0
unfolding clr_snd_bit
clr_snd_bit-IsHub h i v = elim (Bool-cases (leb max_scale i)) [
  | inl out ↦ rw out v
  | inr inside ↦ rw inside (
      bitmap-IsHub h _
        (store_bytes h.snd_bitmap (i / 8) _ v.bitmap_bytes
          (byte_facts (h.snd_bitmap (i / 8)) (i % 8) (v.bitmap_bytes (i / 8)) (omega arith)).1)
        v)
]
