-- ===== src/Client/Buffer.antt =====
-- The receive buffer as a list of packages.
use proc_bridge.Base.{
  ℕ, ◌+◌, ◌*◌, ◌≡◌, ◌⊎◌, ◌++◌, refl, ap, ap₂, ◌∙◌, inl, inr, arith, Bool, true, false, not, Option,
  none, some, List, [], ◌∷◌, length, Every, Every-append, slice, slice_cong, slice-append,
  append-nil, ltb, leb, if◌then◌else◌, Bool-cases, ℤ, pos, minus_two, is_zero, int32,
  int32-of_small, Mem, memcpy, zeroed,
}
use proc_bridge.Package.{head_len, pack_len_max, Package, IsPackage}
use proc_bridge.Channel.Queue.{encode_all, encode_all-append}
use proc_bridge.Channel.Append.{Carries, load_head_of_Carries}
use proc_bridge.Client.{
  RecvBuffer, buff_of, pack_len, lacks, copy_buff, expand_recv_buff, put_pkg, keep_pkg,
  max_client_buff_size,
}

-- The first `tail` bytes are those of the packages, one behind the other.
pub record BuffHolds (c : RecvBuffer) (ps : List Package) : Type 0 where
  pub content : slice (buff_of c.buff) 0 c.tail ≡ encode_all ps
  pub packages : Every IsPackage ps

pub pack_len_of_Carries :
    (pkg : Mem) (p : Package)
    → IsPackage p
    → Carries pkg p
    → pack_len pkg ≡ head_len + length p.body
pack_len_of_Carries pkg p v c = ap (λ h. head_len + h.data_len) (load_head_of_Carries pkg p v c)

pub int32-pack_len :
    (pkg : Mem) (p : Package)
    → IsPackage p
    → Carries pkg p
    → int32 (pack_len pkg) ≡ pos (pack_len pkg)
int32-pack_len pkg p v c =
    int32-of_small (pack_len pkg) (omega (arith, pack_len_of_Carries pkg p v c, v.len_fits))

-- The package goes behind the others.
put_pkg-BuffHolds :
    (c : RecvBuffer) (ps : List Package) (pkg : Mem) (p : Package) (ts : ℕ)
    → BuffHolds c ps
    → IsPackage p
    → Carries pkg p
    → BuffHolds (put_pkg c pkg (pos (pack_len pkg)) ts) (ps ++ p ∷ [])
unfolding put_pkg
put_pkg-BuffHolds c ps pkg p ts b v e = record {
  content =
      slice-append (memcpy (buff_of c.buff) c.tail pkg 0 (pack_len pkg)) 0 c.tail (pack_len pkg)
      ∙ ap₂ ◌++◌
          (slice_cong (memcpy (buff_of c.buff) c.tail pkg 0 (pack_len pkg)) (buff_of c.buff) 0 0
              c.tail (λ k h. unfold memcpy in ground arith)
            ∙ b.content)
          (slice_cong (memcpy (buff_of c.buff) c.tail pkg 0 (pack_len pkg)) pkg (0 + c.tail) 0
              (pack_len pkg) (λ k h. unfold memcpy in ground arith)
            ∙ ap (slice pkg 0) (pack_len_of_Carries pkg p v e)
            ∙ e)
      ∙ (unfold encode_all in simp (encode_all-append, append-nil));
  packages = Every-append IsPackage ps (p ∷ []) b.packages (v, tt);
}

either-BuffHolds :
    (ps : List Package) (b : Bool) (x y : RecvBuffer × ℤ)
    → BuffHolds x.0 ps
    → BuffHolds y.0 ps
    → BuffHolds (if b then x else y).0 ps
either-BuffHolds ps true x y p q = p
either-BuffHolds ps false x y p q = q

-- A copy into new memory keeps the bytes.
copy_buff-slice :
    (c : RecvBuffer) (buff : Option Mem)
    → slice (copy_buff c buff) 0 c.tail ≡ slice (buff_of buff) 0 c.tail
unfolding copy_buff
copy_buff-slice c none = refl
copy_buff-slice c (some m) = elim (Bool-cases (ltb 0 c.tail)) [
  | inl full ↦
      rw full (
        slice_cong (memcpy zeroed 0 m 0 c.tail) m 0 0 c.tail (λ k h. unfold memcpy in ground arith))
  | inr none_left ↦
      rw none_left (slice_cong zeroed m 0 0 c.tail (λ k h. absurd (ground (arith, none_left, h))))
]

expand_recv_buff-BuffHolds :
    (alloc : ℕ → Bool) (c : RecvBuffer) (ps : List Package)
    → BuffHolds c ps
    → BuffHolds (expand_recv_buff alloc c).0 ps
unfolding expand_recv_buff
expand_recv_buff-BuffHolds alloc c ps b =
    either-BuffHolds ps (leb max_client_buff_size c.buff_len) _ _ b (
      either-BuffHolds ps (not (alloc new_len)) _ _
        (elim (Bool-cases (leb c.buff_len 0)) [
          | inl e ↦ rw e b
          | inr e ↦ rw e (record { content = b.content; packages = b.packages })
        ])
        (record { content = copy_buff-slice c c.buff ∙ b.content; packages = b.packages }))
  where
    new_len : ℕ
    new_len = if leb c.buff_len 0 then pack_len_max * 2 else c.buff_len + pack_len_max * 2

-- The package is kept behind the others, or dropped.
pub keep_pkg-BuffHolds :
    (alloc : ℕ → Bool) (c : RecvBuffer) (ps : List Package) (pkg : Mem) (p : Package) (ts : ℕ)
    → BuffHolds c ps
    → IsPackage p
    → Carries pkg p
    → let r = keep_pkg alloc c pkg (pos (pack_len pkg)) ts in
      ((r.1 ≡ pos 0) × BuffHolds r.0 (ps ++ p ∷ [])) ⊎ ((r.1 ≡ minus_two) × BuffHolds r.0 ps)
unfolding keep_pkg
keep_pkg-BuffHolds alloc c ps pkg p ts b v e = elim (Bool-cases (lacks c (pos (pack_len pkg)))) [
  | inr room ↦ rw room (inl (refl, put_pkg-BuffHolds c ps pkg p ts b v e))
  | inl small ↦
      let grown = expand_recv_buff-BuffHolds alloc c ps b in
      elim (Bool-cases (is_zero (expand_recv_buff alloc c).1)) [
        | inr failed ↦ rw (small, failed) (inr (refl, grown))
        | inl ok ↦ elim (Bool-cases (lacks (expand_recv_buff alloc c).0 (pos (pack_len pkg)))) [
          | inl still ↦ rw (small, ok, still) (inr (refl, grown))
          | inr room ↦
              rw (small, ok, room)
                (inl (refl, put_pkg-BuffHolds (expand_recv_buff alloc c).0 ps pkg p ts grown v e))
        ]
      ]
]
