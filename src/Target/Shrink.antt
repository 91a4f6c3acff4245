-- ===== src/Target/Shrink.antt =====
-- What the periodic shrinking of the buffers, `check_snd_buff_memory`, does to the waiting bytes.
use native.Mathlib.Nat.{mod-eq_of_lt}
use proc_bridge.Base.{
  Every, ◌⊎◌, none, ℕ, ◌*◌, ◌/◌, ◌%◌, ◌^◌, ◌≤◌, ◌<◌, ◌≡◌, ◌≢◌, refl, ap, sym, ◌∙◌, arith, Bool,
  false, some, ltb, leb, ◌==◌, Bool-cases, inl, inr, ◌||◌, Mem, List, [], ◌∷◌,
}
use proc_bridge.Ring.Content.{bytes}
use proc_bridge.Ring.Laws.{used-lt}
use proc_bridge.Target.{Target, data_len, mem_of}
use proc_bridge.Target.Stream.{IsOpen, content}
use proc_bridge.Target.Buffer.{mega, relocate, shrink_buff, shrink_target, check_targets}
use proc_bridge.Target.Grow.{
  used_of, relocate_offsets, relocate-exact, relocate-content, relocate-IsOpen,
}

pub data_len-used : (t : Target) → IsOpen t → t.snd_buff_len < 2 ^ 32 → data_len t ≡ used_of t
unfolding data_len
data_len-used t o fits = ground arith

pub shrinks : (t : Target) → IsOpen t → t.snd_buff_len < 2 ^ 32 → data_len t % 2 ^ 32 ≡ used_of t
shrinks t o fits =
    mod-eq_of_lt (
      omega (
        arith,
        data_len-used t o fits,
        used-lt t.snd_buff_len t.snd_head t.snd_tail o.head_in o.tail_in,
      ))
    ∙ data_len-used t o fits

-- The waiting bytes and the offsets inside, after a step that may have shrunk the buffer.
pub record Kept (t t' : Target) : Type 0 where
  pub kept : content t' ≡ content t
  pub open_still : IsOpen t'
  pub no_longer : t'.snd_buff_len ≤ t.snd_buff_len

abbrev shrunk_len : ℕ → ℕ
shrunk_len len = len * 2 / 3 % 2 ^ 32

shrunk_len-lt :
    (len n : ℕ) → len < 2 ^ 32 → n < len / 3 → (n < shrunk_len len) × (shrunk_len len ≤ len)
shrunk_len-lt len n fits lt = rw (mod-eq_of_lt small) (omega arith, omega arith)
  where
    small : len * 2 / 3 < 2 ^ 32
    small = omega arith

-- The move, where it is made: the data take less than a third of the buffer.
relocate-Kept :
    (t : Target) (m : Mem)
    → IsOpen t
    → t.snd_buff ≡ some m
    → t.snd_buff_len < 2 ^ 32
    → t.snd_head ≢ t.snd_tail
    → used_of t < t.snd_buff_len / 3
    → Kept t (relocate t m (shrunk_len t.snd_buff_len))
relocate-Kept t m o b fits ne few =
    let (room, le) = shrunk_len-lt t.snd_buff_len (used_of t) fits few in
    rw (relocate-exact t m (shrunk_len t.snd_buff_len) o fits) record {
      kept =
          relocate-content t m (shrunk_len t.snd_buff_len) o ne room
          ∙ ap (λ x. bytes 0 t.snd_buff_len (mem_of x) t.snd_head t.snd_tail) (sym b);
      open_still = relocate-IsOpen t m (shrunk_len t.snd_buff_len) o ne room;
      no_longer = omega (arith, (relocate_offsets t m (shrunk_len t.snd_buff_len) o ne).2);
    }

shrink_buff-Kept :
    (calloc_ok : ℕ → Bool) (t : Target) (m : Mem)
    → IsOpen t
    → t.snd_buff ≡ some m
    → t.snd_buff_len < 2 ^ 32
    → t.snd_head ≢ t.snd_tail
    → Kept t (shrink_buff calloc_ok t (some m)).0
unfolding shrink_buff
shrink_buff-Kept calloc_ok t m o b fits ne =
    elim (Bool-cases (ltb t.snd_buff_len mega || leb (t.snd_buff_len / 3) (data_len t % 2 ^ 32))) [
      | inl large ↦ rw large same
      | inr small ↦ elim (Bool-cases (calloc_ok (shrunk_len t.snd_buff_len))) [
        | inl ok ↦
            rw (small, ok, full) (relocate-Kept t m o b fits ne (ground (arith, shrinks t o fits)))
        | inr none_left ↦ rw (small, none_left) same
      ]
    ]
  where
    same : Kept t t
    same = record { kept = refl; open_still = o; no_longer = omega arith }

    full : (data_len t % 2 ^ 32 == 0) ≡ false
    full = ground (arith, shrinks t o fits)

pub shrink_target-Kept :
    (calloc_ok : ℕ → Bool) (t : Target) (m : Mem)
    → IsOpen t
    → t.snd_buff ≡ some m
    → t.snd_buff_len < 2 ^ 32
    → t.snd_head ≢ t.snd_tail
    → Kept t (shrink_target calloc_ok t).0
unfolding shrink_target
shrink_target-Kept calloc_ok t m o b fits ne =
    rw (ap (shrink_buff calloc_ok t) b) (shrink_buff-Kept calloc_ok t m o b fits ne)

-- A target without a buffer, or with waiting bytes in an intact one.
pub data Ready (t : Target) : Type 0 where
  no_buff : t.snd_buff ≡ none → Ready t
  intact :
      (m : Mem)
      → IsOpen t
      → t.snd_buff ≡ some m
      → t.snd_buff_len < 2 ^ 32
      → t.snd_head ≢ t.snd_tail
      → Ready t

-- What one target becomes: the same, or a target with the same waiting bytes.
abbrev pub Same : Target → Target → Type 0
Same t t' = (t' ≡ t) ⊎ Kept t t'

-- Two lists of one length whose targets are related one by one.
abbrev pub Pairwise : List Target → List Target → Type 0
Pairwise [] [] = Unit
Pairwise [] (y ∷ ys) = ⊥
Pairwise (x ∷ xs) [] = ⊥
Pairwise (x ∷ xs) (y ∷ ys) = Same x y × Pairwise xs ys

Pairwise-refl : (ts : List Target) → Pairwise ts ts
Pairwise-refl [] = tt
Pairwise-refl (t ∷ ts) = (inl refl, Pairwise-refl ts)

shrink_target-Same :
    (calloc_ok : ℕ → Bool) (t : Target) → Ready t → Same t (shrink_target calloc_ok t).0
shrink_target-Same calloc_ok t (no_buff e) =
    inl (unfold shrink_target shrink_buff in ap (λ x. (shrink_buff calloc_ok t x).0) e)
shrink_target-Same calloc_ok t (intact m o b fits ne) =
    inr (shrink_target-Kept calloc_ok t m o b fits ne)

-- The loop of check_snd_buff_memory, over targets that have no buffer or waiting bytes in an
-- intact buffer shorter than 2^32, leaves each target as it was or with the same waiting bytes,
-- the offsets inside and the buffer no longer; also if it ends early for want of memory.
pub check_targets-Pairwise :
    (calloc_ok : ℕ → Bool) (ts : List Target)
    → Every Ready ts
    → Pairwise ts (check_targets calloc_ok ts).0
unfolding check_targets
check_targets-Pairwise calloc_ok [] r = tt
check_targets-Pairwise calloc_ok (t ∷ ts) (r, rs) =
    elim (Bool-cases (shrink_target calloc_ok t).1) [
      | inl on ↦ rw on (shrink_target-Same calloc_ok t r, check_targets-Pairwise calloc_ok ts rs)
      | inr off ↦ rw off (shrink_target-Same calloc_ok t r, Pairwise-refl ts)
    ]
