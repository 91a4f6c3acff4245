-- ===== src/Bridge/Slots.antt =====
-- The list of the opened bridges: the invariant, the searches along it, and the count of those in use.
use proc_bridge.Base.{
  ℕ, zero, suc, ◌+◌, ◌≤◌, ◌<◌, ◌≡◌, refl, ap, ap₂, sym, ◌∙◌, inl, inr, arith, Bool, true, false,
  none, some, ◌==◌, if◌then◌else◌, Bool-cases, ==-of_ne,
}
use proc_bridge.Bridge.{Space, no_space, World, no_name, first, set_at}

-- The number of positions in use among the first `n`.
abbrev pub in_use : (ℕ → Space) → ℕ → ℕ
in_use list zero = 0
in_use list (suc n) = in_use list n + (if (list n).proc_id == 0 then 0 else 1)

-- A position in use bears its own number, a name and a hub; another is as `memset` left it.
pub data IsSpace (i : ℕ) (space : Space) : Type 0 where
  free : space ≡ no_space → IsSpace i space
  used :
      (ref : ℕ)
      → 0 < space.proc_id
      → space.opened_id ≡ i
      → space.phub ≡ some ref
      → no_name space.name_space ≡ false
      → IsSpace i space

pub record Slots (count valid : ℕ) (list : ℕ → Space) : Type 0 where
  pub counted : valid ≡ in_use list count
  pub each : (i : ℕ) → i < count → IsSpace i (list i)

-- No list and no counts, or a list with its counts.
pub data IsWorld (w : World) : Type 0 where
  closed : w.space_list ≡ none → w.space_count ≡ 0 → w.valid_count ≡ 0 → IsWorld w
  listed :
      (list : ℕ → Space)
      → w.space_list ≡ some list
      → 0 < w.space_count
      → Slots w.space_count w.valid_count list
      → IsWorld w

-- What a search finds passes and lies in the range.
pub first-found :
    (passes : ℕ → Bool) (start n i : ℕ)
    → first passes start n ≡ some i
    → (passes i ≡ true) × (start ≤ i) × (i < start + n)
unfolding first
first-found passes start zero i e = absurd (ground (arith, e))
first-found passes start (suc n) i e = elim (Bool-cases (passes start)) [
  | inl yes_it ↦
      let k : start ≡ i = ground (arith, rw yes_it at e) in
      (ap passes (sym k) ∙ yes_it, omega (arith, k), omega (arith, k))
  | inr not_it ↦
      let (p, a, b) = first-found passes (suc start) n i (rw not_it at e) in
      (p, omega (arith, a), omega (arith, b))
]

in_use_above :
    (list : ℕ → Space) (n at : ℕ) (space : Space)
    → n ≤ at
    → in_use (set_at list at space) n ≡ in_use list n
in_use_above list zero at space h = refl
in_use_above list (suc n) at space h = rw (==-of_ne n at (omega arith)) (
    ap (λ k. k + (if (list n).proc_id == 0 then 0 else 1))
      (in_use_above list n at space (omega arith)))

-- One position set: the count changes by what was there and what is.
pub in_use-set_at :
    (list : ℕ → Space) (n at : ℕ) (space : Space)
    → at < n
    → in_use (set_at list at space) n + (if (list at).proc_id == 0 then 0 else 1)
      ≡ in_use list n + (if space.proc_id == 0 then 0 else 1)
in_use-set_at list zero at space h = absurd (omega arith)
in_use-set_at list (suc n) at space h = elim (Bool-cases (n == at)) [
  | inl e ↦
      let k : n ≡ at = ground (arith, e) in
      rw e (
        omega (
          arith,
          in_use_above list n at space (omega arith),
          ap {B = ℕ} (λ j. if (list j).proc_id == 0 then 0 else 1) k,
        ))
  | inr ne ↦ rw ne (omega (arith, in_use-set_at list n at space (ground (arith, ne))))
]

pub in_use-le : (list : ℕ → Space) (n : ℕ) → in_use list n ≤ n
in_use-le list zero = omega arith
in_use-le list (suc n) = ground (arith, in_use-le list n)

in_use_same :
    (list list' : ℕ → Space) (n : ℕ)
    → ((i : ℕ) → i < n → list' i ≡ list i)
    → in_use list' n ≡ in_use list n
in_use_same list list' zero same = refl
in_use_same list list' (suc n) same =
    ap₂ ◌+◌ (in_use_same list list' n (λ i h. same i (omega arith)))
      (ap {B = ℕ} (λ x. if x.proc_id == 0 then 0 else 1) (same n (omega arith)))

-- Positions behind the list add nothing if they are empty.
pub in_use-more :
    (list list' : ℕ → Space) (n k : ℕ)
    → ((i : ℕ) → i < n → list' i ≡ list i)
    → ((i : ℕ) → n ≤ i → list' i ≡ no_space)
    → in_use list' (k + n) ≡ in_use list n
in_use-more list list' n zero same none_there =
    ap (in_use list') (omega arith) ∙ in_use_same list list' n same
in_use-more list list' n (suc k) same none_there =
    ap (in_use list') step
    ∙ omega (
      arith,
      in_use-more list list' n k same none_there,
      ap {B = ℕ} (λ x. if x.proc_id == 0 then 0 else 1) (none_there (k + n) (omega arith)),
    )
  where
    step : suc k + n ≡ suc (k + n)
    step = omega arith
