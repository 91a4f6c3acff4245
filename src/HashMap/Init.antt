-- ===== src/HashMap/Init.antt =====
-- The making of the map of the targets, `init_target_hash_map`.
use proc_bridge.Base.{
  ℕ, zero, suc, ◌*◌, ◌≤◌, ◌<◌, ◌≡◌, refl, ap, sym, ◌∙◌, inl, inr, arith, true, false, some, List,
  [], ◌∷◌, leb, Bool-cases, pos, leb_ℤ,
}
use proc_bridge.HashMap.{
  Maps, map_target, select, find, hash_size_map, size_for, is_entry_type, fetch_hash_entry, is_some,
  init_target_hash_map,
}
use proc_bridge.HashMap.Laws.{IsMap, total, fetch_hash_entry-lookup}
use proc_bridge.HashMap.Insert.{Valid}

abbrev pub last_of : List ℕ → ℕ
last_of [] = 0
last_of (size ∷ []) = size
last_of (size ∷ next ∷ sizes) = last_of (next ∷ sizes)

-- Where the last size is enough, the size that is found is enough.
size_for-enough :
    (count : ℕ) (sizes : List ℕ) → count * 2 ≤ last_of sizes → count * 2 ≤ size_for count sizes
unfolding size_for
size_for-enough count [] h = h
size_for-enough count (size ∷ []) h = ground arith
size_for-enough count (size ∷ next ∷ sizes) h = elim (Bool-cases (leb (count * 2) size)) [
  | inl fits ↦ rw fits (ground (arith, fits))
  | inr more ↦ rw more (size_for-enough count (next ∷ sizes) h)
]

total_empty {ℓ} : (R : Type ℓ) (n : ℕ) → total {R = R} (λ i. []) n ≡ 0
total_empty R zero = refl
total_empty R (suc n) = omega (arith, total_empty R n)

module _ {ℓ} {R : Type ℓ} where
  -- A new map: valid, empty, and with two places for each target.
  pub record Ready (maps : Maps R) (count : ℕ) : Type ℓ where
    pub valid : Valid maps.target_hash_map
    pub none_there :
        (ty value : ℕ)
        → is_entry_type ty ≡ true
        → is_some (fetch_hash_entry maps map_target ty value) ≡ false
    pub wide : count * 2 ≤ maps.target_hash_map.len

  -- init_target_hash_map for 1 to 45907770 targets, with memory and no map made before, returns 0
  -- and leaves a valid empty map of the targets with two places for each target at least.
  pub init_target_hash_map-Ready :
      (maps : Maps R) (count : ℕ)
      → 0 < count
      → count * 2 ≤ 91815541
      → maps.target_hash_map.flag ≡ false
      → let r = init_target_hash_map (λ n. true) maps (pos count) in (r.1 ≡ pos 0) × Ready r.0 count
  unfolding init_target_hash_map
  init_target_hash_map-Ready maps count p fits new =
      rw (some_there, new, found)
        (
          refl,
          record {
            valid = record { list = λ i. []; is_map = is };
            none_there = λ ty value e.
                ap is_some (
                  fetch_hash_entry-lookup made map_target ty value made.target_hash_map (λ i. [])
                    (unfold select in refl) is e)
                ∙ (unfold find in refl);
            wide = enough;
          },
        )
    where
      enough : count * 2 ≤ size_for count hash_size_map
      enough = size_for-enough count hash_size_map fits

      found : leb (size_for count hash_size_map) 0 ≡ false
      found = ground (arith, enough)

      some_there : leb_ℤ (pos count) (pos 0) ≡ false
      some_there = ground arith

      made : Maps R
      made = record maps {
        target_hash_map = record {
          flag = true;
          len = size_for count hash_size_map;
          entry_count = 0;
          plist = some (λ i. []);
        };
      }

      is : IsMap made.target_hash_map (λ i. [])
      is = record {
        inited = refl;
        len_pos = omega (arith, enough);
        chains = refl;
        counted = sym (total_empty R (size_for count hash_size_map));
        unique = λ i h. tt;
      }
