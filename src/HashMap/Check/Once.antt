-- ===== src/HashMap/Check/Once.antt =====
-- How often `check_hash` repairs the maps.
use proc_bridge.Base.{ℕ, ◌≡◌, refl, List, [], ◌∷◌}
use proc_bridge.HashMap.{Maps}
use proc_bridge.HashMap.Check.{HashCall, repair, check_hash}

-- The calls of the ticker, one after the other.
unfoldable pub check_hash_calls {ℓ} : {R : Type ℓ} → List (HashCall R) → ℕ × Maps R → ℕ × Maps R
check_hash_calls [] s = s
check_hash_calls (found ∷ calls) s = check_hash_calls calls (check_hash found s)

idle {ℓ} :
    {R : Type ℓ} (calls : List (HashCall R)) (maps : Maps R)
    → check_hash_calls calls (1, maps) ≡ (1, maps)
unfolding check_hash_calls check_hash
idle [] maps = refl
idle (found ∷ calls) maps = idle calls maps

-- However often the ticker calls check_hash from the start, and whatever the targets and clients
-- are then, only the first call repairs the maps; the later ones change nothing.
pub check_hash_calls_once {ℓ} :
    {R : Type ℓ} (found : HashCall R) (calls : List (HashCall R)) (maps : Maps R)
    → check_hash_calls (found ∷ calls) (0, maps) ≡ (1, repair found maps)
unfolding check_hash_calls check_hash
check_hash_calls_once found calls maps = idle calls (repair found maps)
