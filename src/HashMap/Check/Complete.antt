-- ===== src/HashMap/Check/Complete.antt =====
-- After the repair of the map of the targets every connection is found.
use proc_bridge.Base.{
  ℕ, ◌*◌, ◌≡◌, refl, ap, sym, ◌∙◌, inl, inr, arith, Bool, true, false, ◌&&◌, some, List, [], ◌∷◌,
  Every, ◌==◌, if◌then◌else◌, Bool-cases, ℤ, pos, ltb_ℤ, pos_part,
}
use proc_bridge.HashMap.{
  Entry, Maps, entry_fd, entry_proc_id, map_target, is_entry_type, is_some, fetch_hash_entry,
  insert_hash_map,
}
use proc_bridge.HashMap.Insert.{Valid, Inserted, insert_hash_map-Inserted}
use proc_bridge.HashMap.Check.{
  TargetKey, add_missing, check_target, check_each, check_target_hash_map,
}

module _ {ℓ} {R : Type ℓ} where
  -- The map of the targets stays valid, and the keys that were there refer to the same as before.
  pub record Grows (maps maps' : Maps R) : Type ℓ where
    pub valid : Valid maps'.target_hash_map
    pub kept :
        (t v : ℕ)
        → is_entry_type t ≡ true
        → is_some (fetch_hash_entry maps map_target t v) ≡ true
        → fetch_hash_entry maps' map_target t v ≡ fetch_hash_entry maps map_target t v

  Grows-refl : (maps : Maps R) → Valid maps.target_hash_map → Grows maps maps
  Grows-refl maps m = record { valid = m; kept = λ t v k h. refl }

  Grows-trans : (a b c : Maps R) → Grows a b → Grows b c → Grows a c
  Grows-trans a b c g h = record {
    valid = h.valid;
    kept = λ t v k e. h.kept t v k (ap is_some (g.kept t v k e) ∙ e) ∙ g.kept t v k e;
  }

  abbrev Present : Maps R → (ty value : ℕ) → Type 0
  Present maps ty value = is_some (fetch_hash_entry maps map_target ty value) ≡ true

  -- An insertion with memory, where the key is not there yet.
  Inserted-Grows :
      (maps maps' : Maps R) (ty value : ℕ) (refer : R) (ret : ℤ)
      → is_entry_type ty ≡ true
      → is_some (fetch_hash_entry maps map_target ty value) ≡ false
      → Inserted true maps ty value refer maps' ret
      → Grows maps maps' × Present maps' ty value
  Inserted-Grows maps maps' ty value refer ret e absent ins = elim ins.outcome [
    | inl (there, _, _) ↦ absurd (ground (arith, absent, there))
    | inr rest ↦ elim rest [
      | inl (full, _, _) ↦ absurd (ground (arith, full))
      | inr (_, _, fetched) ↦ (
        record { valid = ins.valid; kept = λ t v k h. fetched t v k ∙ same t v h },
        ap is_some (fetched ty value e) ∙ here,
      )
    ]
  ]
    where
      entry : Entry R
      entry = record { entry_type = ty; value = value; refer = refer }

      same :
          (t v : ℕ)
          → is_some (fetch_hash_entry maps map_target t v) ≡ true
          → (if (t == ty) && (v == value) then some entry else fetch_hash_entry maps map_target t v)
            ≡ fetch_hash_entry maps map_target t v
      same t v h = elim (Bool-cases ((t == ty) && (v == value))) [
        | inl eq ↦
            let p : t ≡ ty = ground (arith, eq) in
            let q : v ≡ value = ground (arith, eq) in
            absurd (
              ground (
                arith,
                absent,
                sym h ∙ λ i. is_some (fetch_hash_entry maps map_target (p i) (q i)),
              ))
        | inr ne ↦ rw ne refl
      ]

      here :
          is_some (
            if (ty == ty) && (value == value)
            then some entry
            else fetch_hash_entry maps map_target ty value)
          ≡ true
      here = let self : ((ty == ty) && (value == value)) ≡ true = ground arith in rw self refl

  add_missing-Grows :
      (maps : Maps R) (ty value : ℕ) (refer : R)
      → Valid maps.target_hash_map
      → is_entry_type ty ≡ true
      → let maps' = add_missing true maps ty value refer in
        Grows maps maps' × Present maps' ty value
  unfolding add_missing
  add_missing-Grows maps ty value refer m e =
      elim (Bool-cases (is_some (fetch_hash_entry maps map_target ty value))) [
        | inl there ↦ rw there (Grows-refl maps m, there)
        | inr absent ↦ rw absent (
            Inserted-Grows maps (insert_hash_map true maps map_target ty value refer).0 ty value
              refer (insert_hash_map true maps map_target ty value refer).1 e absent
              (insert_hash_map-Inserted true maps ty value refer m e))
      ]

  -- What is present stays present.
  Present-Grows :
      (maps maps' : Maps R) (ty value : ℕ)
      → Grows maps maps'
      → is_entry_type ty ≡ true
      → Present maps ty value
      → Present maps' ty value
  Present-Grows maps maps' ty value g e p = ap is_some (g.kept ty value e p) ∙ p

  -- The keys of a connection are found.
  abbrev pub IsFound : Maps R → TargetKey R → Type 0
  IsFound maps t =
      (ltb_ℤ (pos 0) t.fd ≡ true → Present maps entry_fd (pos_part t.fd))
      × (ltb_ℤ (pos 0) t.proc_id ≡ true → Present maps entry_proc_id (pos_part t.proc_id))

  maybe_missing :
      (b : Bool) (maps : Maps R) (ty value : ℕ) (refer : R)
      → Valid maps.target_hash_map
      → is_entry_type ty ≡ true
      → let maps' = if b then add_missing true maps ty value refer else maps in
        Grows maps maps' × (b ≡ true → Present maps' ty value)
  maybe_missing true maps ty value refer m e =
      let (g, p) = add_missing-Grows maps ty value refer m e in (g, λ _. p)
  maybe_missing false maps ty value refer m e = (Grows-refl maps m, λ h. absurd (ground (arith, h)))

  check_target-Grows :
      (maps : Maps R) (t : TargetKey R)
      → Valid maps.target_hash_map
      → let maps' = check_target (λ ty value. true) maps t in Grows maps maps' × IsFound maps' t
  unfolding check_target
  check_target-Grows maps t m =
      let (g, p) =
        maybe_missing (ltb_ℤ (pos 0) t.fd) maps entry_fd (pos_part t.fd) t.refer m refl in
      let with_fd =
        if ltb_ℤ (pos 0) t.fd
        then add_missing true maps entry_fd (pos_part t.fd) t.refer
        else maps in
      let (h, q) =
        maybe_missing (ltb_ℤ (pos 0) t.proc_id) with_fd entry_proc_id (pos_part t.proc_id) t.refer
          g.valid refl in
      (
        Grows-trans maps with_fd _ g h,
        (λ e. Present-Grows with_fd _ entry_fd (pos_part t.fd) h refl (p e), q),
      )

  check_each-Grows :
      (maps : Maps R) (ts : List (TargetKey R))
      → Valid maps.target_hash_map
      → let maps' = check_each (λ ty value. true) maps ts in
        Grows maps maps' × Every (IsFound maps') ts
  unfolding check_each
  check_each-Grows maps [] m = (Grows-refl maps m, tt)
  check_each-Grows maps (t ∷ ts) m =
      let (g, p) = check_target-Grows maps t m in
      let (h, q) = check_each-Grows (check_target (λ ty value. true) maps t) ts g.valid in
      (
        Grows-trans maps _ _ g h,
        (
          (
            λ e. Present-Grows _ _ entry_fd (pos_part t.fd) h refl (p.0 e),
            λ e. Present-Grows _ _ entry_proc_id (pos_part t.proc_id) h refl (p.1 e),
          ),
          q,
        ),
      )

  -- check_target_hash_map on a valid map whose count is not twice that of the targets, with memory
  -- for each entry: afterwards the socket and the process id of every target in the list that are
  -- positive are found, every key that was found refers to the same as before, and the map is
  -- valid.
  pub check_target_hash_map-Grows :
      (maps : Maps R) (target_count : ℕ) (ts : List (TargetKey R))
      → Valid maps.target_hash_map
      → (maps.target_hash_map.entry_count == target_count * 2) ≡ false
      → let maps' = (check_target_hash_map (λ ty value. true) maps target_count ts).0 in
        Grows maps maps' × Every (IsFound maps') ts
  unfolding check_target_hash_map
  check_target_hash_map-Grows maps target_count ts m differ = rw differ (check_each-Grows maps ts m)
