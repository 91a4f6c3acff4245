-- ===== src/HashMap/Insert.antt =====
-- What `insert_hash_map` does to the finite map of the targets.
use native.Mathlib.Nat.{mod-lt}
use proc_bridge.Base.{
  ℕ, ◌+◌, ◌%◌, ◌≡◌, ◌⊎◌, refl, ap, sym, ◌∙◌, inl, inr, arith, Bool, true, false, not, ◌&&◌, ◌||◌,
  Option, none, some, List, ◌∷◌, leb, ◌==◌, if◌then◌else◌, Bool-cases, ==_iff, ℤ, pos, minus_one,
  minus_two,
}
use proc_bridge.HashMap.{
  Entry, HashMap, Maps, map_target, select, put_back, is_entry_type, is_some, find, set_chain,
  fetch_hash_entry, insert_chain, insert_into, insert_hash_map,
}
use proc_bridge.HashMap.Laws.{
  IsMap, lookup, fetch_hash_entry-lookup, total-set_chain, set_chain-Unique, lookup-set_chain,
  matches_lem, find-first,
}

module _ {ℓ} {R : Type ℓ} where
  -- A map that some chains make up.
  pub record Valid (map : HashMap R) : Type ℓ where
    pub list : ℕ → List (Entry R)
    pub is_map : IsMap map list

  -- The map with one more entry in front of its chain.
  abbrev grown : HashMap R → (ℕ → List (Entry R)) → Entry R → HashMap R
  grown map list entry = record map {
    entry_count = map.entry_count + 1;
    plist = some (set_chain list (entry.value % map.len) (entry ∷ list (entry.value % map.len)));
  }

  abbrev grown_list : HashMap R → (ℕ → List (Entry R)) → Entry R → ℕ → List (Entry R)
  grown_list map list entry =
      set_chain list (entry.value % map.len) (entry ∷ list (entry.value % map.len))

  grown-IsMap :
      (map : HashMap R) (list : ℕ → List (Entry R)) (entry : Entry R)
      → IsMap map list
      → lookup list map.len entry.entry_type entry.value ≡ none
      → IsMap (grown map list entry) (grown_list map list entry)
  grown-IsMap map list entry m new = record {
    inited = m.inited;
    len_pos = m.len_pos;
    chains = refl;
    counted = omega (
      arith,
      m.counted,
      total-set_chain list map.len at (entry ∷ list at) (mod-lt entry.value m.len_pos),
    );
    unique = λ i h.
        set_chain-Unique list at (entry ∷ list at) i
          (new, m.unique at (mod-lt entry.value m.len_pos)) (m.unique i h);
  }
    where
      at : ℕ
      at = entry.value % map.len

  grown-lookup :
      (map : HashMap R) (list : ℕ → List (Entry R)) (entry : Entry R) (t v : ℕ)
      → lookup (grown_list map list entry) map.len t v ≡ (
          if (t == entry.entry_type) && (v == entry.value)
          then some entry
          else lookup list map.len t v)
  grown-lookup map list entry t v =
      lookup-set_chain list map.len entry.value (entry ∷ list (entry.value % map.len)) t v
      ∙ elim (Bool-cases (v % map.len == entry.value % map.len)) [
        | inl e ↦
            (λ i.
              if e i
              then find t v (entry ∷ list (entry.value % map.len))
              else lookup list map.len t v)
            ∙ find-first t v entry (list (entry.value % map.len))
            ∙ (λ i.
                if matches_lem t v entry i
                then some entry
                else find t v (list (sym ((==_iff (v % map.len) (entry.value % map.len)).0 e) i)))
        | inr ne ↦
            let other : ((t == entry.entry_type) && (v == entry.value)) ≡ false = elsewhere ne in
            rw (ne, other) refl
      ]
    where
      elsewhere :
          (v % map.len == entry.value % map.len) ≡ false
          → ((t == entry.entry_type) && (v == entry.value)) ≡ false
      elsewhere ne = elim (Bool-cases (v == entry.value)) [
        | inl e ↦
            let same : v % map.len ≡ entry.value % map.len =
              ap (λ x. x % map.len) ((==_iff v entry.value).0 e) in
            absurd (ground (arith, ne, same))
        | inr other ↦ ground (arith, other)
      ]

  -- What an insertion into the map of the targets does, on the finite map that `fetch_hash_entry` shows.
  pub record Inserted (alloc : Bool) (maps : Maps R) (ty value : ℕ) (refer : R) (maps' : Maps R)
      (ret : ℤ) : Type ℓ where
    pub valid : Valid maps'.target_hash_map
    pub others : maps'.client_hash_map ≡ maps.client_hash_map
    pub outcome :
        ((is_some (fetch_hash_entry maps map_target ty value) ≡ true)
          × (ret ≡ minus_two)
          × (maps' ≡ maps))
        ⊎ (((alloc ≡ false) × (ret ≡ minus_one) × (maps' ≡ maps))
            ⊎ ((ret ≡ pos 0)
                × (maps'.target_hash_map.entry_count ≡ maps.target_hash_map.entry_count + 1)
                × ((t v : ℕ)
                    → is_entry_type t ≡ true
                    → fetch_hash_entry maps' map_target t v ≡ (
                        if (t == ty) && (v == value)
                        then some (record { entry_type = ty; value = value; refer = refer })
                        else fetch_hash_entry maps map_target t v))))

  pub none-of_is_some : (x : Option (Entry R)) → is_some x ≡ false → x ≡ none
  none-of_is_some none e = refl
  none-of_is_some (some x) e = absurd (ground (arith, e))

  inserted :
      (alloc : Bool) (maps : Maps R) (ty value : ℕ) (refer : R)
      → (m : Valid maps.target_hash_map) → is_entry_type ty ≡ true
      → let r =
          insert_chain alloc maps map_target
            (record { entry_type = ty; value = value; refer = refer })
            maps.target_hash_map
            (some m.list) in
        Inserted alloc maps ty value refer r.0 r.1
  unfolding insert_chain put_back select
  inserted alloc maps ty value refer m e =
      elim (Bool-cases (is_some (fetch_hash_entry maps map_target ty value))) [
        | inl there ↦
            rw there (record { valid = m; others = refl; outcome = inl (there, refl, refl) })
        | inr absent ↦ elim (Bool-cases alloc) [
          | inr full ↦
              rw (absent, full)
                (record { valid = m; others = refl; outcome = inr (inl (refl, refl, refl)) })
          | inl room ↦
              let entry : Entry R = record { entry_type = ty; value = value; refer = refer } in
              let map = maps.target_hash_map in
              let new : lookup m.list map.len ty value ≡ none =
                sym (fetch_hash_entry-lookup maps map_target ty value map m.list refl m.is_map e)
                ∙ none-of_is_some _ absent in
              let is = grown-IsMap map m.list entry m.is_map new in
              rw (absent, room)
                (record {
                  valid = record { list = grown_list map m.list entry; is_map = is };
                  others = refl;
                  outcome = inr (
                      inr (
                        refl,
                        refl,
                        λ t v k.
                            fetch_hash_entry-lookup
                              (record maps { target_hash_map = grown map m.list entry }) map_target
                              t v (grown map m.list entry) (grown_list map m.list entry) refl is k
                            ∙ grown-lookup map m.list entry t v
                            ∙ ap (λ x. if (t == ty) && (v == value) then some entry else x)
                                (sym (
                                  fetch_hash_entry-lookup maps map_target t v map m.list refl
                                    m.is_map k)),
                      ));
                })
        ]
      ]

  -- insert_hash_map on a valid map of the targets: -2 and nothing changed if the key is there, -1
  -- and nothing changed without memory, else 0, one entry more, and fetch_hash_entry finds the new
  -- entry under its key and what it found before under every other; the map stays valid and the
  -- other map is kept.
  pub insert_hash_map-Inserted :
      (alloc : Bool) (maps : Maps R) (ty value : ℕ) (refer : R)
      → Valid maps.target_hash_map
      → is_entry_type ty ≡ true
      → let r = insert_hash_map alloc maps map_target ty value refer in
        Inserted alloc maps ty value refer r.0 r.1
  unfolding insert_hash_map insert_into select
  insert_hash_map-Inserted alloc maps ty value refer m e =
      rw guards (inserted alloc maps ty value refer m e)
    where
      some_len : leb maps.target_hash_map.len 0 ≡ false
      some_len = ground (arith, m.is_map.len_pos)

      guards :
          (if not (is_entry_type ty)
              || (not maps.target_hash_map.flag || leb maps.target_hash_map.len 0)
            then (maps, minus_one)
            else insert_chain alloc maps map_target
                (record { entry_type = ty; value = value; refer = refer })
                maps.target_hash_map
                maps.target_hash_map.plist)
          ≡ insert_chain alloc maps map_target
              (record { entry_type = ty; value = value; refer = refer })
              maps.target_hash_map
              (some m.list)
      guards = λ i.
          if not (e i) || (not (m.is_map.inited i) || some_len i)
          then (maps, minus_one)
          else insert_chain alloc maps map_target
              (record { entry_type = ty; value = value; refer = refer }) maps.target_hash_map
              (m.is_map.chains i)
