-- ===== src/HashMap/Delete.antt =====
-- What `del_from_hash_map` does to the finite map of the targets or of the clients.
use native.Mathlib.Nat.{mod-lt}
use proc_bridge.Base.{
  ℕ, ◌+◌, ◌-◌, ◌%◌, ◌<◌, ◌≡◌, ◌⊎◌, refl, ap, sym, ◌∙◌, inl, inr, arith, Bool, true, false, not,
  ◌&&◌, ◌||◌, none, some, List, length, leb, ◌==◌, if◌then◌else◌, Bool-cases, ==_iff, ℤ, pos,
  minus_one,
}
use proc_bridge.HashMap.{
  Entry, HashMap, Maps, map_target, map_client, select, put_back, is_entry_type, is_some, find,
  unlink, set_chain, fetch_hash_entry, del_chain, del_from, del_from_hash_map,
}
use proc_bridge.HashMap.Laws.{
  IsMap, lookup, fetch_hash_entry-lookup, total-set_chain, total-chain, set_chain-Unique,
  lookup-set_chain, find-unlink, unlink-Unique, unlink-is_some, length-unlink,
}
use proc_bridge.HashMap.Insert.{Valid, none-of_is_some}

module _ {ℓ} {R : Type ℓ} where
  abbrev cut_list : HashMap R → (ℕ → List (Entry R)) → (ty value : ℕ) → ℕ → List (Entry R)
  cut_list map list ty value =
      set_chain list (value % map.len) (unlink ty value (list (value % map.len))).0

  -- The map with one entry less.
  abbrev cut : HashMap R → (ℕ → List (Entry R)) → (ty value : ℕ) → HashMap R
  cut map list ty value = record map {
    entry_count = map.entry_count - 1;
    plist = some (cut_list map list ty value);
  }

  cut-IsMap :
      (map : HashMap R) (list : ℕ → List (Entry R)) (ty value : ℕ)
      → IsMap map list
      → (unlink ty value (list (value % map.len))).1 ≡ true
      → IsMap (cut map list ty value) (cut_list map list ty value)
  cut-IsMap map list ty value m hit = record {
    inited = m.inited;
    len_pos = m.len_pos;
    chains = refl;
    counted = omega (
      arith,
      m.counted,
      one_less,
      total-set_chain list map.len (value % map.len) (unlink ty value (list (value % map.len))).0
          (mod-lt value m.len_pos),
    );
    unique = λ i h.
        set_chain-Unique list (value % map.len) (unlink ty value (list (value % map.len))).0 i
          (unlink-Unique ty value (list (value % map.len)) (m.unique _ (mod-lt value m.len_pos)))
          (m.unique i h);
  }
    where
      one_less :
          length (unlink ty value (list (value % map.len))).0 + 1 ≡ length (list (value % map.len))
      one_less =
          (λ i. length (unlink ty value (list (value % map.len))).0 + (if sym hit i then 1 else 0))
          ∙ length-unlink ty value (list (value % map.len))

  cut-lookup :
      (map : HashMap R) (list : ℕ → List (Entry R)) (ty value t v : ℕ)
      → IsMap map list
      → lookup (cut_list map list ty value) map.len t v
        ≡ (if (t == ty) && (v == value) then none else lookup list map.len t v)
  cut-lookup map list ty value t v m =
      lookup-set_chain list map.len value (unlink ty value (list (value % map.len))).0 t v
      ∙ elim (Bool-cases (v % map.len == value % map.len)) [
        | inl e ↦
            (λ i.
              if e i
              then find t v (unlink ty value (list (value % map.len))).0
              else lookup list map.len t v)
            ∙ find-unlink ty value t v (list (value % map.len))
                (m.unique _ (mod-lt value m.len_pos))
            ∙ (λ i.
                if (t == ty) && (v == value)
                then none
                else find t v (list (sym ((==_iff (v % map.len) (value % map.len)).0 e) i)))
        | inr ne ↦ rw (ne, elsewhere ne) refl
      ]
    where
      elsewhere : (v % map.len == value % map.len) ≡ false → ((t == ty) && (v == value)) ≡ false
      elsewhere ne = elim (Bool-cases (v == value)) [
        | inl e ↦
            let same : v % map.len ≡ value % map.len =
              ap (λ x. x % map.len) ((==_iff v value).0 e) in
            absurd (ground (arith, ne, same))
        | inr other ↦ ground (arith, other)
      ]

  select-put_back :
      (maps : Maps R) (kind : ℕ) (map map' : HashMap R)
      → select maps kind ≡ some map
      → select (put_back maps kind map') kind ≡ some map'
  unfolding select put_back
  select-put_back maps kind map map' s = elim (Bool-cases (kind == map_target)) [
    | inl e ↦ rw e refl
    | inr ne ↦ elim (Bool-cases (kind == map_client)) [
      | inl e ↦ rw (ne, e) refl
      | inr nf ↦ absurd (ground (arith, ne, nf, s))
    ]
  ]

  -- What a deletion does, on the finite map that `fetch_hash_entry` shows: the key that was there is
  -- gone, or nothing changed.
  pub record Deleted (maps : Maps R) (kind ty value : ℕ) (map : HashMap R) (maps' : Maps R)
      (ret : ℤ) : Type ℓ where
    pub map' : HashMap R
    pub selected : select maps' kind ≡ some map'
    pub valid : Valid map'
    pub outcome :
        ((is_some (fetch_hash_entry maps kind ty value) ≡ false) × (maps' ≡ maps))
        ⊎ ((is_some (fetch_hash_entry maps kind ty value) ≡ true)
            × (ret ≡ pos 0)
            × (map'.entry_count + 1 ≡ map.entry_count))
    pub fetched :
        (t v : ℕ)
        → is_entry_type t ≡ true
        → fetch_hash_entry maps' kind t v
          ≡ (if (t == ty) && (v == value) then none else fetch_hash_entry maps kind t v)

  module _ (maps : Maps R) (kind ty value : ℕ) (map : HashMap R) (s : select maps kind ≡ some map)
      (m : Valid map) (e : is_entry_type ty ≡ true) where
    there :
        is_some (fetch_hash_entry maps kind ty value)
        ≡ (unlink ty value (m.list (value % map.len))).1
    there =
        ap is_some (fetch_hash_entry-lookup maps kind ty value map m.list s m.is_map e)
        ∙ sym (unlink-is_some ty value (m.list (value % map.len)))

    unchanged :
        (ret : ℤ)
        → is_some (fetch_hash_entry maps kind ty value) ≡ false
        → Deleted maps kind ty value map maps ret
    unchanged ret absent = record {
      map' = map;
      selected = s;
      valid = m;
      outcome = inl (absent, refl);
      fetched = λ t v k. elim (Bool-cases ((t == ty) && (v == value))) [
        | inl same ↦
            let p : t ≡ ty = ground (arith, same) in
            let q : v ≡ value = ground (arith, same) in
            rw same (
              (λ i. fetch_hash_entry maps kind (p i) (q i))
              ∙ none-of_is_some (fetch_hash_entry maps kind ty value) absent)
        | inr other ↦ rw other refl
      ];
    }

    count_pos : (unlink ty value (m.list (value % map.len))).1 ≡ true → 0 < map.entry_count
    count_pos hit = omega (
      arith,
      m.is_map.counted,
      total-chain m.list map.len (value % map.len) (mod-lt value m.is_map.len_pos),
      length-unlink ty value (m.list (value % map.len)),
      ap {B = ℕ} (λ b. if b then 1 else 0) hit,
    )

    changed :
        (unlink ty value (m.list (value % map.len))).1 ≡ true
        → Deleted maps kind ty value map (put_back maps kind (cut map m.list ty value)) (pos 0)
    changed hit =
        let is = cut-IsMap map m.list ty value m.is_map hit in
        let sel = select-put_back maps kind map (cut map m.list ty value) s in
        record {
          map' = cut map m.list ty value;
          selected = sel;
          valid = record { list = cut_list map m.list ty value; is_map = is };
          outcome = inr (there ∙ hit, refl, omega (arith, count_pos hit));
          fetched = λ t v k.
              fetch_hash_entry-lookup (put_back maps kind (cut map m.list ty value)) kind t v
                (cut map m.list ty value) (cut_list map m.list ty value) sel is k
              ∙ cut-lookup map m.list ty value t v m.is_map
              ∙ ap (λ x. if (t == ty) && (v == value) then none else x)
                  (sym (fetch_hash_entry-lookup maps kind t v map m.list s m.is_map k));
        }

    deleted :
        let r = del_chain maps kind ty value map (some m.list) in
        Deleted maps kind ty value map r.0 r.1
    unfolding del_chain
    deleted = elim (Bool-cases (unlink ty value (m.list (value % map.len))).1) [
      | inl hit ↦
          let some_len : leb map.len 0 ≡ false = ground (arith, m.is_map.len_pos) in
          let some_there : leb map.entry_count 0 ≡ false = ground (arith, count_pos hit) in
          rw (hit, some_len, some_there) (changed hit)
      | inr miss ↦ rw miss (
          either (leb map.len 0 || leb map.entry_count 0) (maps, pos 0) (maps, minus_one)
            (unchanged (pos 0) (there ∙ miss)) (unchanged minus_one (there ∙ miss)))
    ]
      where
        either :
            (b : Bool) (x y : Maps R × ℤ)
            → Deleted maps kind ty value map x.0 x.1
            → Deleted maps kind ty value map y.0 y.1
            → let r = if b then x else y in Deleted maps kind ty value map r.0 r.1
        either true x y p q = p
        either false x y p q = q

  -- del_from_hash_map on either map, if valid: fetch_hash_entry finds nothing under the deleted
  -- key afterwards and the same under every other; the maps change exactly if the key was there,
  -- and then the call returns 0 and the map has one entry less; it stays valid.
  pub del_from_hash_map-Deleted :
      (maps : Maps R) (kind ty value : ℕ) (map : HashMap R)
      → select maps kind ≡ some map
      → Valid map
      → is_entry_type ty ≡ true
      → let r = del_from_hash_map maps kind ty value in Deleted maps kind ty value map r.0 r.1
  unfolding del_from_hash_map
  del_from_hash_map-Deleted maps kind ty value map s m e =
      rw (ap (del_from maps kind ty value) s ∙ guards) (deleted maps kind ty value map s m e)
    where
      guards :
          del_from maps kind ty value (some map) ≡ del_chain maps kind ty value map (some m.list)
      guards =
          unfold del_from in
          λ i.
            if not (e i) || not (m.is_map.inited i)
            then (maps, minus_one)
            else del_chain maps kind ty value map (m.is_map.chains i)
