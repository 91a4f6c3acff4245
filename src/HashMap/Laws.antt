-- ===== src/HashMap/Laws.antt =====
-- A map of the carrier as a finite map from an entry's type and value: the invariant, the search, and
-- the number of the entries.
use native.Mathlib.Nat.{mod-lt}
use proc_bridge.Base.{
  ℕ, zero, suc, ◌+◌, ◌%◌, ◌≤◌, ◌<◌, ◌≡◌, refl, ap, sym, ◌∙◌, inl, inr, arith, true, false, not,
  ◌&&◌, ◌||◌, Option, none, some, List, [], ◌∷◌, length, leb, ◌==◌, if◌then◌else◌, Bool-cases,
  ==-of_ne, ◌↔◌,
}
use proc_bridge.HashMap.{
  Entry, HashMap, Maps, select, is_entry_type, matches, is_some, find, unlink, set_chain,
  fetch_chain, fetch_from, fetch_hash_entry,
}

module _ {ℓ} {R : Type ℓ} where
  -- No key stands twice in a chain.
  abbrev pub Unique : List (Entry R) → Type ℓ
  Unique [] = Unit
  Unique (entry ∷ next) = (find entry.entry_type entry.value next ≡ none) × Unique next

  -- The number of entries in the first `n` chains.
  abbrev pub total : (ℕ → List (Entry R)) → ℕ → ℕ
  total list zero = 0
  total list (suc n) = total list n + length (list n)

  -- A map with its chains.
  pub record IsMap (map : HashMap R) (list : ℕ → List (Entry R)) : Type ℓ where
    pub inited : map.flag ≡ true
    pub len_pos : 0 < map.len
    pub chains : map.plist ≡ some list
    pub counted : map.entry_count ≡ total list map.len
    pub unique : (i : ℕ) → i < map.len → Unique (list i)

  -- The finite map.
  abbrev pub lookup : (ℕ → List (Entry R)) → (len ty value : ℕ) → Option (Entry R)
  lookup list len ty value = find ty value (list (value % len))

  pub total-chain : (list : ℕ → List (Entry R)) (n i : ℕ) → i < n → length (list i) ≤ total list n
  total-chain list zero i h = absurd (omega arith)
  total-chain list (suc n) i h = elim (Bool-cases (i == n)) [
    | inl e ↦ let k : i ≡ n = ground (arith, e) in omega (arith, ap (λ j. length (list j)) k)
    | inr ne ↦ omega (arith, total-chain list n i (ground (arith, ne)))
  ]

  empty_chain :
      (chain : List (Entry R)) (ty value : ℕ) → length chain ≡ 0 → find ty value chain ≡ none
  unfolding find
  empty_chain [] ty value e = refl
  empty_chain (entry ∷ next) ty value e = absurd (omega arith)

  -- `fetch_hash_entry` is the finite map.
  pub fetch_hash_entry-lookup :
      (maps : Maps R) (kind ty value : ℕ) (map : HashMap R) (list : ℕ → List (Entry R))
      → select maps kind ≡ some map
      → IsMap map list
      → is_entry_type ty ≡ true
      → fetch_hash_entry maps kind ty value ≡ lookup list map.len ty value
  unfolding fetch_hash_entry fetch_from fetch_chain
  fetch_hash_entry-lookup maps kind ty value map list s m e =
      ap (λ x. fetch_from x ty value) s ∙ guards ∙ elim (Bool-cases (leb map.entry_count 0)) [
        | inl none_there ↦
            (λ i.
              if some_len i || none_there i then none else find ty value (list (value % map.len)))
            ∙ sym (
                empty_chain (list (value % map.len)) ty value
                  (ground (arith, none_there, m.counted, there)))
        | inr some_there ↦
            λ i. if some_len i || some_there i then none else find ty value (list (value % map.len))
      ]
    where
      guards : fetch_from (some map) ty value ≡ fetch_chain map ty value (some list)
      guards =
          λ i. if not (e i) || not (m.inited i) then none else fetch_chain map ty value (m.chains i)

      some_len : leb map.len 0 ≡ false
      some_len = ground (arith, m.len_pos)

      there : length (list (value % map.len)) ≤ total list map.len
      there = total-chain list map.len (value % map.len) (mod-lt value m.len_pos)

  total_above :
      (list : ℕ → List (Entry R)) (n at : ℕ) (chain : List (Entry R))
      → n ≤ at
      → total (set_chain list at chain) n ≡ total list n
  unfolding set_chain
  total_above list zero at chain h = refl
  total_above list (suc n) at chain h =
      rw (==-of_ne n at (omega arith))
        (ap (λ k. k + length (list n)) (total_above list n at chain (omega arith)))

  pub total-set_chain :
      (list : ℕ → List (Entry R)) (n at : ℕ) (chain : List (Entry R))
      → at < n
      → total (set_chain list at chain) n + length (list at) ≡ total list n + length chain
  unfolding set_chain
  total-set_chain list zero at chain h = absurd (omega arith)
  total-set_chain list (suc n) at chain h = elim (Bool-cases (n == at)) [
    | inl e ↦
        let k : n ≡ at = ground (arith, e) in
        rw e (omega (arith, total_above list n at chain (omega arith), ap (λ j. length (list j)) k))
    | inr ne ↦ rw ne (omega (arith, total-set_chain list n at chain (ground (arith, ne))))
  ]

  -- The key of an entry decides the match.
  pub matches_iff :
      (ty value : ℕ) (entry : Entry R)
      → (matches ty value entry ≡ true) ↔ ((entry.entry_type ≡ ty) × (entry.value ≡ value))
  unfolding matches
  matches_iff ty value entry = ground arith

  -- A chain behind a new first entry.
  pub find-first :
      (ty value : ℕ) (entry : Entry R) (next : List (Entry R))
      → find ty value (entry ∷ next)
        ≡ (if matches ty value entry then some entry else find ty value next)
  unfolding find
  find-first ty value entry next = refl

  -- What `unlink` leaves and reports.
  pub find-unlink :
      (ty value t v : ℕ) (chain : List (Entry R))
      → Unique chain
      → find t v (unlink ty value chain).0
        ≡ (if (t == ty) && (v == value) then none else find t v chain)
  unfolding find unlink
  find-unlink ty value t v [] u = elim (Bool-cases ((t == ty) && (v == value))) [
    | inl same ↦ rw same refl
    | inr other ↦ rw other refl
  ]
  find-unlink ty value t v (entry ∷ next) u =
      let rest = find-unlink ty value t v next u.1 in
      elim (Bool-cases ((t == ty) && (v == value))) [
        | inl same ↦ elim (Bool-cases (matches ty value entry)) [
          | inl hit ↦ rw (same, hit) (gone same hit)
          | inr miss ↦
              rw (same, miss, missed same miss)
                (rest ∙ ap (λ b. if b then none else find t v next) same)
        ]
        | inr other ↦ elim (Bool-cases (matches ty value entry)) [
          | inl hit ↦ rw (other, hit, kept other hit) refl
          | inr miss ↦
              rw (other, miss)
                (ap (λ x. if matches t v entry then some entry else x)
                  (rest ∙ ap (λ b. if b then none else find t v next) other))
        ]
      ]
    where
      key : (a b : ℕ) → matches a b entry ≡ true → (entry.entry_type ≡ a) × (entry.value ≡ b)
      key a b e = (matches_iff a b entry).0 e

      gone :
          ((t == ty) && (v == value)) ≡ true → matches ty value entry ≡ true → find t v next ≡ none
      gone same hit =
          let p : t ≡ entry.entry_type = ground (arith, same, key ty value hit) in
          let q : v ≡ entry.value = ground (arith, same, key ty value hit) in
          (λ i. find (p i) (q i) next) ∙ u.0

      missed :
          ((t == ty) && (v == value)) ≡ true
          → matches ty value entry ≡ false
          → matches t v entry ≡ false
      missed same miss =
          let p : t ≡ ty = ground (arith, same) in
          let q : v ≡ value = ground (arith, same) in (λ i. matches (p i) (q i) entry) ∙ miss

      kept :
          ((t == ty) && (v == value)) ≡ false
          → matches ty value entry ≡ true
          → matches t v entry ≡ false
      kept other hit = unfold matches in ground (arith, other, key ty value hit)

  pub unlink-Unique :
      (ty value : ℕ) (chain : List (Entry R)) → Unique chain → Unique (unlink ty value chain).0
  unfolding unlink
  unlink-Unique ty value [] u = u
  unlink-Unique ty value (entry ∷ next) u = elim (Bool-cases (matches ty value entry)) [
    | inl hit ↦ rw hit u.1
    | inr miss ↦ rw miss (still, unlink-Unique ty value next u.1)
  ]
    where
      still : find entry.entry_type entry.value (unlink ty value next).0 ≡ none
      still =
          find-unlink ty value entry.entry_type entry.value next u.1
          ∙ elim (Bool-cases ((entry.entry_type == ty) && (entry.value == value))) [
            | inl same ↦ rw same refl
            | inr other ↦ rw other u.0
          ]

  -- It reports whether the key was there.
  pub unlink-is_some :
      (ty value : ℕ) (chain : List (Entry R))
      → (unlink ty value chain).1 ≡ is_some (find ty value chain)
  unfolding unlink find
  unlink-is_some ty value [] = refl
  unlink-is_some ty value (entry ∷ next) = elim (Bool-cases (matches ty value entry)) [
    | inl hit ↦ rw hit refl
    | inr miss ↦ rw miss (unlink-is_some ty value next)
  ]

  pub length-unlink :
      (ty value : ℕ) (chain : List (Entry R))
      → length (unlink ty value chain).0 + (if (unlink ty value chain).1 then 1 else 0)
        ≡ length chain
  unfolding unlink
  length-unlink ty value [] = refl
  length-unlink ty value (entry ∷ next) = elim (Bool-cases (matches ty value entry)) [
    | inl hit ↦ rw hit (omega arith)
    | inr miss ↦ rw miss (omega (arith, length-unlink ty value next))
  ]

  -- One chain exchanged for another.
  pub lookup-set_chain :
      (list : ℕ → List (Entry R)) (len value : ℕ) (chain : List (Entry R)) (t v : ℕ)
      → lookup (set_chain list (value % len) chain) len t v
        ≡ (if v % len == value % len then find t v chain else lookup list len t v)
  unfolding set_chain
  lookup-set_chain list len value chain t v = elim (Bool-cases (v % len == value % len)) [
    | inl e ↦ rw e refl
    | inr ne ↦ rw ne refl
  ]

  pub set_chain-Unique :
      (list : ℕ → List (Entry R)) (at : ℕ) (chain : List (Entry R)) (i : ℕ)
      → Unique chain
      → Unique (list i)
      → Unique (set_chain list at chain i)
  unfolding set_chain
  set_chain-Unique list at chain i u w = elim (Bool-cases (i == at)) [
    | inl e ↦ rw e u
    | inr ne ↦ rw ne w
  ]

  pub matches_lem :
      (t v : ℕ) (entry : Entry R)
      → matches t v entry ≡ ((t == entry.entry_type) && (v == entry.value))
  unfolding matches
  matches_lem t v entry = ground arith
