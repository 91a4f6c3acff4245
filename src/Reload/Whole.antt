-- ===== src/Reload/Whole.antt =====
-- Both loops of `copy_target_info`: what the list of the targets is afterwards, and which nodes of the list
-- of those with data belong to freed memory.
use proc_bridge.Base.{
  ℕ, ◌≡◌, ◌≢◌, ◌⊎◌, refl, ap, sym, ◌∙◌, arith, Bool, true, false, Bool-cases, inl, inr, some, List,
  [], ◌∷◌, Every, ◌==◌, ==_iff,
}
use proc_bridge.Sending.Linked.{occurs, Distinct}
use proc_bridge.Reload.{
  Item, Reload, has_item, find_target, same_place, update_each, delete_each, merge_targets,
}
use proc_bridge.Reload.Update.{Below, search_found}
use proc_bridge.Reload.Each.{
  Separate, Updated, update_each-Apart, update_each-Updated, update_each-Distinct,
  update_each_sending,
}
use proc_bridge.Reload.Delete.{Deleted, delete_each-Deleted}

-- A target of the configuration, before and after.
pub record Current (calloc_ok : ℕ → Bool) (s s' : Reload) (item : Item) : Type 0 where
  pub placed :
      ((a : ℕ) × (find_target s item.proc_id ≡ some a)) ⊎ (calloc_ok item.proc_id ≡ true)
      → (a : ℕ) × (find_target s' item.proc_id ≡ some a) × (s'.address a ≡ item.at)
  pub kept :
      (a : ℕ)
      → find_target s item.proc_id ≡ some a
      → same_place (s.address a) item.at ≡ true
      → s'.carrier.targets a ≡ s.carrier.targets a

pub record Merged (calloc_ok : ℕ → Bool) (s : Reload) (items : List Item) (s' : Reload)
    : Type 0 where
  pub current : Every (Current calloc_ok s s') items
  pub only :
      (a : ℕ)
      → occurs a s'.carrier.target_list ≡ true
      → has_item items (s'.carrier.targets a).proc_id ≡ true
  pub dangling :
      (a : ℕ)
      → find_target s (s.carrier.targets a).proc_id ≡ some a
      → has_item items (s.carrier.targets a).proc_id ≡ false
      → occurs a s.carrier.sending ≡ true
      → (occurs a s'.freed ≡ true) × (occurs a s'.carrier.sending ≡ true)

has_item-first : (item : Item) (more : List Item) → has_item (item ∷ more) item.proc_id ≡ true
unfolding has_item
has_item-first item more = rw ((==_iff item.proc_id item.proc_id).1 refl) refl

has_item-next :
    (item : Item) (more : List Item) (id : ℕ)
    → has_item more id ≡ true
    → has_item (item ∷ more) id ≡ true
unfolding has_item
has_item-next item more id e = ground (arith, e)

-- The targets of a configuration are in it.
all_there :
    (items more : List Item)
    → ((id : ℕ) → has_item more id ≡ true → has_item items id ≡ true)
    → Every (λ item. has_item items item.proc_id ≡ true) more
all_there items [] inside = tt
all_there items (item ∷ more) inside = (
  inside item.proc_id (has_item-first item more),
  all_there items more (λ id e. inside id (has_item-next item more id e)),
)

none_there :
    (id : ℕ) (items : List Item)
    → has_item items id ≡ false
    → Every (λ item. item.proc_id ≢ id) items
unfolding has_item
none_there id [] e = tt
none_there id (item ∷ more) e = elim (Bool-cases (item.proc_id == id)) [
  | inl here ↦ absurd (ground (arith, e, here))
  | inr there ↦
      ((λ q. absurd (ground (arith, q, there))), none_there id more (ground (arith, e, there)))
]

one-Current :
    (calloc_ok : ℕ → Bool) (items : List Item) (s u s' : Reload) (item : Item) (rest : List ℕ)
    → Deleted items u [] rest s'
    → has_item items item.proc_id ≡ true
    → Updated calloc_ok s u item
    → Current calloc_ok s s' item
one-Current calloc_ok items s u s' item rest d there x = record {
  placed = λ how.
      let (a, e, lt, at) = x.placed how in
      (a, d.found item.proc_id there ∙ e, ap (λ f. f a) d.address ∙ at);
  kept = λ a e place.
      let at = search_found s.carrier.targets item.proc_id s.carrier.target_list a e in
      let t = x.kept a e place in
      d.same a (ap (λ t. has_item items t.proc_id) t ∙ ap (has_item items) at.0 ∙ there) ∙ t;
}

all-Current :
    (calloc_ok : ℕ → Bool) (items : List Item) (s u s' : Reload) (rest : List ℕ) (more : List Item)
    → Deleted items u [] rest s'
    → Every (λ item. has_item items item.proc_id ≡ true) more
    → Every (Updated calloc_ok s u) more
    → Every (Current calloc_ok s s') more
all-Current calloc_ok items s u s' rest [] d there x = tt
all-Current calloc_ok items s u s' rest (item ∷ more) d (here, there) (x, more_x) = (
  one-Current calloc_ok items s u s' item rest d here x,
  all-Current calloc_ok items s u s' rest more d there more_x,
)

-- The two loops of copy_target_info, on a list of targets without doubles and a configuration without two
-- targets of one id: each target of the configuration that was in the list, or for which there is
-- memory, is found under its id with its address; one that was there and did not move is as it was,
-- with its connection; the list has no others. And a target that is gone from the configuration,
-- while it is in the list of those with data, is freed and stays in that list, through which
-- del_sending_list goes next.
pub merge_targets-Merged :
    (calloc_ok : ℕ → Bool) (curr_ts : ℕ) (s : Reload) (items : List Item)
    → Below s
    → Distinct s.carrier.target_list
    → Separate items
    → Merged calloc_ok s items (merge_targets calloc_ok curr_ts s items)
unfolding merge_targets
merge_targets-Merged calloc_ok curr_ts s items below distinct apart =
    let u = update_each calloc_ok curr_ts s items in
    let l = u.carrier.target_list in
    let s' = delete_each curr_ts items u l in
    let d : Deleted items u [] l s' =
      delete_each-Deleted curr_ts items l u [] refl (λ b o. refl)
        (update_each-Distinct calloc_ok curr_ts items s below distinct) in
    record {
      current =
          all-Current calloc_ok items s u s' l items d (all_there items items (λ id e. e))
            (update_each-Updated calloc_ok curr_ts items s below apart);
      only = λ a o. let (m, whole, only) = d.list in only a (sym (ap (occurs a) whole) ∙ o);
      dangling = λ a e orphan sending.
          let id = (s.carrier.targets a).proc_id in
          let at = search_found s.carrier.targets id s.carrier.target_list a e in
          let x =
            update_each-Apart calloc_ok curr_ts id items s below (none_there id items orphan) in
          let t = (x.same a (below a at.1) refl).0 in
          let there = search_found u.carrier.targets id l a (x.found ∙ e) in
          (
            d.gone a there.1 (ap (has_item items) there.0 ∙ orphan),
            ap (occurs a) (d.sending ∙ update_each_sending calloc_ok curr_ts items s) ∙ sending,
          );
    }
