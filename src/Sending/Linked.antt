-- ===== src/Sending/Linked.antt =====
-- The list of the targets with data and their flags: what `append_sending_node` keeps.
use proc_bridge.Base.{
  ℕ, ◌≡◌, refl, ap, sym, ◌∙◌, arith, Bool, true, false, ◌&&◌, ◌||◌, not, List, [], ◌∷◌, length,
  ◌==◌, Bool-cases, inl, inr,
}
use proc_bridge.Target.{Target, is_empty}
use proc_bridge.Carrier.{Carrier, is_connected}
use proc_bridge.Sending.{append_sending_node}

-- Whether an address stands in a list.
abbrev pub occurs : ℕ → List ℕ → Bool
occurs a [] = false
occurs a (b ∷ l) = (a == b) || occurs a l

abbrev pub Distinct : List ℕ → Type 0
Distinct [] = Unit
Distinct (a ∷ l) = (occurs a l ≡ false) × Distinct l

-- Each target stands in the list at most once, and exactly if its flag is set.
pub record Links (targets : ℕ → Target) (sending : List ℕ) (total : ℕ) : Type 0 where
  pub counted : total ≡ length sending
  pub flags : (a : ℕ) → (targets a).in_append ≡ occurs a sending
  pub distinct : Distinct sending

abbrev pub Linked : Carrier → Type 0
Linked c = Links c.targets c.sending c.total

-- Whether a target has data that its socket could take.
abbrev pub is_busy : Target → Bool
is_busy t = is_connected t.state && not (is_empty t)

-- append_sending_node keeps the list and the flags in agreement; the target is in the list then, and
-- no other comes in or goes.
pub append_sending_node-Linked :
    (c : Carrier) (target : ℕ)
    → Linked c
    → let c' = append_sending_node c target in
      Linked c' × ((a : ℕ) → occurs a c'.sending ≡ ((a == target) || occurs a c.sending))
unfolding append_sending_node
append_sending_node-Linked c target k = elim (Bool-cases (c.targets target).in_append) [
  | inl there ↦ rw there (k, λ a. absorbed a (sym (k.flags target) ∙ there))
  | inr new ↦ rw new (
    record {
      counted = ground (arith, k.counted);
      flags = λ a. ground (arith, k.flags a);
      distinct = (sym (k.flags target) ∙ new, k.distinct);
    },
    λ a. refl,
  )
]
  where
    absorbed :
        (a : ℕ)
        → occurs target c.sending ≡ true
        → occurs a c.sending ≡ ((a == target) || occurs a c.sending)
    absorbed a e = elim (Bool-cases (a == target)) [
      | inl same ↦
          let at : a ≡ target = ground (arith, same) in
          rw same (ap (λ x. occurs x c.sending) at ∙ e)
      | inr other ↦ rw other refl
    ]
