-- ===== src/Reload/Tests.antt =====
-- A target that is gone from the configuration, one that stays and one that is new.
use proc_bridge.Base.{List, ℕ, ◌+◌, ◌≡◌, refl, arith, true, [], ◌∷◌}
use proc_bridge.Bridge.{same_name}
use proc_bridge.Carrier.{search_target, close_target_fd}
use proc_bridge.Carrier.Sample.{sample_carrier}
use proc_bridge.Reload.{
  Address, Item, Reload, has_item, update_each, update_found, set_address, add_target, delete_each,
  delete_target, del_one_target, unlink_target, merge_targets,
}
use proc_bridge.Reload.Update.{Below}
use proc_bridge.Reload.Whole.{Merged, merge_targets-Merged}

abbrev place : ℕ → Address
place port = record { target_name = 116 ∷ []; ip_addr = 49 ∷ []; port = port }

-- Targets 12 and 13 at the addresses 1 and 2.
abbrev before : Reload
before = record { carrier = sample_carrier; address = λ a. place (8000 + a); next = 3; freed = [] }

before-Below : Below before
before-Below a o = ground (arith, o)

-- Target 12 is gone, 13 has another port, and 14 is new.
abbrev targets : List Item
targets = record { proc_id = 13; at = place 9000 } ∷ record { proc_id = 14; at = place 8003 } ∷ []

merge_targets-Merged_example :
    Merged (λ n. true) before targets (merge_targets (λ n. true) 1 before targets)
merge_targets-Merged_example =
    merge_targets-Merged (λ n. true) 1 before targets before-Below (refl, (refl, tt))
      (((λ q. omega (arith, q)), tt), (tt, tt))

-- Target 12 was in the list of those with data.
freed : (merge_targets (λ n. true) 1 before targets).freed ≡ 1 ∷ []
unfolding merge_targets update_each update_found set_address add_target delete_each delete_target
    del_one_target unlink_target search_target has_item same_name close_target_fd
freed = refl

still_listed : (merge_targets (λ n. true) 1 before targets).carrier.sending ≡ 1 ∷ []
unfolding merge_targets update_each update_found set_address add_target delete_each delete_target
    del_one_target unlink_target search_target has_item same_name close_target_fd
still_listed = refl
