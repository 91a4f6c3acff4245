-- ===== src/Bridge/Tests.antt =====
-- Descriptors at work: process 5 of the name space "a", over the sample hub.
use proc_bridge.Base.{
  ◌+◌, ℕ, zero, suc, ◌<◌, ◌≡◌, ◌≢◌, refl, arith, true, Option, none, some, List, [], ◌∷◌, pos,
  minus_one, zeroed, if◌then◌else◌, ◌==◌,
}
use proc_bridge.Hub.Sample.{sample_hub}
use proc_bridge.Bridge.{
  Space, no_space, World, open_bridge, close_bridge, open_hub, attach_hub, open_init, open_listed,
  open_found, open_new, place, place_at, take_space, first,
}
use proc_bridge.Bridge.Slots.{IsSpace, free, used, IsWorld, closed, listed}
use proc_bridge.Bridge.Open.{Opened, open_bridge-Opened}
use proc_bridge.Bridge.Room.{open_bridge_room}
use proc_bridge.Channel.{send_to_hub}
use proc_bridge.Bridge.Sending.{OnHub, send_to_bridge-Served}
use proc_bridge.Bridge.Calls.{bd2bridge, send_to_bridge}
use proc_bridge.Bridge.Close.{Uses, Closed, close_bridge-Closed, close_bridge_zero}

-- "a"
abbrev name : List ℕ
name = 97 ∷ []

abbrev shm : List ℕ → ℕ → Option ℕ
shm name_space proc_id = some 3

abbrev start : World
start = record { space_count = 0; valid_count = 0; space_list = none; hubs = λ ref. sample_hub }

start-IsWorld : IsWorld start
start-IsWorld = closed refl refl refl

open_bridge-Opened_example :
    let r = open_bridge (λ n. true) shm start name (pos 5) in Opened name 5 r.0 r.1
open_bridge-Opened_example =
    open_bridge-Opened (λ n. true) shm start name (pos 5) (omega arith) start-IsWorld

-- The first position.
opened_first : (open_bridge (λ n. true) shm start name (pos 5)).1 ≡ pos 0
unfolding open_bridge open_init open_listed open_found open_new place place_at take_space open_hub
    attach_hub first
opened_first = refl

open_bridge_room_example : (open_bridge (λ n. true) shm start name (pos 5)).1 ≢ minus_one
open_bridge_room_example =
    open_bridge_room shm start name 5
      (3, λ i. (if i == 3 then record sample_hub { attached = 2 } else sample_hub)) start-IsWorld
      (omega arith) refl (unfold open_hub attach_hub in refl)

-- One bridge at position 1, as after the first of two was closed.
abbrev second_list : ℕ → Space
second_list zero = no_space
second_list (suc zero) = record { opened_id = 1; name_space = name; proc_id = 5; phub = some 3 }
second_list (suc (suc n)) = no_space

abbrev second : World
second = record start { space_count = 2; valid_count = 1; space_list = some second_list }

second-Uses : Uses second second_list 1
second-Uses = record {
  at_list = refl;
  in_order = record { counted = refl; each = each };
  inside = omega arith;
  taken = omega arith;
}
  where
    each : (i : ℕ) → i < 2 → IsSpace i (second_list i)
    each zero h = free refl
    each (suc zero) h = used 3 (omega arith) refl refl refl
    each (suc (suc n)) h = free refl

close_bridge-Closed_example :
    let r = close_bridge second (pos 1) in (r.1 ≡ pos 0) × Closed second second_list 1 r.0
close_bridge-Closed_example = close_bridge-Closed second second_list 1 second-Uses

close_bridge_zero_example :
    let r = close_bridge second (pos 0) in
    (r.1 ≡ pos 0)
    × (bd2bridge r.0 (pos 1) ≡ none)
    × (send_to_bridge r.0 (pos 1) (pos 9) (some zeroed) (pos 3) 1500 ≡ (r.0, minus_one))
close_bridge_zero_example =
    close_bridge_zero second second_list 1 (pos 9) (pos 3) (some zeroed) 1500 second-Uses refl refl

second-IsWorld : IsWorld second
second-IsWorld = listed second_list refl (omega arith) second-Uses.in_order

send_to_bridge-Served_example :
    let r = send_to_bridge second (pos 1) (pos 9) (some (λ i. i + 65)) (pos 3) 1500 in
    let s = send_to_hub sample_hub (pos 9) (some (λ i. i + 65)) (pos 3) 1500 in
    (r.1 ≡ s.1) × OnHub second 3 s.0 r.0
send_to_bridge-Served_example =
    send_to_bridge-Served second (pos 1) (pos 9) (pos 3) (λ i. i + 65) 1500 second-IsWorld
