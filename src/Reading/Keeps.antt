-- ===== src/Reading/Keeps.antt =====
-- What the handling of each package keeps, the whole reading keeps.
use proc_bridge.Base.{
  ℕ, zero, suc, ◌+◌, ◌-◌, Bool, true, false, Option, none, some, List, [], ◌∷◌, length, slice, leb,
  ◌==◌, Bool-cases, inl, inr, ℤ, ◌≡◌, refl,
}
use proc_bridge.Hub.{Hub}
use proc_bridge.Stlv.{Stlv, Unpacked, not_unpacked, unpacked, write}
use proc_bridge.Client.{RecvBuffer}
use proc_bridge.Carrier.{Traffic}
use proc_bridge.Reading.{
  Reader, Feed, Recv, got, ended, would_block, broken, freed, handle_pkg, with_value, fails_hard,
  unpack_loop, compact, after_unpack, read_data, on_read, read_client_socket,
}

module _ (stlv : Stlv) (w : Feed)
    (P : Hub → RecvBuffer → Bool → Traffic → List (List ℕ) → Type 0) where
  -- `P` of what the handling of packages changes.
  abbrev pub On : Reader → Type 0
  On r = P r.hub r.recv_buffer r.verify r.recv r.handled

  abbrev pub Kept : Option (Reader × ℤ) → Type 0
  Kept none = Unit
  Kept (some (r, ret)) = On r

  abbrev LoopKept : Option (Reader × ℕ × Bool) → Type 0
  LoopKept none = Unit
  LoopKept (some (r, cut, closed)) = On r

  abbrev DataKept : Option (Reader × Bool) → Type 0
  DataKept none = Unit
  DataKept (some (r, closed)) = On r

  abbrev pub Step : Type 0
  Step =
      (r : Reader) (value : List ℕ)
      → On r
      → On (handle_pkg w (with_value r value) (with_value r value).pack_buff).0

  module _ (step : Step) where
    freed-On : (r : Reader) → On r → On (freed r)
    unfolding freed
    freed-On r x = x

    compact-On : (r : Reader) (cut : ℕ) → On r → On (compact r cut)
    unfolding compact
    compact-On r cut x = elim (Bool-cases (leb r.tail cut)) [
      | inl all ↦ rw all x
      | inr more ↦ elim (Bool-cases (cut == 0)) [
        | inl first ↦ rw (more, first) x
        | inr later ↦ rw (more, later) x
      ]
    ]

    unpack_step-Kept :
        (fuel : ℕ) (r : Reader) (cut : ℕ) (u : Unpacked)
        → leb r.tail cut ≡ false
        → stlv.unpack (slice r.buff cut (r.tail - cut)) ≡ u
        → ((r' : Reader) (cut' : ℕ) → On r' → LoopKept (unpack_loop stlv w fuel r' cut'))
        → On r
        → LoopKept (unpack_loop stlv w (suc fuel) r cut)
    unfolding unpack_loop
    unpack_step-Kept fuel r cut (not_unpacked info) more e ih x =
        elim (Bool-cases (fails_hard info (r.tail - cut))) [
          | inl hard ↦ rw (more, e, hard) (freed-On r x)
          | inr soft ↦ rw (more, e, soft) x
        ]
    unpack_step-Kept fuel r cut (unpacked value n) more e ih x =
        let h = handle_pkg w (with_value r value) (with_value r value).pack_buff in
        elim (Bool-cases h.1) [
          | inl stop ↦ rw (more, e, stop) (step r value x)
          | inr on ↦ rw (more, e, on) (ih h.0 (cut + n) (step r value x))
        ]

    unpack_loop-Kept :
        (fuel : ℕ) (r : Reader) (cut : ℕ) → On r → LoopKept (unpack_loop stlv w fuel r cut)
    unpack_loop-Kept zero r cut x = unfold unpack_loop in tt
    unpack_loop-Kept (suc fuel) r cut x = elim (Bool-cases (leb r.tail cut)) [
      | inl all ↦ unfold unpack_loop in rw all x
      | inr more ↦
          unpack_step-Kept fuel r cut (stlv.unpack (slice r.buff cut (r.tail - cut))) more refl
            (λ r' cut' x'. unpack_loop-Kept fuel r' cut' x') x
    ]

    after_unpack-Kept : (o : Option (Reader × ℕ × Bool)) → LoopKept o → DataKept (after_unpack o)
    after_unpack-Kept none x = tt
    after_unpack-Kept (some (r, cut, true)) x = x
    after_unpack-Kept (some (r, cut, false)) x = compact-On r cut x

    read_data-Kept : (r : Reader) (bytes : List ℕ) → On r → DataKept (read_data stlv w r bytes)
    unfolding read_data
    read_data-Kept r bytes x = after_unpack-Kept _ (
        unpack_loop-Kept (suc (r.tail + length bytes))
          (record r { buff = write r.buff r.tail bytes; tail = r.tail + length bytes }) 0 x)

    on_read-Kept :
        (go_on : Reader → Option (Reader × ℤ))
        → ((r : Reader) → On r → Kept (go_on r))
        → (o : Option (Reader × Bool)) → DataKept o
        → Kept (on_read go_on o)
    on_read-Kept go_on next none y = tt
    on_read-Kept go_on next (some (r, true)) y = y
    on_read-Kept go_on next (some (r, false)) y = next r y

    pub read_client_socket-Kept :
        (calls : List Recv) (r : Reader) → On r → Kept (read_client_socket stlv w calls r)
    unfolding read_client_socket
    read_client_socket-Kept [] r x = tt
    read_client_socket-Kept (would_block ∷ more) r x = x
    read_client_socket-Kept (ended ∷ more) r x = freed-On r x
    read_client_socket-Kept (broken ∷ more) r x = freed-On r x
    read_client_socket-Kept (got bytes ∷ more) r x =
        on_read-Kept (read_client_socket stlv w more) (λ r1 y. read_client_socket-Kept more r1 y)
          (read_data stlv w r bytes) (read_data-Kept r bytes x)
