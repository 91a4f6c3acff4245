-- ===== src/Reading/Whole.antt =====
-- `read_client_socket` as a whole: it ends, and no byte is lost, doubled or moved, however the stream is cut
-- into calls of `recv`.
use mathlib.Core.Path.{subst}
use proc_bridge.Base.{
  ℕ, suc, ◌+◌, ◌-◌, ◌≤◌, ◌≡◌, ◌≢◌, ◌⊎◌, refl, ap, ap₂, sym, ◌∙◌, arith, Bool, true, false, some,
  List, [], ◌∷◌, ◌++◌, append_assoc, append-nil, length, slice, slice-append, slice_cong,
  slice-as_mem, leb, ◌==◌, Bool-cases, inl, inr, ℤ, pos, minus_one, memcpy, memcpy_inside,
  memcpy_outside, as_mem,
}
use proc_bridge.Stlv.{Stlv, unpacked, write}
use proc_bridge.Reading.{
  Reader, Feed, Recv, got, ended, would_block, broken, freed, unpack_loop, compact, after_unpack,
  read_data, on_read, read_client_socket,
}
use proc_bridge.Reading.Stream.{AllPacked, ExactOn, packs, rest_of, Unpacks, unpack_loop-Loops}

-- The bytes that wait for the rest of a pack.
abbrev pub held : Reader → List ℕ
held r = slice r.buff 0 r.tail

held-rest_of : (r : Reader) → rest_of r 0 ≡ held r
held-rest_of r = let e : r.tail - 0 ≡ r.tail = omega arith in ap (slice r.buff 0) e

abbrev pub NoPack : Stlv → List ℕ → Type 0
NoPack stlv bs = (value : List ℕ) (n : ℕ) → stlv.unpack bs ≢ unpacked value n

-- All data up to the first call that gives none.
abbrev pub received : List Recv → List ℕ
received [] = []
received (got bytes ∷ more) = bytes ++ received more
received (ended ∷ more) = []
received (would_block ∷ more) = []
received (broken ∷ more) = []

-- Some call of `recv` gives no data.
abbrev pub Stops : List Recv → Type 0
Stops [] = ⊥
Stops (got bytes ∷ more) = Stops more
Stops (ended ∷ more) = Unit
Stops (would_block ∷ more) = Unit
Stops (broken ∷ more) = Unit

-- What was cut off before and now, in order, and what is left of the bytes: they wait in the buffer, or
-- the client was closed for them.
pub record Reads (stlv : Stlv) (r : Reader) (bytes : List ℕ) (r' : Reader) (ret : ℤ) : Type 0 where
  pub left : List ℕ
  pub packed : AllPacked stlv r.handled → AllPacked stlv r'.handled
  pub stream : packs stlv r.handled ++ (held r ++ bytes) ≡ packs stlv r'.handled ++ left
  pub outcome :
      ((ret ≡ pos 0) × (left ≡ held r') × NoPack stlv left)
      ⊎ ((ret ≡ minus_one) × (r'.alive ≡ false))

compact-held :
    (r : Reader) (cut : ℕ)
    → cut ≤ r.tail
    → (held (compact r cut) ≡ rest_of r cut) × ((compact r cut).handled ≡ r.handled)
unfolding compact
compact-held r cut le = elim (Bool-cases (leb r.tail cut)) [
  | inl all ↦
      let e : r.tail - cut ≡ 0 = ground (arith, all) in
      rw all (unfold slice in sym (ap (slice r.buff cut) e), refl)
  | inr more ↦ elim (Bool-cases (cut == 0)) [
    | inl first ↦
        let e : cut ≡ 0 = ground (arith, first) in
        rw (more, first) (sym (held-rest_of r) ∙ ap (rest_of r) (sym e), refl)
    | inr later ↦
        rw (more, later)
          (
            slice_cong (memcpy r.back 0 r.buff cut (r.tail - cut)) r.buff 0 cut (r.tail - cut)
                (λ k hk. memcpy_inside r.back 0 r.buff cut (r.tail - cut) (0 + k) k hk refl),
            refl,
          )
  ]
]

-- The reader with what a call of `recv` gave behind the bytes that wait.
abbrev fed : Reader → List ℕ → Reader
fed r bytes = record r { buff = write r.buff r.tail bytes; tail = r.tail + length bytes }

fed-held : (r : Reader) (bytes : List ℕ) → held (fed r bytes) ≡ held r ++ bytes
fed-held r bytes =
    slice-append (write r.buff r.tail bytes) 0 r.tail (length bytes)
    ∙ ap₂ ◌++◌
        (slice_cong (write r.buff r.tail bytes) r.buff 0 0 r.tail (λ k hk.
          memcpy_outside r.buff r.tail (as_mem bytes) 0 (length bytes) (0 + k) (inl (omega arith))))
        (slice_cong (write r.buff r.tail bytes) (as_mem bytes) (0 + r.tail) 0 (length bytes)
            (λ k hk.
              memcpy_inside r.buff r.tail (as_mem bytes) 0 (length bytes) ((0 + r.tail) + k) k hk
                (omega arith))
          ∙ slice-as_mem bytes)

-- What one round gives.
abbrev Round : Stlv → Feed → Reader → List ℕ → Type 0
Round stlv w r bytes =
    (r' : Reader) × (closed : Bool) × (read_data stlv w r bytes ≡ some (r', closed))
    × (AllPacked stlv r.handled → AllPacked stlv r'.handled)
    × ((left : List ℕ) × (packs stlv r.handled ++ (held r ++ bytes) ≡ packs stlv r'.handled ++ left)
        × (((closed ≡ false) × (left ≡ held r') × NoPack stlv left)
            ⊎ ((closed ≡ true) × (r'.alive ≡ false))))

module _ (stlv : Stlv) (w : Feed) (r : Reader) (bytes : List ℕ) (nothing : NoPack stlv [])
    (r1 : Reader) (cut : ℕ) where
  abbrev rest : List ℕ
  rest = rest_of (fed r bytes) cut

  round_stream :
      (closed : Bool)
      → Unpacks stlv (fed r bytes) 0 r1 cut closed
      → packs stlv r.handled ++ (held r ++ bytes) ≡ packs stlv r1.handled ++ rest
  round_stream closed u =
      ap (λ x. packs stlv r.handled ++ x)
        (sym (fed-held r bytes) ∙ sym (held-rest_of (fed r bytes)))
      ∙ u.stream

  round_waits : Unpacks stlv (fed r bytes) 0 r1 cut false → NoPack stlv rest
  round_waits u = elim (u.waits refl) [
    | inr none_there ↦ none_there
    | inl all ↦
        let e : (fed r bytes).tail - cut ≡ 0 = omega (arith, all) in
        let none_left : rest ≡ [] = unfold slice in ap (slice (fed r bytes).buff cut) e in
        λ value n q. nothing value n (ap stlv.unpack (sym none_left) ∙ q)
  ]

  round_end :
      (closed : Bool)
      → unpack_loop stlv w (suc (fed r bytes).tail) (fed r bytes) 0 ≡ some (r1, cut, closed)
      → Unpacks stlv (fed r bytes) 0 r1 cut closed
      → Round stlv w r bytes
  unfolding read_data
  round_end true e u =
      (r1, true, ap after_unpack e, u.packed, (rest, round_stream true u, inr (refl, u.dead refl)))
  round_end false e u =
      let (b, k, t) = u.same in
      let c = compact-held r1 cut (omega (arith, t, u.within)) in
      let same : rest ≡ rest_of r1 cut = λ i. slice (sym b i) cut (sym t i - cut) in
      (
        compact r1 cut,
        false,
        ap after_unpack e,
        (λ a. subst (AllPacked stlv) (sym c.1) (u.packed a)),
        (
          rest,
          round_stream false u ∙ ap (λ l. packs stlv l ++ rest) (sym c.1),
          inl (refl, same ∙ sym c.0, round_waits u),
        ),
      )

read_data-Round :
    (stlv : Stlv) (w : Feed) (total later : List ℕ) (r : Reader) (bytes : List ℕ)
    → ExactOn stlv total
    → AllPacked stlv r.handled
    → (packs stlv r.handled ++ (held r ++ bytes)) ++ later ≡ total
    → Round stlv w r bytes
read_data-Round stlv w total later r bytes exact a on =
    let here : rest_of (fed r bytes) 0 ≡ held r ++ bytes =
      held-rest_of (fed r bytes) ∙ fed-held r bytes in
    let (r1, cut, closed, e, u) =
      unpack_loop-Loops stlv w total later (suc (fed r bytes).tail) (fed r bytes) 0 exact a
        (ap (λ x. (packs stlv r.handled ++ x) ++ later) here ∙ on) (omega arith) (omega arith) in
    round_end stlv w r bytes exact.nothing r1 cut closed e u

-- A reading that ended.
abbrev pub Ends : Stlv → Feed → List Recv → Reader → Type 0
Ends stlv w calls r =
    (r' : Reader) × (ret : ℤ) × (read_client_socket stlv w calls r ≡ some (r', ret))
    × Reads stlv r (received calls) r' ret

no_more :
    (stlv : Stlv) (r r' : Reader)
    → r'.buff ≡ r.buff
    → r'.tail ≡ r.tail
    → r'.handled ≡ r.handled
    → NoPack stlv (held r)
    → Reads stlv r [] r' (pos 0)
no_more stlv r r' b t h none_there = record {
  left = held r;
  packed = subst (AllPacked stlv) (sym h);
  stream = ap₂ ◌++◌ (ap (packs stlv) (sym h)) (append-nil (held r));
  outcome = inl (refl, (λ i. slice (sym b i) 0 (sym t i)), none_there);
}

goes_on :
    (stlv : Stlv) (w : Feed) (more : List Recv) (r r1 : Reader) (bytes : List ℕ)
    → read_data stlv w r bytes ≡ some (r1, false)
    → read_client_socket stlv w (got bytes ∷ more) r ≡ read_client_socket stlv w more r1
unfolding read_client_socket
goes_on stlv w more r r1 bytes e = ap (on_read (read_client_socket stlv w more)) e

-- read_client_socket, with an unpacker that takes nothing but packs, each of a byte at least, off what
-- is received: it ends if a call of recv gives no data. The packs of the packages cut off so far, and then the
-- bytes that are left, are those from before and then all that was received, in order, however the
-- stream is cut into calls, and each value cut off has a pack if those before have one.
-- The call returns 0, and what is left waits in the buffer and has no whole pack at its front; or it
-- returns -1 and the client is closed.
pub read_client_socket-Ends :
    (stlv : Stlv) (w : Feed) (total : List ℕ) (calls : List Recv) (r : Reader)
    → Stops calls
    → ExactOn stlv total
    → AllPacked stlv r.handled
    → packs stlv r.handled ++ (held r ++ received calls) ≡ total
    → NoPack stlv (held r)
    → Ends stlv w calls r
unfolding read_client_socket
read_client_socket-Ends stlv w total [] r stops exact a on n = absurd stops
read_client_socket-Ends stlv w total (would_block ∷ more) r stops exact a on n =
    (r, pos 0, refl, no_more stlv r r refl refl refl n)
read_client_socket-Ends stlv w total (ended ∷ more) r stops exact a on n =
    (freed r, pos 0, refl, unfold freed in no_more stlv r (freed r) refl refl refl n)
read_client_socket-Ends stlv w total (broken ∷ more) r stops exact a on n =
    (freed r, pos 0, refl, unfold freed in no_more stlv r (freed r) refl refl refl n)
read_client_socket-Ends stlv w total (got bytes ∷ more) r stops exact a on n =
    let (r1, closed, e, packed, (left, stream, how)) =
      read_data-Round stlv w total (received more) r bytes exact a
        (regrouped r bytes (received more) ∙ on) in
    elim how [
      | inr (c, dead) ↦ (
        r1,
        minus_one,
        ap (on_read (read_client_socket stlv w more)) (e ∙ ap (λ x. some (r1, x)) c),
        record {
          left = left ++ received more;
          packed = packed;
          stream = joined r r1 bytes (received more) left stream;
          outcome = inr (refl, dead);
        },
      )
      | inl (c, same, none_there) ↦
          let waits : NoPack stlv (held r1) =
            λ value k q. none_there value k (ap stlv.unpack same ∙ q) in
          let (r2, ret, e2, reads) =
            read_client_socket-Ends stlv w total more r1 stops exact (packed a)
              (ap (λ x. packs stlv r1.handled ++ (x ++ received more)) (sym same)
                ∙ sym (joined r r1 bytes (received more) left stream)
                ∙ on)
              waits in
          (
            r2,
            ret,
            goes_on stlv w more r r1 bytes (e ∙ ap (λ x. some (r1, x)) c) ∙ e2,
            record {
              left = reads.left;
              packed = λ b. reads.packed (packed b);
              stream =
                  joined r r1 bytes (received more) left stream
                  ∙ ap (λ x. packs stlv r1.handled ++ (x ++ received more)) same
                  ∙ reads.stream;
              outcome = reads.outcome;
            },
          )
    ]
  where
    regrouped :
        (r : Reader) (bytes later : List ℕ)
        → (packs stlv r.handled ++ (held r ++ bytes)) ++ later
          ≡ packs stlv r.handled ++ (held r ++ (bytes ++ later))
    regrouped r bytes later =
        append_assoc (packs stlv r.handled) (held r ++ bytes) later
        ∙ ap (λ x. packs stlv r.handled ++ x) (append_assoc (held r) bytes later)

    joined :
        (r r1 : Reader) (bytes later left : List ℕ)
        → packs stlv r.handled ++ (held r ++ bytes) ≡ packs stlv r1.handled ++ left
        → packs stlv r.handled ++ (held r ++ (bytes ++ later))
          ≡ packs stlv r1.handled ++ (left ++ later)
    joined r r1 bytes later left e =
        ap (λ x. packs stlv r.handled ++ x) (sym (append_assoc (held r) bytes later))
        ∙ sym (append_assoc (packs stlv r.handled) (held r ++ bytes) later)
        ∙ ap (λ x. x ++ later) e
        ∙ append_assoc (packs stlv r1.handled) left later
