-- ===== src/Reading/Stream.antt =====
-- The stream contract of the reading: the packs of the packages that were handled, and then the bytes
-- that wait, are the bytes that came in.
use mathlib.Core.Path.{subst}
use proc_bridge.Base.{
  Every, Every-append, ℕ, zero, suc, ◌+◌, ◌-◌, ◌<◌, ◌≤◌, ◌≡◌, ◌≢◌, ◌⊎◌, refl, ap, ap₂, sym, ◌∙◌,
  arith, Bool, true, false, some, List, [], ◌∷◌, ◌++◌, append_assoc, append-nil, append_split,
  length, length-append, length-slice, slice, slice-append, leb, Bool-cases, inl, inr, Mem,
}
use proc_bridge.Stlv.{Stlv, Unpacked, not_unpacked, unpacked}
use proc_bridge.Reading.{
  Reader, Feed, freed, handle_pkg, recv_verify, recv_pkg, with_value, fails_hard, unpack_loop,
}

-- The bytes of packs, one behind the other.
unfoldable pub packs : Stlv → List (List ℕ) → List ℕ
packs stlv [] = []
packs stlv (value ∷ more) = stlv.pack value ++ packs stlv more

pub packs-append :
    (stlv : Stlv) (a b : List (List ℕ)) → packs stlv (a ++ b) ≡ packs stlv a ++ packs stlv b
unfolding packs
packs-append stlv [] b = refl
packs-append stlv (value ∷ a) b = simp (packs-append stlv a b, append_assoc)

-- The bytes in the buffer from `cut` on.
abbrev pub rest_of : Reader → ℕ → List ℕ
rest_of r cut = slice r.buff cut (r.tail - cut)

-- What handling a package leaves alone.
abbrev pub SameBytes : Reader → Reader → Type 0
SameBytes r r' =
    (r'.buff ≡ r.buff) × (r'.back ≡ r.back) × (r'.tail ≡ r.tail) × (r'.handled ≡ r.handled)

pub handle_pkg-SameBytes :
    (w : Feed) (r : Reader) (pkg : Mem)
    → let h = handle_pkg w r pkg in
      SameBytes r h.0 × (h.1 ≡ false → h.0.alive ≡ r.alive) × (h.1 ≡ true → h.0.alive ≡ false)
unfolding handle_pkg recv_verify recv_pkg freed
handle_pkg-SameBytes w r pkg = ground arith

-- Values that have a pack.
abbrev pub AllPacked : Stlv → List (List ℕ) → Type 0
AllPacked stlv values = Every (λ value. stlv.pack value ≢ []) values

-- What is unpacked of these bytes was packed: it stands at the front, and takes at least a byte.
abbrev pub FrontAt : Stlv → List ℕ → Type 0
FrontAt stlv bs =
    (value : List ℕ) (n : ℕ)
    → stlv.unpack bs ≡ unpacked value n
    → (0 < n) × (length (stlv.pack value) ≡ n) × ((rest : List ℕ) × (bs ≡ stlv.pack value ++ rest))

-- So it is wherever the reading of these bytes can stand.
pub record ExactOn (stlv : Stlv) (total : List ℕ) : Type 0 where
  pub nothing : (value : List ℕ) (n : ℕ) → stlv.unpack [] ≢ unpacked value n
  pub front :
      (done : List (List ℕ)) (bs later : List ℕ)
      → AllPacked stlv done
      → packs stlv done ++ (bs ++ later) ≡ total
      → FrontAt stlv bs

-- The end of the loop that unpacks, from `cut` on.
pub record Unpacks (stlv : Stlv) (r : Reader) (cut : ℕ) (r' : Reader) (cut' : ℕ) (closed : Bool)
    : Type 0 where
  pub within : cut' ≤ r.tail
  pub same : (r'.buff ≡ r.buff) × (r'.back ≡ r.back) × (r'.tail ≡ r.tail)
  pub stream : packs stlv r.handled ++ rest_of r cut ≡ packs stlv r'.handled ++ rest_of r cut'
  pub packed : AllPacked stlv r.handled → AllPacked stlv r'.handled
  pub alive : closed ≡ false → r'.alive ≡ r.alive
  pub dead : closed ≡ true → r'.alive ≡ false
  pub waits :
      closed ≡ false
      → (r.tail ≤ cut')
        ⊎ ((value : List ℕ) (n : ℕ) → stlv.unpack (rest_of r cut') ≢ unpacked value n)

-- It ends there.
stop_here :
    (stlv : Stlv) (r : Reader) (cut : ℕ)
    → cut ≤ r.tail
    → (r.tail ≤ cut) ⊎ ((value : List ℕ) (n : ℕ) → stlv.unpack (rest_of r cut) ≢ unpacked value n)
    → Unpacks stlv r cut r cut false
stop_here stlv r cut le why = record {
  within = le;
  same = (refl, refl, refl);
  stream = refl;
  packed = λ a. a;
  alive = λ _. refl;
  dead = λ c. absurd (cc (c));
  waits = λ _. why;
}

-- A pack is cut off at the front.
cut_front :
    (stlv : Stlv) (r : Reader) (cut : ℕ) (value : List ℕ) (n : ℕ)
    → FrontAt stlv (rest_of r cut)
    → cut < r.tail
    → stlv.unpack (rest_of r cut) ≡ unpacked value n
    → (0 < n) × (cut + n ≤ r.tail) × (rest_of r cut ≡ stlv.pack value ++ rest_of r (cut + n))
cut_front stlv r cut value n exact lt e =
    let (p, len, (rest, eq)) = exact value n e in
    let total : r.tail - cut ≡ n + length rest =
      sym (length-slice r.buff cut (r.tail - cut))
      ∙ ap length eq
      ∙ length-append (stlv.pack value) rest
      ∙ ap (λ x. x + length rest) len in
    let le : cut + n ≤ r.tail = omega (arith, total) in
    let split : rest_of r cut ≡ slice r.buff cut n ++ rest_of r (cut + n) =
      ap (slice r.buff cut) (omega arith) ∙ slice-append r.buff cut n (r.tail - (cut + n)) in
    let parts =
      append_split (slice r.buff cut n) (stlv.pack value) (rest_of r (cut + n)) rest
        (length-slice r.buff cut n ∙ sym len) (sym split ∙ eq) in
    (p, le, split ∙ ap (λ x. x ++ rest_of r (cut + n)) parts.0)

-- The loop ends, and where.
abbrev pub Loops : Stlv → Feed → ℕ → Reader → ℕ → Type 0
Loops stlv w fuel r cut =
    (r' : Reader) × (cut' : ℕ) × (closed : Bool) × (unpack_loop stlv w fuel r cut
      ≡ some (r', cut', closed))
    × Unpacks stlv r cut r' cut' closed

module _ (stlv : Stlv) (w : Feed) (r : Reader) (cut : ℕ) (value : List ℕ) (n : ℕ)
    (exact : FrontAt stlv (rest_of r cut)) (lt : cut < r.tail)
    (e : stlv.unpack (rest_of r cut) ≡ unpacked value n) where
  abbrev after : Reader
  after = (handle_pkg w (with_value r value) (with_value r value).pack_buff).0

  after_same : SameBytes (with_value r value) after
  after_same = (handle_pkg-SameBytes w (with_value r value) (with_value r value).pack_buff).0

  rest_same : (k : ℕ) → rest_of after k ≡ rest_of r k
  rest_same k = let (b, k2, t, h) = after_same in λ i. slice (b i) k (t i - k)

  -- The bytes before and after a package was handled.
  moved :
      packs stlv r.handled ++ rest_of r cut ≡ packs stlv after.handled ++ rest_of after (cut + n)
  moved =
      let (p, le, front) = cut_front stlv r cut value n exact lt e in
      let (b, k2, t, h) = after_same in
      ap (λ x. packs stlv r.handled ++ x) front
      ∙ sym (append_assoc (packs stlv r.handled) (stlv.pack value) (rest_of r (cut + n)))
      ∙ ap (λ x. x ++ rest_of r (cut + n)) (sym (one_more r.handled))
      ∙ ap₂ ◌++◌ (ap (packs stlv) (sym h)) (sym (rest_same (cut + n)))
    where
      one_more :
          (l : List (List ℕ)) → packs stlv (l ++ value ∷ []) ≡ packs stlv l ++ stlv.pack value
      one_more l =
          packs-append stlv l (value ∷ [])
          ∙ ap (λ x. packs stlv l ++ x) (unfold packs in append-nil (stlv.pack value))

  packed_after : AllPacked stlv r.handled → AllPacked stlv after.handled
  packed_after a =
      let (b, k2, t, h) = after_same in
      let (p, len, rest) = exact value n e in
      let some_pack : stlv.pack value ≢ [] = λ q. omega (arith, ap length q, len, p) in
      subst (AllPacked stlv) (sym h)
        (Every-append (λ v. stlv.pack v ≢ []) r.handled (value ∷ []) a (some_pack, tt))

  -- The rest of the loop, seen from before the package.
  Unpacks-cons :
      (r' : Reader) (cut' : ℕ) (closed : Bool)
      → after.alive ≡ r.alive
      → Unpacks stlv after (cut + n) r' cut' closed
      → Unpacks stlv r cut r' cut' closed
  Unpacks-cons r' cut' closed live u =
      let (b, k2, t, h) = after_same in
      record {
        within = omega (arith, u.within, t);
        same = (u.same.0 ∙ b, u.same.1 ∙ k2, u.same.2 ∙ t);
        stream = moved ∙ u.stream ∙ ap (λ x. packs stlv r'.handled ++ x) (rest_same cut');
        packed = λ a. u.packed (packed_after a);
        alive = λ c. u.alive c ∙ live;
        dead = u.dead;
        waits = λ c. elim (u.waits c) [
          | inl le ↦ inl (omega (arith, t, le))
          | inr no_pack ↦ inr (λ v k q. no_pack v k (ap stlv.unpack (rest_same cut') ∙ q))
        ];
      }

  -- The client was closed for the package.
  Unpacks-closed : after.alive ≡ false → Unpacks stlv r cut after (cut + n) true
  Unpacks-closed dead =
      let (p, le, front) = cut_front stlv r cut value n exact lt e in
      let (b, k2, t, h) = after_same in
      record {
        within = le;
        same = (b, k2, t);
        stream = moved ∙ ap (λ x. packs stlv after.handled ++ x) (rest_same (cut + n));
        packed = packed_after;
        alive = λ c. absurd (cc (c));
        dead = λ _. dead;
        waits = λ c. absurd (cc (c));
      }

closed_here :
    (stlv : Stlv) (r : Reader) (cut : ℕ) → cut ≤ r.tail → Unpacks stlv r cut (freed r) cut true
unfolding freed
closed_here stlv r cut le = record {
  within = le;
  same = (refl, refl, refl);
  stream = refl;
  packed = λ a. a;
  alive = λ c. absurd (cc (c));
  dead = λ _. refl;
  waits = λ c. absurd (cc (c));
}

loop_step :
    (stlv : Stlv) (w : Feed) (fuel : ℕ) (r : Reader) (cut : ℕ) (u : Unpacked)
    → FrontAt stlv (rest_of r cut)
    → AllPacked stlv r.handled
    → cut < r.tail
    → r.tail - cut < suc fuel
    → stlv.unpack (rest_of r cut) ≡ u
    → ((r2 : Reader) (cut2 : ℕ)
        → AllPacked stlv r2.handled
        → packs stlv r.handled ++ rest_of r cut ≡ packs stlv r2.handled ++ rest_of r2 cut2
        → cut2 ≤ r2.tail
        → r2.tail - cut2 < fuel
        → Loops stlv w fuel r2 cut2)
    → Loops stlv w (suc fuel) r cut
unfolding unpack_loop
loop_step stlv w fuel r cut (not_unpacked info) exact a lt le e ih =
    let more : leb r.tail cut ≡ false = ground arith in
    elim (Bool-cases (fails_hard info (r.tail - cut))) [
      | inl hard ↦
          (freed r, cut, true, rw (more, e, hard) refl, closed_here stlv r cut (omega arith))
      | inr soft ↦ (
        r,
        cut,
        false,
        rw (more, e, soft) refl,
        stop_here stlv r cut (omega arith) (inr (λ v k q. cc (q, e))),
      )
    ]
loop_step stlv w fuel r cut (unpacked value n) exact a lt le e ih =
    let more : leb r.tail cut ≡ false = ground arith in
    let (p, fits, front) = cut_front stlv r cut value n exact lt e in
    let h = handle_pkg w (with_value r value) (with_value r value).pack_buff in
    let s = handle_pkg-SameBytes w (with_value r value) (with_value r value).pack_buff in
    elim (Bool-cases h.1) [
      | inl stop ↦ (
        h.0,
        cut + n,
        true,
        rw (more, e, stop) refl,
        Unpacks-closed stlv w r cut value n exact lt e (s.2 stop),
      )
      | inr on ↦
          let t : h.0.tail ≡ r.tail = s.0.2 in
          let (r', cut', closed, q, u) =
            ih h.0 (cut + n) (packed_after stlv w r cut value n exact lt e a)
              (moved stlv w r cut value n exact lt e) (omega (arith, t)) (omega (arith, t)) in
          (
            r',
            cut',
            closed,
            rw (more, e, on) q,
            Unpacks-cons stlv w r cut value n exact lt e r' cut' closed (s.1 on) u,
          )
    ]

-- With a byte more of fuel than there are bytes, the loop that unpacks ends.
pub unpack_loop-Loops :
    (stlv : Stlv) (w : Feed) (total later : List ℕ) (fuel : ℕ) (r : Reader) (cut : ℕ)
    → ExactOn stlv total
    → AllPacked stlv r.handled
    → (packs stlv r.handled ++ rest_of r cut) ++ later ≡ total
    → cut ≤ r.tail
    → r.tail - cut < fuel
    → Loops stlv w fuel r cut
unpack_loop-Loops stlv w total later zero r cut exact a on le h = absurd (omega arith)
unpack_loop-Loops stlv w total later (suc fuel) r cut exact a on le h =
    elim (Bool-cases (leb r.tail cut)) [
      | inl all ↦ (
        r,
        cut,
        false,
        (unfold unpack_loop in rw all refl),
        stop_here stlv r cut le (inl (ground (arith, all))),
      )
      | inr more ↦
          loop_step stlv w fuel r cut (stlv.unpack (rest_of r cut))
            (exact.front r.handled (rest_of r cut) later a
              (sym (append_assoc (packs stlv r.handled) (rest_of r cut) later) ∙ on))
            a (ground (arith, more)) h refl
            (λ r2 cut2 a2 same le2 h2.
              unpack_loop-Loops stlv w total later fuel r2 cut2 exact a2
                (ap (λ x. x ++ later) (sym same) ∙ on) le2 h2)
    ]
