-- ===== src/Reading/Values.antt =====
-- Packages that were packed by a peer and come over a socket.
use mathlib.Core.Path.{subst}
use proc_bridge.Base.{
  ℕ, ◌<◌, ◌≡◌, ◌≢◌, ◌⊎◌, refl, ap, ap₂, sym, ◌∙◌, arith, false, inl, inr, some, List, [], ◌∷◌, ◌++◌,
  append_assoc, append-nil, append_split, length, length-append, Every-append, ℤ, pos, minus_one,
}
use proc_bridge.Stlv.{Stlv, IsWaiting, IsWhole, unpacked}
use proc_bridge.Reading.{Reader, Feed, Recv, read_client_socket}
use proc_bridge.Reading.Stream.{packs, packs-append, AllPacked, FrontAt, ExactOn}
use proc_bridge.Reading.Whole.{held, NoPack, received, Stops, read_client_socket-Ends}

-- What two values unpacked from the same bytes are.
same_first :
    (stlv : Stlv) (a b s t : List ℕ)
    → IsWhole stlv
    → stlv.pack a ≢ []
    → stlv.pack b ≢ []
    → stlv.pack a ++ s ≡ stlv.pack b ++ t
    → (a ≡ b) × (s ≡ t)
same_first stlv a b s t whole p q e =
    let u : unpacked a (length (stlv.pack a)) ≡ unpacked b (length (stlv.pack b)) =
      sym (whole.back a s p) ∙ ap stlv.unpack e ∙ whole.back b t q in
    let v : a ≡ b = cc (u) in
    (v, (append_split (stlv.pack a) (stlv.pack b) s t (ap (λ x. length (stlv.pack x)) v) e).1)

some_length : (l : List ℕ) → l ≢ [] → 0 < length l
some_length [] p = absurd (p refl)
some_length (b ∷ l) p = omega arith

start_nil : (bs later : List ℕ) → bs ++ later ≡ [] → bs ≡ []
start_nil [] later e = refl
start_nil (b ∷ bs) later e = absurd (cc (e))

-- Packs can be read in one way only: of two lists with the same bytes, one begins with the other.
decoded :
    (stlv : Stlv) (values got : List (List ℕ)) (left : List ℕ)
    → IsWhole stlv
    → AllPacked stlv values
    → AllPacked stlv got
    → packs stlv values ≡ packs stlv got ++ left
    → (later : List (List ℕ)) × (values ≡ got ++ later)
      × (packs stlv later ≡ left)
      × AllPacked stlv later
unfolding packs
decoded stlv values [] left whole p q e = (values, refl, e, p)
decoded stlv [] (h ∷ got) left whole p (q, more_q) e =
    let some_pack = some_length (stlv.pack h) q in
    absurd (
      omega (
        arith,
        some_pack,
        ap length e,
        length-append (stlv.pack h ++ packs stlv got) left,
        length-append (stlv.pack h) (packs stlv got),
      ))
decoded stlv (v ∷ values) (h ∷ got) left whole (p, more_p) (q, more_q) e =
    let (first, rest) =
      same_first stlv v h (packs stlv values) (packs stlv got ++ left) whole p q
        (e ∙ append_assoc (stlv.pack h) (packs stlv got) left) in
    let (later, eq, bytes, a) = decoded stlv values got left whole more_p more_q rest in
    (later, ap₂ (λ x l. x ∷ l) first eq, bytes, a)

-- Of two cuts of the same bytes, one is not before the other.
overlap :
    (a x b y : List ℕ)
    → a ++ x ≡ b ++ y
    → ((s : List ℕ) × (b ≡ a ++ s)) ⊎ ((t : List ℕ) × (a ≡ b ++ t) × (t ≢ []))
overlap [] x b y e = inl (b, refl)
overlap (c ∷ a) x [] y e = inr (c ∷ a, refl, λ q. cc (q))
overlap (c ∷ a) x (d ∷ b) y e =
    let head : c ≡ d = cc (e) in
    let tail : a ++ x ≡ b ++ y = cc (e) in
    elim (overlap a x b y tail) [
      | inl (s, q) ↦ inl (s, ap₂ (λ i l. i ∷ l) (sym head) q)
      | inr (t, q, more) ↦ inr (t, ap₂ (λ i l. i ∷ l) head q, more)
    ]

-- At the front of packs only what was packed is unpacked, however many of the bytes are there.
packs-FrontAt :
    (stlv : Stlv) (values : List (List ℕ)) (bs later : List ℕ)
    → IsWhole stlv
    → IsWaiting stlv
    → AllPacked stlv values
    → packs stlv values ≡ bs ++ later
    → FrontAt stlv bs
unfolding packs
packs-FrontAt stlv [] bs later whole waiting a e value n q =
    let none_there : bs ≡ [] = start_nil bs later (sym e) in
    absurd (waiting.nothing value n (ap stlv.unpack (sym none_there) ∙ q))
packs-FrontAt stlv (v ∷ more) bs later whole waiting (p, more_p) e value n q =
    elim (overlap (stlv.pack v) (packs stlv more) bs later e) [
      | inl (s, eq) ↦
          let both : unpacked v (length (stlv.pack v)) ≡ unpacked value n =
            sym (whole.back v s p) ∙ ap stlv.unpack (sym eq) ∙ q in
          let same : v ≡ value = cc (both) in
          let len : length (stlv.pack v) ≡ n = cc (both) in
          let some_pack = some_length (stlv.pack v) p in
          (
            omega (arith, some_pack, len),
            ap (λ x. length (stlv.pack x)) (sym same) ∙ len,
            (s, eq ∙ ap (λ x. stlv.pack x ++ s) same),
          )
      | inr (t, eq, missing) ↦ absurd (waiting.part v bs t value n eq missing q)
    ]

values-ExactOn :
    (stlv : Stlv) (values : List (List ℕ))
    → IsWhole stlv
    → IsWaiting stlv
    → AllPacked stlv values
    → ExactOn stlv (packs stlv values)
values-ExactOn stlv values whole waiting a = record {
  nothing = waiting.nothing;
  front = λ done bs later b e.
      let (rest, parts, same, c) = decoded stlv values done (bs ++ later) whole a b (sym e) in
      packs-FrontAt stlv rest bs later whole waiting c same;
}

-- No whole pack is left, so no value is.
all_read :
    (stlv : Stlv) (later : List (List ℕ)) (left : List ℕ)
    → IsWhole stlv
    → AllPacked stlv later
    → packs stlv later ≡ left
    → NoPack stlv left
    → later ≡ []
unfolding packs
all_read stlv [] left whole p e none_there = refl
all_read stlv (v ∷ later) left whole (p, more_p) e none_there = absurd (
    none_there v (length (stlv.pack v))
      (ap stlv.unpack (sym e) ∙ whole.back v (packs stlv later) p))

-- How the reading of whole packs ends.
abbrev pub Delivers : Stlv → Feed → List Recv → Reader → List (List ℕ) → Type 0
Delivers stlv w calls r values =
    (r' : Reader) × (ret : ℤ) × (read_client_socket stlv w calls r ≡ some (r', ret))
    × (((ret ≡ pos 0) × (r'.handled ≡ r.handled ++ values))
        ⊎ ((ret ≡ minus_one)
            × (r'.alive ≡ false)
            × ((later : List (List ℕ)) × (r.handled ++ values ≡ r'.handled ++ later))))

-- What is cut off of the packs of a list of values, cut in any way: all of them, or a first part if
-- the client is closed.
pub read_client_socket-values :
    (stlv : Stlv) (w : Feed) (calls : List Recv) (r : Reader) (values : List (List ℕ))
    → Stops calls
    → IsWaiting stlv
    → IsWhole stlv
    → AllPacked stlv r.handled
    → AllPacked stlv values
    → held r ≡ []
    → received calls ≡ packs stlv values
    → Delivers stlv w calls r values
read_client_socket-values stlv w calls r values stops waiting whole before new bare bytes =
    let idle : NoPack stlv (held r) = subst (NoPack stlv) (sym bare) waiting.nothing in
    let all_packed = Every-append (λ v. stlv.pack v ≢ []) r.handled values before new in
    let given : packs stlv r.handled ++ (held r ++ received calls)
        ≡ packs stlv (r.handled ++ values) =
      ap (λ x. packs stlv r.handled ++ x) (ap (λ x. x ++ received calls) bare ∙ bytes)
      ∙ sym (packs-append stlv r.handled values) in
    let (r', ret, e, reads) =
      read_client_socket-Ends stlv w (packs stlv (r.handled ++ values)) calls r stops
        (values-ExactOn stlv (r.handled ++ values) whole waiting all_packed) before given idle in
    let stream : packs stlv (r.handled ++ values) ≡ packs stlv r'.handled ++ reads.left =
      sym given ∙ reads.stream in
    let (later, eq, rest, a) =
      decoded stlv (r.handled ++ values) r'.handled reads.left whole all_packed
        (reads.packed before) stream in
    (
      r',
      ret,
      e,
      elim reads.outcome [
        | inl (ok, here, none_there) ↦
            let all = all_read stlv later reads.left whole a rest none_there in
            inl (ok, sym (eq ∙ ap (λ x. r'.handled ++ x) all ∙ append-nil r'.handled))
        | inr (bad, dead) ↦ inr (bad, dead, (later, eq))
      ],
    )
