-- ===== src/Dispatch/Answer.antt =====
-- What becomes of a package that `inner_send_pkg` sends.
use proc_bridge.Base.{
  ℕ, ◌<◌, ◌≡◌, ◌≢◌, ◌⊎◌, refl, ap, sym, ◌∙◌, arith, Bool, true, false, ◌&&◌, not, List, [],
  append-nil, slice, ltb, leb, is_zero, ltb_ℤ, ℤ, pos, minus_one, Bool-cases, inl, inr,
  if◌then◌else◌, Mem,
}
use proc_bridge.Stlv.{Stlv, IsSafe}
use proc_bridge.Target.{is_empty, empty_space}
use proc_bridge.Target.Stream.{content}
use proc_bridge.Target.Buffer.{expand_target_buff}
use proc_bridge.Target.Pack.{pkg_2_target}
use proc_bridge.Carrier.{Carrier, is_connected}
use proc_bridge.Sending.{Outside}
use proc_bridge.Sending.Linked.{Linked, is_busy}
use proc_bridge.Sending.Visit.{update_same}
use proc_bridge.Dispatch.{put_target, flush_first, init_buff}
use proc_bridge.Dispatch.Step.{
  Flow-none, Built, Unbuilt, Limits, Step, Bare, Closed, Listed, Step-then, Step-after, Step-close,
  put_target-Step,
}
use proc_bridge.Dispatch.Expand.{expand-Step}
use proc_bridge.Dispatch.Stages.{Socket, init_buff_lem, flush_first_lem, flush_due_lem}
use proc_bridge.Dispatch.Save.{packed, put}
use proc_bridge.Dispatch.Inner.{
  pack_inner, result, pack_waiting, stamped, pack_first, inner_send_pkg,
}

and_left : (b c : Bool) → (b && c) ≡ true → b ≡ true
and_left true c e = refl
and_left false c e = e

-- Whether the target is busy is decided by its state, if it had data before.
Listed-still :
    (c c' : Carrier) (target : ℕ) (extra : List ℕ)
    → Step c target extra c'
    → is_empty (c.targets target) ≡ false
    → Listed c target
    → Listed c' target
Listed-still c c' target extra st some_left l busy = st.grows target (l was)
  where
    was : is_busy (c.targets target) ≡ true
    was =
        let linked =
          and_left (is_connected (c'.targets target).state) (not (is_empty (c'.targets target)))
            busy in
        let connection = sym (ap is_connected st.flow.state) ∙ linked in
        ap (λ x. x && not (is_empty (c.targets target))) connection ∙ ap not some_left

Listed-same :
    (c c' : Carrier) (target : ℕ) (extra : List ℕ)
    → Step c target extra c'
    → c'.targets target ≡ c.targets target
    → Listed c target
    → Listed c' target
Listed-same c c' target extra st same l busy = st.grows target (l (sym (ap is_busy same) ∙ busy))

-- What can become of the package.
abbrev pub Done : Stlv → Carrier → ℕ → List ℕ → Carrier → Type 0
Done stlv c target value c' =
    Step c target (stlv.pack value) c' × (stlv.pack value ≢ []) × Listed c' target

abbrev pub Undone : Carrier → ℕ → Carrier → Type 0
Undone c target c' = (Step c target [] c' × Listed c' target) ⊎ Closed c target c'

abbrev Late : Stlv → Carrier → ℕ → List ℕ → Carrier × Bool → Type 0
Late stlv c target value r =
    ((r.1 ≡ true) × Done stlv c target value r.0) ⊎ ((r.1 ≡ false) × Undone c target r.0)

-- The same from an earlier carrier.
Late-after :
    (stlv : Stlv) (c c1 : Carrier) (target : ℕ) (value : List ℕ) (r : Carrier × Bool)
    → Step c target [] c1
    → Late stlv c1 target value r
    → Late stlv c target value r
Late-after stlv c c1 target value (c', ok) st (inl (e, (done, packs, l))) =
    inl (e, (Step-then c c1 c' target (stlv.pack value) st done, packs, l))
Late-after stlv c c1 target value (c', ok) st (inr (e, inl (kept, l))) =
    inr (e, inl (Step-then c c1 c' target [] st kept, l))
Late-after stlv c c1 target value (c', ok) st (inr (e, inr lost)) =
    inr (e, inr (Step-close c c1 c' target [] st lost))

module _ (stlv : Stlv) (c : Carrier) (target : ℕ) (pkg : Mem) (n : ℕ) (safe : IsSafe stlv)
    (k : Linked c) (z : Limits c.env) (b : Built (c.targets target)) where
  abbrev bytes_sent : List ℕ
  bytes_sent = slice pkg 0 n

  -- The step without the list.
  pack_inner_lem :
      let r = pack_inner stlv c target pkg n in
      ((r.1 ≡ true) × Step c target (stlv.pack bytes_sent) r.0 × (stlv.pack bytes_sent ≢ []))
      ⊎ ((r.1 ≡ false) × Step c target [] r.0 × (r.0.targets target ≡ c.targets target))
  unfolding pack_inner
  pack_inner_lem = elim (packed stlv c target pkg n 0 safe k z b).outcome [
    | inl (room, some_packed, ok, e) ↦
        inl (
          ap is_zero ok,
          put stlv c target pkg n 0 safe k z b (stlv.pack bytes_sent) e,
          some_packed,
        )
    | inr (reason, bad, same) ↦ inr (
      ap is_zero bad,
      put stlv c target pkg n 0 safe k z b []
          (ap content same ∙ sym (append-nil (content (c.targets target)))),
      update_same c.targets target (pkg_2_target stlv (c.targets target) pkg n).0 ∙ same,
    )
  ]

-- The package is packed, after a step or none, for a target that had data before.
pack_behind :
    (stlv : Stlv) (c c1 : Carrier) (target : ℕ) (pkg : Mem) (n : ℕ)
    → IsSafe stlv
    → Step c target [] c1
    → is_empty (c.targets target) ≡ false
    → Listed c target
    → Late stlv c target (slice pkg 0 n) (pack_inner stlv c1 target pkg n)
pack_behind stlv c c1 target pkg n safe st some_left l =
    let value = slice pkg 0 n in
    let c2 = (pack_inner stlv c1 target pkg n).0 in
    elim (pack_inner_lem stlv c1 target pkg n safe st.linked st.limits st.built) [
      | inl (ok, st2, packs) ↦
          let whole = Step-then c c1 c2 target (stlv.pack value) st st2 in
          inl (ok, (whole, packs, Listed-still c c2 target (stlv.pack value) whole some_left l))
      | inr (bad, st2, same) ↦
          let whole = Step-then c c1 c2 target [] st st2 in
          inr (bad, inl (whole, Listed-still c c2 target [] whole some_left l))
    ]

Step-none :
    (c : Carrier) (target : ℕ)
    → Linked c
    → Limits c.env
    → Built (c.targets target)
    → Step c target [] c
Step-none c target k z b = record {
  flow = Flow-none c target;
  linked = k;
  grows = λ a x. x;
  limits = z;
  counts = (refl, refl);
  built = b;
}

pack_waiting-Late :
    (stlv : Stlv) (calloc_ok : ℕ → Bool) (c : Carrier) (target : ℕ) (pkg : Mem) (n : ℕ)
    → IsSafe stlv
    → Linked c
    → Limits c.env
    → Built (c.targets target)
    → is_empty (c.targets target) ≡ false
    → Listed c target
    → Late stlv c target (slice pkg 0 n) (pack_waiting stlv calloc_ok c target pkg n)
unfolding pack_waiting
pack_waiting-Late stlv calloc_ok c target pkg n safe k z b some_left l =
    let e = expand_target_buff calloc_ok c.env (c.targets target) in
    let expanded = put_target c target e.0 in
    let x = expand-Step calloc_ok c target k z b in
    elim (Bool-cases (ltb (empty_space (c.targets target)) (stlv.safe_len n))) [
      | inr fit ↦
          rw fit (pack_behind stlv c c target pkg n safe (Step-none c target k z b) some_left l)
      | inl tight ↦ elim (Bool-cases (ltb_ℤ e.1 (pos 0))) [
        | inr good ↦
            rw (tight, good) (pack_behind stlv c expanded target pkg n safe x.0 some_left l)
        | inl bad ↦
            rw (tight, bad)
              (inr (refl, inl (x.0, Listed-still c expanded target [] x.0 some_left l)))
      ]
    ]

stamped-Step :
    (c : Carrier) (out : Outside) (target : ℕ)
    → Linked c
    → Limits c.env
    → Built (c.targets target)
    → Step c target [] (stamped c out target)
unfolding stamped
stamped-Step c out target k z (m, e, o, l) =
    put_target-Step c target (record (c.targets target) { delay_starts_ms = out.curr_ms }) [] k z
      (sym (append-nil (content (c.targets target)))) refl refl
      (m, e, record { head_in = o.head_in; tail_in = o.tail_in }, l)

pack_first-Late :
    (stlv : Stlv) (out : Outside) (c : Carrier) (target : ℕ) (pkg : Mem) (n : ℕ)
    → IsSafe stlv
    → Linked c
    → Limits c.env
    → Built (c.targets target)
    → Listed c target
    → (let c1 = stamped (pack_inner stlv c target pkg n).0 out target in
        Socket out (c1.targets target) target)
    → Late stlv c target (slice pkg 0 n) (pack_first stlv out c target pkg n)
unfolding pack_first
pack_first-Late stlv out c target pkg n safe k z b l socket =
    let value = slice pkg 0 n in
    let c1 = (pack_inner stlv c target pkg n).0 in
    let c2 = stamped c1 out target in
    elim (pack_inner_lem stlv c target pkg n safe k z b) [
      | inr (bad, st, same) ↦ rw bad (inr (refl, inl (st, Listed-same c c1 target [] st same l)))
      | inl (ok, st, packs) ↦
          let stamp = stamped-Step c1 out target st.linked st.limits st.built in
          let before = Step-after c c1 c2 target (stlv.pack value) st stamp in
          let last = (flush_first true c2 out target).0 in
          rw ok
            (elim (flush_due_lem out c2 target before.linked before.limits before.built socket) [
              | inl (kept, st2, l2) ↦
                  inl (kept, (Step-after c c2 last target (stlv.pack value) before st2, packs, l2))
              | inr (lost, closed) ↦
                  inr (lost, inr (Step-close c c2 last target (stlv.pack value) before closed))
            ])
    ]

-- The answer, with what it stands for.
abbrev pub Answered : Stlv → Carrier → ℕ → List ℕ → Carrier × ℤ → Type 0
Answered stlv c target value (c', ret) =
    ((ret ≡ pos 0) × Done stlv c target value c')
    ⊎ ((ret ≡ minus_one) × (Undone c target c' ⊎ Bare c target c'))

result-Answered :
    (stlv : Stlv) (c : Carrier) (target : ℕ) (value : List ℕ) (r : Carrier × Bool)
    → Late stlv c target value r
    → Answered stlv c target value (result r)
result-Answered stlv c target value (c', ok) (inl (e, d)) =
    inl (ap (λ x. if x then pos 0 else minus_one) e, d)
result-Answered stlv c target value (c', ok) (inr (e, u)) =
    inr (ap (λ x. if x then pos 0 else minus_one) e, inl u)

-- The carrier before the second flush, if there is one.
abbrev pub before_second :
    Stlv → (ℕ → Bool) → (first second : Outside) → Carrier → ℕ → Mem → ℕ → Carrier
before_second stlv calloc_ok first second c target pkg n =
    let built = (init_buff calloc_ok c target).0 in
    let flushed = (flush_first (not (is_empty (built.targets target))) built first target).0 in
    stamped (pack_inner stlv flushed target pkg n).0 second target

-- inner_send_pkg with a package that is not empty, a packer whose packs are no longer than
-- STLV_PACK_SAFE_LEN says, limits below 2^30, and a target that is in the list if it has data and a
-- connection, where the sockets take no more than they are given: it returns 0, and the pack stands
-- behind all bytes that went out or wait for the target; or it returns -1, and no byte of the package
-- went into the stream, or the connection was closed. In each case nothing is counted, no other target is
-- changed, and the list and the buffer stay in order, the target being in the list if bytes wait.
pub inner_send_pkg-Answered :
    (stlv : Stlv) (calloc_ok : ℕ → Bool) (first second : Outside) (c : Carrier) (target : ℕ)
    (pkg : Mem) (n : ℕ)
    → IsSafe stlv
    → Linked c
    → Limits c.env
    → Built (c.targets target) ⊎ Unbuilt (c.targets target)
    → Listed c target
    → 0 < n
    → (is_empty (c.targets target) ≡ false → Socket first (c.targets target) target)
    → Socket second
        ((before_second stlv calloc_ok first second c target pkg n).targets target)
        target
    → Answered stlv c target
        (slice pkg 0 n)
        (inner_send_pkg stlv calloc_ok first second c target pkg n)
unfolding inner_send_pkg
inner_send_pkg-Answered stlv calloc_ok first second c target pkg n safe k z fit l some_len one two =
    let value = slice pkg 0 n in
    let built = init_buff calloc_ok c target in
    let due = not (is_empty (built.0.targets target)) in
    let flushed = flush_first due built.0 first target in
    let whole : leb n 0 ≡ false = ground (arith, some_len) in
    elim (init_buff_lem calloc_ok c target k z fit l) [
      | inr (bad, bare) ↦ rw (whole, bad) (inr (refl, inr bare))
      | inl (ok, st, l1, same) ↦
          let ready : due ≡ true → Socket first (built.0.targets target) target = λ d.
            let some_left = not_true (is_empty (built.0.targets target)) d in
            let e = same some_left in rw e (one (sym (ap is_empty e) ∙ some_left)) in
          elim (flush_first_lem due first built.0 target st.linked st.limits st.built l1 ready) [
            | inr (lost, closed) ↦
                rw (whole, ok, lost)
                  (inr (refl, inl (inr (Step-close c built.0 flushed.0 target [] st closed))))
            | inl (kept, st2, l2) ↦
                let both = Step-then c built.0 flushed.0 target [] st st2 in
                elim (Bool-cases (is_empty (flushed.0.targets target))) [
                  | inl bare ↦
                      rw (whole, ok, kept, bare)
                        (result-Answered stlv c target value
                          (pack_first stlv second flushed.0 target pkg n)
                          (Late-after stlv c flushed.0 target value _ both (
                            pack_first-Late stlv second flushed.0 target pkg n safe both.linked
                              both.limits both.built l2 two)))
                  | inr some_left ↦
                      rw (whole, ok, kept, some_left)
                        (result-Answered stlv c target value
                          (pack_waiting stlv calloc_ok flushed.0 target pkg n)
                          (Late-after stlv c flushed.0 target value _ both (
                            pack_waiting-Late stlv calloc_ok flushed.0 target pkg n safe both.linked
                              both.limits both.built some_left l2)))
                ]
          ]
    ]
  where
    not_true : (b : Bool) → not b ≡ true → b ≡ false
    not_true true e = absurd (cc (e))
    not_true false e = refl
