-- ===== src/Dispatch/Save.antt =====
-- The last part of `dispatch_bridge`: the package is packed into the buffer, or dropped.
use proc_bridge.Base.{
  ℕ, ◌+◌, ◌≤◌, ◌≡◌, ◌≢◌, ◌⊎◌, refl, ap, sym, ◌∙◌, arith, Bool, true, false, some, List, [], ◌++◌,
  append-nil, length, length-slice, slice, ltb, is_zero, ltb_ℤ, pos, Bool-cases, inl, inr,
  if◌then◌else◌, Mem,
}
use proc_bridge.Stlv.{Stlv, IsSafe}
use proc_bridge.Target.{Target, is_empty, empty_space, buff_of, mem_of}
use proc_bridge.Target.Stream.{content}
use proc_bridge.Target.Grow.{used_of}
use proc_bridge.Target.Put.{empty_space-used}
use proc_bridge.Target.Buffer.{expand_target_buff}
use proc_bridge.Target.Pack.{pkg_2_target, Packed, pkg_2_target-Packed, pkg_2_target_same}
use proc_bridge.Carrier.{Carrier}
use proc_bridge.Sending.{append_sending_node}
use proc_bridge.Sending.Linked.{occurs, Linked, is_busy}
use proc_bridge.Sending.Visit.{update_same}
use proc_bridge.Dispatch.{put_target, drop_for, count_pkg, pack_into, save_pkg}
use proc_bridge.Dispatch.Expand.{expand-Step}
use proc_bridge.Dispatch.Step.{
  Step-after, Built, Limits, Step, Listed, put_target-Step, append-Step, Step-then,
}

-- The buffer has no room for what the packer may need, or the packer fails.
abbrev pub NoRoom : Stlv → List ℕ → Target → Type 0
NoRoom stlv value t =
    (t.snd_buff_len ≤ used_of t + stlv.safe_len (length value)) ⊎ (stlv.pack value ≡ [])

-- The package stands at the end of the stream and is counted.
abbrev pub Delivered : Stlv → Carrier → ℕ → Mem → List ℕ → Carrier → Type 0
Delivered stlv c target pkg value c' =
    (c2 : Carrier) × Step c target (stlv.pack value) c2
    × (stlv.pack value ≢ [])
    × Listed c2 target
    × (c' ≡ count_pkg c2 target pkg)

-- The package is dropped and counted.
abbrev pub Dropped : Stlv → Carrier → ℕ → List ℕ → ℕ → Carrier → Type 0
Dropped stlv c target value curr_ts c' =
    (c2 : Carrier) × Step c target [] c2
    × NoRoom stlv value (c2.targets target)
    × Listed c2 target
    × (c' ≡ drop_for c2 target curr_ts)

-- A buffer without room for the packer.
pub no_room :
    (stlv : Stlv) (value : List ℕ) (n : ℕ) (t : Target)
    → length value ≡ n
    → Built t
    → ltb (empty_space t) (stlv.safe_len n) ≡ true
    → t.snd_buff_len ≤ used_of t + stlv.safe_len (length value)
no_room stlv value n t size (m, e, o, len) tight =
    rw size (ground (arith, tight, empty_space-used t o (omega arith)))

buff_some : (t : Target) → Built t → t.snd_buff ≡ some (buff_of t)
buff_some t (m, e, o, l) = e ∙ ap (λ x. some (mem_of x)) (sym e)

module _ (stlv : Stlv) (c : Carrier) (target : ℕ) (pkg : Mem) (n curr_ts : ℕ) (safe : IsSafe stlv)
    (k : Linked c) (z : Limits c.env) (b : Built (c.targets target)) where
  abbrev t : Target
  t = c.targets target

  pub packed :
      Packed stlv t (slice pkg 0 n) (pkg_2_target stlv t pkg n).0 (pkg_2_target stlv t pkg n).1
  packed = let (m, e, o, l) = b in pkg_2_target-Packed stlv t pkg n safe o (omega arith)

  pub put :
      (extra : List ℕ)
      → content (pkg_2_target stlv t pkg n).0 ≡ content t ++ extra
      → Step c target extra (put_target c target (pkg_2_target stlv t pkg n).0)
  put extra e =
      let (st, flag, buff) = pkg_2_target_same stlv t pkg n in
      let (m, there, o, l) = b in
      put_target-Step c target (pkg_2_target stlv t pkg n).0 extra k z e st flag (
        buff_of (pkg_2_target stlv t pkg n).0,
        buff (buff_some t b),
        packed.open_still,
        omega (arith, packed.same_len),
      )

  -- The packer is called, and its outcome counted.
  pack_into_lem :
      let r = pack_into stlv c target pkg n curr_ts in
      let c2 = put_target c target (pkg_2_target stlv t pkg n).0 in
      ((r.1 ≡ true)
        × Step c target (stlv.pack (slice pkg 0 n)) c2
        × (stlv.pack (slice pkg 0 n) ≢ [])
        × (r.0 ≡ count_pkg c2 target pkg))
      ⊎ ((r.1 ≡ false)
          × Step c target [] c2
          × NoRoom stlv (slice pkg 0 n) (c2.targets target)
          × (c2.targets target ≡ t)
          × (r.0 ≡ drop_for c2 target curr_ts))
  unfolding pack_into
  pack_into_lem = elim packed.outcome [
    | inl (room, some_packed, ok, e) ↦ rw (ap is_zero ok) (inl (refl, put _ e, some_packed, refl))
    | inr (reason, bad, same) ↦ rw (ap is_zero bad) (
        inr (
          refl,
          put [] (ap content same ∙ sym (append-nil (content t))),
          rw (update_same c.targets target (pkg_2_target stlv t pkg n).0, same) reason,
          update_same c.targets target (pkg_2_target stlv t pkg n).0 ∙ same,
          refl,
        ))
  ]

-- Whether the list or the counts change first does not matter.
append-count :
    (c : Carrier) (target : ℕ) (pkg : Mem)
    → append_sending_node (count_pkg c target pkg) target
      ≡ count_pkg (append_sending_node c target) target pkg
unfolding append_sending_node
append-count c target pkg = elim (Bool-cases (c.targets target).in_append) [
  | inl there ↦ rw there refl
  | inr new ↦ rw new refl
]

module _ (stlv : Stlv) (calloc_ok : ℕ → Bool) (c : Carrier) (target : ℕ) (pkg : Mem) (n curr_ts : ℕ)
    (safe : IsSafe stlv) (k : Linked c) (z : Limits c.env) (b : Built (c.targets target))
    (l : Listed c target) where
  abbrev pub value : List ℕ
  value = slice pkg 0 n

  abbrev pub Saved : Carrier → Type 0
  Saved c' = Delivered stlv c target pkg value c' ⊎ Dropped stlv c target value curr_ts c'

  -- From a step after which the target is in the list.
  pack_listed :
      (c1 : Carrier)
      → Step c target [] c1
      → occurs target c1.sending ≡ true
      → Saved (pack_into stlv c1 target pkg n curr_ts).0
  pack_listed c1 s on =
      let c2 = put_target c1 target (pkg_2_target stlv (c1.targets target) pkg n).0 in
      elim (pack_into_lem stlv c1 target pkg n curr_ts safe s.linked s.limits s.built) [
        | inl (ok, st, some_packed, e) ↦
            inl (c2, Step-then c c1 c2 target _ s st, some_packed, (λ _. on), e)
        | inr (bad, st, reason, same, e) ↦
            inr (c2, Step-then c c1 c2 target _ s st, reason, (λ _. on), e)
      ]

  -- Into an empty buffer, and then into the list.
  pack_direct :
      let direct = pack_into stlv c target pkg n curr_ts in
      Saved (if direct.1 then append_sending_node direct.0 target else direct.0)
  pack_direct =
      let c2 = put_target c target (pkg_2_target stlv (c.targets target) pkg n).0 in
      elim (pack_into_lem stlv c target pkg n curr_ts safe k z b) [
        | inl (ok, st, some_packed, e) ↦
            let a = append-Step c2 target st.linked st.limits st.built in
            rw ok (
              inl (
                append_sending_node c2 target,
                Step-after c c2 (append_sending_node c2 target) target _ st a.0,
                some_packed,
                (λ _. a.1),
                ap (λ x. append_sending_node x target) e ∙ append-count c2 target pkg,
              ))
        | inr (bad, st, reason, same, e) ↦
            rw bad (inr (c2, st, reason, (λ busy. l (sym (ap is_busy same) ∙ busy)), e))
      ]

  -- Behind other bytes, with room made for it.
  pack_behind :
      let listed = append_sending_node c target in
      let e = expand_target_buff calloc_ok listed.env (listed.targets target) in
      let expanded = put_target listed target e.0 in
      Saved (
        if ltb (empty_space (listed.targets target)) (stlv.safe_len n)
        then (if ltb_ℤ e.1 (pos 0)
            then drop_for expanded target curr_ts
            else (pack_into stlv expanded target pkg n curr_ts).0)
        else (pack_into stlv listed target pkg n curr_ts).0)
  pack_behind =
      let a = append-Step c target k z b in
      let listed = append_sending_node c target in
      let e = expand_target_buff calloc_ok listed.env (listed.targets target) in
      let expanded = put_target listed target e.0 in
      let x = expand-Step calloc_ok listed target a.0.linked a.0.limits a.0.built in
      let grown = Step-then c listed expanded target [] a.0 x.0 in
      elim (Bool-cases (ltb (empty_space (listed.targets target)) (stlv.safe_len n))) [
        | inr fit ↦ rw fit (pack_listed listed a.0 a.1)
        | inl tight ↦ elim (Bool-cases (ltb_ℤ e.1 (pos 0))) [
          | inr good ↦ rw (tight, good) (pack_listed expanded grown a.1)
          | inl bad ↦
              rw (tight, bad)
                (inr (
                  expanded,
                  grown,
                  rw (update_same listed.targets target e.0, x.1 bad)
                      (inl (no_room stlv value n _ (length-slice pkg 0 n) a.0.built tight)),
                  (λ _. a.1),
                  refl,
                ))
        ]
      ]

  -- Every way that `save_pkg` takes.
  pub save_pkg_lem : Saved (save_pkg stlv calloc_ok c target pkg n curr_ts)
  unfolding save_pkg
  save_pkg_lem = elim (Bool-cases (is_empty (c.targets target))) [
    | inl none_left ↦ rw none_left pack_direct
    | inr some_left ↦ rw some_left pack_behind
  ]
