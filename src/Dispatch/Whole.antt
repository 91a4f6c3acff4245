-- ===== src/Dispatch/Whole.antt =====
-- `dispatch_bridge` on one package: what can become of it, and what it does to the other targets and
-- to the list of those with data.
use proc_bridge.Base.{
  ℕ, ◌≡◌, ◌≢◌, ◌⊎◌, ap, sym, ◌∙◌, arith, Bool, true, false, List, [], ◌++◌, append-nil, slice, leb,
  ◌==◌, Bool-cases, inl, inr, if◌then◌else◌, Mem,
}
use proc_bridge.Stlv.{Stlv, IsSafe}
use proc_bridge.Package.{pack_len_max, load_head}
use proc_bridge.Target.{Target, is_empty, data_len, not_connected}
use proc_bridge.Target.Stream.{content}
use proc_bridge.Carrier.{Carrier, note_pkg, note_drop, update}
use proc_bridge.Sending.{Outside}
use proc_bridge.Sending.Linked.{occurs, Linked, is_busy}
use proc_bridge.Dispatch.{normal, drop_for, count_pkg, save_pkg, init_buff, flush_first, send_pkg}
use proc_bridge.Dispatch.Step.{
  Built, Unbuilt, Limits, Step, Bare, Closed, Listed, Step-then, Step-close,
}
use proc_bridge.Dispatch.Stages.{Socket, init_buff_lem, flush_first_lem, none_idle}
use proc_bridge.Dispatch.Save.{NoRoom, Delivered, Dropped, save_pkg_lem}

-- Every target with data that its socket could take is in the list.
abbrev pub Scheduled : Carrier → Type 0
Scheduled c = (a : ℕ) → Listed c a

abbrev pub Fit : Target → Type 0
Fit t = Built t ⊎ Unbuilt t

-- All that must hold of a carrier for a package to be sent to the target.
pub record Sound (c : Carrier) (target : ℕ) : Type 0 where
  pub linked : Linked c
  pub scheduled : Scheduled c
  pub limits : Limits c.env
  pub fit : Fit (c.targets target)

-- The three ends of a package: its pack stands behind all bytes for its target, or it is dropped and
-- counted, for want of room or by the packer, or the connection was lost and nothing is counted.
pub record Forwarded (stlv : Stlv) (c : Carrier) (target : ℕ) (pkg : Mem) (value : List ℕ)
    (c' : Carrier) : Type 0 where
  pub stream :
      c'.wire target ++ content (c'.targets target)
      ≡ (c.wire target ++ content (c.targets target)) ++ stlv.pack value
  pub packed : stlv.pack value ≢ []
  pub state : (c'.targets target).state ≡ (c.targets target).state
  pub send : c'.send ≡ (count_pkg c target pkg).send
  pub traffic : c'.traffic ≡ (count_pkg c target pkg).traffic

pub record Refused (stlv : Stlv) (c : Carrier) (target : ℕ) (value : List ℕ) (curr_ts : ℕ)
    (c' : Carrier) : Type 0 where
  pub stream :
      c'.wire target ++ content (c'.targets target) ≡ c.wire target ++ content (c.targets target)
  pub reason : NoRoom stlv value (c'.targets target)
  pub state : (c'.targets target).state ≡ (c.targets target).state
  pub send : c'.send ≡ (drop_for c target curr_ts).send
  pub traffic : c'.traffic ≡ (drop_for c target curr_ts).traffic

pub record Lost (c : Carrier) (target : ℕ) (c' : Carrier) : Type 0 where
  pub state : (c'.targets target).state ≡ not_connected
  pub empty : is_empty (c'.targets target) ≡ true
  pub send : c'.send ≡ c.send
  pub traffic : c'.traffic ≡ c.traffic

pub record Dispatched (stlv : Stlv) (c : Carrier) (target : ℕ) (pkg : Mem) (value : List ℕ)
    (curr_ts : ℕ) (c' : Carrier) : Type 0 where
  pub others : (a : ℕ) → a ≢ target → (c'.targets a ≡ c.targets a) × (c'.wire a ≡ c.wire a)
  pub sound : Sound c' target
  pub outcome :
      Forwarded stlv c target pkg value c'
      ⊎ Refused stlv c target value curr_ts c'
      ⊎ Lost c target c'

-- The list, by its growth and the target.
Scheduled-after :
    (c c' : Carrier) (target : ℕ)
    → Scheduled c
    → ((a : ℕ) → a ≢ target → c'.targets a ≡ c.targets a)
    → ((a : ℕ) → occurs a c.sending ≡ true → occurs a c'.sending ≡ true)
    → Listed c' target
    → Scheduled c'
Scheduled-after c c' target s others grows l a = elim (Bool-cases (a == target)) [
  | inl same ↦
      let at : a ≡ target = ground (arith, same) in
      λ busy.
        ap (λ x. occurs x c'.sending) at ∙ l (sym (ap (λ x. is_busy (c'.targets x)) at) ∙ busy)
  | inr other ↦ λ busy. grows a (s a (sym (ap is_busy (others a (ground (arith, other)))) ∙ busy))
]

none_empty : (t : Target) → Unbuilt t → is_empty t ≡ true
unfolding is_empty
none_empty t (n, len, h, l) = ground (arith, h, l)

module _ (stlv : Stlv) (c : Carrier) (target : ℕ) (pkg : Mem) (value : List ℕ) (curr_ts : ℕ)
    (s : Scheduled c) where
  Step-Sound :
      (c2 : Carrier) (extra : List ℕ) → Step c target extra c2 → Listed c2 target → Sound c2 target
  Step-Sound c2 extra st l = record {
    linked = st.linked;
    scheduled = Scheduled-after c c2 target s (λ a ne. (st.flow.others a ne).0) st.grows l;
    limits = st.limits;
    fit = inl st.built;
  }

  Closed-end : (c' : Carrier) → Closed c target c' → Dispatched stlv c target pkg value curr_ts c'
  Closed-end c' x = record {
    others = x.others;
    sound = record {
      linked = x.linked;
      scheduled =
          Scheduled-after c c' target s (λ a ne. (x.others a ne).0) x.grows
            (λ busy. absurd (cc (busy, none_idle (c'.targets target) x.unbuilt)));
      limits = x.limits;
      fit = inr x.unbuilt;
    };
    outcome = inr (
        inr (record {
          state = x.state;
          empty = none_empty (c'.targets target) x.unbuilt;
          send = x.counts.0;
          traffic = x.counts.1;
        }));
  }

  -- No buffer could be made.
  Bare-end :
      (c2 : Carrier)
      → Bare c target c2
      → Dispatched stlv c target pkg value curr_ts (drop_for c2 target curr_ts)
  Bare-end c2 x = record {
    others = x.flow.others;
    sound = record {
      linked = x.linked;
      scheduled =
          Scheduled-after c c2 target s (λ a ne. (x.flow.others a ne).0) x.grows
            (λ busy. absurd (cc (busy, none_idle (c2.targets target) x.unbuilt)));
      limits = x.limits;
      fit = inr x.unbuilt;
    };
    outcome = inr (
        inl (record {
          stream = x.flow.stream ∙ append-nil (c.wire target ++ content (c.targets target));
          reason = inl (omega (arith, x.unbuilt.1));
          state = x.flow.state;
          send = ap (λ t. note_drop t curr_ts) x.counts.0;
          traffic = ap (λ t. update t target (note_drop (t target) curr_ts)) x.counts.1;
        }));
  }

  saved_end :
      (c' : Carrier)
      → Delivered stlv c target pkg value c' ⊎ Dropped stlv c target value curr_ts c'
      → Dispatched stlv c target pkg value curr_ts c'
  saved_end c' (inl (c2, st, some_packed, l, e)) = rw e (record {
    others = st.flow.others;
    sound =
        let o = Step-Sound c2 (stlv.pack value) st l in
        record { linked = o.linked; scheduled = o.scheduled; limits = o.limits; fit = o.fit };
    outcome = inl (record {
      stream = st.flow.stream;
      packed = some_packed;
      state = st.flow.state;
      send =
          ap
            (λ t.
              if (load_head pkg).pkg_type == normal then note_pkg t (load_head pkg).data_len else t)
            st.counts.0;
      traffic =
          ap (λ t. update t target (note_pkg (t target) (load_head pkg).data_len)) st.counts.1;
    });
  })
  saved_end c' (inr (c2, st, reason, l, e)) = rw e (record {
    others = st.flow.others;
    sound =
        let o = Step-Sound c2 [] st l in
        record { linked = o.linked; scheduled = o.scheduled; limits = o.limits; fit = o.fit };
    outcome = inr (
        inl (record {
          stream = st.flow.stream ∙ append-nil (c.wire target ++ content (c.targets target));
          reason = reason;
          state = st.flow.state;
          send = ap (λ t. note_drop t curr_ts) st.counts.0;
          traffic = ap (λ t. update t target (note_drop (t target) curr_ts)) st.counts.1;
        }));
  })

  -- After steps that moved no bytes.
  saved_after :
      (c1 c' : Carrier)
      → Step c target [] c1
      → Delivered stlv c1 target pkg value c' ⊎ Dropped stlv c1 target value curr_ts c'
      → Dispatched stlv c target pkg value curr_ts c'
  saved_after c1 c' st (inl (c2, st2, some_packed, l, e)) =
      saved_end c' (inl (c2, Step-then c c1 c2 target (stlv.pack value) st st2, some_packed, l, e))
  saved_after c1 c' st (inr (c2, st2, reason, l, e)) =
      saved_end c' (inr (c2, Step-then c c1 c2 target [] st st2, reason, l, e))

data_len_some : (t : Target) → leb pack_len_max (data_len t) ≡ true → is_empty t ≡ false
unfolding data_len is_empty
data_len_some t due = ground (arith, due)

-- The part of dispatch_bridge for a target that was found and is connected, with a packer whose packs
-- are no longer than STLV_PACK_SAFE_LEN says, on a list that agrees with the flags and has every
-- connected target with data, and with limits below 2^30: whatever the memory, the socket and the
-- packer do, no other target and nothing of what its socket took is changed, and the list and the
-- buffer stay in order. The pack stands behind all bytes that went out or wait for the target, and is
-- counted; or it is dropped and counted, the stream as it was, and then the packer failed or the
-- buffer has no room for STLV_PACK_SAFE_LEN; or the connection was lost and the package is not counted.
pub send_pkg-Dispatched :
    (stlv : Stlv) (calloc_ok : ℕ → Bool) (out : Outside) (c : Carrier) (target : ℕ) (pkg : Mem)
    (n : ℕ)
    → IsSafe stlv
    → Sound c target
    → (is_empty (c.targets target) ≡ false → Socket out (c.targets target) target)
    → Dispatched stlv c target pkg
        (slice pkg 0 n)
        out.curr_ts
        (send_pkg stlv calloc_ok out c target pkg n)
unfolding send_pkg
send_pkg-Dispatched stlv calloc_ok out c target pkg n safe s socket =
    let value = slice pkg 0 n in
    let built = init_buff calloc_ok c target in
    let due = leb pack_len_max (data_len (built.0.targets target)) in
    let flushed = flush_first due built.0 out target in
    elim (init_buff_lem calloc_ok c target s.linked s.limits s.fit (s.scheduled target)) [
      | inr (bad, x) ↦ rw bad (Bare-end stlv c target pkg value out.curr_ts s.scheduled built.0 x)
      | inl (ok, st, l, same) ↦
          let ready : due ≡ true → Socket out (built.0.targets target) target = λ d.
            let some_left = data_len_some (built.0.targets target) d in
            let e = same some_left in rw e (socket (sym (ap is_empty e) ∙ some_left)) in
          elim (flush_first_lem due out built.0 target st.linked st.limits st.built l ready) [
            | inr (lost, x) ↦
                rw (ok, lost)
                  (Closed-end stlv c target pkg value out.curr_ts s.scheduled flushed.0
                    (Step-close c built.0 flushed.0 target [] st x))
            | inl (kept, st2, l2) ↦
                rw (ok, kept)
                  (saved_after stlv c target pkg value out.curr_ts s.scheduled flushed.0
                    (save_pkg stlv calloc_ok flushed.0 target pkg n out.curr_ts)
                    (Step-then c built.0 flushed.0 target [] st st2)
                    (save_pkg_lem stlv calloc_ok flushed.0 target pkg n out.curr_ts safe st2.linked
                      st2.limits st2.built l2))
          ]
    ]
