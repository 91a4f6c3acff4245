-- ===== src/Dispatch/Stages.antt =====
-- The parts of `dispatch_bridge` before the package is packed: the first buffer and the flush.
use proc_bridge.Base.{
  ℕ, ◌*◌, ◌≡◌, ◌⊎◌, refl, ap, sym, ◌∙◌, arith, Bool, true, false, not, [], ◌++◌, append_assoc,
  append-nil, leb, ◌==◌, is_zero, ltb_ℤ, pred_ℤ, pos, Bool-cases, inl, inr, zeroed,
}
use proc_bridge.Package.{pack_len_max}
use proc_bridge.Ring.Content.{bytes, bytes_same}
use proc_bridge.Target.{Target, Env, Flushed, is_empty, buff_of}
use proc_bridge.Target.Stream.{content, Streams, Takes, first_part, flush_target-Streams}
use proc_bridge.Target.Buffer.{expand_target_buff}
use proc_bridge.Carrier.{Carrier, close_target_fd, closed_target}
use proc_bridge.Sending.{Outside, append_sending_node, flush_carrier, flushed_carrier}
use proc_bridge.Sending.Linked.{Linked, is_busy}
use proc_bridge.Sending.Visit.{
  SameLink, flush_target-SameLink, flush_target_done, flush_target_limits, update_same,
  update_other, close_target_fd-same, close_target_fd-other, close_target_fd-wire, idle_empty,
  is_one,
}
use proc_bridge.Dispatch.{is_unbuilt, init_buff, after_flush, flush_first}
use proc_bridge.Dispatch.Step.{
  Built, Unbuilt, Limits, Step, Bare, Closed, Listed, Flow-none, put_target-Flow, put_target-Step,
  put_target-Linked, append-Step, Step-then, Step-close,
}

pub close_target_fd-Closed :
    (c : Carrier) (curr_ts target : ℕ)
    → Linked c
    → Limits c.env
    → Closed c target (close_target_fd c curr_ts target)
close_target_fd-Closed c curr_ts target k z =
    let e = close_target_fd-same c curr_ts target in
    record {
      others = λ a ne.
          (close_target_fd-other c curr_ts target a ne, close_target_fd-wire c curr_ts target a);
      state = ap (λ t. t.state) e;
      unbuilt = rw e (refl, refl, refl, refl);
      linked =
          unfold close_target_fd in
          put_target-Linked c target (closed_target (c.targets target) curr_ts) k refl;
      grows = λ a x. unfold close_target_fd in x;
      limits =
          unfold close_target_fd in record { max_fits = z.max_fits; block_fits = z.block_fits };
      counts = unfold close_target_fd in (refl, refl);
    }

-- What the sockets take is no more than they are given.
pub record Socket (out : Outside) (t : Target) (target : ℕ) : Type 0 where
  pub takes_first : Takes (out.first target) (first_part t)
  pub takes_second : Takes (out.second target) t.snd_tail

module _ (out : Outside) (c : Carrier) (target : ℕ) (k : Linked c) (z : Limits c.env)
    (b : Built (c.targets target)) (socket : Socket out (c.targets target) target) where
  f : Flushed
  f = flush_carrier c out target

  same : SameLink (c.targets target) f.target
  unfolding f
  same =
      unfold flush_carrier in
      flush_target-SameLink c.env (c.targets target) out.curr_ms (out.first target)
        (out.second target)

  streams : Streams (c.targets target) f
  unfolding f
  streams =
      let (m, e, o, l) = b in
      unfold flush_carrier in
      flush_target-Streams c.env (c.targets target) out.curr_ms (out.first target)
        (out.second target) o socket.takes_first socket.takes_second

  Limits-kept : Limits f.env
  unfolding f
  Limits-kept =
      let (x, y) =
        flush_target_limits c.env (c.targets target) out.curr_ms (out.first target)
          (out.second target) in
      unfold flush_carrier in
      record {
        max_fits = omega (arith, x, z.max_fits);
        block_fits = omega (arith, y, z.block_fits);
      }

  Built-kept : Built f.target
  Built-kept =
      let (m, e, o, l) = b in (m, same.buff ∙ e, streams.open_still, omega (arith, same.buff_len))

  flush-Step : Step c target [] (flushed_carrier c target f)
  flush-Step = record {
    flow = record {
      others = λ a ne. (
        update_other c.targets target f.target a ne,
        update_other c.wire target (c.wire target ++ f.wire) a ne,
      );
      stream =
          rw
            (
              update_same c.targets target f.target,
              update_same c.wire target (c.wire target ++ f.wire),
            )
            (append_assoc (c.wire target) f.wire (content f.target)
              ∙ ap (λ x. c.wire target ++ x) streams.kept
              ∙ sym (append-nil _));
      state = ap (λ t. t.state) (update_same c.targets target f.target) ∙ same.state;
    };
    linked = put_target-Linked c target f.target k same.in_append;
    grows = λ a x. x;
    limits = Limits-kept;
    counts = (refl, refl);
    built = rw (update_same c.targets target f.target) Built-kept;
  }

  -- After the flush the target is in the list, or has nothing left, or is closed.
  after_flush_lem :
      let r = after_flush (flushed_carrier c target f) out target f.ret in
      ((r.1 ≡ true) × Step c target [] r.0 × Listed r.0 target)
      ⊎ ((r.1 ≡ false) × Closed c target r.0)
  unfolding after_flush
  after_flush_lem =
      let c' = flushed_carrier c target f in
      let s = flush-Step in
      elim (Bool-cases (ltb_ℤ f.ret (pos 0))) [
        | inl bad ↦ rw bad (
            inr (
              refl,
              Step-close c c' (close_target_fd c' out.curr_ts target) target [] s
                  (close_target_fd-Closed c' out.curr_ts target s.linked s.limits),
            ))
        | inr good ↦ elim (Bool-cases (is_zero (pred_ℤ f.ret))) [
          | inl all ↦ rw (good, all) (inl (refl, s, λ busy. absurd (cc (busy, idle all))))
          | inr part ↦
              rw (good, part)
                (let a = append-Step c' target s.linked s.limits s.built in
                  inl (
                    refl,
                    Step-then c c' (append_sending_node c' target) target [] s a.0,
                    λ _. a.1,
                  ))
        ]
      ]
    where
      idle :
          is_zero (pred_ℤ f.ret) ≡ true
          → is_busy ((flushed_carrier c target f).targets target) ≡ false
      idle e =
          ap is_busy (update_same c.targets target f.target)
          ∙ idle_empty f.target (
              unfold f flush_carrier in
              flush_target_done c.env (c.targets target) out.curr_ms (out.first target)
                (out.second target) (is_one _ e))

-- A flush that is due.
pub flush_due_lem :
    (out : Outside) (c : Carrier) (target : ℕ)
    → Linked c
    → Limits c.env
    → Built (c.targets target)
    → Socket out (c.targets target) target
    → let r = flush_first true c out target in
      ((r.1 ≡ true) × Step c target [] r.0 × Listed r.0 target)
      ⊎ ((r.1 ≡ false) × Closed c target r.0)
unfolding flush_first
flush_due_lem out c target k z b socket = unfold f in after_flush_lem out c target k z b socket

-- The flush that comes before a package is packed, if it is due.
pub flush_first_lem :
    (due : Bool) (out : Outside) (c : Carrier) (target : ℕ)
    → Linked c
    → Limits c.env
    → Built (c.targets target)
    → Listed c target
    → (due ≡ true → Socket out (c.targets target) target)
    → let r = flush_first due c out target in
      ((r.1 ≡ true) × Step c target [] r.0 × Listed r.0 target)
      ⊎ ((r.1 ≡ false) × Closed c target r.0)
unfolding flush_first
flush_first_lem true out c target k z b l socket = flush_due_lem out c target k z b (socket refl)
flush_first_lem false out c target k z b l socket = inl (
  refl,
  record {
    flow = Flow-none c target;
    linked = k;
    grows = λ a x. x;
    limits = z;
    counts = (refl, refl);
    built = b;
  },
  l,
)

none_content : (t : Target) → Unbuilt t → content t ≡ []
none_content t (n, len, h, l) =
    (λ i. bytes 0 t.snd_buff_len (buff_of t) (h i) (l i))
    ∙ bytes_same 0 t.snd_buff_len (buff_of t) 0

pub none_idle : (t : Target) → Unbuilt t → is_busy t ≡ false
unfolding is_empty
none_idle t (n, len, h, l) = ground (arith, h, l)

-- The first buffer of a target.
expand_first :
    (calloc_ok : ℕ → Bool) (env : Env) (t : Target)
    → Unbuilt t
    → let r = expand_target_buff calloc_ok env t in
      (r.0.state ≡ t.state)
      × (r.0.in_append ≡ t.in_append)
      × (((ltb_ℤ r.1 (pos 0) ≡ false) × Built r.0 × (content r.0 ≡ []) × (is_empty r.0 ≡ true))
          ⊎ ((ltb_ℤ r.1 (pos 0) ≡ true) × Unbuilt r.0))
unfolding expand_target_buff is_empty
expand_first calloc_ok env t (n, len, h, l) =
    let unused : (t.snd_buff_len == 0) ≡ true = ground (arith, len) in
    elim (Bool-cases (leb env.max_expand_size t.snd_buff_len)) [
      | inl full ↦ rw full (refl, refl, inr (refl, (n, len, h, l)))
      | inr less ↦ elim (Bool-cases (calloc_ok (pack_len_max * 2))) [
        | inl ok ↦
            rw (less, unused, ok)
              (
                refl,
                refl,
                inl (
                  refl,
                  (
                    zeroed,
                    refl,
                    record { head_in = omega arith; tail_in = omega arith },
                    omega arith,
                  ),
                  bytes_same 0 (pack_len_max * 2) zeroed 0,
                  refl,
                ),
              )
        | inr no_memory ↦ rw (less, unused, no_memory) (refl, refl, inr (refl, (refl, len, h, l)))
      ]
    ]

pub init_buff_lem :
    (calloc_ok : ℕ → Bool) (c : Carrier) (target : ℕ)
    → Linked c
    → Limits c.env
    → Built (c.targets target) ⊎ Unbuilt (c.targets target)
    → Listed c target
    → let r = init_buff calloc_ok c target in
      ((r.1 ≡ true)
        × Step c target [] r.0
        × Listed r.0 target
        × (is_empty (r.0.targets target) ≡ false → r.0.targets target ≡ c.targets target))
      ⊎ ((r.1 ≡ false) × Bare c target r.0)
unfolding init_buff
init_buff_lem calloc_ok c target k z (inl b) l =
    let (m, e, o, len) = b in
    let there : is_unbuilt (c.targets target) (c.targets target).snd_buff ≡ false =
      ap (is_unbuilt (c.targets target)) e ∙ ground arith in
    rw there (
      inl (
        refl,
        record {
          flow = Flow-none c target;
          linked = k;
          grows = λ a x. x;
          limits = z;
          counts = (refl, refl);
          built = b;
        },
        l,
        λ _. refl,
      ))
init_buff_lem calloc_ok c target k z (inr u) l =
    let t = c.targets target in
    let e = expand_target_buff calloc_ok c.env t in
    let (st, flag, out) = expand_first calloc_ok c.env t u in
    let missing : is_unbuilt t t.snd_buff ≡ true = ap (is_unbuilt t) u.0 in
    rw missing (elim out [
      | inl (ok, b, bare, idle) ↦ inl (
        ap not ok,
        put_target-Step c target e.0 [] k z (bare ∙ sym (ap (λ x. x ++ []) (none_content t u))) st
            flag b,
        λ busy.
            absurd (cc (busy, ap is_busy (update_same c.targets target e.0), idle_empty e.0 idle)),
        λ x. absurd (cc (x, ap is_empty (update_same c.targets target e.0), idle)),
      )
      | inr (bad, u') ↦ inr (
        ap not bad,
        record {
          flow =
              put_target-Flow c target e.0 []
                (none_content e.0 u' ∙ sym (ap (λ x. x ++ []) (none_content t u))) st;
          linked = put_target-Linked c target e.0 k flag;
          grows = λ a x. x;
          limits = z;
          counts = (refl, refl);
          unbuilt = rw (update_same c.targets target e.0) u';
        },
      )
    ])
