-- ===== src/Sending/Visit.antt =====
-- One target of the list, as the loop of `iter_sending_list` serves it.
use proc_bridge.Base.{
  ℕ, ◌≡◌, ◌≢◌, ◌⊎◌, refl, ap, ◌∙◌, arith, Bool, true, false, not, List, ◌++◌, append_assoc,
  Bool-cases, inl, inr, ltb_ℤ, is_zero, pred_ℤ, ℤ, pos, negsuc, minus_one,
}
use proc_bridge.Target.{
  Target, Env, not_connected, Sent, again, failed, sent, Flushed, is_empty, flush_target,
  flush_target_1, flush_target_2, flush_second, block_if_full, check_block, unblock_if_set,
  note_delay,
}
use proc_bridge.Target.Stream.{IsOpen, content, Takes, first_part, Streams, flush_target-Streams}
use proc_bridge.Carrier.{Carrier, update, is_connected, close_target_fd, closed_target}
use proc_bridge.Sending.{Outside, flushed_carrier, flush_carrier, settle, visit}
use proc_bridge.Sending.Linked.{is_busy}

-- What a flush leaves alone.
pub record SameLink (t t' : Target) : Type 0 where
  pub state : t'.state ≡ t.state
  pub proc_id : t'.proc_id ≡ t.proc_id
  pub fd : t'.fd ≡ t.fd
  pub in_append : t'.in_append ≡ t.in_append
  pub buff_len : t'.snd_buff_len ≡ t.snd_buff_len
  pub buff : t'.snd_buff ≡ t.snd_buff

pub flush_target-SameLink :
    (env : Env) (t : Target) (ms : ℕ) (s r : Sent) → SameLink t (flush_target env t ms s r).target
unfolding flush_target flush_target_1 flush_target_2 flush_second block_if_full check_block
    unblock_if_set note_delay
flush_target-SameLink env t ms again again = ground arith
flush_target-SameLink env t ms again failed = ground arith
flush_target-SameLink env t ms again (sent k) = ground arith
flush_target-SameLink env t ms failed r = ground arith
flush_target-SameLink env t ms (sent n) again = ground arith
flush_target-SameLink env t ms (sent n) failed = ground arith
flush_target-SameLink env t ms (sent n) (sent k) = ground arith

-- Nor does it change the limits.
pub flush_target_limits :
    (env : Env) (t : Target) (ms : ℕ) (s r : Sent)
    → let f = flush_target env t ms s r in
      (f.env.max_expand_size ≡ env.max_expand_size) × (f.env.block_snd_size ≡ env.block_snd_size)
unfolding flush_target flush_target_1 flush_target_2 flush_second block_if_full check_block
    unblock_if_set
flush_target_limits env t ms again again = ground arith
flush_target_limits env t ms again failed = ground arith
flush_target_limits env t ms again (sent k) = ground arith
flush_target_limits env t ms failed r = ground arith
flush_target_limits env t ms (sent n) again = ground arith
flush_target_limits env t ms (sent n) failed = ground arith
flush_target_limits env t ms (sent n) (sent k) = ground arith

-- All was sent where it returns 1.
pub flush_target_done :
    (env : Env) (t : Target) (ms : ℕ) (s r : Sent)
    → (flush_target env t ms s r).ret ≡ pos 1
    → is_empty (flush_target env t ms s r).target ≡ true
unfolding flush_target flush_target_1 flush_target_2 flush_second block_if_full check_block
    unblock_if_set note_delay is_empty
flush_target_done env t ms again again = ground arith
flush_target_done env t ms again failed = ground arith
flush_target_done env t ms again (sent k) = ground arith
flush_target_done env t ms failed r = ground arith
flush_target_done env t ms (sent n) again = ground arith
flush_target_done env t ms (sent n) failed = ground arith
flush_target_done env t ms (sent n) (sent k) = ground arith

-- What serving a target may do: the bytes that wait go out from the front, or the connection is
-- closed and its bytes are gone.
pub record Served (t t' : Target) (out out' : List ℕ) : Type 0 where
  pub outcome :
      ((t'.state ≡ t.state) × (out' ++ content t' ≡ out ++ content t))
      ⊎ ((t'.state ≡ not_connected) × (t'.fd ≡ minus_one) × (is_empty t' ≡ true))
  pub open_still : is_empty t' ≡ false → IsOpen t'

-- The buffer is in order, and the socket takes no more than it is given.
pub record Ready (out : Outside) (t : Target) (target : ℕ) : Type 0 where
  pub open_target : is_empty t ≡ false → IsOpen t
  pub takes_first : is_empty t ≡ false → Takes (out.first target) (first_part t)
  pub takes_second : Takes (out.second target) t.snd_tail

pub record Visited (del : Bool) (c : Carrier) (target : ℕ) (c' : Carrier) (stay : Bool)
    : Type 0 where
  pub others : (a : ℕ) → a ≢ target → (c'.targets a ≡ c.targets a) × (c'.wire a ≡ c.wire a)
  pub served : Served (c.targets target) (c'.targets target) (c.wire target) (c'.wire target)
  pub flag : (c'.targets target).in_append ≡ (c.targets target).in_append
  pub stays : stay ≡ true → (is_connected (c'.targets target).state ≡ true) × (del ≡ false)
  pub leaves : stay ≡ false → del ≡ false → is_busy (c'.targets target) ≡ false

pub update_same {ℓ} : {A : Type ℓ} (f : ℕ → A) (a : ℕ) (x : A) → update f a x a ≡ x
update_same f a x = ground arith

pub update_other {ℓ} :
    {A : Type ℓ} (f : ℕ → A) (a : ℕ) (x : A) (i : ℕ) → i ≢ a → update f a x i ≡ f i
update_other f a x i ne = ground arith

-- A target that nothing is done to.
untouched :
    (del : Bool) (c : Carrier) (target : ℕ)
    → (is_empty (c.targets target) ≡ false → IsOpen (c.targets target))
    → is_busy (c.targets target) ≡ false
    → Visited del c target c false
untouched del c target o idle = record {
  others = λ a ne. (refl, refl);
  served = record { outcome = inl (refl, refl); open_still = o };
  flag = refl;
  stays = λ e. cc;
  leaves = λ _ _. idle;
}

pub close_target_fd-same :
    (c : Carrier) (curr_ts target : ℕ)
    → (close_target_fd c curr_ts target).targets target ≡ closed_target (c.targets target) curr_ts
unfolding close_target_fd
close_target_fd-same c curr_ts target =
    update_same c.targets target (closed_target (c.targets target) curr_ts)

pub close_target_fd-other :
    (c : Carrier) (curr_ts target a : ℕ)
    → a ≢ target
    → (close_target_fd c curr_ts target).targets a ≡ c.targets a
unfolding close_target_fd
close_target_fd-other c curr_ts target a ne =
    update_other c.targets target (closed_target (c.targets target) curr_ts) a ne

pub close_target_fd-wire :
    (c : Carrier) (curr_ts target a : ℕ) → (close_target_fd c curr_ts target).wire a ≡ c.wire a
unfolding close_target_fd
close_target_fd-wire c curr_ts target a = refl

closed-Served :
    (t t' : Target) (curr_ts : ℕ) (out out' : List ℕ) → Served t (closed_target t' curr_ts) out out'
unfolding is_empty
closed-Served t t' curr_ts out out' = record {
  outcome = inr (refl, refl, refl);
  open_still = λ e. cc;
}

closed_idle : (t : Target) (curr_ts : ℕ) → is_busy (closed_target t curr_ts) ≡ false
closed_idle t curr_ts = refl

module _ (del : Bool) (c : Carrier) (target : ℕ) (f : Flushed)
    (same : SameLink (c.targets target) f.target) where
  -- The connection is closed.
  closed_Visited :
      (curr_ts : ℕ)
      → Visited del c target (close_target_fd (flushed_carrier c target f) curr_ts target) false
  closed_Visited curr_ts =
      let c' = flushed_carrier c target f in
      let e = close_target_fd-same c' curr_ts target in
      record {
        others = λ a ne. (
          close_target_fd-other c' curr_ts target a ne
              ∙ update_other c.targets target f.target a ne,
          close_target_fd-wire c' curr_ts target a
              ∙ update_other c.wire target (c.wire target ++ f.wire) a ne,
        );
        served =
            rw e (closed-Served (c.targets target) (c'.targets target) curr_ts (c.wire target) _);
        flag =
            ap (λ t. t.in_append) e
            ∙ ap (λ t. t.in_append) (update_same c.targets target f.target)
            ∙ same.in_append;
        stays = λ x. cc;
        leaves = λ _ _. ap is_busy e ∙ closed_idle (c'.targets target) curr_ts;
      }

  -- The flush did its part.
  flushed_Visited :
      (stay : Bool)
      → Streams (c.targets target) f
      → (stay ≡ true → (is_connected (c.targets target).state ≡ true) × (del ≡ false))
      → (stay ≡ false → del ≡ false → is_busy f.target ≡ false)
      → Visited del c target (flushed_carrier c target f) stay
  flushed_Visited stay s st lv = record {
    others = λ a ne. (
      update_other c.targets target f.target a ne,
      update_other c.wire target (c.wire target ++ f.wire) a ne,
    );
    served =
        rw
          (
            update_same c.targets target f.target,
            update_same c.wire target (c.wire target ++ f.wire),
          )
          (record {
            outcome = inl (
              same.state,
              append_assoc (c.wire target) f.wire (content f.target)
                  ∙ ap (λ x. c.wire target ++ x) s.kept,
            );
            open_still = λ _. s.open_still;
          });
    flag = ap (λ t. t.in_append) (update_same c.targets target f.target) ∙ same.in_append;
    stays = λ e. (
      ap (λ t. is_connected t.state) (update_same c.targets target f.target)
          ∙ ap is_connected same.state
          ∙ (st e).0,
      (st e).1,
    );
    leaves = λ e d. ap is_busy (update_same c.targets target f.target) ∙ lv e d;
  }

pub idle_empty : (t : Target) → is_empty t ≡ true → is_busy t ≡ false
idle_empty t e = ground (arith, e)

pub is_one : (r : ℤ) → is_zero (pred_ℤ r) ≡ true → r ≡ pos 1
is_one (pos n) e = ground (arith, e)
is_one (negsuc n) e = ground (arith, e)

-- The branches by the return value.
flush_Visited :
    (del : Bool) (out : Outside) (c : Carrier) (target : ℕ)
    → is_connected (c.targets target).state ≡ true
    → is_empty (c.targets target) ≡ false
    → Ready out (c.targets target) target
    → let f = flush_carrier c out target in
      let r = settle del out (flushed_carrier c target f) target f.ret in
      Visited del c target r.0 r.1
unfolding settle
flush_Visited del out c target up some_left ready =
    elim (Bool-cases (ltb_ℤ (flush_carrier c out target).ret (pos 0))) [
      | inl bad ↦ rw bad (closed_Visited del c target (flush_carrier c out target) same out.curr_ts)
      | inr good ↦ elim (Bool-cases (is_zero (pred_ℤ (flush_carrier c out target).ret))) [
        | inl all ↦
            rw (good, all)
              (flushed_Visited del c target (flush_carrier c out target) same false streams
                (λ e. cc) (λ _ _. idle_empty (flush_carrier c out target).target (done all)))
        | inr part ↦
            rw (good, part)
              (flushed_Visited del c target (flush_carrier c out target) same (not del) streams
                (λ e. (up, not_true del e)) (λ e d. cc (e, ap not d)))
      ]
    ]
  where
    same : SameLink (c.targets target) (flush_carrier c out target).target
    same =
        unfold flush_carrier in
        flush_target-SameLink c.env (c.targets target) out.curr_ms (out.first target)
          (out.second target)

    streams : Streams (c.targets target) (flush_carrier c out target)
    streams =
        unfold flush_carrier in
        flush_target-Streams c.env (c.targets target) out.curr_ms (out.first target)
          (out.second target) (ready.open_target some_left) (ready.takes_first some_left)
          ready.takes_second

    done :
        is_zero (pred_ℤ (flush_carrier c out target).ret) ≡ true
        → is_empty (flush_carrier c out target).target ≡ true
    done e =
        unfold flush_carrier in
        flush_target_done c.env (c.targets target) out.curr_ms (out.first target)
          (out.second target) (is_one _ e)

    not_true : (b : Bool) → not b ≡ true → b ≡ false
    not_true true e = cc
    not_true false e = refl

-- The body of the loop of iter_sending_list on a target that is in order.
pub visit-Visited :
    (del : Bool) (out : Outside) (c : Carrier) (target : ℕ)
    → Ready out (c.targets target) target
    → let r = visit del out c target in Visited del c target r.0 r.1
unfolding visit
visit-Visited del out c target ready = elim (Bool-cases (is_connected (c.targets target).state)) [
  | inr lost ↦ rw lost (untouched del c target ready.open_target (rw lost refl))
  | inl up ↦ elim (Bool-cases (is_empty (c.targets target))) [
    | inl none_left ↦
        rw (up, none_left) (untouched del c target ready.open_target (rw (none_left, up) refl))
    | inr some_left ↦ rw (up, some_left) (flush_Visited del out c target up some_left ready)
  ]
]
