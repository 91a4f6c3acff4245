-- ===== src/Dispatch/Step.antt =====
-- What a step on one target keeps: the stream of its bytes, the other targets, the list of those with
-- data, and the order of its buffer.
use proc_bridge.Base.{
  ℕ, ◌<◌, ◌≡◌, ◌≢◌, refl, ap, sym, ◌∙◌, arith, Bool, true, none, some, List, [], ◌++◌, append_assoc,
  append-nil, ◌==◌, Bool-cases, inl, inr, ◌^◌, Mem,
}
use proc_bridge.Target.{Target, Env, not_connected}
use proc_bridge.Target.Stream.{IsOpen, content}
use proc_bridge.Carrier.{Carrier}
use proc_bridge.Sending.{append_sending_node}
use proc_bridge.Sending.Linked.{occurs, Linked, is_busy, append_sending_node-Linked}
use proc_bridge.Sending.Visit.{update_same, update_other}
use proc_bridge.Dispatch.{put_target}

-- A buffer that is there and in order, and none.
abbrev pub Built : Target → Type 0
Built t = (m : Mem) × (t.snd_buff ≡ some m) × IsOpen t × (t.snd_buff_len < 2 ^ 32)

abbrev pub Unbuilt : Target → Type 0
Unbuilt t = (t.snd_buff ≡ none) × (t.snd_buff_len ≡ 0) × (t.snd_head ≡ 0) × (t.snd_tail ≡ 0)

-- The limits of the buffers leave room below 2^32.
pub record Limits (env : Env) : Type 0 where
  pub max_fits : env.max_expand_size < 2 ^ 30
  pub block_fits : env.block_snd_size < 2 ^ 30

-- The memory and the wires after a step: the bytes that the socket took and those that wait grow by
-- `extra` at the end, and nothing happens to another target.
pub record Flows (ts : ℕ → Target) (ws : ℕ → List ℕ) (target : ℕ) (extra : List ℕ)
    (ts' : ℕ → Target) (ws' : ℕ → List ℕ) : Type 0 where
  pub others : (a : ℕ) → a ≢ target → (ts' a ≡ ts a) × (ws' a ≡ ws a)
  pub stream : ws' target ++ content (ts' target) ≡ (ws target ++ content (ts target)) ++ extra
  pub state : (ts' target).state ≡ (ts target).state

abbrev pub Flow : Carrier → ℕ → List ℕ → Carrier → Type 0
Flow c target extra c' = Flows c.targets c.wire target extra c'.targets c'.wire

pub Flow-none : (c : Carrier) (target : ℕ) → Flow c target [] c
Flow-none c target = record {
  others = λ a ne. (refl, refl);
  stream = sym (append-nil (c.wire target ++ content (c.targets target)));
  state = refl;
}

pub Flow-then :
    (c c' c2 : Carrier) (target : ℕ) (extra : List ℕ)
    → Flow c target [] c'
    → Flow c' target extra c2
    → Flow c target extra c2
Flow-then c c' c2 target extra f g = record {
  others = λ a ne. ((g.others a ne).0 ∙ (f.others a ne).0, (g.others a ne).1 ∙ (f.others a ne).1);
  stream =
      g.stream
      ∙ ap (λ x. x ++ extra) (f.stream ∙ append-nil (c.wire target ++ content (c.targets target)));
  state = g.state ∙ f.state;
}

pub Flow-after :
    (c c' c2 : Carrier) (target : ℕ) (extra : List ℕ)
    → Flow c target extra c'
    → Flow c' target [] c2
    → Flow c target extra c2
Flow-after c c' c2 target extra f g = record {
  others = λ a ne. ((g.others a ne).0 ∙ (f.others a ne).0, (g.others a ne).1 ∙ (f.others a ne).1);
  stream = g.stream ∙ append-nil (c'.wire target ++ content (c'.targets target)) ∙ f.stream;
  state = g.state ∙ f.state;
}

-- A new value for the target whose bytes are those before and `extra`.
pub put_target-Flow :
    (c : Carrier) (target : ℕ) (t : Target) (extra : List ℕ)
    → content t ≡ content (c.targets target) ++ extra
    → t.state ≡ (c.targets target).state
    → Flow c target extra (put_target c target t)
put_target-Flow c target t extra e s = record {
  others = λ a ne. (update_other c.targets target t a ne, refl);
  stream = rw (update_same c.targets target t) (
      ap (λ x. c.wire target ++ x) e
      ∙ sym (append_assoc (c.wire target) (content (c.targets target)) extra));
  state = ap (λ x. x.state) (update_same c.targets target t) ∙ s;
}

pub put_target-Linked :
    (c : Carrier) (target : ℕ) (t : Target)
    → Linked c
    → t.in_append ≡ (c.targets target).in_append
    → Linked (put_target c target t)
put_target-Linked c target t k e = record {
  counted = k.counted;
  flags = λ a. elim (Bool-cases (a == target)) [
    | inl same ↦
        let at : a ≡ target = ground (arith, same) in
        rw same (e ∙ ap (λ x. (c.targets x).in_append) (sym at) ∙ k.flags a)
    | inr other ↦ rw other (k.flags a)
  ];
  distinct = k.distinct;
}

-- A step that leaves all in order.
pub record Step (c : Carrier) (target : ℕ) (extra : List ℕ) (c' : Carrier) : Type 0 where
  pub flow : Flow c target extra c'
  pub linked : Linked c'
  pub grows : (a : ℕ) → occurs a c.sending ≡ true → occurs a c'.sending ≡ true
  pub limits : Limits c'.env
  pub counts : (c'.send ≡ c.send) × (c'.traffic ≡ c.traffic)
  pub built : Built (c'.targets target)

-- The connection is given up, and the bytes that waited with it.
pub record Closed (c : Carrier) (target : ℕ) (c' : Carrier) : Type 0 where
  pub others : (a : ℕ) → a ≢ target → (c'.targets a ≡ c.targets a) × (c'.wire a ≡ c.wire a)
  pub state : (c'.targets target).state ≡ not_connected
  pub unbuilt : Unbuilt (c'.targets target)
  pub linked : Linked c'
  pub grows : (a : ℕ) → occurs a c.sending ≡ true → occurs a c'.sending ≡ true
  pub limits : Limits c'.env
  pub counts : (c'.send ≡ c.send) × (c'.traffic ≡ c.traffic)

-- There is no memory for a buffer, and nothing else changed.
pub record Bare (c : Carrier) (target : ℕ) (c' : Carrier) : Type 0 where
  pub flow : Flow c target [] c'
  pub linked : Linked c'
  pub grows : (a : ℕ) → occurs a c.sending ≡ true → occurs a c'.sending ≡ true
  pub limits : Limits c'.env
  pub counts : (c'.send ≡ c.send) × (c'.traffic ≡ c.traffic)
  pub unbuilt : Unbuilt (c'.targets target)

-- A target with data that its socket could take is in the list.
abbrev pub Listed : Carrier → ℕ → Type 0
Listed c target = is_busy (c.targets target) ≡ true → occurs target c.sending ≡ true

pub Step-then :
    (c c' c2 : Carrier) (target : ℕ) (extra : List ℕ)
    → Step c target [] c'
    → Step c' target extra c2
    → Step c target extra c2
Step-then c c' c2 target extra f g = record {
  flow = Flow-then c c' c2 target extra f.flow g.flow;
  linked = g.linked;
  grows = λ a e. g.grows a (f.grows a e);
  limits = g.limits;
  counts = (g.counts.0 ∙ f.counts.0, g.counts.1 ∙ f.counts.1);
  built = g.built;
}

pub Step-after :
    (c c' c2 : Carrier) (target : ℕ) (extra : List ℕ)
    → Step c target extra c'
    → Step c' target [] c2
    → Step c target extra c2
Step-after c c' c2 target extra f g = record {
  flow = Flow-after c c' c2 target extra f.flow g.flow;
  linked = g.linked;
  grows = λ a e. g.grows a (f.grows a e);
  limits = g.limits;
  counts = (g.counts.0 ∙ f.counts.0, g.counts.1 ∙ f.counts.1);
  built = g.built;
}

pub Step-close :
    (c c' c2 : Carrier) (target : ℕ) (extra : List ℕ)
    → Step c target extra c'
    → Closed c' target c2
    → Closed c target c2
Step-close c c' c2 target extra f g = record {
  others = λ a ne.
      ((g.others a ne).0 ∙ (f.flow.others a ne).0, (g.others a ne).1 ∙ (f.flow.others a ne).1);
  state = g.state;
  unbuilt = g.unbuilt;
  linked = g.linked;
  grows = λ a e. g.grows a (f.grows a e);
  limits = g.limits;
  counts = (g.counts.0 ∙ f.counts.0, g.counts.1 ∙ f.counts.1);
}

-- A new value for the target, with the same flag.
pub put_target-Step :
    (c : Carrier) (target : ℕ) (t : Target) (extra : List ℕ)
    → Linked c
    → Limits c.env
    → content t ≡ content (c.targets target) ++ extra
    → t.state ≡ (c.targets target).state
    → t.in_append ≡ (c.targets target).in_append
    → Built t
    → Step c target extra (put_target c target t)
put_target-Step c target t extra k z e s flag b = record {
  flow = put_target-Flow c target t extra e s;
  linked = put_target-Linked c target t k flag;
  grows = λ a x. x;
  limits = z;
  counts = (refl, refl);
  built = rw (update_same c.targets target t) b;
}

-- The target after it was put into the list.
pub append_target :
    (c : Carrier) (target : ℕ)
    → (append_sending_node c target).targets target ≡ record (c.targets target) { in_append = true }
unfolding append_sending_node
append_target c target = elim (Bool-cases (c.targets target).in_append) [
  | inl there ↦ rw there (λ i. record (c.targets target) { in_append = there i })
  | inr new ↦ rw new (update_same c.targets target (record (c.targets target) { in_append = true }))
]

pub append_other :
    (c : Carrier) (target a : ℕ)
    → a ≢ target
    → (append_sending_node c target).targets a ≡ c.targets a
unfolding append_sending_node
append_other c target a ne = elim (Bool-cases (c.targets target).in_append) [
  | inl there ↦ rw there refl
  | inr new ↦
      rw new (update_other c.targets target (record (c.targets target) { in_append = true }) a ne)
]

pub append_rest :
    (c : Carrier) (target : ℕ)
    → let c' = append_sending_node c target in
      (c'.wire ≡ c.wire) × (c'.env ≡ c.env) × (c'.send ≡ c.send) × (c'.traffic ≡ c.traffic)
unfolding append_sending_node
append_rest c target = elim (Bool-cases (c.targets target).in_append) [
  | inl there ↦ rw there (refl, refl, refl, refl)
  | inr new ↦ rw new (refl, refl, refl, refl)
]

same_buffer : (t : Target) (flag : Bool) → Built t → Built (record t { in_append = flag })
same_buffer t flag (m, e, o, l) = (m, e, record { head_in = o.head_in; tail_in = o.tail_in }, l)

pub append-Step :
    (c : Carrier) (target : ℕ)
    → Linked c
    → Limits c.env
    → Built (c.targets target)
    → let c' = append_sending_node c target in
      Step c target [] c' × (occurs target c'.sending ≡ true)
append-Step c target k z b =
    let e = append_target c target in
    let l = append_sending_node-Linked c target k in
    let r = append_rest c target in
    (
      record {
        flow = record {
          others = λ a ne. (append_other c target a ne, ap (λ w. w a) r.0);
          stream = rw (e, ap (λ w. w target) r.0) (sym (append-nil _));
          state = ap (λ t. t.state) e;
        };
        linked = l.0;
        grows = λ a x. l.1 a ∙ ground (arith, x);
        limits = rw r.1 z;
        counts = (r.2, r.3);
        built = rw e (same_buffer (c.targets target) true b);
      },
      l.1 target ∙ ground arith,
    )
