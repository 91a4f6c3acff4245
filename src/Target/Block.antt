-- ===== src/Target/Block.antt =====
-- The blocking of a peer by `flush_target`: the flag of the target and the bit in the hub.
use proc_bridge.Base.{
  ℕ, ◌+◌, ◌%◌, ◌<◌, ◌≡◌, ◌≢◌, refl, ◌∙◌, arith, Bool, true, false, leb, ◌==◌, if◌then◌else◌, ℤ, pos,
  List,
}
use proc_bridge.Hub.{IsHub, max_scale, get_snd_bit}
use proc_bridge.Hub.Bitmap.{
  get_snd_bit-set_snd_bit, get_snd_bit-clr_snd_bit, set_snd_bit-IsHub, clr_snd_bit-IsHub,
}
use proc_bridge.Target.{
  Target, Env, Sent, again, failed, sent, Flushed, block, unblock, block_if_full, check_block,
  unblock_if_set, note_delay, all_sent, part_sent, flush_target_1, flush_second, flush_target_2,
  flush_target,
}

-- What `get_snd_bit` can show of a peer: an id that is 7 modulo 8 never shows as blocked.
abbrev pub shown : (id : ℕ) → Bool → ℤ
shown id blocked = if blocked then (if id % 8 == 7 then pos 0 else pos 1) else pos 0

-- The flag of a target and the bit of the hub say the same.
pub record Synced (env : Env) (t : Target) : Type 0 where
  pub valid : IsHub env.hub
  pub id_fits : t.proc_id < max_scale
  pub bit : get_snd_bit env.hub t.proc_id ≡ shown t.proc_id t.snd_block

-- The state of another step for the same peer: it agrees with itself, and no other peer's bit
-- changed.
pub record Steady (env : Env) (t : Target) (env' : Env) (t' : Target) : Type 0 where
  pub synced : Synced env' t'
  pub same_id : t'.proc_id ≡ t.proc_id
  pub others :
      (j : ℕ) → j < max_scale → j ≢ t.proc_id → get_snd_bit env'.hub j ≡ get_snd_bit env.hub j

steady : (env : Env) (t : Target) → Synced env t → Steady env t env t
steady env t s = record { synced = s; same_id = refl; others = λ j _ _. refl }

block-Steady :
    (env : Env) (t : Target) → Synced env t → Steady env t (block env t).0 (block env t).1
block-Steady env t s = record {
  synced = record {
    valid = set_snd_bit-IsHub env.hub t.proc_id s.valid;
    id_fits = s.id_fits;
    bit =
        get_snd_bit-set_snd_bit env.hub t.proc_id t.proc_id s.valid s.id_fits s.id_fits
        ∙ ground arith;
  };
  same_id = refl;
  others = λ j hj ne.
      get_snd_bit-set_snd_bit env.hub t.proc_id j s.valid s.id_fits hj ∙ ground (arith, ne);
}

unblock-Steady :
    (env : Env) (t : Target) → Synced env t → Steady env t (unblock env t).0 (unblock env t).1
unblock-Steady env t s = record {
  synced = record {
    valid = clr_snd_bit-IsHub env.hub t.proc_id s.valid;
    id_fits = s.id_fits;
    bit =
        get_snd_bit-clr_snd_bit env.hub t.proc_id t.proc_id s.valid s.id_fits s.id_fits
        ∙ ground arith;
  };
  same_id = refl;
  others = λ j hj ne.
      get_snd_bit-clr_snd_bit env.hub t.proc_id j s.valid s.id_fits hj ∙ ground (arith, ne);
}

-- A target that differs in neither the id nor the flag.
abbrev SameFlag : Target → Target → Type 0
SameFlag t t' = (t'.proc_id ≡ t.proc_id) × (t'.snd_block ≡ t.snd_block)

Synced-SameFlag : (env : Env) (t t' : Target) → SameFlag t t' → Synced env t → Synced env t'
Synced-SameFlag env t t' (i, b) s = record {
  valid = s.valid;
  id_fits = omega (arith, s.id_fits);
  bit = rw (i, b) s.bit;
}

Steady-SameFlag :
    (env env' : Env) (t t' t2 : Target)
    → SameFlag t t'
    → Steady env t' env' t2
    → Steady env t env' t2
Steady-SameFlag env env' t t' t2 (i, b) s = record {
  synced = s.synced;
  same_id = s.same_id ∙ i;
  others = λ j hj ne. s.others j hj (λ e. ne (e ∙ i));
}

-- Both branches of a test.
either-Steady :
    (env : Env) (t : Target) (b : Bool) (x y : Env × Target)
    → Steady env t x.0 x.1
    → Steady env t y.0 y.1
    → let r = if b then x else y in Steady env t r.0 r.1
either-Steady env t true x y p q = p
either-Steady env t false x y p q = q

module _ (env : Env) (t : Target) (s : Synced env t) where
  block_if_full-Steady : (e : ℕ) → let r = block_if_full env t e in Steady env t r.0 r.1
  unfolding block_if_full
  block_if_full-Steady e = either-Steady env t _ _ _ (block-Steady env t s) (steady env t s)

  check_block-Steady : (e : ℕ) → let r = check_block env t e in Steady env t r.0 r.1
  unfolding check_block
  check_block-Steady e =
      either-Steady env t (leb env.max_expand_size t.snd_buff_len) _ _
        (either-Steady env t t.snd_block _ _
          (either-Steady env t (leb env.block_snd_size e) _ _ (unblock-Steady env t s)
            (steady env t s))
          (either-Steady env t (leb e env.block_snd_size) _ _ (block-Steady env t s)
            (steady env t s)))
        (steady env t s)

  unblock_if_set-Steady : let r = unblock_if_set env t in Steady env t r.0 r.1
  unfolding unblock_if_set
  unblock_if_set-Steady = either-Steady env t _ _ _ (unblock-Steady env t s) (steady env t s)

note_delay-SameFlag : (t : Target) (ms : ℕ) → SameFlag t (note_delay t ms)
unfolding note_delay
note_delay-SameFlag t ms = ground arith

all_sent-SameFlag : (t : Target) (ms k : ℕ) → SameFlag t (all_sent t ms k)
all_sent-SameFlag t ms k = note_delay-SameFlag (record t { snd_head = t.snd_tail }) ms

module _ (env : Env) (t : Target) (s : Synced env t) where
  all_sent-Steady :
      (ms k : ℕ) → let r = unblock_if_set env (all_sent t ms k) in Steady env t r.0 r.1
  all_sent-Steady ms k =
      let a = all_sent-SameFlag t ms k in
      Steady-SameFlag env _ t (all_sent t ms k) _ a
        (unblock_if_set-Steady env (all_sent t ms k) (Synced-SameFlag env t _ a s))

  part_sent-Steady :
      (head ms k e : ℕ) → let r = check_block env (part_sent t head ms k) e in Steady env t r.0 r.1
  part_sent-Steady head ms k e =
      Steady-SameFlag env _ t (part_sent t head ms k) _ (refl, refl)
        (check_block-Steady env (part_sent t head ms k)
          (Synced-SameFlag env t (part_sent t head ms k) (refl, refl) s) e)

-- The same for a result of a flush.
abbrev SteadyAfter : Env → Target → Flushed → Type 0
SteadyAfter env t f = Steady env t f.env f.target

choose :
    (env : Env) (t : Target) (b : Bool) (f g : Flushed)
    → SteadyAfter env t f
    → SteadyAfter env t g
    → SteadyAfter env t (if b then f else g)
choose env t true f g p q = p
choose env t false f g p q = q

flush_target_1-Steady :
    (env : Env) (t : Target) (ms : ℕ) (s : Sent)
    → Synced env t
    → SteadyAfter env t (flush_target_1 env t ms s)
unfolding flush_target_1
flush_target_1-Steady env t ms again y = block_if_full-Steady env t y _
flush_target_1-Steady env t ms failed y = steady env t y
flush_target_1-Steady env t ms (sent n) y =
    choose env t _ _ _ (all_sent-Steady env t y ms n) (part_sent-Steady env t y _ ms n _)

flush_second-Steady :
    (env : Env) (t : Target) (ms done : ℕ) (wire : List ℕ) (s : Sent)
    → Synced env t
    → SteadyAfter env t (flush_second env t ms done wire s)
unfolding flush_second
flush_second-Steady env t ms done wire again y = block_if_full-Steady env t y _
flush_second-Steady env t ms done wire failed y = steady env t y
flush_second-Steady env t ms done wire (sent n) y =
    choose env t _ _ _ (all_sent-Steady env t y ms (n + done))
      (part_sent-Steady env t y _ ms (n + done) _)

flush_target_2-Steady :
    (env : Env) (t : Target) (ms : ℕ) (s r : Sent)
    → Synced env t
    → SteadyAfter env t (flush_target_2 env t ms s r)
unfolding flush_target_2
flush_target_2-Steady env t ms again r y = block_if_full-Steady env t y _
flush_target_2-Steady env t ms failed r y = steady env t y
flush_target_2-Steady env t ms (sent n) r y =
    choose env t _ _ _
      (Steady-SameFlag env _ t (part_sent t 0 ms n) _ (refl, refl)
        (flush_second-Steady env (part_sent t 0 ms n) ms n _ r
          (Synced-SameFlag env t (part_sent t 0 ms n) (refl, refl) y)))
      (part_sent-Steady env t y _ ms n _)

-- flush_target keeps the flag snd_block of a target and the bit of its peer in the hub in step
-- (the id below 80000, a bit 7 never showing), keeps the hub valid, and changes the bit of no
-- other peer.
pub flush_target-Steady :
    (env : Env) (t : Target) (ms : ℕ) (first second : Sent)
    → Synced env t
    → SteadyAfter env t (flush_target env t ms first second)
unfolding flush_target
flush_target-Steady env t ms first second y = choose env t _ _ _ (steady env t y) (
    choose env t _ _ _ (flush_target_1-Steady env t ms first y)
      (flush_target_2-Steady env t ms first second y))
