-- ===== src/Dispatch/Expand.antt =====
-- The expansion of a buffer on the way of a package.
use proc_bridge.Base.{
  ℕ, ◌<◌, ◌≡◌, refl, ap, sym, ◌∙◌, arith, Bool, true, false, ◌&&◌, ◌-◌, some, [], append-nil, ltb,
  leb, ◌==◌, ltb_ℤ, pos, Bool-cases, inl, inr, ◌^◌, Mem,
}
use proc_bridge.Target.{Target, Env, buff_of, mem_of}
use proc_bridge.Target.Stream.{content}
use proc_bridge.Target.Grow.{add_int-of_small, expand_target_buff-Expanded}
use proc_bridge.Target.Buffer.{
  expand_target_buff, expand_copy, relocate, move_data, grown_len, next_len,
}
use proc_bridge.Carrier.{Carrier}
use proc_bridge.Sending.Linked.{Linked}
use proc_bridge.Dispatch.{put_target}
use proc_bridge.Dispatch.Step.{Built, Limits, Step, put_target-Step}

-- Below the limits no buffer comes near 2^32.
grown_len-lt :
    (env : Env) (len : ℕ) → Limits env → len < env.max_expand_size → grown_len env len < 2 ^ 32
unfolding grown_len
grown_len-lt env len z h =
    elim (Bool-cases (
      leb env.max_expand_size (next_len len)
      && ltb (next_len len - env.max_expand_size) env.block_snd_size)) [
        | inl near ↦
            rw
              (
                near,
                add_int-of_small (next_len len)
                    (env.block_snd_size - (next_len len - env.max_expand_size))
                    (omega (arith, z.block_fits)) (ground (arith, z.max_fits)),
              )
              (ground (arith, near, z.max_fits, z.block_fits))
        | inr far ↦ rw far (ground (arith, z.max_fits))
      ]

relocate_shape :
    (t : Target) (m : Mem) (new_len : ℕ)
    → let t' = relocate t m new_len in
      (t'.state ≡ t.state)
      × (t'.in_append ≡ t.in_append)
      × (t'.snd_buff ≡ some (buff_of t'))
      × (t'.snd_buff_len ≡ new_len)
unfolding relocate move_data
relocate_shape t m new_len = ground arith

expand_shape :
    (calloc_ok : ℕ → Bool) (env : Env) (t : Target) (m : Mem)
    → Limits env
    → t.snd_buff ≡ some m
    → 0 < t.snd_buff_len
    → t.snd_buff_len < 2 ^ 32
    → let t' = (expand_target_buff calloc_ok env t).0 in
      (t'.state ≡ t.state)
      × (t'.in_append ≡ t.in_append)
      × (t'.snd_buff ≡ some (buff_of t'))
      × (t'.snd_buff_len < 2 ^ 32)
unfolding expand_target_buff
expand_shape calloc_ok env t m z e some_len fits =
    let there : t.snd_buff ≡ some (buff_of t) = e ∙ ap (λ x. some (mem_of x)) (sym e) in
    let used_len : (t.snd_buff_len == 0) ≡ false = ground arith in
    elim (Bool-cases (leb env.max_expand_size t.snd_buff_len)) [
      | inl full ↦ rw full (refl, refl, there, fits)
      | inr less ↦ elim (Bool-cases (calloc_ok (grown_len env t.snd_buff_len))) [
        | inl ok ↦
            let (a, b, c, d) = relocate_shape t m (grown_len env t.snd_buff_len) in
            let copy : expand_copy t t.snd_buff (grown_len env t.snd_buff_len)
                ≡ relocate t m (grown_len env t.snd_buff_len) =
              unfold expand_copy in ap (λ x. expand_copy t x (grown_len env t.snd_buff_len)) e in
            let short = grown_len-lt env t.snd_buff_len z (ground (arith, less)) in
            rw (less, used_len, ok, copy) (a, b, c, omega (arith, d, short))
        | inr no_memory ↦ rw (less, used_len, no_memory) (refl, refl, there, fits)
      ]
    ]

pub expand-Step :
    (calloc_ok : ℕ → Bool) (c : Carrier) (target : ℕ)
    → Linked c
    → Limits c.env
    → Built (c.targets target)
    → let e = expand_target_buff calloc_ok c.env (c.targets target) in
      Step c target [] (put_target c target e.0)
      × (ltb_ℤ e.1 (pos 0) ≡ true → e.0 ≡ c.targets target)
expand-Step calloc_ok c target k z b =
    let (m, there, o, l) = b in
    let t = c.targets target in
    let e = expand_target_buff calloc_ok c.env t in
    let some_len : 0 < t.snd_buff_len = omega (arith, o.head_in) in
    let (st, flag, buff, len) = expand_shape calloc_ok c.env t m z there some_len l in
    let x =
      expand_target_buff-Expanded calloc_ok c.env t m o
        (record {
          max_fits = omega (arith, z.max_fits);
          block_fits = omega (arith, z.block_fits);
          len_fits = l;
        })
        there in
    (
      put_target-Step c target e.0 [] k z (x.kept ∙ sym (append-nil (content t))) st flag
          (buff_of e.0, buff, x.open_still, len),
      λ bad. elim x.outcome [
        | inl (r, same) ↦ same
        | inr (r, longer, past) ↦ absurd (cc (bad, ap (λ y. ltb_ℤ y (pos 0)) r))
      ],
    )
