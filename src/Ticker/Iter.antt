-- ===== src/Ticker/Iter.antt =====
-- The tickers that are due are called, once each and in their order, and the list is in order after.
use proc_bridge.Base.{
  ℕ, ◌+◌, ◌<◌, ◌≡◌, ◌⊎◌, refl, ap, sym, ◌∙◌, inl, inr, arith, Bool, true, false, ◌||◌, List, [],
  ◌∷◌, length, ltb, leb, ◌==◌, if◌then◌else◌, Bool-cases,
}
use proc_bridge.Ticker.{
  TimeTicker, TickList, single_shot, sooner, reset_ticker, iter_each, far_ms, iter_time_ticker,
  append_carrier_ticker,
}

-- The functions of the tickers that are due.
abbrev pub due : ℕ → List TimeTicker → List ℕ
due curr_ms [] = []
due curr_ms (ticker ∷ next) =
    if leb ticker.expire_ms curr_ms then ticker.func ∷ due curr_ms next else due curr_ms next

-- The tickers that remain: the single shots that are due are gone, the circles set again.
abbrev pub remain : ℕ → List TimeTicker → List TimeTicker
remain curr_ms [] = []
remain curr_ms (ticker ∷ next) =
    if leb ticker.expire_ms curr_ms
    then (if ticker.ticker_type == single_shot
        then remain curr_ms next
        else reset_ticker ticker curr_ms ∷ remain curr_ms next)
    else ticker ∷ remain curr_ms next

-- The least expiry of the tickers, at most `latest`.
abbrev pub soonest : ℕ → List TimeTicker → ℕ
soonest latest [] = latest
soonest latest (ticker ∷ next) = sooner ticker.expire_ms (soonest latest next)

sooner-soonest :
    (x latest : ℕ) (ts : List TimeTicker)
    → soonest (sooner x latest) ts ≡ sooner x (soonest latest ts)
sooner-soonest x latest [] = refl
sooner-soonest x latest (t ∷ ts) = ground (arith, sooner-soonest x latest ts)

-- The whole of a round.
pub iter_each_lem :
    (curr_ms latest : ℕ) (ts : List TimeTicker)
    → let r = iter_each curr_ms latest ts in
      (r.kept ≡ remain curr_ms ts)
      × (r.called ≡ due curr_ms ts)
      × (r.new_latest ≡ soonest latest (remain curr_ms ts))
      × (r.removed + length r.kept ≡ length ts)
unfolding iter_each
iter_each_lem curr_ms latest [] = (refl, refl, refl, omega arith)
iter_each_lem curr_ms latest (t ∷ ts) = elim (Bool-cases (leb t.expire_ms curr_ms)) [
  | inr waits ↦
      let (k, c, n, l) = iter_each_lem curr_ms (sooner t.expire_ms latest) ts in
      rw waits (
        ap (λ x. t ∷ x) k,
        c,
        n ∙ sooner-soonest t.expire_ms latest (remain curr_ms ts),
        omega (arith, l),
      )
  | inl expired ↦ elim (Bool-cases (t.ticker_type == single_shot)) [
    | inl once ↦
        let (k, c, n, l) = iter_each_lem curr_ms latest ts in
        rw (expired, once) (k, ap (λ x. t.func ∷ x) c, n, omega (arith, l))
    | inr circle ↦
        let (k, c, n, l) = iter_each_lem curr_ms (sooner (curr_ms + t.tick_period) latest) ts in
        rw (expired, circle)
          (
            ap (λ x. reset_ticker t curr_ms ∷ x) k,
            ap (λ x. t.func ∷ x) c,
            n ∙ sooner-soonest (curr_ms + t.tick_period) latest (remain curr_ms ts),
            omega (arith, l),
          )
  ]
]

-- The counters of a list: the number of the tickers, and the least expiry, or 0 before the first.
pub record IsTicks (ticks : TickList) : Type 0 where
  pub counted : ticks.count ≡ length ticks.tickers
  pub latest :
      ((ticks.latest_expire_ms ≡ 0) × (ticks.tickers ≡ []))
      ⊎ ((0 < ticks.latest_expire_ms) × (ticks.latest_expire_ms ≡ soonest far_ms ticks.tickers))

-- Before the least expiry nothing is due.
none_due :
    (curr_ms : ℕ) (ts : List TimeTicker)
    → curr_ms < soonest far_ms ts
    → (due curr_ms ts ≡ []) × (remain curr_ms ts ≡ ts)
none_due curr_ms [] h = (refl, refl)
none_due curr_ms (t ∷ ts) h =
    let later : leb t.expire_ms curr_ms ≡ false = ground (arith, h) in
    let (d, r) = none_due curr_ms ts (ground (arith, h)) in rw later (d, ap (λ x. t ∷ x) r)

soonest_pos :
    (curr_ms : ℕ) (ts : List TimeTicker) → 0 < curr_ms → 0 < soonest far_ms (remain curr_ms ts)
soonest_pos curr_ms [] p = omega arith
soonest_pos curr_ms (t ∷ ts) p = ground (arith, soonest_pos curr_ms ts p)

-- append_carrier_ticker, at a time that is not 0 and with an expiry below 0x7FFFFFFFFFF, keeps
-- count the number of the tickers and latest_expire_ms their least expiry, also without memory.
pub append_carrier_ticker-IsTicks :
    (alloc : Bool) (ticks : TickList) (curr_ms func ticker_type tick_period : ℕ)
    → IsTicks ticks
    → 0 < curr_ms
    → curr_ms + tick_period < far_ms
    → IsTicks (append_carrier_ticker alloc ticks curr_ms func ticker_type tick_period).0
unfolding append_carrier_ticker
append_carrier_ticker-IsTicks false ticks curr_ms func ticker_type tick_period m p lt = m
append_carrier_ticker-IsTicks true ticks curr_ms func ticker_type tick_period m p lt = record {
  counted = omega (arith, m.counted);
  latest = elim m.latest [
    | inl (z, none_there) ↦ inr (ground (arith, z), rw none_there (ground (arith, z)))
    | inr (q, e) ↦ inr (ground (arith, q), ground (arith, e, q))
  ];
}

pub record Iterated (ticks : TickList) (curr_ms : ℕ) (ticks' : TickList) (called : List ℕ)
    : Type 0 where
  pub calls : called ≡ due curr_ms ticks.tickers
  pub kept : ticks'.tickers ≡ remain curr_ms ticks.tickers
  pub in_order : IsTicks ticks'

Iterated-none :
    (ticks : TickList) (curr_ms : ℕ)
    → IsTicks ticks
    → (due curr_ms ticks.tickers ≡ []) × (remain curr_ms ticks.tickers ≡ ticks.tickers)
    → Iterated ticks curr_ms ticks []
Iterated-none ticks curr_ms m (d, r) = record { calls = sym d; kept = sym r; in_order = m }

empty_list : (ts : List TimeTicker) → length ts ≡ 0 → ts ≡ []
empty_list [] e = refl
empty_list (t ∷ ts) e = absurd (omega (arith, e))

nothing :
    (ticks : TickList) (curr_ms : ℕ)
    → IsTicks ticks
    → (leb ticks.count 0 || ltb curr_ms ticks.latest_expire_ms) ≡ true
    → (due curr_ms ticks.tickers ≡ []) × (remain curr_ms ticks.tickers ≡ ticks.tickers)
nothing ticks curr_ms m stop = elim (Bool-cases (leb ticks.count 0)) [
  | inl zero_there ↦
      let gone : ticks.tickers ≡ [] =
        empty_list ticks.tickers (ground (arith, m.counted, zero_there)) in
      (ap (due curr_ms) gone, ap (remain curr_ms) gone ∙ sym gone)
  | inr some_there ↦ elim m.latest [
    | inl (z, gone) ↦ (ap (due curr_ms) gone, ap (remain curr_ms) gone ∙ sym gone)
    | inr (q, e) ↦ none_due curr_ms ticks.tickers (ground (arith, stop, some_there, e))
  ]
]

-- iter_time_ticker, at a time that is not 0 and on a list in order: the functions of exactly the
-- tickers that are due are called, once each and in the order of the list; afterwards the single
-- shots among them are gone, the circles expire one period from now, the others are as they were,
-- and count and latest_expire_ms are those of the new list.
pub iter_time_ticker-Iterated :
    (ticks : TickList) (curr_ms : ℕ)
    → IsTicks ticks
    → 0 < curr_ms
    → let r = iter_time_ticker ticks curr_ms in Iterated ticks curr_ms r.0 r.1
unfolding iter_time_ticker
iter_time_ticker-Iterated ticks curr_ms m p =
    elim (Bool-cases (leb ticks.count 0 || ltb curr_ms ticks.latest_expire_ms)) [
      | inl stop ↦ rw stop (Iterated-none ticks curr_ms m (nothing ticks curr_ms m stop))
      | inr run ↦
          let (k, c, n, l) = iter_each_lem curr_ms far_ms ticks.tickers in
          rw run (record {
            calls = c;
            kept = k;
            in_order = record {
              counted = omega (arith, m.counted, l);
              latest = inr (
                omega (arith, n, soonest_pos curr_ms ticks.tickers p),
                n ∙ ap (soonest far_ms) (sym k),
              );
            };
          })
    ]
