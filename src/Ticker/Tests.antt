-- ===== src/Ticker/Tests.antt =====
-- Tickers at work: a circle of 500 ms and a single shot of 2000 ms.
use proc_bridge.Base.{◌≡◌, refl, inr, arith, true, [], ◌∷◌}
use proc_bridge.Ticker.{TickList, append_carrier_ticker, iter_time_ticker, iter_each}
use proc_bridge.Ticker.Iter.{
  IsTicks, append_carrier_ticker-IsTicks, Iterated, iter_time_ticker-Iterated,
}

abbrev demo : TickList
demo = record {
  latest_expire_ms = 1500;
  count = 2;
  tickers =
      record { ticker_type = 1; tick_period = 2000; expire_ms = 3000; func = 8 }
      ∷ record { ticker_type = 2; tick_period = 500; expire_ms = 1500; func = 7 }
      ∷ [];
}

demo-IsTicks : IsTicks demo
demo-IsTicks = record { counted = refl; latest = inr (omega arith, refl) }

appended-IsTicks : IsTicks (append_carrier_ticker true demo 1200 9 2 100).0
appended-IsTicks =
    append_carrier_ticker-IsTicks true demo 1200 9 2 100 demo-IsTicks (omega arith) (omega arith)

iter_time_ticker-Iterated_example : let r = iter_time_ticker demo 1600 in Iterated demo 1600 r.0 r.1
iter_time_ticker-Iterated_example = iter_time_ticker-Iterated demo 1600 demo-IsTicks (omega arith)

-- At 1600 ms the circle is called alone, at 3100 ms both, and then the single shot is gone.
called_at :
    ((iter_time_ticker demo 1600).1 ≡ 7 ∷ []) × ((iter_time_ticker demo 3100).1 ≡ 8 ∷ 7 ∷ [])
unfolding iter_time_ticker iter_each
called_at = (refl, refl)

left_after : (iter_time_ticker demo 3100).0.count ≡ 1
unfolding iter_time_ticker iter_each
left_after = refl
