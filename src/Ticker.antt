-- ===== src/Ticker.antt =====
-- The tickers of a carrier, `tick_list_t` of src/carrier/carrier_base.h, with
-- `append_carrier_ticker` and `iter_time_ticker` of src/carrier/carrier_base.c. A ticker's function is
-- the number that stands for it; the functions that the carrier gives do not touch the list. The doubly
-- linked list is a list. Times are milliseconds of a clock that has not gone back below 0.
pub mod Iter
mod Tests
use proc_bridge.Base.{
  ℕ, ◌+◌, ◌-◌, Bool, true, false, not, ◌||◌, List, [], ◌∷◌, ltb, leb, ◌==◌, if◌then◌else◌, ℤ, pos,
  minus_one,
}

-- `TIME_TICKER_T_SINGLE_SHOT`; any other type is a circle.
abbrev pub single_shot : ℕ
single_shot = 1

-- `time_ticker_t`, less the name, which only the log reads
pub record TimeTicker : Type 0 where
  pub ticker_type : ℕ
  pub tick_period : ℕ
  pub expire_ms : ℕ
  pub func : ℕ

pub record TickList : Type 0 where
  pub latest_expire_ms : ℕ
  pub count : ℕ
  pub tickers : List TimeTicker

-- `append_carrier_ticker` at the time `curr_ms`; the new ticker stands first.
unfoldable pub append_carrier_ticker :
    Bool → TickList → (curr_ms func ticker_type tick_period : ℕ) → TickList × ℤ
append_carrier_ticker alloc ticks curr_ms func ticker_type tick_period =
    let expire = curr_ms + tick_period in
    if not alloc then (ticks, minus_one) else (
      record {
        latest_expire_ms =
            if ticks.latest_expire_ms == 0
            then expire
            else if ltb expire ticks.latest_expire_ms
            then expire
            else ticks.latest_expire_ms;
        count = ticks.count + 1;
        tickers =
            record {
              ticker_type = ticker_type;
              tick_period = tick_period;
              expire_ms = expire;
              func = func;
            }
            ∷ ticks.tickers;
      },
      pos 0,
    )

-- What the loop of `iter_time_ticker` carries, and the functions that were called, in order.
pub record Round : Type 0 where
  pub kept : List TimeTicker
  pub new_latest : ℕ
  pub removed : ℕ
  pub called : List ℕ

abbrev pub sooner : ℕ → ℕ → ℕ
sooner expire latest = if ltb expire latest then expire else latest

-- A circle that is set again.
abbrev pub reset_ticker : TimeTicker → ℕ → TimeTicker
reset_ticker ticker curr_ms = record ticker { expire_ms = curr_ms + ticker.tick_period }

-- The loop over the list.
unfoldable pub iter_each : ℕ → ℕ → List TimeTicker → Round
iter_each curr_ms new_latest [] = record {
  kept = [];
  new_latest = new_latest;
  removed = 0;
  called = [];
}
iter_each curr_ms new_latest (ticker ∷ next) =
    let again = reset_ticker ticker curr_ms in
    let gone = iter_each curr_ms new_latest next in
    let circled = iter_each curr_ms (sooner again.expire_ms new_latest) next in
    let waits = iter_each curr_ms (sooner ticker.expire_ms new_latest) next in
    if leb ticker.expire_ms curr_ms
    then (if ticker.ticker_type == single_shot
        then record gone { removed = gone.removed + 1; called = ticker.func ∷ gone.called }
        else record circled { kept = again ∷ circled.kept; called = ticker.func ∷ circled.called })
    else record waits { kept = ticker ∷ waits.kept }

-- 0x7FFFFFFFFFF
abbrev pub far_ms : ℕ
far_ms = 8796093022207

-- `iter_time_ticker`, and the functions it calls.
unfoldable pub iter_time_ticker : TickList → ℕ → TickList × List ℕ
iter_time_ticker ticks curr_ms =
    let round = iter_each curr_ms far_ms ticks.tickers in
    if leb ticks.count 0 || ltb curr_ms ticks.latest_expire_ms then (ticks, []) else (
      record {
        latest_expire_ms = round.new_latest;
        count = ticks.count - round.removed;
        tickers = round.kept;
      },
      round.called,
    )
