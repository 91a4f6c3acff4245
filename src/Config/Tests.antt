-- ===== src/Config/Tests.antt =====
-- Small configurations.
use proc_bridge.Base.{pos, ℕ, ◌<◌, ◌≡◌, refl, arith, true, false, none, [], ◌∷◌}
use proc_bridge.Config.{read_carrier_cfg, start_cfg}
use proc_bridge.Config.Text.{IsPlain}
use proc_bridge.Config.Last.{read_carrier_cfg_last}
use proc_bridge.Config.Start.{start_cfg-targets}
use proc_bridge.Config.Lines.{Route, IsRoute, line_of, option_of_target, entry_of}

-- "@db&7&h&9090"
abbrev db : Route
db = record {
  name = 100 ∷ 98 ∷ [];
  id = record { digit = 55; more = [] };
  ip = 104 ∷ [];
  port = record { digit = 57; more = 48 ∷ 57 ∷ 48 ∷ [] };
}

letter-IsPlain : (c : ℕ) → 97 < c → IsPlain c
letter-IsPlain c h = record {
  not_mark = ground arith;
  not_comment = ground arith;
  not_space = ground arith;
}

db-IsRoute : IsRoute db
db-IsRoute = record {
  name_plain = (letter-IsPlain 100 (omega arith), (letter-IsPlain 98 (omega arith), tt));
  id_digits = ((omega arith, omega arith), tt);
  id_fits = omega arith;
  ip_plain = (letter-IsPlain 104 (omega arith), tt);
  port_digits = (
    (omega arith, omega arith),
    ((omega arith, omega arith), ((omega arith, omega arith), ((omega arith, omega arith), tt))),
  );
  port_fits = omega arith;
}

start_cfg-targets_example :
    start_cfg
      (λ n. true)
      (λ n. false)
      (option_of_target ∷ line_of db ∷ line_of db ∷ [])
      (record { targets = []; target_count = 0 })
    ≡ (record { targets = entry_of db ∷ entry_of db ∷ []; target_count = 2 }, pos 0)
start_cfg-targets_example =
    start_cfg-targets (λ n. false) (db ∷ db ∷ []) (db-IsRoute, (db-IsRoute, tt))

-- The digit 0 at the end of the file is as good as a newline.
last_digit_lost :
    read_carrier_cfg
      (λ n. true)
      (λ n. false)
      (option_of_target ∷ (61 ∷ 64 ∷ 97 ∷ 38 ∷ 49 ∷ 38 ∷ 98 ∷ 38 ∷ 56 ∷ 48 ∷ []) ∷ [])
    ≡ read_carrier_cfg
        (λ n. true)
        (λ n. false)
        (option_of_target ∷ (61 ∷ 64 ∷ 97 ∷ 38 ∷ 49 ∷ 38 ∷ 98 ∷ 38 ∷ 56 ∷ 10 ∷ []) ∷ [])
last_digit_lost =
    read_carrier_cfg_last (λ n. true) (λ n. false) (option_of_target ∷ [])
      (61 ∷ 64 ∷ 97 ∷ 38 ∷ 49 ∷ 38 ∷ 98 ∷ 38 ∷ 56 ∷ []) 48 10

-- Without an option, a target is refused.
no_option_refused : read_carrier_cfg (λ n. true) (λ n. false) (line_of db ∷ []) ≡ none
unfolding read_carrier_cfg
no_option_refused = refl
