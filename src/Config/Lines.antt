-- ===== src/Config/Lines.antt =====
-- A configuration as it is written, and what `read_carrier_cfg` makes of it.
use mathlib.Core.List.{reverse, reverse-cons}
use proc_bridge.Base.{
  ℕ, suc, ◌+◌, ◌^◌, ◌<◌, ◌≡◌, refl, ap, ap₂, sym, ◌∙◌, arith, Bool, true, false, some, List, [],
  ◌∷◌, ◌++◌, map, append_assoc, append-nil, length, length-append, Every, Every-append, leb, pos,
  minus_one,
}
use proc_bridge.Bridge.{same_name}
use proc_bridge.Config.{
  ProcEntry, entry_len, strncpy, cut_at, put_first, to_short, parse_ip_addr, parse_proc_id,
  parse_name, parse_proc_info, no_entry, copy_entry, parse_target_list, option_target, Cfg,
  strip_last, shrink, uncomment, target_word, option_line, append_target, value_line, cfg_line,
  cfg_loop, read_carrier_cfg,
}
use proc_bridge.Config.Text.{
  IsPlain, IsDigit, decimal, digits-IsPlain, atoi-digits, cut_at-append, Stays, IsPlain-Stays,
  shrink-Stays, uncomment-Stays, strip_last-append, strncpy-strncpy,
}

-- A decimal number that is not negative.
pub record Number : Type 0 where
  pub digit : ℕ
  pub more : List ℕ

abbrev pub digits : Number → List ℕ
digits n = n.digit ∷ n.more

-- A target as the configuration names it.
pub record Route : Type 0 where
  pub name : List ℕ
  pub id : Number
  pub ip : List ℕ
  pub port : Number

pub record IsRoute (r : Route) : Type 0 where
  pub name_plain : Every IsPlain r.name
  pub id_digits : Every IsDigit (digits r.id)
  pub id_fits : decimal (digits r.id) < 2 ^ 31
  pub ip_plain : Every IsPlain r.ip
  pub port_digits : Every IsDigit (digits r.port)
  pub port_fits : decimal (digits r.port) < 2 ^ 15

-- "ip&port" and "id&ip&port", then "name&id&ip&port" and the line with it.
abbrev from_ip : Route → List ℕ
from_ip r = r.ip ++ 38 ∷ digits r.port

abbrev from_id : Route → List ℕ
from_id r = digits r.id ++ 38 ∷ from_ip r

abbrev pub items_of : Route → List ℕ
items_of r = r.name ++ 38 ∷ from_id r

abbrev pub line_of : Route → List ℕ
line_of r = (61 ∷ 64 ∷ items_of r) ++ 10 ∷ []

-- "[target]"
abbrev pub option_of_target : List ℕ
option_of_target = (91 ∷ target_word) ++ 93 ∷ 10 ∷ []

abbrev pub entry_of : Route → ProcEntry
entry_of r = record {
  proc_id = pos (decimal (digits r.id));
  name = strncpy entry_len r.name;
  ip_addr = strncpy entry_len r.ip;
  port = pos (decimal (digits r.port));
}

short_small : (n : ℕ) → n < 2 ^ 15 → to_short (pos n) ≡ pos n
short_small n h = ground arith

more_than_two : (n : ℕ) → 2 < n → leb n 2 ≡ false
more_than_two n h = ground arith

-- `=`, `@` and `&` stay.
equals_sign-Stays : Stays 61
equals_sign-Stays = record { not_comment = refl; not_space = refl }

at_sign-Stays : Stays 64
at_sign-Stays = record { not_comment = refl; not_space = refl }

and_sign-Stays : Stays 38
and_sign-Stays = record { not_comment = refl; not_space = refl }

module _ (r : Route) (w : IsRoute r) where
  long_enough : leb (length (64 ∷ items_of r)) 2 ≡ false
  long_enough =
      let all = length-append r.name (38 ∷ from_id r) in
      let later = length-append (digits r.id) (38 ∷ from_ip r) in
      let last = length-append r.ip (38 ∷ digits r.port) in
      more_than_two (length (64 ∷ items_of r)) (omega (arith, all, later, last))

  pub parse_proc_info-entry :
      (entry : ProcEntry) → parse_proc_info (64 ∷ items_of r) entry ≡ (entry_of r, pos 0)
  unfolding parse_proc_info parse_name parse_proc_id parse_ip_addr
  parse_proc_info-entry entry =
      rw (long_enough, cut_at-append r.name (from_id r) w.name_plain)
        (rw (cut_at-append (digits r.id) (from_ip r) (digits-IsPlain (digits r.id) w.id_digits)) (
          rw (cut_at-append r.ip (digits r.port) w.ip_plain) (
            rw
              (
                atoi-digits r.id.digit r.id.more w.id_digits w.id_fits,
                atoi-digits r.port.digit r.port.more w.port_digits (omega (arith, w.port_fits)),
                short_small (decimal (digits r.port)) w.port_fits,
              )
              refl)))

  pub parse_target_list-entry :
      (target : ProcEntry) → parse_target_list (64 ∷ items_of r) target ≡ (entry_of r, pos 0)
  unfolding parse_target_list copy_entry
  parse_target_list-entry target =
      rw (parse_proc_info-entry no_entry)
        (rw (strncpy-strncpy entry_len r.name, strncpy-strncpy entry_len r.ip) refl)

  line-Stays : Every Stays (61 ∷ 64 ∷ items_of r)
  line-Stays = (
    equals_sign-Stays,
    (
      at_sign-Stays,
      Every-append Stays r.name (38 ∷ from_id r) (IsPlain-Stays r.name w.name_plain) (
        and_sign-Stays,
        Every-append Stays (digits r.id) (38 ∷ from_ip r)
            (IsPlain-Stays (digits r.id) (digits-IsPlain (digits r.id) w.id_digits))
            (
              and_sign-Stays,
              Every-append Stays r.ip (38 ∷ digits r.port) (IsPlain-Stays r.ip w.ip_plain) (
                and_sign-Stays,
                IsPlain-Stays (digits r.port) (digits-IsPlain (digits r.port) w.port_digits),
              ),
            ),
      ),
    ),
  )

  -- The line is stripped to itself less the newline.
  line_shrunk : uncomment (shrink (strip_last (line_of r))) ≡ 61 ∷ 64 ∷ items_of r
  line_shrunk =
      ap (λ t. uncomment (shrink t)) (strip_last-append (61 ∷ 64 ∷ items_of r) 10)
      ∙ ap uncomment (shrink-Stays _ line-Stays)
      ∙ uncomment-Stays _ line-Stays

  pub cfg_line-target :
      (stale_errno : Bool) (cfg : Cfg)
      → cfg.curr_option ≡ option_target
      → cfg_line true stale_errno (61 ∷ 64 ∷ items_of r) cfg
        ≡ some
            (record cfg { targets = entry_of r ∷ cfg.targets; target_count = cfg.target_count + 1 })
  unfolding cfg_line value_line append_target
  cfg_line-target stale_errno cfg e = rw e (rw (parse_target_list-entry no_entry) refl)

abbrev pub with_targets : List ProcEntry → ℕ → Cfg
with_targets targets count = record {
  curr_option = option_target;
  targets = targets;
  target_count = count;
  max_pkg = minus_one;
}

moved :
    (r : Route) (rs : List Route) (targets : List ProcEntry)
    → reverse (map entry_of rs) ++ entry_of r ∷ targets ≡ reverse (map entry_of (r ∷ rs)) ++ targets
moved r rs targets =
    sym (append_assoc (reverse (map entry_of rs)) (entry_of r ∷ []) targets)
    ∙ ap (λ t. t ++ targets) (sym (reverse-cons (entry_of r) (map entry_of rs)))

-- The lines of the targets, one after the other.
cfg_loop-targets :
    (stale_errno : ℕ → Bool) (line_no : ℕ) (rs : List Route) (targets : List ProcEntry) (count : ℕ)
    → Every IsRoute rs
    → cfg_loop (λ n. true) stale_errno line_no (map line_of rs) (some (with_targets targets count))
      ≡ some (with_targets (reverse (map entry_of rs) ++ targets) (count + length rs))
unfolding cfg_loop
cfg_loop-targets stale_errno line_no [] targets count w =
    ap (λ n. some (with_targets targets n)) (omega arith)
cfg_loop-targets stale_errno line_no (r ∷ rs) targets count w =
    ap
      (λ t.
        cfg_loop (λ n. true) stale_errno (suc line_no) (map line_of rs)
          (cfg_line true (stale_errno line_no) t (with_targets targets count)))
      (line_shrunk r w.0)
    ∙ ap (cfg_loop (λ n. true) stale_errno (suc line_no) (map line_of rs))
        (cfg_line-target r w.0 (stale_errno line_no) (with_targets targets count) refl)
    ∙ cfg_loop-targets stale_errno (suc line_no) rs (entry_of r ∷ targets) (count + 1) w.1
    ∙ ap₂ (λ t n. some (with_targets t n)) (moved r rs targets) (omega arith)

-- `read_carrier_cfg`, where there is memory, on the line [target] and a line "=@name&id&ip&port" for
-- each target, with names and addresses of plain characters (no space, `#` or `&`), ids below 2^31
-- and ports below 2^15 in decimal: it succeeds, and has read each target, with the first 64
-- characters of its name and address and the numbers, the last one first, and their count.
pub read_carrier_cfg-targets :
    (stale_errno : ℕ → Bool) (rs : List Route)
    → Every IsRoute rs
    → read_carrier_cfg (λ n. true) stale_errno (option_of_target ∷ map line_of rs)
      ≡ some (with_targets (reverse (map entry_of rs)) (length rs))
unfolding read_carrier_cfg cfg_loop cfg_line strip_last shrink uncomment option_line same_name
    cut_at put_first
read_carrier_cfg-targets stale_errno rs w =
    cfg_loop-targets stale_errno 2 rs [] 0 w
    ∙ ap₂ (λ t n. some (with_targets t n)) (append-nil (reverse (map entry_of rs))) (omega arith)
