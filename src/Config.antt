-- ===== src/Config.antt =====
-- The reading of the configuration: `parse_proc_info` of src/carrier/carrier_lib.c, `parse_target_list` and
-- the loop of `read_carrier_cfg` of src/carrier/bridge_carrier.c. A string is the list of its
-- characters, as bytes. The file is the list of the lines that `fgets` gives; whether `calloc` has
-- memory at a line is a parameter, and so is whether `errno` is set from earlier (not to `ERANGE`).
mod Strings
pub mod Text
pub mod Lines
pub mod Start
pub mod Last
mod Tests
unfoldable pub use Strings.*
use proc_bridge.Base.{
  ℕ, zero, suc, ◌+◌, ◌*◌, ◌-◌, ◌%◌, ◌^◌, Bool, true, false, not, ◌&&◌, ◌||◌, Option, none, some,
  List, [], ◌∷◌, length, ◌==◌, ltb, leb, if◌then◌else◌, ℤ, pos, negsuc, sub_ℕ, int32, minus_one,
  leb_ℤ,
}
use proc_bridge.Bridge.{same_name}

-- `proc_entry_t`, and the fields of `target_detail_t` that are read. The arrays are lists.
pub record ProcEntry : Type 0 where
  pub proc_id : ℤ
  pub name : List ℕ
  pub ip_addr : List ℕ
  pub port : ℤ

-- `PROC_ENTRY_NAME_LEN` and `PROC_ENTRY_IP_LEN`
abbrev pub entry_len : ℕ
entry_len = 64

-- `parse_proc_info`, whose parts each take what stands before the next `&`. The marks that it sets
-- to 0 in the string are not kept, as no caller reads the string again.
unfoldable pub parse_ip_addr : Option (List ℕ × List ℕ) → ProcEntry → ProcEntry × ℤ
unfolding atoi strncpy
parse_ip_addr none entry = (entry, minus_one)
parse_ip_addr (some (seg, port)) entry =
    (record entry { ip_addr = strncpy entry_len seg; port = to_short (atoi port) }, pos 0)

unfoldable pub parse_proc_id : Option (List ℕ × List ℕ) → ProcEntry → ProcEntry × ℤ
unfolding parse_ip_addr cut_at
parse_proc_id none entry = (entry, minus_one)
parse_proc_id (some (seg, more)) entry =
    parse_ip_addr (cut_at 38 more) (record entry { proc_id = atoi seg })

unfoldable pub parse_name : Option (List ℕ × List ℕ) → ProcEntry → ProcEntry × ℤ
unfolding parse_proc_id
parse_name none entry = (entry, minus_one)
parse_name (some (seg, more)) entry =
    parse_proc_id (cut_at 38 more) (record entry { name = strncpy entry_len seg })

unfoldable pub parse_proc_info : List ℕ → ProcEntry → ProcEntry × ℤ
unfolding parse_name
parse_proc_info [] entry = (entry, minus_one)
parse_proc_info (c ∷ items) entry =
    if leb (length (c ∷ items)) 2
    then (entry, minus_one)
    else if not (c == 64)
    then (entry, minus_one)
    else parse_name (cut_at 38 items) entry

-- An entry after `memset`, and a target fresh from `calloc`.
abbrev pub no_entry : ProcEntry
no_entry = record {
  proc_id = pos 0;
  name = strncpy entry_len [];
  ip_addr = strncpy entry_len [];
  port = pos 0;
}

-- `parse_target_list`: the target and the return code.
unfoldable pub copy_entry : ProcEntry × ℤ → ProcEntry → ProcEntry × ℤ
copy_entry (entry, pos n) target = (
  record entry { name = strncpy entry_len entry.name; ip_addr = strncpy entry_len entry.ip_addr },
  pos 0,
)
copy_entry (entry, negsuc n) target = (target, minus_one)

unfoldable pub parse_target_list : List ℕ → ProcEntry → ProcEntry × ℤ
unfolding copy_entry parse_proc_info
parse_target_list [] target = (target, minus_one)
parse_target_list (c ∷ s) target =
    if not (c == 64)
    then (target, minus_one)
    else copy_entry (parse_proc_info (c ∷ s) no_entry) target

-- `curr_option`: none yet, `CFG_OPTION_TARGET` or `CFG_OPTION_MAX_PKG`.
pub data CurrOption : Type 0 where
  no_option : CurrOption
  option_target : CurrOption
  option_max_pkg : CurrOption

-- What the loop carries along; the newest target is the first.
pub record Cfg : Type 0 where
  pub curr_option : CurrOption
  pub targets : List ProcEntry
  pub target_count : ℕ
  pub max_pkg : ℤ

-- "target" and "max_pkg"
abbrev pub target_word : List ℕ
target_word = 116 ∷ 97 ∷ 114 ∷ 103 ∷ 101 ∷ 116 ∷ []

abbrev pub max_pkg_word : List ℕ
max_pkg_word = 109 ∷ 97 ∷ 120 ∷ 95 ∷ 112 ∷ 107 ∷ 103 ∷ []

-- A line `[...]`, then a line `=...`, by the option that stands.
unfoldable pub option_line : Option (List ℕ × List ℕ) → Cfg → Option Cfg
unfolding same_name
option_line none cfg = none
option_line (some (word, more)) cfg =
    if same_name word target_word
    then some (record cfg { curr_option = option_target })
    else if same_name word max_pkg_word
    then some (record cfg { curr_option = option_max_pkg })
    else none

unfoldable pub append_target : Cfg → ProcEntry × ℤ → Option Cfg
append_target cfg (target, pos n) =
    some (record cfg { targets = target ∷ cfg.targets; target_count = cfg.target_count + 1 })
append_target cfg (target, negsuc n) = none

unfoldable pub value_line : (calloc_ok stale_errno : Bool) → List ℕ → Cfg → CurrOption → Option Cfg
unfolding append_target parse_target_list
value_line calloc_ok stale_errno value cfg no_option = none
value_line calloc_ok stale_errno value cfg option_target =
    if calloc_ok then append_target cfg (parse_target_list value no_entry) else none
value_line calloc_ok stale_errno value cfg option_max_pkg =
    let (number, out_of_range) = strtol value in
    if out_of_range || (stale_errno && (leb_ℤ number (pos 0) && leb_ℤ (pos 0) number))
    then none
    else if has_digits value
    then some (record cfg { max_pkg = number })
    else none

-- The `switch` on the first character.
unfoldable pub cfg_line : (calloc_ok stale_errno : Bool) → List ℕ → Cfg → Option Cfg
unfolding option_line value_line
cfg_line calloc_ok stale_errno [] cfg = some cfg
cfg_line calloc_ok stale_errno (c ∷ s) cfg =
    if c == 91
    then option_line (cut_at 93 s) cfg
    else if c == 61
    then value_line calloc_ok stale_errno s cfg cfg.curr_option
    else none

-- The loop of `read_carrier_cfg`; `none` is -1.
unfoldable pub cfg_loop :
    (calloc_ok stale_errno : ℕ → Bool) → ℕ → List (List ℕ) → Option Cfg → Option Cfg
unfolding cfg_line shrink uncomment strip_last
cfg_loop calloc_ok stale_errno line_no lines none = none
cfg_loop calloc_ok stale_errno line_no [] (some cfg) = some cfg
cfg_loop calloc_ok stale_errno line_no (line_buff ∷ lines) (some cfg) =
    cfg_loop calloc_ok stale_errno (suc line_no) lines (
      cfg_line (calloc_ok line_no) (stale_errno line_no) (uncomment (shrink (strip_last line_buff)))
        cfg)

-- What the loop begins with.
abbrev pub no_cfg : Cfg
no_cfg = record { curr_option = no_option; targets = []; target_count = 0; max_pkg = minus_one }

unfoldable pub read_carrier_cfg : (calloc_ok stale_errno : ℕ → Bool) → List (List ℕ) → Option Cfg
unfolding cfg_loop
read_carrier_cfg calloc_ok stale_errno lines = cfg_loop calloc_ok stale_errno 1 lines (some no_cfg)

-- `target_info_t`, as far as it is read from the file.
pub record TargetInfo : Type 0 where
  pub targets : List ProcEntry
  pub target_count : ℕ

-- `copy_target_info` with `init`: each node is taken off the one list and put before the other.
unfoldable pub init_targets : List ProcEntry → TargetInfo → TargetInfo
init_targets [] dst = dst
init_targets (target ∷ src) dst =
    init_targets src
      (record dst { targets = target ∷ dst.targets; target_count = dst.target_count + 1 })

-- `read_carrier_cfg` at the start of the carrier, with the flag 0: the targets and the return code.
unfoldable pub start_targets : Option Cfg → TargetInfo → TargetInfo × ℤ
unfolding init_targets
start_targets none dst = (dst, minus_one)
start_targets (some cfg) dst = (init_targets cfg.targets dst, pos 0)

unfoldable pub start_cfg :
    (calloc_ok stale_errno : ℕ → Bool) → List (List ℕ) → TargetInfo → TargetInfo × ℤ
unfolding start_targets
start_cfg calloc_ok stale_errno lines dst =
    start_targets (read_carrier_cfg calloc_ok stale_errno lines) dst
