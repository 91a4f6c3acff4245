-- ===== src/Carrier/Tests.antt =====
-- The counts of packages at work.
use proc_bridge.Base.{◌<◌, ◌≡◌, refl, arith}
use proc_bridge.Carrier.{Traffic, note_pkg}
use proc_bridge.Carrier.Counts.{note_pkg_short}

-- 65535 packages of 65536 bytes each.
abbrev many : Traffic
many = record {
  handled = 65535;
  min_size = 65536;
  max_size = 65536;
  ave_size = 65536;
  dropped = 0;
  latest_drop = 0;
}

note_pkg_short_example : (note_pkg many 65536).ave_size < (note_pkg many 65536).min_size
note_pkg_short_example =
    note_pkg_short many 65536 (omega arith) (omega arith) refl refl refl (omega arith)

average_zero : (note_pkg many 65536).ave_size ≡ 0
unfolding note_pkg
average_zero = refl
