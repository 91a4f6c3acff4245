-- ===== src/Config/Start.antt =====
-- The targets with which the carrier starts: `read_carrier_cfg` and `copy_target_info` at the start.
use mathlib.Core.List.{reverse, reverse-cons, reverse-reverse}
use proc_bridge.Base.{
  ℕ, ◌+◌, ◌≡◌, refl, ap, ap₂, sym, ◌∙◌, arith, Bool, true, List, [], ◌∷◌, ◌++◌, map, append_assoc,
  append-nil, length, length-append, Every, pos,
}
use proc_bridge.Config.{ProcEntry, TargetInfo, init_targets, start_targets, start_cfg}
use proc_bridge.Config.Lines.{
  Route, IsRoute, option_of_target, line_of, entry_of, read_carrier_cfg-targets,
}

init_targets-reverse :
    (src : List ProcEntry) (dst : TargetInfo)
    → init_targets src dst ≡ record {
      targets = reverse src ++ dst.targets;
      target_count = dst.target_count + length src;
    }
unfolding init_targets
init_targets-reverse [] dst = ap (λ n. record dst { target_count = n }) (omega arith)
init_targets-reverse (t ∷ src) dst =
    init_targets-reverse src
      (record dst { targets = t ∷ dst.targets; target_count = dst.target_count + 1 })
    ∙ ap₂ (λ ts n. record { targets = ts; target_count = n })
        (sym (append_assoc (reverse src) (t ∷ []) dst.targets)
          ∙ ap (λ ts. ts ++ dst.targets) (sym (reverse-cons t src)))
        (omega arith)

length-entries : (rs : List Route) → length (reverse (map entry_of rs)) ≡ length rs
length-entries [] = refl
length-entries (r ∷ rs) =
    ap length (reverse-cons (entry_of r) (map entry_of rs))
    ∙ length-append (reverse (map entry_of rs)) (entry_of r ∷ [])
    ∙ omega (arith, length-entries rs)

-- `read_carrier_cfg` at the start of the carrier, with no targets yet and where there is memory, on
-- the line "[target]" and a line "=@name&id&ip&port" for each target, with names and addresses of
-- plain characters (no space, `#` or `&`), ids below 2^31 and ports below 2^15 in decimal: it
-- returns 0 and leaves the targets in the order of the file, each with the first 64 characters of
-- its name and address and the numbers, and their count.
pub start_cfg-targets :
    (stale_errno : ℕ → Bool) (rs : List Route)
    → Every IsRoute rs
    → start_cfg
        (λ n. true)
        stale_errno
        (option_of_target ∷ map line_of rs)
        (record { targets = []; target_count = 0 })
      ≡ (record { targets = map entry_of rs; target_count = length rs }, pos 0)
unfolding start_cfg start_targets
start_cfg-targets stale_errno rs w =
    ap (λ c. start_targets c (record { targets = []; target_count = 0 }))
      (read_carrier_cfg-targets stale_errno rs w)
    ∙ ap (λ t. (t, pos 0))
        (init_targets-reverse (reverse (map entry_of rs))
            (record { targets = []; target_count = 0 })
          ∙ ap₂ (λ ts n. record { targets = ts; target_count = n })
              (append-nil (reverse (reverse (map entry_of rs))) ∙ reverse-reverse (map entry_of rs))
              (omega (arith, length-entries rs)))
