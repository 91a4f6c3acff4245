-- ===== src/Config/Last.antt =====
-- The last line of a configuration.
use proc_bridge.Base.{
  ℕ, suc, ◌≡◌, refl, ap, sym, ◌∙◌, Bool, Option, none, some, List, [], ◌∷◌, ◌++◌,
}
use proc_bridge.Config.{Cfg, no_cfg, shrink, uncomment, cfg_line, cfg_loop, read_carrier_cfg}
use proc_bridge.Config.Text.{strip_last-append}

same_after_strip :
    (calloc_ok stale_errno : ℕ → Bool) (line_no : ℕ) (lines : List (List ℕ)) (l : List ℕ) (c d : ℕ)
    (start : Option Cfg)
    → cfg_loop calloc_ok stale_errno line_no (lines ++ (l ++ c ∷ []) ∷ []) start
      ≡ cfg_loop calloc_ok stale_errno line_no (lines ++ (l ++ d ∷ []) ∷ []) start
unfolding cfg_loop
same_after_strip calloc_ok stale_errno line_no lines l c d none = refl
same_after_strip calloc_ok stale_errno line_no [] l c d (some cfg) =
    ap
      (λ t.
        cfg_loop calloc_ok stale_errno (suc line_no) []
          (cfg_line (calloc_ok line_no) (stale_errno line_no) (uncomment (shrink t)) cfg))
      (strip_last-append l c ∙ sym (strip_last-append l d))
same_after_strip calloc_ok stale_errno line_no (line ∷ lines) l c d (some cfg) =
    same_after_strip calloc_ok stale_errno (suc line_no) lines l c d _

-- The last character of the file goes even if it is no newline: whatever it is, `read_carrier_cfg` reads
-- the same as with another one in its place.
pub read_carrier_cfg_last :
    (calloc_ok stale_errno : ℕ → Bool) (lines : List (List ℕ)) (l : List ℕ) (c d : ℕ)
    → read_carrier_cfg calloc_ok stale_errno (lines ++ (l ++ c ∷ []) ∷ [])
      ≡ read_carrier_cfg calloc_ok stale_errno (lines ++ (l ++ d ∷ []) ∷ [])
unfolding read_carrier_cfg
read_carrier_cfg_last calloc_ok stale_errno lines l c d =
    same_after_strip calloc_ok stale_errno 1 lines l c d (some no_cfg)
