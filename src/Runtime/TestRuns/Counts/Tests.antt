-- ===== src/Runtime/TestRuns/Counts/Tests.antt =====
-- Summary lines of pytest.
use htn.Prelude.{◌≡◌, refl, List, [], ◌∷◌, contains, string_eq}
use htn.Prelude.Int.{pos}
use htn.Runtime.TestRuns.Counts.{parse_counts, scan_counts, codes}
use htn.Runtime.TestRuns.Counts.Laws.{Item, scan_counts-written}

summary_line :
    parse_counts "1 failed, 12 PASSED in 0.05s 3 errors"
    ≡ record { label = "failed"; value = pos 1 }
      ∷ record { label = "passed"; value = pos 12 }
      ∷ record { label = "errors"; value = pos 3 }
      ∷ []
unfolding parse_counts
summary_line = refl

abbrev items : List Item
items =
    record { digit = 51; digits = []; label = "failed" }
    ∷ record { digit = 49; digits = 50 ∷ []; label = "passed" }
    ∷ []

scan_counts-written_example :
    scan_counts 0 (codes "3 failed, 12 passed, 1 error in 0.05s")
    ≡ record { label = "failed"; value = pos 3 }
      ∷ record { label = "passed"; value = pos 12 }
      ∷ record { label = "error"; value = pos 1 }
      ∷ []
unfolding parse_counts contains
scan_counts-written_example =
    scan_counts-written items (codes "1 error in 0.05s")
      ((refl, tt, refl), ((refl, (refl, tt), refl), tt))
