-- ===== src/Stream/Chart/Tests.antt =====
-- The pointer between two samples.
use htn.Prelude.{◌≡◌, refl, [], ◌∷◌, some, true}
use htn.Stream.Series.{OutbreakSample}
use htn.Stream.Chart.{hovered_index, hovered, tick_span, is_empty}

-- Halfway, the first of the two.
halfway : hovered_index 15 (0 ∷ 10 ∷ 20 ∷ []) ≡ 1
unfolding hovered_index
halfway = refl

abbrev start : OutbreakSample
start = record { tick = 1; healthy = 0; compromised = 0; quarantined = 0; total = 0 }

short_run :
    (tick_span (start ∷ []) ≡ 8)
    × (is_empty (start ∷ []) ≡ true)
    × (hovered (some 0) (start ∷ []) ≡ some start)
unfolding tick_span is_empty hovered
short_run = (refl, refl, refl)
