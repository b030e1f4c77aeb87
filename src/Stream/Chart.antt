-- ===== src/Stream/Chart.antt =====
-- The chart of the outbreak: frontend/src/components/insights/OutbreakChart.tsx. Lengths are whole
-- numbers of one unit; the shapes of the curves are left out.
pub mod Laws
mod Tests
use htn.Prelude.{
  ℕ, ◌+◌, ◌-◌, max, String, Bool, true, false, ◌||◌, Option, none, some, List, [], ◌∷◌, last, ltb,
  ℕ_eq, ◌==◌, get_elem?, map, if◌then◌else◌,
}
use htn.Stream.Series.{OutbreakSample}

-- `Math.abs(a - b)`
abbrev pub distance : ℕ → ℕ → ℕ
distance a b = (a - b) + (b - a)

-- The loop over the points, from the index `i` on; nothing is closer than `best` yet, which starts
-- at infinity.
unfoldable pub closest : ℕ → ℕ → ℕ → Option ℕ → List ℕ → ℕ
closest x i nearest best [] = nearest
closest x i nearest none (p ∷ ps) = closest x (i + 1) i (some (distance p x)) ps
closest x i nearest (some b) (p ∷ ps) =
    let nearer = closest x (i + 1) i (some (distance p x)) ps in
    let further = closest x (i + 1) nearest (some b) ps in
    if ltb (distance p x) b then nearer else further

-- The index that `onPointerMove` sets.
unfoldable pub hovered_index : ℕ → List ℕ → ℕ
unfolding closest
hovered_index x points = closest x 0 0 none points

abbrev pub total_of : List OutbreakSample → ℕ
total_of series = elim (last series) [ none ↦ 0 | some s ↦ s.total ]

abbrev pub last_tick : List OutbreakSample → ℕ
last_tick series = elim (last series) [ none ↦ 0 | some s ↦ s.tick ]

unfoldable pub tick_span : List OutbreakSample → ℕ
tick_span series = max (last_tick series) 8

-- Whether there is nothing to plot.
unfoldable pub is_empty : List OutbreakSample → Bool
is_empty [] = true
is_empty (s ∷ ss) = total_of (s ∷ ss) == 0

-- The sample under the pointer, if any is.
unfoldable pub hovered : Option ℕ → List OutbreakSample → Option OutbreakSample
hovered none series = none
hovered (some i) series = get_elem? series i
