-- ===== src/Metrics/Laws.antt =====
-- A comparison read the other way round: MetricsComparison.tsx.
use htn.Prelude.{◌≡◌, refl, Option, none, some, ℕ_eq, arith}
use htn.Metrics.{MetricKind, Value, DeltaDirection, better, worse, same, unknown, delta_direction}

abbrev pub opposite : DeltaDirection → DeltaDirection
opposite better = worse
opposite worse = better
opposite same = same
opposite unknown = unknown

-- The direction that is found with the two runs exchanged is the opposite one.
delta_direction_swap :
    (kind : MetricKind) (a b : Option Value)
    → delta_direction kind b a ≡ opposite (delta_direction kind a b)
unfolding delta_direction
delta_direction_swap kind none none = refl
delta_direction_swap kind none (some b) = refl
delta_direction_swap kind (some a) none = refl
delta_direction_swap kind (some (n, d)) (some (m, e)) = ground arith
