-- ===== src/Metrics/Tests.antt =====
-- The severities of some values, and a fix that contains an attack at a cost.
use htn.Prelude.{◌≡◌, refl, some, none}
use htn.Severity.{critical, warn, high, ok, neutral}
use htn.Metrics.{
  risk, health, count, latency, metric_severity, delta_direction, better, worse, same, unknown,
}

severities :
    (metric_severity risk (some (1, 2)) ≡ critical)
    × (metric_severity risk (some (1, 100)) ≡ warn)
    × (metric_severity health (some (9, 10)) ≡ ok)
    × (metric_severity health (some (1, 2)) ≡ high)
    × (metric_severity count (some (3, 1)) ≡ high)
    × (metric_severity latency none ≡ neutral)
unfolding metric_severity
severities = (refl, refl, refl, refl, refl, refl)

directions :
    (delta_direction risk (some (1, 2)) (some (1, 4)) ≡ better)
    × (delta_direction health (some (1, 2)) (some (1, 4)) ≡ worse)
    × (delta_direction risk (some (1, 2)) (some (2, 4)) ≡ same)
    × (delta_direction latency none (some (1, 1)) ≡ unknown)
unfolding delta_direction
directions = (refl, refl, refl, refl)
