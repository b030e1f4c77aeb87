-- ===== src/Metrics.antt =====
-- The metrics of a run and their comparison: frontend/src/components/insights/SecurityMetrics.tsx and
-- MetricsComparison.tsx. A value is a fraction, given by its two numbers, the second of which is not
-- zero; a count is over one. How a value is written is left out.
pub mod Laws
mod Tests
use htn.Prelude.{
  ℕ, ◌*◌, String, Bool, true, false, Option, none, some, List, [], ◌∷◌, ltb, ℕ_eq, ◌==◌,
  if◌then◌else◌,
}
use htn.Severity.{Severity, high, ok, neutral, severity_for_risk, severity_for_health}

pub data MetricKind : Type 0 where
  risk health count latency : MetricKind

-- The texts of the definition are left out.
pub record MetricDescriptor : Type 0 where
  pub key : String
  pub label : String
  pub kind : MetricKind

abbrev pub metric_descriptors : List MetricDescriptor
metric_descriptors =
    record { key = "compromise_fraction"; label = "Compromise fraction"; kind = risk }
    ∷ record { key = "blast_radius_fraction"; label = "Blast radius"; kind = risk }
    ∷ record { key = "attack_success_rate"; label = "Attack success rate"; kind = risk }
    ∷ record { key = "false_quarantine_rate"; label = "False-quarantine rate"; kind = risk }
    ∷ record { key = "retained_utility"; label = "Retained utility"; kind = health }
    ∷ record { key = "security_plane_integrity"; label = "Security-plane integrity"; kind = health }
    ∷ record { key = "privileged_exposure"; label = "Privileged exposure"; kind = count }
    ∷ record { key = "detection_latency"; label = "Detection latency"; kind = latency }
    ∷ record { key = "containment_latency"; label = "Containment latency"; kind = latency }
    ∷ []

abbrev pub Value : Type 0
Value = ℕ × ℕ

unfoldable pub metric_severity : MetricKind → Option Value → Severity
unfolding severity_for_risk severity_for_health
metric_severity kind none = neutral
metric_severity risk (some (n, d)) = severity_for_risk n d
metric_severity health (some (n, d)) = severity_for_health n d
metric_severity count (some (n, d)) = if ltb 0 n then high else ok
metric_severity latency (some v) = neutral

pub data DeltaDirection : Type 0 where
  better worse same unknown : DeltaDirection

abbrev pub lower_is_better : MetricKind → Bool
lower_is_better health = false
lower_is_better _ = true

-- `after === before`, `after < before`
abbrev pub same_value : Value → Value → Bool
same_value a b = a.0 * b.1 == b.0 * a.1

abbrev pub is_below : Value → Value → Bool
is_below a b = ltb (a.0 * b.1) (b.0 * a.1)

abbrev pub verdict_of : Bool → Bool → DeltaDirection
verdict_of true true = better
verdict_of false false = better
verdict_of _ _ = worse

unfoldable pub delta_direction : MetricKind → Option Value → Option Value → DeltaDirection
delta_direction kind none after = unknown
delta_direction kind (some before) none = unknown
delta_direction kind (some before) (some after) =
    if same_value before after
    then same
    else verdict_of (is_below after before) (lower_is_better kind)
