-- ===== src/Severity.antt =====
-- Severities: frontend/src/lib/severity.ts. A fraction is given by its two numbers, the second of
-- which is not zero. The classes of Tailwind are left out.
use htn.Prelude.{ℕ, ◌*◌, String, leb, ltb, if◌then◌else◌}
use htn.Stream.Types.{SecurityState, healthy, suspicious, compromised, quarantined, recovered}

pub data Severity : Type 0 where
  critical high warn contained ok neutral : Severity

unfoldable pub security_state_severity : SecurityState → Severity
security_state_severity healthy = neutral
security_state_severity suspicious = warn
security_state_severity compromised = critical
security_state_severity quarantined = contained
security_state_severity recovered = ok

-- `SECURITY_STATE_LABEL`
unfoldable pub security_state_label : SecurityState → String
security_state_label healthy = "Healthy"
security_state_label suspicious = "Suspicious"
security_state_label compromised = "Compromised"
security_state_label quarantined = "Quarantined"
security_state_label recovered = "Recovered"

-- `SECURITY_STATE_HINT`
unfoldable pub security_state_hint : SecurityState → String
security_state_hint healthy = "No policy violation observed."
security_state_hint suspicious = "Anomalous behaviour flagged, not yet confirmed."
security_state_hint compromised = "Attacker-controlled — a policy violation was observed."
security_state_hint quarantined = "Isolated by the defense; can no longer propagate."
security_state_hint recovered = "Returned to a trusted state after containment."

-- `SEVERITY_HEX`
unfoldable pub severity_hex : Severity → String
severity_hex critical = "#f2555f"
severity_hex high = "#f5834e"
severity_hex warn = "#e0b341"
severity_hex contained = "#a273f2"
severity_hex ok = "#3fb87a"
severity_hex neutral = "#7b8698"

-- The severity of the fraction `n / d` where more is worse.
unfoldable pub severity_for_risk : ℕ → ℕ → Severity
severity_for_risk n d =
    if leb d (2 * n) then critical else if leb d (4 * n) then high else if ltb 0 n then warn else ok

-- And where more is better.
unfoldable pub severity_for_health : ℕ → ℕ → Severity
severity_for_health n d =
    if leb (9 * d) (10 * n)
    then ok
    else if leb (6 * d) (10 * n)
    then warn
    else if leb (3 * d) (10 * n)
    then high
    else critical

pub data RunStatus : Type 0 where
  idle running paused finished stopped : RunStatus

-- `RUN_STATUS_LABEL`
unfoldable pub run_status_label : RunStatus → String
run_status_label idle = "No run"
run_status_label running = "Running"
run_status_label paused = "Paused"
run_status_label finished = "Complete"
run_status_label stopped = "Stopped"

-- `RUN_STATUS_SEVERITY`
unfoldable pub run_status_severity : RunStatus → Severity
run_status_severity running = ok
run_status_severity paused = warn
run_status_severity _ = neutral
