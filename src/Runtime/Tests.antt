-- ===== src/Runtime/Tests.antt =====
-- The views of a run on one history: an attack, its denial and quarantine, and two test runs.
use mathlib.Core.Option
use htn.Prelude.{
  Option, none, if◌then◌else◌, ◌==◌, string_eq, ℕ, ◌≡◌, refl, String, Bool, true, false, some, List,
  [], ◌∷◌, map, filter, last, length,
}
use htn.Prelude.Int.{pos}
use htn.Stream.Types.{Json, EventType, Event}
use htn.Stream.Samples.{bare}
use htn.Runtime.Fields.{is_policy_violation, is_quarantine, is_tool_denied}
use htn.Runtime.TestRuns.{TestCount, TestRun, derive_test_evidence}
use htn.Runtime.Verdict.{derive_verdict}
use htn.Runtime.Verdict.Laws.{derive_verdict-tests_passed}
use htn.Runtime.Incident.{denied, violation, quarantined, derive_incident}
use htn.Runtime.Incident.Laws.{first_seq, seq_at, derive_incident-cascade}
use htn.Runtime.Narrative.{Beat, derive_narrative}
use htn.Runtime.Narrative.Laws.{
  total, is_told, IsTwinFree, derive_narrative-total, derive_narrative-IsTwinFree,
}

abbrev read : ℕ → Event
read n = record (bare EventType.tool_executed) { seq = pos n; agent_id = some "w" }

abbrev tests : ℕ → Bool → Event
tests n passed = record (bare EventType.task_completed) {
  seq = pos n;
  agent_id = some "t";
  metadata =
      some
        (("step", Json.str "pytest") ∷ ("passed", Json.bool passed) ∷ ("detail", Json.str "") ∷ []);
}

abbrev denial : ℕ → Event
denial n = record (bare EventType.tool_denied) {
  seq = pos n;
  agent_id = some "w";
  metadata = some (("resource", Json.str "/etc/shadow") ∷ []);
}

abbrev history : List Event
history =
    read 1
    ∷ read 2
    ∷ tests 3 false
    ∷ bare EventType.model_responded
    ∷ denial 4
    ∷ record (bare EventType.policy_violation) { seq = pos 5; agent_id = some "w" }
    ∷ denial 6
    ∷ record (bare EventType.agent_quarantined) { seq = pos 7; agent_id = some "w" }
    ∷ tests 8 true
    ∷ []

abbrev show : ℕ → String
show n = "n"

abbrev parse_counts : String → List TestCount
parse_counts summary = []

labels :
    map (λ (b : Beat). b.label) (derive_narrative show history)
    ≡ "w working" ∷ "Regression suite failed" ∷ "AgentShield denied the request"
      ∷ "Policy violation" ∷ "AgentShield denied the request" ∷ "Worker quarantined"
      ∷ "Regression suite passed" ∷ []
unfolding derive_narrative
labels = refl

proved :
    ((derive_test_evidence parse_counts history).proved_red ≡ true)
    × ((derive_test_evidence parse_counts history).proved_green ≡ true)
unfolding derive_test_evidence
proved = (refl, refl)

derive_narrative-total_example :
    total (derive_narrative show history) ≡ length (filter is_told history)
derive_narrative-total_example = derive_narrative-total show history

derive_narrative-IsTwinFree_example : IsTwinFree (derive_narrative show history)
derive_narrative-IsTwinFree_example = derive_narrative-IsTwinFree show history

derive_verdict-tests_passed_example :
    (derive_verdict history).tests_passed
    ≡ Option.map (λ (r : TestRun). r.passed) (last (derive_test_evidence parse_counts history).runs)
derive_verdict-tests_passed_example = derive_verdict-tests_passed parse_counts history

derive_incident-cascade_example :
    let c = (derive_incident history).cascade in
    (seq_at denied c ≡ some (first_seq is_tool_denied history))
    × (seq_at violation c ≡ some (first_seq is_policy_violation history))
    × (seq_at quarantined c ≡ some (first_seq is_quarantine history))
derive_incident-cascade_example = derive_incident-cascade history

abbrev epoch : String → Option ℕ
epoch time = if time == "" then none else some 1000
