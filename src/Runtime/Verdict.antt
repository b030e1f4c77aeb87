-- ===== src/Runtime/Verdict.antt =====
-- The verdict lights: frontend/src/lib/runtime/verdict.ts.
pub mod Laws
use htn.Prelude.{
  String, Bool, true, false, Option, none, some, List, [], ◌∷◌, ◌++◌, foldl, coalesce, or_else,
  is_some, string_eq, ◌==◌, if◌then◌else◌,
}
use htn.Prelude.Int.{ℤ}
use htn.Stream.Types.{Event, EventType, meta, is_true}
use htn.Runtime.Fields.{str_or_null}

pub record CompletedStep : Type 0 where
  pub step : String
  pub worker_id : Option String
  pub detail : String
  pub seq : ℤ

pub record DemoVerdict : Type 0 where
  pub attack_detected : Bool
  pub agent_quarantined : Bool
  pub workflow_recovered : Bool
  pub tests_passed : Option Bool
  pub test_summary : Option String
  pub test_command : Option String
  pub quarantined_worker_id : Option String
  pub replacement_worker_id : Option String
  pub denied_resource : Option String
  pub violation_reason : Option String
  pub violation_type : Option String
  pub recovery_summary : Option String
  pub completed_steps : List CompletedStep

abbrev pub empty_verdict : DemoVerdict
empty_verdict = record {
  attack_detected = false;
  agent_quarantined = false;
  workflow_recovered = false;
  tests_passed = none;
  test_summary = none;
  test_command = none;
  quarantined_worker_id = none;
  replacement_worker_id = none;
  denied_resource = none;
  violation_reason = none;
  violation_type = none;
  recovery_summary = none;
  completed_steps = [];
}

-- The case TASK_COMPLETED, once its step is known.
unfoldable pub complete_step : Event → DemoVerdict → String → DemoVerdict
complete_step e v step =
    let pushed = record v {
      completed_steps =
          v.completed_steps
          ++ record {
            step = step;
            worker_id = e.agent_id;
            detail = coalesce (str_or_null (meta e "detail")) "";
            seq = e.seq;
          }
            ∷ [];
    } in
    if step == "pytest"
    then record pushed {
      tests_passed = some (is_true (meta e "passed"));
      test_summary = str_or_null (meta e "detail");
      test_command = str_or_null (meta e "command");
    }
    else pushed

-- The `switch` of `deriveVerdict`.
unfoldable pub verdict_case : EventType → Event → DemoVerdict → DemoVerdict
unfolding complete_step
verdict_case EventType.policy_violation e v = record v {
  attack_detected = true;
  denied_resource = or_else (str_or_null (meta e "resource")) v.denied_resource;
  violation_reason = or_else (str_or_null (meta e "reason")) v.violation_reason;
  violation_type = or_else (str_or_null (meta e "violation_type")) v.violation_type;
}
verdict_case EventType.agent_quarantined e v = record v {
  agent_quarantined = true;
  quarantined_worker_id = or_else e.agent_id v.quarantined_worker_id;
}
verdict_case EventType.agent_created e v =
    if is_some (str_or_null (meta e "replaces"))
    then record v { replacement_worker_id = or_else e.agent_id v.replacement_worker_id }
    else v
verdict_case EventType.task_completed e v = elim (str_or_null (meta e "step")) [
  | none ↦ v
  | some step ↦ complete_step e v step
]
verdict_case EventType.workflow_recovered e v = record v {
  workflow_recovered = true;
  recovery_summary = str_or_null (meta e "summary");
}
verdict_case _ e v = v

unfoldable pub verdict_step : DemoVerdict → Event → DemoVerdict
unfolding verdict_case
verdict_step v e = verdict_case e.event_type e v

unfoldable pub derive_verdict : List Event → DemoVerdict
unfolding verdict_step meta
derive_verdict es = foldl verdict_step empty_verdict es

pub data LightStatus : Type 0 where
  pending lit failed : LightStatus

pub data LightKey : Type 0 where
  attack_detected agent_quarantined workflow_recovered tests_passed : LightKey

-- Hints and labels of the lights are texts for the screen, and are left out.
unfoldable pub light_status : DemoVerdict → LightKey → LightStatus
light_status v attack_detected = if v.attack_detected then lit else pending
light_status v agent_quarantined = if v.agent_quarantined then lit else pending
light_status v workflow_recovered = if v.workflow_recovered then lit else pending
light_status v tests_passed = elim (v.tests_passed) [
  | none ↦ pending
  | some b ↦ if b then lit else failed
]
