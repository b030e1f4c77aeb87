-- ===== src/Vocabulary/Events.antt =====
-- The events: their labels, categories and severities, of frontend/src/lib/vocabulary.ts.
use htn.Prelude.{
  String, ◌&&◌, Option, none, some, [], ◌∷◌, Dict, lookup, coalesce, string_eq, ◌==◌, if◌then◌else◌,
}
use htn.Severity.{Severity, critical, high, warn, contained, ok, neutral}
use htn.Stream.Types.{Json, is_true, is_false}

pub data EventCategory : Type 0 where
  attack defense model lifecycle security_plane workflow : EventCategory

pub record EventMeta : Type 0 where
  pub label : String
  pub category : EventCategory
  pub severity : Severity

abbrev pub attack_event : String → Severity → EventMeta
attack_event label severity = record { label = label; category = attack; severity = severity }

abbrev pub defense_event : String → Severity → EventMeta
defense_event label severity = record { label = label; category = defense; severity = severity }

abbrev pub plane_event : String → Severity → EventMeta
plane_event label severity = record {
  label = label;
  category = security_plane;
  severity = severity;
}

abbrev pub model_event : String → EventMeta
model_event label = record { label = label; category = model; severity = neutral }

abbrev pub workflow_event : String → Severity → EventMeta
workflow_event label severity = record { label = label; category = workflow; severity = severity }

abbrev pub lifecycle_event : String → EventMeta
lifecycle_event label = record { label = label; category = lifecycle; severity = neutral }

-- `EVENT_META`
abbrev pub event_table : Dict String EventMeta
event_table =
    ("EXPERIMENT_STARTED", lifecycle_event "Assessment started")
    ∷ ("EXPERIMENT_STOPPED", lifecycle_event "Assessment stopped")
    ∷ ("AGENT_CREATED", lifecycle_event "Agent registered")
    ∷ ("AGENT_STARTED", lifecycle_event "Agent started")
    ∷ ("AGENT_STOPPED", lifecycle_event "Agent stopped")
    ∷ ("MESSAGE_SENT", lifecycle_event "Message sent")
    ∷ ("MESSAGE_RECEIVED", lifecycle_event "Message received")
    ∷ ("MODEL_REQUESTED", model_event "Model call")
    ∷ ("MODEL_RESPONDED", model_event "Model response")
    ∷ ("TOOL_REQUESTED", model_event "Tool requested")
    ∷ ("TOOL_EXECUTED", model_event "Tool executed")
    ∷ ("TOOL_DENIED", defense_event "Tool denied" warn)
    ∷ ("MEMORY_READ", model_event "Memory read")
    ∷ ("MEMORY_WRITE", model_event "Memory write")
    ∷ ("CREDENTIAL_ACCESSED", attack_event "Credential accessed" warn)
    ∷ ("CREDENTIAL_REVOKED", defense_event "Credential revoked" ok)
    ∷ ("COMPROMISE_ATTEMPTED", attack_event "Compromise attempted" warn)
    ∷ ("COMPROMISE_SUCCEEDED", attack_event "Compromise succeeded" critical)
    ∷ ("COMPROMISE_FAILED", attack_event "Compromise blocked" ok)
    ∷ ("POLICY_VIOLATION", attack_event "Policy violation" critical)
    ∷ ("ANOMALY_DETECTED", defense_event "Anomaly detected" warn)
    ∷ ("AGENT_QUARANTINED", defense_event "Agent quarantined" contained)
    ∷ ("AGENT_RELEASED", defense_event "Agent released" ok)
    ∷ ("AGENT_RECOVERED", defense_event "Agent recovered" ok)
    ∷ ("PERMISSION_CHANGED", defense_event "Permission changed" neutral)
    ∷ ("INFERENCE_DISABLED", defense_event "Inference disabled" contained)
    ∷ ("THREAT_SIGNATURE_PUBLISHED", plane_event "Threat signature published" warn)
    ∷ ("THREAT_SIGNATURE_RECEIVED", plane_event "Threat signature received" neutral)
    ∷ ("ATTESTATION_ISSUED", plane_event "Attestation issued" neutral)
    ∷ ("ATTESTATION_VERIFIED", plane_event "Attestation verified" neutral)
    ∷ ("TASK_ASSIGNED", workflow_event "Task assigned" neutral)
    ∷ ("TASK_REASSIGNED", workflow_event "Task reassigned" contained)
    ∷ ("TASK_COMPLETED", workflow_event "Task completed" ok)
    ∷ ("WORKFLOW_RECOVERED", workflow_event "Workflow recovered" ok)
    ∷ []

unfoldable pub event_meta : String → EventMeta
unfolding lookup
event_meta event_type = coalesce (lookup event_type event_table) (lifecycle_event event_type)

-- `metadata?.[key]`
abbrev pub field_of : Option (Dict String Json) → String → Option Json
field_of none key = none
field_of (some m) key = lookup key m

unfoldable pub event_severity : String → Option (Dict String Json) → Severity
unfolding event_meta lookup
event_severity event_type metadata =
    if event_type == "ATTESTATION_VERIFIED" && is_true (field_of metadata "replayed")
    then critical
    else if event_type == "AGENT_QUARANTINED" && is_false (field_of metadata "legitimate")
    then high
    else if event_type == "THREAT_SIGNATURE_PUBLISHED" && is_false (field_of metadata "legitimate")
    then high
    else if event_type == "COMPROMISE_SUCCEEDED"
        && is_true (field_of metadata "already_compromised")
    then warn
    else (event_meta event_type).severity

abbrev pub event_category_label : EventCategory → String
event_category_label attack = "Attack"
event_category_label defense = "Defense"
event_category_label security_plane = "Security plane"
event_category_label model = "Model / tool"
event_category_label lifecycle = "Lifecycle"
event_category_label workflow = "Workflow"
