-- ===== src/Stream/Types.antt =====
-- The wire format of the event stream: frontend/src/lib/api/schema.d.ts.
use htn.Prelude.{ℕ, String, Bool, true, false, Option, none, some, List, Dict, lookup, string_eq}
use htn.Prelude.Int.{ℤ}

pub data SecurityState : Type 0 where
  healthy suspicious compromised quarantined recovered : SecurityState

pub data AgentKind : Type 0 where
  simulated real : AgentKind

-- The union `EventType`; a constructor stands for the text in capitals.
pub data EventType : Type 0 where
  experiment_started experiment_stopped agent_created agent_started agent_stopped : EventType
  message_sent message_received model_requested model_responded : EventType
  tool_requested tool_executed tool_denied memory_read memory_write : EventType
  credential_accessed credential_revoked : EventType
  compromise_attempted compromise_succeeded compromise_failed : EventType
  anomaly_detected agent_quarantined agent_released permission_changed : EventType
  inference_disabled threat_signature_published threat_signature_received : EventType
  agent_recovered policy_violation attestation_issued attestation_verified : EventType
  task_assigned task_reassigned task_completed workflow_recovered : EventType

-- A parsed JSON value; its numbers are integers here.
mutual
  pub data Json : Type 0 where
    null : Json
    bool : Bool → Json
    num : ℤ → Json
    str : String → Json
    arr : Items → Json
    obj : Fields → Json

  pub data Items : Type 0 where
    nil : Items
    cons : Json → Items → Items

  pub data Fields : Type 0 where
    end : Fields
    field : String → Json → Fields → Fields

-- A field that is left out is taken for `null`, as the backend writes it: both are `none`.
pub record NodeView : Type 0 where
  pub id : String
  pub software_type : String
  pub security_state : SecurityState
  pub compromised_by : Option String
  pub tick_compromised : Option ℕ
  pub agent_kind : AgentKind

pub record EdgeView : Type 0 where
  pub source : String
  pub target : String

pub record Event : Type 0 where
  pub sim_tick : ℕ
  pub event_type : EventType
  pub agent_id : Option String
  pub source_agent_id : Option String
  pub target_agent_id : Option String
  pub metadata : Option (Dict String Json)
  pub event_id : String
  pub seq : ℤ
  pub schema_version : ℕ
  pub experiment_id : String
  pub wall_time : String

pub record SnapshotFrame : Type 0 where
  pub experiment_id : String
  pub last_seq : ℤ
  pub sim_tick : ℕ
  pub nodes : List NodeView
  pub edges : List EdgeView

pub data StreamFrame : Type 0 where
  snapshot : SnapshotFrame → StreamFrame
  event : Event → StreamFrame

-- `event.metadata?.[key]`
unfoldable pub meta : Event → String → Option Json
unfolding lookup
meta e key = elim (e.metadata) [ none ↦ none | some m ↦ lookup key m ]

-- `value === true`
abbrev pub is_true : Option Json → Bool
is_true (some (bool b)) = b
is_true _ = false

-- `value === false`
abbrev pub is_false : Option Json → Bool
is_false (some (bool true)) = false
is_false (some (bool false)) = true
is_false _ = false

unfoldable pub EventType-discrete : Discrete EventType
EventType-discrete = hlevel
