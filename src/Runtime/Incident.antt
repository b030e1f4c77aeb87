-- ===== src/Runtime/Incident.antt =====
-- The deny cascade: frontend/src/lib/runtime/incident.ts.
pub mod Laws
use mathlib.Core.Option
use htn.Prelude.{
  String, Bool, true, false, ◌&&◌, Option, none, some, List, [], ◌∷◌, Dict, lookup, insert,
  coalesce, or_else, is_some, truthy, same_option, string_eq, ◌==◌, if◌then◌else◌,
}
use htn.Prelude.Int.{ℤ}
use htn.Stream.Types.{Event, EventType, meta}
use htn.Runtime.Fields.{str_or_null, strings, is_tool_requested}

pub data CascadeKey : Type 0 where
  requested denied violation quarantined : CascadeKey

pub record CascadeStep : Type 0 where
  pub key : CascadeKey
  pub label : String
  pub detail : String
  pub seq : Option ℤ

pub record Incident : Type 0 where
  pub detected : Bool
  pub worker_id : Option String
  pub worker_role : Option String
  pub resource : Option String
  pub rule : Option String
  pub reason : Option String
  pub tainted_artifact_ids : List String
  pub replacement_worker_id : Option String
  pub replacement_role : Option String
  pub trusted_context_ids : List String
  pub trusted_context_only : Bool
  pub cascade : List CascadeStep

abbrev pub cascade_label : CascadeKey → String
cascade_label requested = "Tool request"
cascade_label denied = "Request denied"
cascade_label violation = "Policy violation"
cascade_label quarantined = "Worker quarantined"

-- An entry of the map `reached`.
pub record Hit : Type 0 where
  pub seq : ℤ
  pub detail : String

-- The variables of the first loop; `reached` has a field for each key that it sets.
pub record Scan : Type 0 where
  pub roles : Dict String String
  pub reached_denied : Option Hit
  pub reached_violation : Option Hit
  pub reached_quarantined : Option Hit
  pub detected : Bool
  pub worker_id : Option String
  pub resource : Option String
  pub rule : Option String
  pub reason : Option String
  pub tainted_artifact_ids : List String
  pub replacement_worker_id : Option String
  pub trusted_context_ids : List String
  pub trusted_context_only : Bool

abbrev pub initial_scan : Scan
initial_scan = record {
  roles = [];
  reached_denied = none;
  reached_violation = none;
  reached_quarantined = none;
  detected = false;
  worker_id = none;
  resource = none;
  rule = none;
  reason = none;
  tainted_artifact_ids = [];
  replacement_worker_id = none;
  trusted_context_ids = [];
  trusted_context_only = false;
}

-- AGENT_CREATED with an agent's id: its role, and whom it replaces.
unfoldable pub register : Event → String → Scan → Scan
register e agent s =
    let named = record s {
      roles = elim (str_or_null (meta e "role")) [
        | none ↦ s.roles
        | some role ↦ insert agent role s.roles
      ];
    } in
    if is_some (str_or_null (meta e "replaces"))
    then record named {
      replacement_worker_id = some agent;
      trusted_context_ids = strings (meta e "trusted_context");
    }
    else named

-- One round of the first loop of `deriveIncident`.
unfoldable pub scan_case : EventType → Event → Scan → Scan
scan_case EventType.agent_created e s = elim (truthy e.agent_id) [
  | none ↦ s
  | some agent ↦ register e agent s
]
scan_case EventType.agent_started e s =
    if same_option e.agent_id s.replacement_worker_id
      && same_option (str_or_null (meta e "context_policy")) (some "trusted_artifacts_only")
    then record s { trusted_context_only = true }
    else s
scan_case EventType.tool_denied e s = if is_some s.reached_denied then s else record s {
  resource = or_else (str_or_null (meta e "resource")) s.resource;
  rule = or_else (str_or_null (meta e "violation_type")) s.rule;
  reason = or_else (str_or_null (meta e "reason")) s.reason;
  reached_denied = some (record { seq = e.seq; detail = "Refused before anything was opened." });
}
scan_case EventType.policy_violation e s = record s {
  detected = true;
  worker_id = or_else e.agent_id s.worker_id;
  resource = or_else (str_or_null (meta e "resource")) s.resource;
  rule = or_else (str_or_null (meta e "violation_type")) s.rule;
  reason = or_else (str_or_null (meta e "reason")) s.reason;
  reached_violation = or_else s.reached_violation (
      some (record {
        seq = e.seq;
        detail = coalesce (str_or_null (meta e "violation_type")) "policy violation";
      }));
}
scan_case EventType.agent_quarantined e s = if is_some s.reached_quarantined then s else record s {
  worker_id = or_else e.agent_id s.worker_id;
  tainted_artifact_ids = strings (meta e "tainted_artifacts");
  reached_quarantined =
      some (record { seq = e.seq; detail = "Removed from the team; its output is untrusted." });
}
scan_case _ e s = s

unfoldable pub scan : Scan → List Event → Scan
scan s [] = s
scan s (e ∷ es) = scan (scan_case e.event_type e s) es

-- The second loop: the first request for the resource.
unfoldable pub find_request : String → List Event → Option Hit
find_request resource [] = none
find_request resource (e ∷ es) =
    if is_tool_requested e && same_option (str_or_null (meta e "resource")) (some resource)
    then some (record { seq = e.seq; detail = resource })
    else find_request resource es

abbrev pub cascade_step : CascadeKey → Option Hit → CascadeStep
cascade_step k hit = record {
  key = k;
  label = cascade_label k;
  detail = coalesce (Option.map (λ (h : Hit). h.detail) hit) "";
  seq = Option.map (λ (h : Hit). h.seq) hit;
}

-- `id ? (roles.get(id) ?? null) : null`
unfoldable pub role_of : Option String → Dict String String → Option String
role_of id roles = elim (truthy id) [ none ↦ none | some a ↦ lookup a roles ]

unfoldable pub incident_of : Scan → List Event → Incident
incident_of s es = record {
  detected = s.detected;
  worker_id = s.worker_id;
  worker_role = role_of s.worker_id s.roles;
  resource = s.resource;
  rule = s.rule;
  reason = s.reason;
  tainted_artifact_ids = s.tainted_artifact_ids;
  replacement_worker_id = s.replacement_worker_id;
  replacement_role = role_of s.replacement_worker_id s.roles;
  trusted_context_ids = s.trusted_context_ids;
  trusted_context_only = s.trusted_context_only;
  cascade =
      cascade_step requested (elim (s.resource) [ none ↦ none | some r ↦ find_request r es ])
      ∷ cascade_step denied s.reached_denied
      ∷ cascade_step violation s.reached_violation
      ∷ cascade_step quarantined s.reached_quarantined
      ∷ [];
}

-- The line opens all that a test runs.
unfoldable pub derive_incident : List Event → Incident
unfolding scan scan_case register find_request role_of incident_of strings meta lookup insert
derive_incident es = incident_of (scan initial_scan es) es
