-- ===== src/Runtime/Narrative.antt =====
-- The run as a story: frontend/src/lib/runtime/narrative.ts.
-- The open beat is kept beside the closed ones, and is the last of the source's `beats`. How a
-- number is written is an argument. The keys that every JavaScript object inherits are no steps.
pub mod Laws
use Prim.Native.String.{◌++◌ as append}
use htn.Prelude.{
  ℕ, ◌+◌, String, Bool, true, false, not, ◌&&◌, Option, none, some, List, [], ◌∷◌, ◌++◌, map, foldl,
  Dict, lookup, insert, contains, add, filter_map, coalesce, is_some, truthy, nat_eq, string_eq,
  ◌==◌, if◌then◌else◌, Eq, eq_of_discrete,
}
use htn.Prelude.Int.{ℤ}
use htn.Severity.{Severity, critical, high, warn, contained, ok, neutral}
use htn.Stream.Types.{Event, EventType, EventType-discrete, meta, is_true}
use htn.Runtime.Fields.{str_or_empty}

pub data BeatKind : Type 0 where
  milestone activity : BeatKind

pub record Beat : Type 0 where
  pub id : String
  pub seq : ℤ
  pub tick : ℕ
  pub wall_time : String
  pub kind : BeatKind
  pub severity : Severity
  pub label : String
  pub detail : String
  pub actor : Option String
  pub actor_role : Option String
  pub count : ℕ

instance abbrev pub event_type_eq : Eq EventType
event_type_eq = eq_of_discrete EventType-discrete

unfoldable pub activity_noun : EventType → Option (String × String)
activity_noun EventType.tool_requested = some ("file requested", "files requested")
activity_noun EventType.tool_executed = some ("file read", "files read")
activity_noun EventType.model_requested = some ("model call", "model calls")
activity_noun EventType.memory_read = some ("memory read", "memory reads")
activity_noun EventType.memory_write = some ("memory write", "memory writes")
activity_noun EventType.message_sent = some ("message", "messages")
activity_noun EventType.message_received = some ("message", "messages")
activity_noun EventType.agent_created = some ("worker registered", "workers registered")
activity_noun _ = none

-- `SILENT.has`
abbrev pub is_silent : EventType → Bool
is_silent EventType.model_responded = true
is_silent EventType.agent_stopped = true
is_silent _ = false

-- `STEP_COPY`
unfoldable pub step_copy : String → Option (String × Severity)
step_copy step =
    if step == "analysis"
    then some ("Repository analysed", neutral)
    else if step == "research"
    then some ("Vulnerability investigated", neutral)
    else if step == "regression_test"
    then some ("Regression coverage added", neutral)
    else if step == "vulnerability_proven"
    then some ("Vulnerability reproduced", warn)
    else if step == "vulnerability_NOT_proven"
    then some ("Vulnerability NOT reproduced", high)
    else if step == "patch"
    then some ("Patch applied", neutral)
    else if step == "review"
    then some ("Independently reviewed", ok)
    else none

pub record Milestone : Type 0 where
  pub label : String
  pub severity : Severity
  pub detail : String

-- `str(...) || other`
abbrev pub or_text : String → String → String
or_text s t = if s == "" then t else s

unfoldable pub task_completed : Event → String → Option Milestone
task_completed e step =
    let detail = str_or_empty (meta e "detail") in
    if step == "pytest"
    then (if is_true (meta e "passed")
        then some (record { label = "Regression suite passed"; severity = ok; detail = detail })
        else some
            (record { label = "Regression suite failed"; severity = critical; detail = detail }))
    else elim (step_copy step) [
      | some (label, severity) ↦
          some (record { label = label; severity = severity; detail = detail })
      | none ↦
          if step == ""
          then none
          else some (record { label = step; severity = neutral; detail = detail })
    ]

-- The `switch` of `milestoneFor`.
unfoldable pub milestone_for : EventType → Event → List String → Option Milestone
milestone_for EventType.task_assigned e replacements =
    some (record {
      label = "Task assigned";
      severity = neutral;
      detail = str_or_empty (meta e "task");
    })
milestone_for EventType.tool_denied e replacements = some (record {
  label = "AgentShield denied the request";
  severity = critical;
  detail = str_or_empty (meta e "resource");
})
milestone_for EventType.policy_violation e replacements = some (record {
  label = "Policy violation";
  severity = critical;
  detail = or_text (str_or_empty (meta e "reason")) (str_or_empty (meta e "violation_type"));
})
milestone_for EventType.anomaly_detected e replacements = some (record {
  label = "Anomaly detected";
  severity = warn;
  detail = str_or_empty (meta e "detector");
})
milestone_for EventType.agent_quarantined e replacements = some (record {
  label = "Worker quarantined";
  severity = contained;
  detail = str_or_empty (meta e "reason");
})
milestone_for EventType.task_reassigned e replacements = some (record {
  label = "Task reassigned";
  severity = contained;
  detail = elim (truthy e.target_agent_id) [
    | none ↦ str_or_empty (meta e "task")
    | some target ↦ append "to " target
  ];
})
milestone_for EventType.agent_created e replacements =
    if str_or_empty (meta e "replaces") == ""
    then none
    else some (record {
      label = "Replacement worker created";
      severity = contained;
      detail = append "replaces " (str_or_empty (meta e "replaces"));
    })
milestone_for EventType.agent_started e replacements = elim (truthy e.agent_id) [
  | none ↦ none
  | some agent ↦
      if contains agent replacements
      then some (record {
        label = "Replacement started on trusted context only";
        severity = ok;
        detail = str_or_empty (meta e "context_policy");
      })
      else none
]
milestone_for EventType.agent_recovered e replacements =
    some (record { label = "Worker recovered"; severity = ok; detail = "" })
milestone_for EventType.task_completed e replacements =
    task_completed e (str_or_empty (meta e "step"))
milestone_for EventType.workflow_recovered e replacements = some (record {
  label = "Workflow recovered";
  severity = ok;
  detail = str_or_empty (meta e "summary");
})
milestone_for EventType.experiment_stopped e replacements = some (record {
  label = "Workflow stopped";
  severity = high;
  detail = str_or_empty (meta e "reason");
})
milestone_for _ e replacements = none

-- The first loop of `deriveNarrative`: the roles, and the ids of the replacements.
pub record Team : Type 0 where
  pub roles : Dict String String
  pub replacements : List String

unfoldable pub team_case : EventType → Event → Team → Team
team_case EventType.agent_created e t = elim (truthy e.agent_id) [
  | none ↦ t
  | some agent ↦ record {
    roles =
        if str_or_empty (meta e "role") == ""
        then t.roles
        else insert agent (str_or_empty (meta e "role")) t.roles;
    replacements =
        if str_or_empty (meta e "replaces") == "" then t.replacements else add agent t.replacements;
  }
]
team_case _ e t = t

unfoldable pub team_of : Team → List Event → Team
team_of t [] = t
team_of t (e ∷ es) = team_of (team_case e.event_type e t) es

-- The beat that is open, with the counts of the events folded into it.
pub record Open : Type 0 where
  pub beat : Beat
  pub counts : Dict EventType ℕ

pub record Story : Type 0 where
  pub closed : List Beat
  pub current : Option Open

unfoldable pub join : List String → String
join [] = ""
join (s ∷ []) = s
join (s ∷ t ∷ ss) = append s (append ", " (join (t ∷ ss)))

abbrev pub is_agent_creation : EventType → Bool
is_agent_creation EventType.agent_created = true
is_agent_creation _ = false

module _ (show : ℕ → String) where
  unfoldable pub plural : ℕ → String × String → String
  plural n (one, many) = append (show n) (append " " (if nat_eq n 1 then one else many))

  abbrev pub part : EventType × ℕ → Option String
  part (t, n) = elim (activity_noun t) [ none ↦ none | some noun ↦ some (plural n noun) ]

  unfoldable pub close_beat : Open → Beat
  close_beat o = record (o.beat) { detail = join (filter_map part o.counts) }

  -- `closeActivity`: the beats with the open one closed.
  unfoldable pub close_activity : Story → List Beat
  close_activity s = elim (s.current) [ none ↦ s.closed | some o ↦ s.closed ++ close_beat o ∷ [] ]

  -- The actor and the label of the beat that an event folds into.
  unfoldable pub actor_of : Event → Option String
  actor_of e = if is_agent_creation e.event_type then none else e.agent_id

  unfoldable pub label_of : Team → Event → String
  label_of t e =
      if is_agent_creation e.event_type then "Team assembled" else elim (truthy (actor_of e)) [
        | none ↦ "Session activity"
        | some a ↦ append (coalesce (lookup a t.roles) a) " working"
      ]

  -- `id ? (roles.get(id) ?? null) : null`
  abbrev pub role_for : Team → Option String → Option String
  role_for t id = elim (truthy id) [ none ↦ none | some a ↦ lookup a t.roles ]

  unfoldable pub milestone_beat : Team → Event → Milestone → Beat
  milestone_beat t e m = record {
    id = e.event_id;
    seq = e.seq;
    tick = e.sim_tick;
    wall_time = e.wall_time;
    kind = milestone;
    severity = m.severity;
    label = m.label;
    detail = m.detail;
    actor = e.agent_id;
    actor_role = role_for t e.agent_id;
    count = 1;
  }

  unfoldable pub open_beat : Team → Event → Open
  open_beat t e = record {
    beat = record {
      id = e.event_id;
      seq = e.seq;
      tick = e.sim_tick;
      wall_time = e.wall_time;
      kind = activity;
      severity = neutral;
      label = label_of t e;
      detail = "";
      actor = actor_of e;
      actor_role = role_for t (actor_of e);
      count = 1;
    };
    counts = (e.event_type, 1) ∷ [];
  }

  unfoldable pub fold_into : Event → Open → Open
  fold_into e o = record {
    beat = record (o.beat) { count = o.beat.count + 1 };
    counts = insert e.event_type (coalesce (lookup e.event_type o.counts) 0 + 1) o.counts;
  }

  unfoldable pub open_new : Team → Event → Story → Story
  open_new t e s = record { closed = close_activity s; current = some (open_beat t e) }

  -- An event that is no milestone.
  unfoldable pub add_activity : Team → Event → Story → Story
  add_activity t e s = elim (s.current) [
    | none ↦ open_new t e s
    | some o ↦
        if o.beat.label == label_of t e
        then record s { current = some (fold_into e o) }
        else open_new t e s
  ]

  -- One round of the second loop.
  unfoldable pub add_event : Team → Story → Event → Story
  add_event t s e =
      if is_silent e.event_type then s else elim (milestone_for e.event_type e t.replacements) [
        | none ↦ add_activity t e s
        | some m ↦ record { closed = close_activity s ++ milestone_beat t e m ∷ []; current = none }
      ]

  -- The line opens all that a test runs.
  unfoldable pub derive_narrative : List Event → List Beat
  unfolding add_event add_activity open_new fold_into open_beat milestone_beat label_of actor_of
      close_activity close_beat plural join team_of team_case milestone_for task_completed step_copy
      activity_noun meta lookup insert contains add EventType-discrete
  derive_narrative es = close_activity (
      foldl (add_event (team_of (record { roles = []; replacements = [] }) es))
        (record { closed = []; current = none }) es)
