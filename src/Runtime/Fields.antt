-- ===== src/Runtime/Fields.antt =====
-- Reading the metadata of an event: the helpers `str` and `strings` of frontend/src/lib/runtime.
use htn.Prelude.{String, Bool, true, false, Option, none, some, List, [], ◌∷◌, truthy}
use htn.Stream.Types.{Json, Items, Event, EventType}

-- `str` of verdict.ts, incident.ts and testRuns.ts: a text that is not empty.
abbrev pub str_or_null : Option Json → Option String
str_or_null (some (Json.str s)) = truthy (some s)
str_or_null _ = none

-- `str` of narrative.ts and provenance.ts
abbrev pub str_or_empty : Option Json → String
str_or_empty (some (Json.str s)) = s
str_or_empty _ = ""

-- The texts among the items of an array.
unfoldable pub texts : Items → List String
texts Items.nil = []
texts (Items.cons (Json.str s) items) = s ∷ texts items
texts (Items.cons _ items) = texts items

-- `strings` of incident.ts
unfoldable pub strings : Option Json → List String
unfolding texts
strings (some (Json.arr items)) = texts items
strings _ = []

-- The event is of the type.
abbrev pub is_policy_violation : Event → Bool
is_policy_violation e = elim (e.event_type) [ EventType.policy_violation ↦ true | _ ↦ false ]

abbrev pub is_quarantine : Event → Bool
is_quarantine e = elim (e.event_type) [ EventType.agent_quarantined ↦ true | _ ↦ false ]

abbrev pub is_tool_denied : Event → Bool
is_tool_denied e = elim (e.event_type) [ EventType.tool_denied ↦ true | _ ↦ false ]

abbrev pub is_tool_requested : Event → Bool
is_tool_requested e = elim (e.event_type) [ EventType.tool_requested ↦ true | _ ↦ false ]

abbrev pub is_task_completed : Event → Bool
is_task_completed e = elim (e.event_type) [ EventType.task_completed ↦ true | _ ↦ false ]

abbrev pub is_workflow_recovered : Event → Bool
is_workflow_recovered e = elim (e.event_type) [ EventType.workflow_recovered ↦ true | _ ↦ false ]

abbrev pub is_agent_created : Event → Bool
is_agent_created e = elim (e.event_type) [ EventType.agent_created ↦ true | _ ↦ false ]

abbrev pub is_agent_started : Event → Bool
is_agent_started e = elim (e.event_type) [ EventType.agent_started ↦ true | _ ↦ false ]
