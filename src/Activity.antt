-- ===== src/Activity.antt =====
-- The log of the events: frontend/src/app/activity/page.tsx, frontend/src/components/activity and
-- frontend/src/lib/stream/sessionScope.ts. The name of an event's type, and the trimming, the lower
-- case and the search of texts are arguments.
pub mod Laws
mod Tests
use htn.Prelude.{
  ℕ, ◌+◌, String, Bool, true, false, not, ◌&&◌, ◌||◌, Option, none, some, List, [], ◌∷◌, filter,
  foldl, Dict, lookup, insert, coalesce, or_else, truthy, string_eq, ◌==◌, if◌then◌else◌,
}
use htn.Severity.{Severity, critical}
use htn.Stream.Types.{Event, EventType, Json}
use htn.Controls.Reducer.{ControlStatus, finished, stopped}
use htn.Vocabulary.Events.{
  EventCategory, attack, defense, model, lifecycle, security_plane, workflow, event_meta,
  event_severity,
}

abbrev pub category_text : EventCategory → String
category_text attack = "attack"
category_text defense = "defense"
category_text model = "model"
category_text lifecycle = "lifecycle"
category_text security_plane = "security-plane"
category_text workflow = "workflow"

abbrev pub gap_hint : String
gap_hint =
    "This run has already ended, and the live stream only carries events received while connected. Open it under Runs to replay its complete recorded log."

unfoldable pub live_log_gap_hint : ControlStatus → Bool → Option String
live_log_gap_hint status true = none
live_log_gap_hint finished false = some gap_hint
live_log_gap_hint stopped false = some gap_hint
live_log_gap_hint _ false = none

module _ (type_text : EventType → String) where
  unfoldable pub category_of : Event → String
  unfolding event_meta
  category_of e = category_text (event_meta (type_text e.event_type)).category

  -- One round of `byCategory`.
  unfoldable pub count_category : Dict String ℕ → Event → Dict String ℕ
  unfolding category_of lookup insert
  count_category counts e =
      insert (category_of e) (coalesce (lookup (category_of e) counts) 0 + 1) counts

  unfoldable pub by_category : List Event → Dict String ℕ
  unfolding count_category
  by_category events = foldl count_category [] events

  abbrev pub is_critical : Severity → Bool
  is_critical critical = true
  is_critical _ = false

  unfoldable pub critical_events : List Event → List Event
  unfolding event_severity
  critical_events events =
      filter (λ e. is_critical (event_severity (type_text e.event_type) e.metadata)) events

  module _ (trim lower : String → String) (includes : String → String → Bool) where
    -- Whether one of the texts of an event holds the needle.
    abbrev pub mentions : String → Event → Bool
    mentions needle e =
        includes needle (lower (type_text e.event_type))
        || includes needle (lower (coalesce e.agent_id ""))
        || includes needle (lower (coalesce e.source_agent_id ""))
        || includes needle (lower (coalesce e.target_agent_id ""))

    -- No category stands for all of them.
    abbrev pub is_listed : Option EventCategory → String → Event → Bool
    is_listed none needle e = needle == "" || mentions needle e
    is_listed (some c) needle e =
        (category_of e == category_text c) && (needle == "" || mentions needle e)

    unfoldable pub feed : Option EventCategory → String → List Event → List Event
    feed category query events = filter (is_listed category (lower (trim query))) events

-- From whom to whom a row of the log reads.
abbrev pub row_source : Event → Option String
row_source e = truthy (or_else e.source_agent_id e.agent_id)

abbrev pub row_target : Event → Option String
row_target e = truthy e.target_agent_id
