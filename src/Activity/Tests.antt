-- ===== src/Activity/Tests.antt =====
-- The log of three events.
use htn.Prelude.{
  ◌≡◌, refl, String, Bool, true, false, none, some, List, [], ◌∷◌, length, string_eq, ◌==◌,
}
use htn.Stream.Types.{Event, EventType}
use htn.Stream.Samples.{bare}
use htn.Controls.Reducer.{finished, running}
use htn.Vocabulary.Events.{defense}
use htn.Activity.{category_of, by_category, critical_events, feed, live_log_gap_hint, gap_hint}

abbrev type_text : EventType → String
type_text EventType.agent_quarantined = "AGENT_QUARANTINED"
type_text EventType.compromise_succeeded = "COMPROMISE_SUCCEEDED"
type_text _ = "TICK"

abbrev log : List Event
log =
    record (bare EventType.compromise_succeeded) { agent_id = some "a" }
    ∷ record (bare EventType.agent_quarantined) { agent_id = some "a" }
    ∷ record (bare EventType.agent_quarantined) { agent_id = some "b" }
    ∷ []

mix : by_category type_text log ≡ ("attack", 1) ∷ ("defense", 2) ∷ []
unfolding by_category category_of
mix = refl

abbrev same : String → String
same s = s

abbrev equal : String → String → Bool
equal a b = a == b

found :
    (length (feed type_text same same equal (some defense) "" log) ≡ 2)
    × (length (feed type_text same same equal (some defense) "a" log) ≡ 1)
    × (length (feed type_text same same equal none "a" log) ≡ 2)
    × (length (critical_events type_text log) ≡ 1)
unfolding feed critical_events category_of
found = (refl, refl, refl, refl)

hints :
    (live_log_gap_hint finished false ≡ some gap_hint)
    × (live_log_gap_hint finished true ≡ none)
    × (live_log_gap_hint running false ≡ none)
unfolding live_log_gap_hint
hints = (refl, refl, refl)
