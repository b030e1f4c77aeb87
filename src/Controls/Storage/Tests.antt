-- ===== src/Controls/Storage/Tests.antt =====
-- A tab that is opened again while its run goes on, and after the run is gone.
use htn.Prelude.{
  ◌≡◌, refl, String, Option, none, some, List, [], ◌∷◌, foldl, string_eq, ◌==◌, if◌then◌else◌,
}
use htn.Experiment.Config.{default_config}
use htn.Controls.Reducer.{running, start, initial_control_state, can_start, transition}
use htn.Controls.Provider.{
  Summary, success, clicked, answered, step, begin, is_allowed, apply, answer, find_operation,
  reply_action,
}
use htn.Controls.Storage.{
  TabEvent, hydrated, happened, opened_tab, tab_step, gate, running_on, missing, progress, alert,
}
use htn.Controls.Storage.Laws.{tabs-IsStored}

abbrev launch : Summary
launch = record { experiment_id = "e"; status = running; config = default_config }

-- A backend that knows one run, and one that knows none.
abbrev one_run : String → Option Summary
one_run id = if id == "e" then some launch else none

abbrev none_left : String → Option Summary
none_left id = none

abbrev events : List TabEvent
events =
    hydrated none_left ∷ happened (clicked start 0) ∷ happened (answered 1 (success launch)) ∷ []

tabs-IsStored_example :
    let t = foldl tab_step (opened_tab none) events in
    (t.stored ≡ some "e")
    × (gate (tab_step (opened_tab t.stored) (hydrated one_run)) ≡ running_on "e")
unfolding tab_step step begin is_allowed can_start apply transition answer find_operation
    reply_action
tabs-IsStored_example = tabs-IsStored none events one_run "e" launch refl refl refl

-- A run that the backend has dropped leads to the launch screen.
dropped :
    (gate (tab_step (opened_tab (some "e")) (hydrated none_left)) ≡ missing)
    × ((tab_step (opened_tab (some "e")) (hydrated none_left)).stored ≡ none)
unfolding gate tab_step
dropped = (refl, refl)

bar :
    (progress 300 (some default_config) ≡ (200, 200))
    × (alert (some "v2") (record initial_control_state { error = some "e" }) ≡ some "v2")
unfolding progress
bar = (refl, refl)
