-- ===== src/Controls/Tests.antt =====
-- Runs of the control reducer and of the provider.
use htn.Prelude.{◌≡◌, ◌≢◌, ◌↔◌, All, arith, refl, true, is_some, none, some, List, [], ◌∷◌}
use htn.Experiment.Config.{default_config}
use htn.Controls.Reducer.{
  ControlState, ControlAction, running, paused, finished, start, pause, start_requested,
  start_succeeded, pause_requested, pause_succeeded, pause_failed, reset_requested, status_synced,
  transition, initial_control_state, run,
}
use htn.Controls.Laws.{
  response, kind_of, Takes, Follows, transition_iff, transition-Follows, IsConsistent,
  run-IsConsistent, run-drops_stale_poll, run-pending,
}
use htn.Controls.Provider.{
  Summary, Operation, Reply, success, initial_provider, answer, Input, clicked, answered, adopted,
  session,
}
use htn.Controls.Progress.{session-unlocks}

abbrev launched : ControlState
launched = record initial_control_state {
  experiment_id = some "x";
  status = running;
  revision = 1;
  active_config = some default_config;
}

abbrev pausing : ControlState
pausing = record launched { pending = some pause; operation_id = some 2; revision = 2 }

start_and_pause :
    run initial_control_state
      (start_requested 1 ∷ start_succeeded 1 "x" running default_config ∷ pause_requested 2 ∷ [])
    ≡ pausing
unfolding run
start_and_pause = refl

transition_iff_example :
    (is_some (transition pausing (pause_succeeded 2 paused)) ≡ true)
    ↔ Takes pausing (kind_of (pause_succeeded 2 paused))
transition_iff_example = transition_iff pausing (pause_succeeded 2 paused)

transition-Follows_example : Follows launched pausing (kind_of (pause_requested 2))
unfolding run
transition-Follows_example = transition-Follows launched pausing (pause_requested 2) refl

run-IsConsistent_example :
    IsConsistent (run pausing (start_requested 3 ∷ pause_failed 2 "offline" ∷ []))
run-IsConsistent_example =
    run-IsConsistent pausing (start_requested 3 ∷ pause_failed 2 "offline" ∷ []) refl

run-drops_stale_poll_example :
    transition (run pausing (pause_succeeded 2 paused ∷ [])) (status_synced "x" 1 finished) ≡ none
unfolding run
run-drops_stale_poll_example =
    run-drops_stale_poll launched pausing (pause_requested 2) pause 2
      (pause_succeeded 2 paused ∷ []) "x" finished refl refl

abbrev noise : List ControlAction
noise = reset_requested 3 ∷ pause_succeeded 1 paused ∷ status_synced "x" 2 running ∷ []

noise_is_other : All (λ a. kind_of a ≢ response pause 2) noise
noise_is_other = grind arith

run-pending_example :
    ((run pausing noise).pending ≡ some pause) × ((run pausing noise).operation_id ≡ some 2)
run-pending_example = run-pending pausing pause 2 noise refl refl noise_is_other

abbrev confirmed : Summary
confirmed = record { experiment_id = "x"; status = running; config = default_config }

abbrev inputs : List Input
inputs =
    clicked start 100 ∷ adopted confirmed ∷ answered 1 (success confirmed) ∷ clicked pause 100 ∷ []

session-unlocks_example :
    (o : Operation) × ((session initial_provider inputs).outstanding ≡ o ∷ [])
    × (o.action ≡ pause)
    × ((r : Reply) → (answer o.id r (session initial_provider inputs)).control.pending ≡ none)
unfolding session
session-unlocks_example = session-unlocks inputs pause refl
