-- ===== src/Controls/Reducer.antt =====
-- The control lifecycle of an experiment: frontend/src/lib/controls/reducer.ts.
-- A speed multiplier is counted in hundredths, so the source's 1 is 100.
use htn.Prelude.{
  ℕ, ◌+◌, String, Bool, true, false, not, ◌&&◌, ◌||◌, Option, none, some, coalesce, is_some,
  same_option, nat_eq, ℕ_eq, string_eq, List, [], ◌∷◌,
}
use htn.Experiment.Config.{ExperimentConfig}

pub data ControlStatus : Type 0 where
  idle running paused finished stopped : ControlStatus

pub data PendingAction : Type 0 where
  start pause resume speed reset : PendingAction

pub record ControlState : Type 0 where
  pub experiment_id : Option String
  pub status : ControlStatus
  pub pending : Option PendingAction
  pub speed : ℕ
  pub error : Option String
  pub operation_id : Option ℕ
  pub revision : ℕ
  pub active_config : Option ExperimentConfig

abbrev pub default_speed : ℕ
default_speed = 100

abbrev pub initial_control_state : ControlState
initial_control_state = record {
  experiment_id = none;
  status = idle;
  pending = none;
  speed = default_speed;
  error = none;
  operation_id = none;
  revision = 0;
  active_config = none;
}

abbrev pub is_startable : ControlStatus → Bool
is_startable idle = true
is_startable finished = true
is_startable stopped = true
is_startable _ = false

abbrev pub is_running : ControlStatus → Bool
is_running running = true
is_running _ = false

abbrev pub is_paused : ControlStatus → Bool
is_paused paused = true
is_paused _ = false

unfoldable pub can_start : ControlState → Bool
can_start s = is_startable s.status && not (is_some s.pending)

unfoldable pub can_pause : ControlState → Bool
can_pause s = is_running s.status && not (is_some s.pending)

unfoldable pub can_resume : ControlState → Bool
can_resume s = is_paused s.status && not (is_some s.pending)

unfoldable pub can_set_speed : ControlState → Bool
can_set_speed s = (is_running s.status || is_paused s.status) && not (is_some s.pending)

unfoldable pub can_reset : ControlState → Bool
can_reset s = is_some s.experiment_id && not (is_some s.pending)

-- Each constructor has the operation's id first, where the action has one.
pub data ControlAction : Type 0 where
  start_requested pause_requested resume_requested speed_requested reset_requested :
      ℕ → ControlAction
  start_succeeded reset_create_succeeded :
      ℕ → String → ControlStatus → ExperimentConfig → ControlAction
  pause_succeeded resume_succeeded : ℕ → ControlStatus → ControlAction
  speed_succeeded : ℕ → ℕ → ControlAction
  start_failed pause_failed resume_failed speed_failed reset_failed : ℕ → String → ControlAction
  reset_stop_succeeded_create_failed : ℕ → String → ControlAction
  -- the experiment's id, the revision, the status
  status_synced : String → ℕ → ControlStatus → ControlAction

abbrev pub same_pending : PendingAction → PendingAction → Bool
same_pending start start = true
same_pending pause pause = true
same_pending resume resume = true
same_pending speed speed = true
same_pending reset reset = true
same_pending _ _ = false

-- `state.pending === pending` for an action that is not null
abbrev pub is_pending : Option PendingAction → PendingAction → Bool
is_pending none p = false
is_pending (some q) p = same_pending q p

unfoldable pub is_current : ControlState → PendingAction → ℕ → Bool
is_current s p id = is_pending s.pending p && same_option s.operation_id (some id)

-- `none` where the code returns the very object that it was given.
abbrev pub when : Bool → ControlState → Option ControlState
when true s = some s
when false s = none

unfoldable pub requested : ControlState → PendingAction → ℕ → ControlState
requested s p id = record s {
  pending = some p;
  operation_id = some id;
  revision = s.revision + 1;
  error = none;
}

unfoldable pub failed : ControlState → String → ControlState
failed s e = record s { pending = none; operation_id = none; error = some e }

unfoldable pub status_set : ControlState → ControlStatus → ControlState
status_set s st = record s { status = st; pending = none; operation_id = none; error = none }

-- A fresh run, after Start or after Reset.
unfoldable pub launched : ControlState → String → ControlStatus → ExperimentConfig → ControlState
launched s id st config = record s {
  experiment_id = some id;
  status = st;
  pending = none;
  operation_id = none;
  speed = default_speed;
  error = none;
  active_config = some config;
}

-- The `switch` of `controlReducer`.
unfoldable pub transition : ControlState → ControlAction → Option ControlState
unfolding can_start can_pause can_resume can_set_speed can_reset is_current requested failed
    status_set launched
transition s (start_requested id) = when (can_start s) (requested s start id)
transition s (start_succeeded id exp st config) =
    when (is_current s start id) (launched s exp st config)
transition s (start_failed id e) = when (is_current s start id) (failed s e)
transition s (pause_requested id) = when (can_pause s) (requested s pause id)
transition s (pause_succeeded id st) = when (is_current s pause id) (status_set s st)
transition s (pause_failed id e) = when (is_current s pause id) (failed s e)
transition s (resume_requested id) = when (can_resume s) (requested s resume id)
transition s (resume_succeeded id st) = when (is_current s resume id) (status_set s st)
transition s (resume_failed id e) = when (is_current s resume id) (failed s e)
transition s (speed_requested id) = when (can_set_speed s) (requested s speed id)
transition s (speed_succeeded id v) =
    when (is_current s speed id)
      (record s { speed = v; pending = none; operation_id = none; error = none })
transition s (speed_failed id e) = when (is_current s speed id) (failed s e)
transition s (reset_requested id) = when (can_reset s) (requested s reset id)
transition s (reset_create_succeeded id exp st config) =
    when (is_current s reset id) (launched s exp st config)
transition s (reset_stop_succeeded_create_failed id e) =
    when (is_current s reset id)
      (record s { status = stopped; pending = none; operation_id = none; error = some e })
transition s (reset_failed id e) = when (is_current s reset id) (failed s e)
transition s (status_synced exp revision st) =
    when (same_option (some exp) s.experiment_id && nat_eq revision s.revision)
      (record s { status = st })

unfoldable pub control_reducer : ControlState → ControlAction → ControlState
unfolding transition
control_reducer s a = coalesce (transition s a) s

-- The reducer over a sequence of dispatched actions.
unfoldable pub run : ControlState → List ControlAction → ControlState
unfolding control_reducer
run s [] = s
run s (a ∷ rest) = run (control_reducer s a) rest
