-- ===== src/Controls/Provider.antt =====
-- The actions of a user and the answers of the backend: frontend/src/lib/experiment/
-- ExperimentProvider.tsx. The component's state is the reducer's, the counter of operations and
-- the requests that are on their way; the backend is the sequence of inputs.
use htn.Prelude.{
  ℕ, ◌+◌, String, Bool, not, ◌&&◌, Option, none, some, coalesce, is_some, truthy, nat_eq, List, [],
  ◌∷◌, ◌++◌, filter, if◌then◌else◌,
}
use htn.Experiment.Config.{ExperimentConfig}
use htn.Controls.Reducer.{
  ControlStatus, PendingAction, start, pause, resume, speed, reset, ControlState, ControlAction,
  start_requested, pause_requested, resume_requested, speed_requested, reset_requested,
  start_succeeded, reset_create_succeeded, pause_succeeded, resume_succeeded, speed_succeeded,
  start_failed, pause_failed, resume_failed, speed_failed, reset_failed,
  reset_stop_succeeded_create_failed, status_synced, can_start, can_pause, can_resume,
  can_set_speed, can_reset, transition, initial_control_state,
}

-- The fields of `ExperimentSummary` that the component reads.
pub record Summary : Type 0 where
  pub experiment_id : String
  pub status : ControlStatus
  pub config : ExperimentConfig

-- A request on its way, with the multiplier of a change of speed.
pub record Operation : Type 0 where
  pub action : PendingAction
  pub id : ℕ
  pub multiplier : ℕ

-- How the promise of an operation ends. For a reset, `failure` is a stop that failed for another
-- reason than 404, and `create_failure` a create that failed after the stop.
pub data Reply : Type 0 where
  success : Summary → Reply
  failure create_failure : String → Reply

pub record Provider : Type 0 where
  pub control : ControlState
  pub next_operation_id : ℕ
  pub outstanding : List Operation

abbrev pub initial_provider : Provider
initial_provider = record {
  control = initial_control_state;
  next_operation_id = 1;
  outstanding = [];
}

-- `apply`: the new state, and whether it is another object than the old one.
unfoldable pub apply : ControlState → ControlAction → ControlState × Bool
apply s a = (coalesce (transition s a) s, is_some (transition s a))

abbrev pub request_of : PendingAction → ℕ → ControlAction
request_of start = start_requested
request_of pause = pause_requested
request_of resume = resume_requested
request_of speed = speed_requested
request_of reset = reset_requested

-- The guard with which a handler begins.
unfoldable pub is_allowed : PendingAction → ControlState → Bool
is_allowed start s = can_start s
is_allowed pause s = can_pause s && is_some (truthy s.experiment_id)
is_allowed resume s = can_resume s && is_some (truthy s.experiment_id)
is_allowed speed s = can_set_speed s && is_some (truthy s.experiment_id)
is_allowed reset s = can_reset s && is_some (truthy s.experiment_id) && is_some s.active_config

-- `start`, `pause`, `resume`, `changeSpeed` and `reset`, up to the call of the backend.
unfoldable pub begin : PendingAction → ℕ → Provider → Provider
begin p multiplier s =
    if not (is_allowed p s.control)
    then s
    else let id = s.next_operation_id in
      let (control, applied) = apply s.control (request_of p id) in
      if not applied then record s { next_operation_id = id + 1 } else record {
        control = control;
        next_operation_id = id + 1;
        outstanding = s.outstanding ++ record { action = p; id = id; multiplier = multiplier } ∷ [];
      }

-- What the handlers of the promise dispatch.
unfoldable pub reply_action : Operation → Reply → ControlAction
reply_action o r = elim (o.action) [
  | start ↦ elim r [
    | success s ↦ start_succeeded o.id s.experiment_id s.status s.config
    | failure e ↦ start_failed o.id e
    | create_failure e ↦ start_failed o.id e
  ]
  | pause ↦ elim r [
    | success s ↦ pause_succeeded o.id s.status
    | failure e ↦ pause_failed o.id e
    | create_failure e ↦ pause_failed o.id e
  ]
  | resume ↦ elim r [
    | success s ↦ resume_succeeded o.id s.status
    | failure e ↦ resume_failed o.id e
    | create_failure e ↦ resume_failed o.id e
  ]
  | speed ↦ elim r [
    | success s ↦ speed_succeeded o.id o.multiplier
    | failure e ↦ speed_failed o.id e
    | create_failure e ↦ speed_failed o.id e
  ]
  | reset ↦ elim r [
    | success s ↦ reset_create_succeeded o.id s.experiment_id s.status s.config
    | failure e ↦ reset_failed o.id e
    | create_failure e ↦ reset_stop_succeeded_create_failed o.id e
  ]
]

unfoldable pub find_operation : ℕ → List Operation → Option Operation
find_operation id [] = none
find_operation id (o ∷ os) = if nat_eq o.id id then some o else find_operation id os

-- The promise of the operation with the id settles.
unfoldable pub answer : ℕ → Reply → Provider → Provider
answer id r s = elim (find_operation id s.outstanding) [
  | none ↦ s
  | some o ↦ record s {
    control = (apply s.control (reply_action o r)).0;
    outstanding = filter (λ q. not (nat_eq q.id id)) s.outstanding;
  }
]

-- The stored run is confirmed by the backend: a request and its answer at once.
unfoldable pub adopt : Summary → Provider → Provider
adopt summary s =
    let id = s.next_operation_id in
    let asked = (apply s.control (start_requested id)).0 in
    record s {
      control =
          (apply asked (start_succeeded id summary.experiment_id summary.status summary.config)).0;
      next_operation_id = id + 1;
    }

pub data Input : Type 0 where
  clicked : PendingAction → ℕ → Input
  answered : ℕ → Reply → Input
  adopted : Summary → Input
  polled : String → ℕ → ControlStatus → Input

unfoldable pub step : Provider → Input → Provider
step s (clicked p multiplier) = begin p multiplier s
step s (answered id r) = answer id r s
step s (adopted summary) = adopt summary s
step s (polled exp revision st) = record s {
  control = (apply s.control (status_synced exp revision st)).0;
}

-- A session of the component.
unfoldable pub session : Provider → List Input → Provider
unfolding step begin find_operation answer adopt apply is_allowed reply_action transition can_start
    can_pause can_resume can_set_speed can_reset
session s [] = s
session s (i ∷ is) = session (step s i) is
