-- ===== src/Controls/Laws.antt =====
-- What the control reducer promises: frontend/src/lib/controls/reducer.ts.
use htn.Prelude.{
  ℕ, ◌+◌, ◌≤◌, ◌≡◌, ◌≢◌, ◌⊎◌, ◌↔◌, String, true, none, some, is_some, List, [], ◌∷◌, inl, inr,
  Option-cases, arith, string_eq, All,
}
use text.Mathlib.TextEquality.{eq_iff}
use htn.Controls.Reducer.{
  ControlStatus, idle, finished, stopped, running, paused, PendingAction, ControlState,
  ControlAction, start, pause, resume, speed, reset, start_requested, pause_requested,
  resume_requested, speed_requested, reset_requested, start_succeeded, reset_create_succeeded,
  pause_succeeded, resume_succeeded, speed_succeeded, start_failed, pause_failed, resume_failed,
  speed_failed, reset_failed, reset_stop_succeeded_create_failed, status_synced, transition,
  control_reducer, run,
}

-- What an action asks of the reducer.
pub data ActionKind : Type 0 where
  request response : PendingAction → ℕ → ActionKind
  sync : String → ℕ → ActionKind

-- The request, the answer to a request, or the poll that an action is.
abbrev pub kind_of : ControlAction → ActionKind
kind_of (start_requested id) = request start id
kind_of (pause_requested id) = request pause id
kind_of (resume_requested id) = request resume id
kind_of (speed_requested id) = request speed id
kind_of (reset_requested id) = request reset id
kind_of (start_succeeded id exp st config) = response start id
kind_of (start_failed id e) = response start id
kind_of (pause_succeeded id st) = response pause id
kind_of (pause_failed id e) = response pause id
kind_of (resume_succeeded id st) = response resume id
kind_of (resume_failed id e) = response resume id
kind_of (speed_succeeded id v) = response speed id
kind_of (speed_failed id e) = response speed id
kind_of (reset_create_succeeded id exp st config) = response reset id
kind_of (reset_stop_succeeded_create_failed id e) = response reset id
kind_of (reset_failed id e) = response reset id
kind_of (status_synced exp revision st) = sync exp revision

-- The run's status, or for a reset its id, admits the request.
abbrev pub Admits : ControlState → PendingAction → Type 0
Admits s start = (s.status ≡ idle) ⊎ (s.status ≡ finished) ⊎ (s.status ≡ stopped)
Admits s pause = s.status ≡ running
Admits s resume = s.status ≡ paused
Admits s speed = (s.status ≡ running) ⊎ (s.status ≡ paused)
Admits s reset = s.experiment_id ≢ none

-- When the reducer takes an action of the kind, as a statement on the state alone.
abbrev pub Takes : ControlState → ActionKind → Type 0
Takes s (request p id) = (s.pending ≡ none) × Admits s p
Takes s (response p id) = (s.pending ≡ some p) × (s.operation_id ≡ some id)
Takes s (sync exp revision) = (s.experiment_id ≡ some exp) × (s.revision ≡ revision)

-- An action that is taken leads to the state with these fields.
abbrev pub Follows : ControlState → ControlState → ActionKind → Type 0
Follows s t (request p id) =
    (t.pending ≡ some p)
    × (t.operation_id ≡ some id)
    × (t.revision ≡ s.revision + 1)
    × (t.status ≡ s.status)
    × (t.experiment_id ≡ s.experiment_id)
Follows s t (response p id) =
    (t.pending ≡ none) × (t.operation_id ≡ none) × (t.revision ≡ s.revision)
Follows s t (sync exp revision) =
    (t.pending ≡ s.pending)
    × (t.operation_id ≡ s.operation_id)
    × (t.revision ≡ s.revision)
    × (t.experiment_id ≡ s.experiment_id)

-- The reducer takes an action exactly when `Takes` says so: a request when none is pending and the
-- status (for a reset, the id) admits it; an answer when it is to the request that is pending, with
-- its operation's id; a poll when it is of the experiment and the revision that are shown.
pub transition_iff :
    (s : ControlState) (a : ControlAction) → (is_some (transition s a) ≡ true) ↔ Takes s (kind_of a)
unfolding transition
transition_iff s (start_requested id) = ground arith
transition_iff s (pause_requested id) = ground arith
transition_iff s (resume_requested id) = ground arith
transition_iff s (speed_requested id) = ground arith
transition_iff s (reset_requested id) = ground arith
transition_iff s (status_synced exp revision st) = elim (Option-cases s.experiment_id) [
  | inl missing ↦ ground arith
  | inr (current, shown) ↦ ground (arith, eq_iff exp current)
]
transition_iff s _ = ground arith

-- An action that is taken leads where its kind says: a request becomes the pending action, under
-- its operation's id and the next revision; an answer leaves nothing pending; a poll changes
-- neither what is pending nor the revision nor the experiment.
pub transition-Follows :
    (s t : ControlState) (a : ControlAction) → transition s a ≡ some t → Follows s t (kind_of a)
unfolding transition
transition-Follows s t (start_requested id) h = ground arith
transition-Follows s t _ h = ground arith

-- The state after an action: the old one, or one that follows it.
reducer-cases :
    (s : ControlState) (a : ControlAction)
    → (control_reducer s a ≡ s)
      ⊎ (Takes s (kind_of a) × Follows s (control_reducer s a) (kind_of a))
unfolding control_reducer
reducer-cases s a = elim (Option-cases (transition s a)) [
  | inl refused ↦ inl (rw refused)
  | inr (t, taken) ↦
      rw taken (inr ((transition_iff s a).0 (rw taken), transition-Follows s t a taken))
]

-- An operation's id is held exactly while an action is pending.
abbrev pub IsConsistent : ControlState → Type 0
IsConsistent s = is_some s.pending ≡ is_some s.operation_id

Follows-IsConsistent :
    (s t : ControlState) (k : ActionKind) → IsConsistent s → Follows s t k → IsConsistent t
Follows-IsConsistent s t (request p id) c f = ground arith
Follows-IsConsistent s t _ c f = ground arith

-- Whatever actions are dispatched, an operation's id is held exactly while an action is pending.
pub run-IsConsistent :
    (s : ControlState) (rest : List ControlAction) → IsConsistent s → IsConsistent (run s rest)
unfolding run
run-IsConsistent s [] c = c
run-IsConsistent s (a ∷ rest) c =
    run-IsConsistent (control_reducer s a) rest (elim (reducer-cases s a) [
      | inl same ↦ rw same c
      | inr (_, f) ↦ Follows-IsConsistent s (control_reducer s a) (kind_of a) c f
    ])

Follows-le : (s t : ControlState) (k : ActionKind) → Follows s t k → s.revision ≤ t.revision
Follows-le s t (request p id) f = omega arith
Follows-le s t (response p id) f = omega arith
Follows-le s t (sync exp revision) f = omega arith

control_reducer-le :
    (s : ControlState) (a : ControlAction) → s.revision ≤ (control_reducer s a).revision
control_reducer-le s a = elim (reducer-cases s a) [
  | inl same ↦ rw same (omega arith)
  | inr (_, f) ↦ Follows-le s (control_reducer s a) (kind_of a) f
]

run-le : (s : ControlState) (rest : List ControlAction) → s.revision ≤ (run s rest).revision
unfolding run
run-le s [] = omega arith
run-le s (a ∷ rest) = omega (arith, run-le (control_reducer s a) rest, control_reducer-le s a)

-- Once a request has been taken, a poll that was sent before it is dropped, whatever happened in
-- between: its revision is behind for good.
pub run-drops_stale_poll :
    (s t : ControlState) (a : ControlAction) (p : PendingAction) (id : ℕ)
    (rest : List ControlAction) (exp : String) (st : ControlStatus)
    → kind_of a ≡ request p id
    → transition s a ≡ some t
    → transition (run t rest) (status_synced exp s.revision st) ≡ none
run-drops_stale_poll s t a p id rest exp st k h =
    let f = rw k at (transition-Follows s t a h) in
    elim (Option-cases (transition (run t rest) (status_synced exp s.revision st))) [
      | inl dropped ↦ dropped
      | inr (u, taken) ↦ absurd (
          omega (
            arith,
            run-le t rest,
            f,
            (transition_iff (run t rest) (status_synced exp s.revision st)).0 (rw taken),
          ))
    ]

abbrev Awaits : ControlState → PendingAction → ℕ → Type 0
Awaits s p id = (s.pending ≡ some p) × (s.operation_id ≡ some id)

Follows-Awaits :
    (s t : ControlState) (p : PendingAction) (id : ℕ) (k : ActionKind)
    → Awaits s p id
    → k ≢ response p id
    → Takes s k
    → Follows s t k
    → Awaits t p id
Follows-Awaits s t p id (request q n) w other takes f = ground arith
Follows-Awaits s t p id (response q n) w other takes f = ground arith
Follows-Awaits s t p id (sync exp revision) w other takes f = ground arith

control_reducer-Awaits :
    (s : ControlState) (a : ControlAction) (p : PendingAction) (id : ℕ)
    → Awaits s p id
    → kind_of a ≢ response p id
    → Awaits (control_reducer s a) p id
control_reducer-Awaits s a p id w other = elim (reducer-cases s a) [
  | inl same ↦ rw same w
  | inr (takes, f) ↦ Follows-Awaits s (control_reducer s a) p id (kind_of a) w other takes f
]

-- While an action is pending only the answer with its operation's id settles it: other requests are
-- refused, other answers ignored, and polls leave it pending.
pub run-pending :
    (s : ControlState) (p : PendingAction) (id : ℕ) (rest : List ControlAction)
    → s.pending ≡ some p
    → s.operation_id ≡ some id
    → All (λ a. kind_of a ≢ response p id) rest
    → ((run s rest).pending ≡ some p) × ((run s rest).operation_id ≡ some id)
unfolding run
run-pending s p id [] hp hid a = (hp, hid)
run-pending s p id (a ∷ rest) hp hid (other, others) =
    let (kept, kept_id) = control_reducer-Awaits s a p id (hp, hid) other in
    run-pending (control_reducer s a) p id rest kept kept_id others
