-- ===== src/Replay/Load.antt =====
-- Loading a recorded run: `loadReplayData` of frontend/src/lib/replay/loadReplayData.ts, and the page
-- of events that the backend answers with, backend/app/api/routes_history.py. A request that fails is
-- `none`; the loop over the pages takes fuel.
pub mod Laws
mod Tests
use mathlib.Core.Option
use htn.Prelude.{
  ℕ, zero, suc, String, Bool, true, false, not, Option, none, some, List, [], ◌∷◌, ◌++◌, length,
  last, take, filter, nat_eq, if◌then◌else◌,
}
use htn.Prelude.Int.{ℤ, ltb_ℤ}
use htn.Stream.Types.{Event, SnapshotFrame, snapshot}
use htn.Stream.Reducer.{Thrown, ok, GraphState, initial_graph_state, reduce}

abbrev pub event_page_limit : ℕ
event_page_limit = 500

-- `EventHistoryResponse`
pub record EventPage : Type 0 where
  pub events : List Event
  pub next_seq : Option ℤ

pub record ReplayData : Type 0 where
  pub incomplete : Bool
  pub initial_state : GraphState
  pub events : List Event

-- What the loop comes to: the events, with the counts that `onProgress` was called with.
pub data Pages : Type 0 where
  loaded : List Event → List ℕ → Pages
  failed : Pages
  out_of_fuel : Pages

-- The endless loop of `loadReplayData`, over what the backend answers for each `since_seq`.
unfoldable pub load_pages : ℕ → (ℤ → Option EventPage) → ℤ → List Event → List ℕ → Pages
load_pages zero fetch since events progress = out_of_fuel
load_pages (suc fuel) fetch since events progress = elim (fetch since) [
  | none ↦ failed
  | some page ↦ elim (page.next_seq) [
    | none ↦ loaded (events ++ page.events) (progress ++ length (events ++ page.events) ∷ [])
    | some next ↦
        load_pages fuel fetch next (events ++ page.events)
          (progress ++ length (events ++ page.events) ∷ [])
  ]
]

-- `detail.is_complete !== true`
unfoldable pub is_incomplete : Option Bool → Bool
is_incomplete none = true
is_incomplete (some complete) = not complete

-- `loadReplayData`, from what the three endpoints answer. It is `none` where the promise rejects;
-- running out of fuel stands for a promise that does not settle, and is kept apart.
pub data Settled : Type 0 where
  resolved : ReplayData → Settled
  rejected : Settled
  pending : Settled

unfoldable pub settle : Option Bool → GraphState → Pages → Settled
settle is_complete state (loaded events progress) =
    resolved
      (record { incomplete = is_incomplete is_complete; initial_state = state; events = events })
settle is_complete state failed = rejected
settle is_complete state out_of_fuel = pending

-- The line opens all that a test runs.
unfoldable pub load_replay_data :
    ℕ → Option (Option Bool) → Option SnapshotFrame → (ℤ → Option EventPage) → Settled
unfolding load_pages settle is_incomplete
load_replay_data fuel none frame fetch = rejected
load_replay_data fuel (some is_complete) none fetch = rejected
load_replay_data fuel (some is_complete) (some frame) fetch =
    elim (reduce initial_graph_state (snapshot frame)) [
      | ok state ↦ settle is_complete state (load_pages fuel fetch frame.last_seq [] [])
      | _ ↦ rejected
    ]

-- The rows after a number, in a log that is in order.
abbrev pub after : ℤ → List Event → List Event
after since = filter (λ (e : Event). ltb_ℤ since e.seq)

-- `get_experiment_events`: at most `limit` rows, and the number to go on from if there are as many.
unfoldable pub event_page : ℕ → List Event → ℤ → EventPage
event_page limit log since =
    let events = take limit (after since log) in
    record {
      events = events;
      next_seq =
          if nat_eq (length events) limit
          then Option.map (λ (e : Event). e.seq) (last events)
          else none;
    }
