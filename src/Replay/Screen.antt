-- ===== src/Replay/Screen.antt =====
-- The screen of a replay: frontend/src/app/history/[id]/page.tsx with
-- frontend/src/components/run/ReplayTransport.tsx. How far the playback has come is an input.
mod Tests
use htn.Prelude.{
  ℕ, String, Bool, true, false, not, ◌&&◌, ◌||◌, Option, none, some, List, [], ◌∷◌, truthy, leb,
  ltb, ℕ_eq, ◌==◌, if◌then◌else◌,
}
use htn.Replay.Controls.{
  ReplayControlState, ReplayControlAction, pause, toggle_play, set_speed, replay_control_reducer,
}

abbrev pub is_finished : ℕ → ℕ → Bool
is_finished total played = ltb 0 total && leb total played

-- The effect on the progress: at the end the playback is paused.
unfoldable pub on_progress : ℕ → ℕ → ReplayControlState → ReplayControlState
unfolding replay_control_reducer
on_progress total played s =
    if s.playing && is_finished total played then replay_control_reducer s pause else s

pub data TransportAction : Type 0 where
  play_clicked restart_clicked : TransportAction
  speed_clicked : ℕ → TransportAction
  scrubbed : ℕ → TransportAction

-- The state that a control leaves, and where it seeks to.
unfoldable pub transport :
    ℕ → ℕ → TransportAction → ReplayControlState → ReplayControlState × Option ℕ
unfolding replay_control_reducer
transport total played play_clicked s =
    if (total == 0) || is_finished total played
    then (s, none)
    else (replay_control_reducer s toggle_play, none)
transport total played restart_clicked s =
    if total == 0 then (s, none) else (replay_control_reducer s pause, some 0)
transport total played (speed_clicked v) s = (replay_control_reducer s (set_speed v), none)
transport total played (scrubbed n) s = (s, if total == 0 then none else some n)

pub data ReplayView : Type 0 where
  -- how many events have been loaded
  loading : ℕ → ReplayView
  failed : String → ReplayView
  playback : ReplayView

unfoldable pub view_of : Bool → ℕ → Option String → ReplayView
view_of true loaded_events error = loading loaded_events
view_of false loaded_events error = elim (truthy error) as (λ o. ReplayView) [
  | none ↦ playback
  | some message ↦ failed message
]
