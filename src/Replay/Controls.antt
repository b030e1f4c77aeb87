-- ===== src/Replay/Controls.antt =====
-- The controls of a replay: frontend/src/lib/replay/controlReducer.ts, and the same clamp in
-- useReplayStream.ts. A speed is counted in hundredths, so 0.25 is 25 and 8.0 is 800.
use htn.Prelude.{ℕ, ◌/◌, ◌*◌, ◌≤◌, Bool, true, false, not, min, max, List, [], ◌∷◌, arith}

abbrev pub min_speed : ℕ
min_speed = 25

abbrev pub max_speed : ℕ
max_speed = 800

pub record ReplayControlState : Type 0 where
  pub playing : Bool
  pub speed : ℕ

abbrev pub initial_replay_control_state : ReplayControlState
initial_replay_control_state = record { playing = false; speed = 100 }

pub data ReplayControlAction : Type 0 where
  play pause toggle_play reset : ReplayControlAction
  set_speed : ℕ → ReplayControlAction

unfoldable pub replay_control_reducer :
    ReplayControlState → ReplayControlAction → ReplayControlState
replay_control_reducer s play = record s { playing = true }
replay_control_reducer s pause = record s { playing = false }
replay_control_reducer s toggle_play = record s { playing = not s.playing }
replay_control_reducer s (set_speed v) = record s { speed = min max_speed (max min_speed v) }
replay_control_reducer s reset = initial_replay_control_state

unfoldable pub run : ReplayControlState → List ReplayControlAction → ReplayControlState
unfolding replay_control_reducer
run s [] = s
run s (a ∷ rest) = run (replay_control_reducer s a) rest

-- The interval of the playback in units of 10 microseconds: 250 ms over the clamped speed, cut to a
-- whole number.
unfoldable pub interval : ℕ → ℕ
interval speed = 25000 * 100 / min max_speed (max min_speed speed)

run_in_range :
    (s : ReplayControlState) (rest : List ReplayControlAction)
    → min_speed ≤ s.speed
    → s.speed ≤ max_speed
    → (min_speed ≤ (run s rest).speed) × ((run s rest).speed ≤ max_speed)
unfolding run
run_in_range s [] l h = (l, h)
run_in_range s (play ∷ rest) l h = run_in_range (replay_control_reducer s play) rest l h
run_in_range s (pause ∷ rest) l h = run_in_range (replay_control_reducer s pause) rest l h
run_in_range s (toggle_play ∷ rest) l h =
    run_in_range (replay_control_reducer s toggle_play) rest l h
run_in_range s (set_speed v ∷ rest) l h =
    run_in_range (replay_control_reducer s (set_speed v)) rest (omega arith) (omega arith)
run_in_range s (reset ∷ rest) l h =
    run_in_range (replay_control_reducer s reset) rest (omega arith) (omega arith)

interval_in_range : (v : ℕ) → (3125 ≤ interval v) × (interval v ≤ 100000)
unfolding interval
interval_in_range v = grind arith

-- Whatever actions a viewer takes, the speed stays between 0.25 and 8, and so the playback's
-- interval between 31.25 ms and a second.
run-speed_bounds :
    (rest : List ReplayControlAction)
    → let v = (run initial_replay_control_state rest).speed in
      (min_speed ≤ v) × (v ≤ max_speed) × (3125 ≤ interval v) × (interval v ≤ 100000)
run-speed_bounds rest = omega (
  arith,
  run_in_range initial_replay_control_state rest (omega arith) (omega arith),
  interval_in_range (run initial_replay_control_state rest).speed,
)
