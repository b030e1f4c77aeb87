-- ===== src/Replay/Tests.antt =====
-- Playback and controls on concrete inputs.
use htn.Prelude.{false, ◌≡◌, refl, List, [], ◌∷◌}
use htn.Prelude.Int.{pos, negsuc}
use htn.Stream.Reducer.{Thrown, ok, reduce_all}
use htn.Stream.Samples.{history, start}
use htn.Replay.Controls.{
  ReplayControlAction, play, set_speed, toggle_play, initial_replay_control_state, interval, run,
}
use htn.Replay.Player.{Player, Input, ticked, sought, loaded, play as play_inputs}
use htn.Replay.Consistency.{IsConsistent, play-loaded-IsConsistent}

abbrev clicks : List ReplayControlAction
clicks = play ∷ set_speed 10000 ∷ toggle_play ∷ []

fast : run initial_replay_control_state clicks ≡ record { playing = false; speed = 800 }
unfolding run
fast = refl

fast_interval : interval 800 ≡ 3125
unfolding interval
fast_interval = refl

abbrev inputs : List Input
inputs = ticked ∷ sought (pos 9) ∷ ticked ∷ sought (negsuc 3) ∷ ticked ∷ ticked ∷ []

abbrev player_of : Thrown Player → Player
player_of (ok p) = p
player_of _ = loaded start history

two_played : (player_of (play_inputs (loaded start history) inputs)).played_index ≡ 2
unfolding play_inputs reduce_all
two_played = refl

play-loaded-IsConsistent_example :
    IsConsistent (player_of (play_inputs (loaded start history) inputs))
unfolding play_inputs reduce_all
play-loaded-IsConsistent_example =
    play-loaded-IsConsistent start history inputs
      (player_of (play_inputs (loaded start history) inputs)) refl
