-- ===== src/Replay/Screen/Tests.antt =====
-- The end of a replay.
use htn.Prelude.{◌≡◌, refl, true, false, none, some}
use htn.Replay.Controls.{ReplayControlState}
use htn.Replay.Screen.{on_progress, transport, play_clicked, restart_clicked, view_of, failed}

abbrev playing : ReplayControlState
playing = record { playing = true; speed = 100 }

at_end :
    (on_progress 3 3 playing ≡ record { playing = false; speed = 100 })
    × (on_progress 3 2 playing ≡ playing)
    × (transport 3 3 play_clicked playing ≡ (playing, none))
    × (transport 3 3 restart_clicked playing ≡ (record { playing = false; speed = 100 }, some 0))
    × (view_of false 0 (some "gone") ≡ failed "gone")
unfolding on_progress transport view_of
at_end = (refl, refl, refl, refl, refl)
