-- ===== src/Stream/Connection/Tests.antt =====
-- Sessions of the live connection.
use htn.Prelude.{◌≡◌, refl, true, false, none, some, List, [], ◌∷◌, map, any}
use htn.Prelude.Int.{pos}
use htn.Stream.Types.{Event, snapshot, event}
use htn.Stream.Reducer.{reduce_all}
use htn.Stream.Samples.{first_frame, compromise}
use htn.Stream.Connection.{
  Socket, Connection, Input, opened, message, errored, socket_closed, timer_fired, unmounted, step,
  session, run,
}
use htn.Stream.Connection.Laws.{
  IsSound, can_crash, run-IsSound, session-after_unmount, session-gap_reconnects_twice,
}

-- A lost connection that comes back.
abbrev recovery : List Input
recovery =
    opened
    ∷ message (snapshot first_frame)
    ∷ message (event compromise)
    ∷ errored
    ∷ socket_closed 1
    ∷ timer_fired 2
    ∷ []

resumed :
    (map (λ (s : Socket). s.since_seq) (run true recovery).sockets ≡ some (pos 1) ∷ [])
    × ((run true recovery).backoff ≡ 500)
unfolding run session reduce_all
resumed = (refl, refl)

run-IsSound_example : IsSound (any (can_crash true) recovery) (run true recovery)
run-IsSound_example = run-IsSound true recovery

-- A frame of a foreign version, where the updater waits: it counts as applied, no error is shown,
-- the socket stays open, and the events that follow are not seen.
crash :
    let foreign = record compromise { schema_version = 2 } in
    let c = run false (opened ∷ message (snapshot first_frame) ∷ message (event foreign) ∷ []) in
    let d = step false c (message (event (record compromise { seq = pos 2 }))) in
    (c.crashed ≡ true)
    × (c.schema_error ≡ none)
    × (c.expected_next_seq ≡ some (pos 2))
    × (map (λ (s : Socket). s.closing) c.sockets ≡ false ∷ [])
    × (d.state ≡ c.state)
unfolding run session reduce_all
crash = (refl, refl, refl, refl, refl)

-- Where the updater runs at once, the error is shown and the socket is closed.
caught :
    let foreign = record compromise { schema_version = 2 } in
    let c = run true (opened ∷ message (snapshot first_frame) ∷ message (event foreign) ∷ []) in
    (c.schema_error ≡ some 2)
    × (c.expected_next_seq ≡ some (pos 1))
    × (map (λ (s : Socket). s.closing) c.sockets ≡ true ∷ [])
unfolding run session reduce_all
caught = (refl, refl, refl)

session-after_unmount_example :
    (session true (run true recovery) (unmounted ∷ socket_closed 3 ∷ timer_fired 4 ∷ [])).next_id
    ≡ (run true recovery).next_id
session-after_unmount_example =
    session-after_unmount true (run true recovery) (socket_closed 3 ∷ timer_fired 4 ∷ [])

abbrev live : Connection
live = run true (opened ∷ message (snapshot first_frame) ∷ message (event compromise) ∷ [])

abbrev late : Event
late = record compromise { seq = pos 9 }

session-gap_reconnects_twice_example :
    map
      (λ (s : Socket). s.since_seq)
      (session true live
        (message (event late) ∷ socket_closed 1 ∷ timer_fired 2 ∷ timer_fired 3 ∷ [])).sockets
    ≡ none ∷ some (pos 1) ∷ []
unfolding run session reduce_all
session-gap_reconnects_twice_example =
    session-gap_reconnects_twice true live (record { id = 1; since_seq = none; closing = false })
      (pos 2) late refl refl refl refl refl refl
