-- ===== src/Runtime/Attach.antt =====
-- The stream of a live session: frontend/src/lib/runtime/useRuntimeStream.ts. Its socket is handled as
-- that of Stream.Connection, statement by statement, with the same parameter `rethrows`; `attach`
-- comes before it. A request that fails is `none`, and the two answers of `attach` are inputs.
pub mod Laws
mod Tests
use htn.Prelude.{Bool, true, false, Option, none, some, List, [], ◌∷◌, if◌then◌else◌}
use htn.Prelude.Int.{ℤ}
use htn.Stream.Types.{Event, SnapshotFrame, StreamFrame, snapshot, event}
use htn.Stream.Reducer.{ok, unrecognized_schema_version, type_error, reduce}
use htn.Stream.Connection.{
  Connection, Input, opened, socket_closed, unmounted, initial_connection, connect, note_frame,
  seq_after, set_state, step,
}

-- Where `attach` stands.
pub data Phase : Type 0 where
  awaiting_snapshot : Phase
  -- the number of the snapshot
  awaiting_events : ℤ → Phase
  attached : Phase
  -- `attach` returned without a socket
  refused : Phase

pub record RuntimeStream : Type 0 where
  pub connection : Connection
  pub connected : Bool
  pub phase : Phase

abbrev pub initial_runtime_stream : RuntimeStream
initial_runtime_stream = record {
  connection = initial_connection;
  connected = false;
  phase = awaiting_snapshot;
}

-- `apply`: the new variables, and what it returns.
unfoldable pub apply : Bool → StreamFrame → Connection → Connection × Bool
apply rethrows f c = elim (reduce c.state f) [
  | ok s ↦ (note_frame f (set_state s c), true)
  | unrecognized_schema_version v ↦
      if rethrows
      then (record c { schema_error = some v }, false)
      else (note_frame f (record c { crashed = true }), true)
  | type_error ↦ if rethrows then (c, false) else (note_frame f (record c { crashed = true }), true)
]

-- The loop over the events of the page, up to the first that does not apply.
unfoldable pub apply_history : Bool → List Event → Connection → Connection × Bool
apply_history rethrows [] c = (c, true)
apply_history rethrows (e ∷ es) c =
    let (d, applied) = apply rethrows (event e) c in
    elim applied [ true ↦ apply_history rethrows es d | false ↦ (d, false) ]

-- The snapshot arrives, or its request fails.
unfoldable pub got_snapshot : Bool → Option SnapshotFrame → RuntimeStream → RuntimeStream
got_snapshot rethrows none s = record s { connection = connect none s.connection; phase = attached }
got_snapshot rethrows (some f) s =
    let (c, applied) = apply rethrows (snapshot f) s.connection in
    record s { connection = c; phase = if applied then awaiting_events f.last_seq else refused }

-- The page of events arrives, or its request fails.
unfoldable pub got_events : Bool → ℤ → Option (List Event) → RuntimeStream → RuntimeStream
got_events rethrows last_seq none s = record s {
  connection = connect none s.connection;
  phase = attached;
}
got_events rethrows last_seq (some es) s =
    let (c, applied) = apply_history rethrows es s.connection in
    if applied
    then record s { connection = connect (some last_seq) c; phase = attached }
    else record s { connection = c; phase = refused }

pub data RuntimeInput : Type 0 where
  snapshot_answered : Option SnapshotFrame → RuntimeInput
  events_answered : Option (List Event) → RuntimeInput
  from_browser : Input → RuntimeInput

-- `setConnected`
unfoldable pub connected_after : Bool → Input → Bool
connected_after b opened = true
connected_after b (socket_closed id) = false
connected_after b _ = b

unfoldable pub answer_snapshot : Bool → Phase → Option SnapshotFrame → RuntimeStream → RuntimeStream
answer_snapshot rethrows awaiting_snapshot r s =
    if s.connection.cancelled then s else got_snapshot rethrows r s
answer_snapshot rethrows _ r s = s

unfoldable pub answer_events : Bool → Phase → Option (List Event) → RuntimeStream → RuntimeStream
answer_events rethrows (awaiting_events n) r s =
    if s.connection.cancelled then s else got_events rethrows n r s
answer_events rethrows _ r s = s

unfoldable pub runtime_step : Bool → RuntimeStream → RuntimeInput → RuntimeStream
runtime_step rethrows s (snapshot_answered r) = answer_snapshot rethrows s.phase r s
runtime_step rethrows s (events_answered r) = answer_events rethrows s.phase r s
runtime_step rethrows s (from_browser i) = record s {
  connection = step rethrows s.connection i;
  connected = connected_after s.connected i;
}

-- The line opens all that a test runs.
unfoldable pub runtime_session : Bool → RuntimeStream → List RuntimeInput → RuntimeStream
unfolding runtime_step answer_snapshot answer_events got_snapshot got_events apply apply_history
    note_frame connected_after connect seq_after
runtime_session rethrows s [] = s
runtime_session rethrows s (i ∷ is) = runtime_session rethrows (runtime_step rethrows s i) is
