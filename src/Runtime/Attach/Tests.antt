-- ===== src/Runtime/Attach/Tests.antt =====
-- A run of four events, attached to after its end, and the race between snapshot and page.
use htn.Prelude.{
  ◌+◌, ◌≡◌, refl, String, true, false, some, [], ◌∷◌, map, filter, length, lookup, foldl, string_eq,
}
use htn.Prelude.Int.{pos}
use htn.Stream.Types.{compromised, quarantined, EventType, Event, SnapshotFrame, event}
use htn.Stream.Reducer.{GraphState, is_exposed, reduce_all, advance, initial_graph_state}
use htn.Stream.Counts.{is_new_compromise}
use htn.Stream.Connection.{Socket, message, session}
use htn.Stream.Samples.{agent, bare, history, start}
use htn.Runtime.Attach.{
  initial_runtime_stream, runtime_session, snapshot_answered, events_answered, from_browser,
}
use htn.Runtime.Attach.Laws.{runtime_session-backfill}

-- The snapshot of the state after the history.
abbrev late_frame : SnapshotFrame
late_frame = record {
  experiment_id = "x";
  last_seq = pos 4;
  sim_tick = 5;
  nodes =
      record (agent "a") { security_state = compromised }
      ∷ record (agent "b") {
        security_state = quarantined;
        compromised_by = some "a";
        tick_compromised = some 4;
      }
      ∷ [];
  edges = [];
}

abbrev numbered : Event
numbered = record (bare EventType.message_sent) { seq = pos 5 }

-- The page was fetched after the snapshot and holds an event more; the socket sends that event
-- again, and is closed for it.
raced :
    map
      (λ (s : Socket). s.closing)
      (runtime_session false initial_runtime_stream (
        snapshot_answered (some late_frame)
        ∷ events_answered (some (numbered ∷ []))
        ∷ from_browser (message (event numbered))
        ∷ [])).connection.sockets
    ≡ true ∷ []
unfolding runtime_session session reduce_all initial_graph_state
raced = refl

-- The page holds an event of a foreign version. Attaching stops at it only where the error of the
-- updater comes out of `setState`; else the socket is opened.
foreign_page :
    let page =
      snapshot_answered (some late_frame)
      ∷ events_answered (some (record numbered { schema_version = 2 } ∷ []))
      ∷ [] in
    ((runtime_session true initial_runtime_stream page).connection.sockets ≡ [])
    × (map
          (λ (s : Socket). s.since_seq)
          (runtime_session false initial_runtime_stream page).connection.sockets
        ≡ some (pos 4) ∷ [])
unfolding runtime_session session reduce_all initial_graph_state
foreign_page = (refl, refl)

abbrev finish : GraphState
finish = foldl advance start history

runtime_session-backfill_example :
    let c =
      (runtime_session false initial_runtime_stream
        (snapshot_answered (some late_frame) ∷ events_answered (some history) ∷ [])).connection in
    ((a : String) → lookup a c.state.nodes ≡ lookup a finish.nodes)
    × (c.state.metrics.new_compromises
        ≡ length (filter is_exposed late_frame.nodes) + length (filter is_new_compromise history))
    × (c.sockets ≡ record { id = 1; since_seq = some (pos 4); closing = false } ∷ [])
unfolding reduce_all advance initial_graph_state
runtime_session-backfill_example =
    runtime_session-backfill false start finish late_frame [] history refl
      (refl, (refl, (refl, (refl, tt)))) (λ a. refl)
