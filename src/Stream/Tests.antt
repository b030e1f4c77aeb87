-- ===== src/Stream/Tests.antt =====
-- Runs of the stream reducer on concrete frames.
use mathlib.Core.Option
use htn.Prelude.{
  ◌+◌, ◌≤◌, ◌≡◌, ◌≢◌, refl, String, some, List, ◌∷◌, ◌++◌, map, foldl, keys, values, length, filter,
  slice_last, lookup, string_eq, arith,
}
use htn.Stream.Types.{quarantined, Event, SnapshotFrame, StreamFrame, snapshot, event}
use htn.Stream.Reducer.{
  ok, unrecognized_schema_version, GraphState, initial_graph_state, event_log_cap, incident_log_cap,
  is_exposed, is_healthy, select_metrics, reduce, advance, reduce_all,
}
use htn.Stream.Samples.{agent, history, first_frame, start}
use htn.Stream.Window.{
  incidents_of, concerns, IsBounded, reduce_all-recent_events, reduce_all-incidents,
  reduce_all-IsBounded,
}
use htn.Stream.Nodes.{touch, reduce_all-nodes}
use htn.Stream.Counts.{
  is_new_compromise, is_model_call, reduce_all-counters, reduce-no_leak, select_metrics_counts,
  reduce_all_total,
}

abbrev finish : GraphState
finish = foldl advance start history

finish-reached : reduce_all start (map event history) ≡ ok finish
unfolding reduce_all
finish-reached = refl

start-IsBounded : IsBounded start
unfolding reduce_all
start-IsBounded = record { recent = omega arith; incidents = λ a. omega arith }

b_is_quarantined :
    lookup "b" finish.nodes
    ≡ some (record (agent "b") {
      security_state = quarantined;
      compromised_by = some "a";
      tick_compromised = some 4;
    })
unfolding reduce_all
b_is_quarantined = refl

counted : (finish.metrics.new_compromises ≡ 2) × (finish.metrics.model_calls ≡ 1)
unfolding reduce_all
counted = (refl, refl)

incidents_counted :
    (length (incidents_of "b" finish.incidents_by_agent) ≡ 3)
    × (length (incidents_of "a" finish.incidents_by_agent) ≡ 2)
unfolding reduce_all
incidents_counted = (refl, refl)

reduce_all-recent_events_example :
    finish.recent_events ≡ slice_last event_log_cap (start.recent_events ++ history)
reduce_all-recent_events_example =
    reduce_all-recent_events start finish history start-IsBounded.recent finish-reached

reduce_all-incidents_example :
    incidents_of "b" finish.incidents_by_agent
    ≡ slice_last incident_log_cap
        (incidents_of "b" start.incidents_by_agent ++ filter (concerns "b") history)
reduce_all-incidents_example =
    reduce_all-incidents "b" start finish history (start-IsBounded.incidents "b") finish-reached

reduce_all-IsBounded_example : IsBounded finish
reduce_all-IsBounded_example =
    reduce_all-IsBounded start finish (map event history) start-IsBounded finish-reached

reduce_all-nodes_example :
    ((a : String)
      → lookup a finish.nodes ≡ Option.map (λ n. foldl (touch a) n history) (lookup a start.nodes))
    × (keys finish.nodes ≡ keys start.nodes)
reduce_all-nodes_example = reduce_all-nodes start finish history finish-reached

reduce_all-counters_example :
    (finish.metrics.new_compromises
      ≡ start.metrics.new_compromises + length (filter is_new_compromise history))
    × (finish.metrics.model_calls
        ≡ start.metrics.model_calls + length (filter is_model_call history))
reduce_all-counters_example = reduce_all-counters start finish history finish-reached

abbrev second_frame : SnapshotFrame
second_frame = record first_frame { experiment_id = "y" }

reduce-no_leak_example :
    reduce finish (snapshot second_frame) ≡ reduce initial_graph_state (snapshot second_frame)
unfolding reduce_all
reduce-no_leak_example = reduce-no_leak finish initial_graph_state second_frame refl refl

select_metrics_counts_example :
    let m = select_metrics finish in
    let ns = values finish.nodes in
    (m.healthy ≡ length (filter (λ n. is_healthy n.security_state) ns))
    × (m.total_exposure ≡ length (filter is_exposed ns))
    × (m.total ≡ length ns)
    × (m.healthy + m.total_exposure ≤ m.total)
select_metrics_counts_example = select_metrics_counts finish

reduce_all_total_example :
    ((t : GraphState) × (reduce_all start (map event history) ≡ ok t))
    × ((e : Event) (gs : List StreamFrame)
        → e.schema_version ≢ 1
        → reduce_all start (map event history ++ event e ∷ gs)
          ≡ unrecognized_schema_version e.schema_version)
reduce_all_total_example =
    reduce_all_total start (map event history) (refl, (refl, (refl, (refl, tt))))
