-- ===== src/Stream/Counts.antt =====
-- The counters, the metrics and the errors of the reducer: reducer.ts, `metrics`, `selectMetrics`
-- and the check of the schema version.
use text.Mathlib.TextEquality.{eq_iff}
use htn.Prelude.{
  suc, ◌+◌, ◌≤◌, ◌≡◌, ◌≢◌, refl, ap, String, Bool, true, false, not, ◌&&◌, Option, none, some, List,
  [], ◌∷◌, ◌++◌, map, foldl, Dict, values, length, filter, All, nat_eq_iff, string_eq, arith,
}
use htn.Stream.Types.{NodeView, Event, SnapshotFrame, StreamFrame, snapshot, event}
use htn.Stream.Reducer.{
  ok, unrecognized_schema_version, GraphState, is_compromise_succeeded, is_model_requested,
  is_duplicate_claim, is_exposed, is_healthy, is_compromised, is_quarantined, same_experiment,
  current_schema_version, Tally, tally_node, select_metrics, reduce_metrics, reduce_snapshot,
  reduce_event, reduce, advance, reduce_all,
}
use htn.Stream.Window.{reduce_all-events}

-- A compromise that is no repeated claim.
abbrev pub is_new_compromise : Event → Bool
is_new_compromise e = is_compromise_succeeded e.event_type && not (is_duplicate_claim e)

abbrev pub is_model_call : Event → Bool
is_model_call e = is_model_requested e.event_type

foldl-counters :
    (s : GraphState) (es : List Event)
    → ((foldl advance s es).metrics.new_compromises
        ≡ s.metrics.new_compromises + length (filter is_new_compromise es))
      × ((foldl advance s es).metrics.model_calls
          ≡ s.metrics.model_calls + length (filter is_model_call es))
unfolding advance reduce_metrics
foldl-counters s [] = omega arith
foldl-counters s (e ∷ es) = ground (arith, foldl-counters (advance s e) es)

-- After a history of accepted events each counter has grown by the number of events of its kind,
-- however long the history is and whatever the log has dropped.
pub reduce_all-counters :
    (s t : GraphState) (es : List Event)
    → reduce_all s (map event es) ≡ ok t
    → (t.metrics.new_compromises ≡ s.metrics.new_compromises + length (filter is_new_compromise es))
      × (t.metrics.model_calls ≡ s.metrics.model_calls + length (filter is_model_call es))
reduce_all-counters s t es r = ground (arith, reduce_all-events s t es r, foldl-counters s es)

-- The snapshot of another experiment leads to one state, whatever state it arrives at: nothing of
-- the experiment before is left.
pub reduce-no_leak :
    (s s' : GraphState) (f : SnapshotFrame)
    → same_experiment f.experiment_id s.experiment_id ≡ false
    → same_experiment f.experiment_id s'.experiment_id ≡ false
    → reduce s (snapshot f) ≡ reduce s' (snapshot f)
unfolding reduce reduce_snapshot
reduce-no_leak s s' f h h' = rw (h, h')

-- On the snapshot of another experiment and a history after it, the counter of new compromises
-- holds the nodes that the snapshot shows as compromised or quarantined, and one for each new
-- compromise of the history.
pub reduce_all-seeded :
    (s t : GraphState) (f : SnapshotFrame) (es : List Event)
    → same_experiment f.experiment_id s.experiment_id ≡ false
    → reduce_all s (snapshot f ∷ map event es) ≡ ok t
    → t.metrics.new_compromises
      ≡ length (filter is_exposed f.nodes) + length (filter is_new_compromise es)
unfolding reduce_all reduce reduce_snapshot
reduce_all-seeded s t f es h r = ground (arith, reduce_all-counters (reduce_snapshot s f) t es r)

same_experiment-eq :
    (id : String) (current : Option String) → same_experiment id current ≡ true → some id ≡ current
same_experiment-eq id none h = cc
same_experiment-eq id (some c) h = ap some ((eq_iff id c).0 h)

-- The snapshot of the experiment that is shown keeps its logs, its counters and
-- its id.
reduce_snapshot_same :
    (s t : GraphState) (f : SnapshotFrame)
    → same_experiment f.experiment_id s.experiment_id ≡ true
    → reduce s (snapshot f) ≡ ok t
    → (t.recent_events ≡ s.recent_events)
      × (t.incidents_by_agent ≡ s.incidents_by_agent)
      × (t.metrics ≡ s.metrics)
      × (t.experiment_id ≡ s.experiment_id)
unfolding reduce reduce_snapshot
reduce_snapshot_same s t f h r =
    ground (arith, same_experiment-eq f.experiment_id s.experiment_id h)

length-values : (m : Dict String NodeView) → length (values m) ≡ length m
length-values [] = refl
length-values ((k, n) ∷ m) = ap suc (length-values m)

split_le :
    (ns : List NodeView)
    → length (filter (λ n. is_healthy n.security_state) ns)
        + length (filter (λ n. is_compromised n.security_state) ns)
        + length (filter (λ n. is_quarantined n.security_state) ns)
      ≤ length ns
split_le [] = omega arith
split_le (n ∷ ns) = ground (arith, split_le ns)

length-exposed :
    (ns : List NodeView)
    → length (filter is_exposed ns)
      ≡ length (filter (λ n. is_compromised n.security_state) ns)
        + length (filter (λ n. is_quarantined n.security_state) ns)
length-exposed [] = omega arith
length-exposed (n ∷ ns) = ground (arith, length-exposed ns)

foldl-tally :
    (t : Tally) (ns : List NodeView)
    → let u = foldl tally_node t ns in
      (u.healthy ≡ t.healthy + length (filter (λ n. is_healthy n.security_state) ns))
      × (u.compromised ≡ t.compromised + length (filter (λ n. is_compromised n.security_state) ns))
      × (u.quarantined ≡ t.quarantined + length (filter (λ n. is_quarantined n.security_state) ns))
unfolding tally_node
foldl-tally t [] = omega arith
foldl-tally t (n ∷ ns) = ground (arith, foldl-tally (tally_node t n) ns)

-- The metrics count the nodes: the healthy ones, and as exposure those that are compromised or
-- quarantined; the total is the number of nodes, and healthy and exposed nodes are never more.
pub select_metrics_counts :
    (s : GraphState)
    → let m = select_metrics s in
      let ns = values s.nodes in
      (m.healthy ≡ length (filter (λ n. is_healthy n.security_state) ns))
      × (m.total_exposure ≡ length (filter is_exposed ns))
      × (m.total ≡ length ns)
      × (m.healthy + m.total_exposure ≤ m.total)
unfolding select_metrics
select_metrics_counts s =
    let ns = values s.nodes in
    ground (
      arith,
      foldl-tally (record { healthy = 0; compromised = 0; quarantined = 0 }) ns,
      split_le ns,
      length-exposed ns,
      length-values s.nodes,
    )

-- A snapshot, or an event of the version that the client understands.
abbrev pub IsUnderstood : StreamFrame → Type 0
IsUnderstood (snapshot f) = Unit
IsUnderstood (event e) = e.schema_version ≡ current_schema_version

-- Frames that the client understands lead to a state; at the first event of another version the
-- reducer throws, and names that version, whatever comes after it.
pub reduce_all_total :
    (s : GraphState) (fs : List StreamFrame)
    → All IsUnderstood fs
    → ((t : GraphState) × (reduce_all s fs ≡ ok t))
      × ((e : Event) (gs : List StreamFrame)
          → e.schema_version ≢ current_schema_version
          → reduce_all s (fs ++ event e ∷ gs) ≡ unrecognized_schema_version e.schema_version)
unfolding reduce_all reduce reduce_event
reduce_all_total s [] a = ((s, refl), λ e gs h. ground (arith, nat_eq_iff e.schema_version 1))
reduce_all_total s (snapshot f ∷ fs) a = reduce_all_total (reduce_snapshot s f) fs a.1
reduce_all_total s (event e ∷ fs) a =
    let (run, throws) = reduce_all_total (advance s e) fs a.1 in
    let current = (nat_eq_iff e.schema_version 1).1 a.0 in
    (rw current run, λ d gs h. rw current (throws d gs h))
