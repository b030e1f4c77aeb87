-- ===== src/Stream/Reducer.antt =====
-- The pure stream reducer: frontend/src/lib/stream/reducer.ts.
-- Maps are association lists in the order of insertion; a `throw` is the `err` of `Thrown`.
use htn.Prelude.{
  ℕ, ◌+◌, String, Bool, true, false, not, ◌&&◌, ◌||◌, Option, none, some, List, [], ◌∷◌, ◌++◌,
  foldl, Dict, values, lookup, insert, add, contains, length, filter, slice_last, coalesce, truthy,
  nat_eq, string_eq, ◌==◌, if◌then◌else◌,
}
use htn.Prelude.Int.{ℤ, negsuc}
use htn.Stream.Types.{
  SecurityState, healthy, compromised, quarantined, EventType, NodeView, EdgeView, Event,
  SnapshotFrame, StreamFrame, snapshot, event, meta, is_true,
}

pub data Thrown (A : Type 0) : Type 0 where
  ok : A → Thrown A
  -- the version that the message names
  unrecognized_schema_version : ℕ → Thrown A
  -- a field of `undefined` was read
  type_error : Thrown A

infixl 5 ◌>>=◌
abbrev pub ◌>>=◌ : {A B : Type 0} → Thrown A → (A → Thrown B) → Thrown B
ok a >>= k = k a
unrecognized_schema_version v >>= k = unrecognized_schema_version v
type_error >>= k = type_error

abbrev pub current_schema_version : ℕ
current_schema_version = 1

abbrev pub event_log_cap : ℕ
event_log_cap = 200

abbrev pub incident_log_cap : ℕ
incident_log_cap = 50

-- `INCIDENT_EVENT_TYPES.has`
unfoldable pub incident_event_types : EventType → Bool
incident_event_types EventType.compromise_attempted = true
incident_event_types EventType.compromise_succeeded = true
incident_event_types EventType.compromise_failed = true
incident_event_types EventType.anomaly_detected = true
incident_event_types EventType.agent_quarantined = true
incident_event_types _ = false

pub record Counters : Type 0 where
  pub new_compromises : ℕ
  pub model_calls : ℕ

pub record GraphState : Type 0 where
  pub experiment_id : Option String
  pub last_seq : ℤ
  pub tick : ℕ
  pub nodes : Dict String NodeView
  pub edges : List EdgeView
  pub recent_events : List Event
  pub metrics : Counters
  pub incidents_by_agent : Dict String (List Event)

unfoldable pub initial_graph_state : GraphState
initial_graph_state = record {
  experiment_id = none;
  last_seq = negsuc 0;
  tick = 0;
  nodes = [];
  edges = [];
  recent_events = [];
  metrics = record { new_compromises = 0; model_calls = 0 };
  incidents_by_agent = [];
}

-- `if (id) agentIds.add(id)`
unfoldable pub add_id : List String → Option String → List String
add_id ids id = elim (truthy id) [ none ↦ ids | some a ↦ add a ids ]

unfoldable pub agent_ids : Event → List String
agent_ids e = add_id (add_id (add_id [] e.agent_id) e.source_agent_id) e.target_agent_id

-- The body of the loop over the agents of one event.
unfoldable pub log_incident : Event → Dict String (List Event) → String → Dict String (List Event)
log_incident e next agent_id =
    insert agent_id (slice_last incident_log_cap (coalesce (lookup agent_id next) [] ++ e ∷ []))
      next

unfoldable pub record_incident : Dict String (List Event) → Event → Dict String (List Event)
record_incident incidents e =
    if not (incident_event_types e.event_type)
    then incidents
    else if nat_eq (length (agent_ids e)) 0
    then incidents
    else foldl (log_incident e) incidents (agent_ids e)

abbrev pub is_compromised : SecurityState → Bool
is_compromised compromised = true
is_compromised _ = false

abbrev pub is_quarantined : SecurityState → Bool
is_quarantined quarantined = true
is_quarantined _ = false

abbrev pub is_healthy : SecurityState → Bool
is_healthy healthy = true
is_healthy _ = false

pub record Tally : Type 0 where
  pub healthy : ℕ
  pub compromised : ℕ
  pub quarantined : ℕ

-- One round of the loop of `selectMetrics`.
unfoldable pub tally_node : Tally → NodeView → Tally
tally_node t node =
    if is_compromised node.security_state
    then record t { compromised = t.compromised + 1 }
    else if is_quarantined node.security_state
    then record t { quarantined = t.quarantined + 1 }
    else if is_healthy node.security_state
    then record t { healthy = t.healthy + 1 }
    else t

pub record Metrics : Type 0 where
  pub total : ℕ
  pub healthy : ℕ
  pub compromised : ℕ
  pub quarantined : ℕ
  pub new_compromises : ℕ
  pub total_exposure : ℕ
  pub outbreak_duration : ℕ
  pub model_calls : ℕ

unfoldable pub select_metrics : GraphState → Metrics
select_metrics s =
    let t =
      foldl tally_node (record { healthy = 0; compromised = 0; quarantined = 0 })
        (values s.nodes) in
    record {
      total = length s.nodes;
      healthy = t.healthy;
      compromised = t.compromised;
      quarantined = t.quarantined;
      new_compromises = s.metrics.new_compromises;
      total_exposure = t.compromised + t.quarantined;
      outbreak_duration = s.tick;
      model_calls = s.metrics.model_calls;
    }

-- The loop that builds the node map of a snapshot.
unfoldable pub index_nodes : Dict String NodeView → List NodeView → Dict String NodeView
index_nodes m [] = m
index_nodes m (n ∷ ns) = index_nodes (insert n.id n m) ns

-- `frame.experiment_id === state.experimentId`
abbrev pub same_experiment : String → Option String → Bool
same_experiment id none = false
same_experiment id (some current) = id == current

abbrev pub is_exposed : NodeView → Bool
is_exposed n = is_compromised n.security_state || is_quarantined n.security_state

unfoldable pub reduce_snapshot : GraphState → SnapshotFrame → GraphState
reduce_snapshot s f =
    let same = same_experiment f.experiment_id s.experiment_id in
    record {
      experiment_id = some f.experiment_id;
      last_seq = f.last_seq;
      tick = f.sim_tick;
      nodes = index_nodes [] f.nodes;
      edges = f.edges;
      recent_events = if same then s.recent_events else [];
      metrics = if same then s.metrics else record {
        new_compromises = if same then 0 else length (filter is_exposed f.nodes);
        model_calls = 0;
      };
      incidents_by_agent = if same then s.incidents_by_agent else [];
    }

abbrev pub is_compromise_succeeded : EventType → Bool
is_compromise_succeeded EventType.compromise_succeeded = true
is_compromise_succeeded _ = false

abbrev pub is_agent_quarantined : EventType → Bool
is_agent_quarantined EventType.agent_quarantined = true
is_agent_quarantined _ = false

abbrev pub is_model_requested : EventType → Bool
is_model_requested EventType.model_requested = true
is_model_requested _ = false

-- `event.metadata?.["already_compromised"] === true`
abbrev pub is_duplicate_claim : Event → Bool
is_duplicate_claim e = is_true (meta e "already_compromised")

-- The node that a COMPROMISE_SUCCEEDED writes over the existing one.
unfoldable pub compromise_node : Event → NodeView → NodeView
compromise_node e n =
    if is_duplicate_claim e then record n { security_state = compromised } else record n {
      security_state = compromised;
      compromised_by = e.source_agent_id;
      tick_compromised = some e.sim_tick;
    }

unfoldable pub quarantine_node : NodeView → NodeView
quarantine_node n = record n { security_state = quarantined }

-- `state.nodes.get(id)`, and the write if there is such a node.
unfoldable pub update_existing :
    Option String
    → (NodeView → NodeView)
    → Dict String NodeView
    → Dict String NodeView
    → Dict String NodeView
update_existing id f current nodes = elim (truthy id) [
  | none ↦ nodes
  | some a ↦ elim (lookup a current) [ none ↦ nodes | some existing ↦ insert a (f existing) nodes ]
]

unfoldable pub reduce_nodes : Dict String NodeView → Event → Dict String NodeView
reduce_nodes current e =
    let compromised_nodes =
      if is_compromise_succeeded e.event_type
      then update_existing e.target_agent_id (compromise_node e) current current
      else current in
    if is_agent_quarantined e.event_type
    then update_existing e.agent_id quarantine_node current compromised_nodes
    else compromised_nodes

unfoldable pub reduce_metrics : Counters → Event → Counters
reduce_metrics m e =
    let counted =
      if is_compromise_succeeded e.event_type && not (is_duplicate_claim e)
      then record m { new_compromises = m.new_compromises + 1 }
      else m in
    if is_model_requested e.event_type
    then record counted { model_calls = counted.model_calls + 1 }
    else counted

-- What an event of a known version makes of the state.
unfoldable pub advance : GraphState → Event → GraphState
advance s e = record s {
  last_seq = e.seq;
  tick = e.sim_tick;
  nodes = reduce_nodes s.nodes e;
  recent_events = slice_last event_log_cap (s.recent_events ++ e ∷ []);
  metrics = reduce_metrics s.metrics e;
  incidents_by_agent = record_incident s.incidents_by_agent e;
}

unfoldable pub reduce_event : GraphState → Event → Thrown GraphState
reduce_event s e =
    if not (nat_eq e.schema_version current_schema_version)
    then unrecognized_schema_version e.schema_version
    else ok (advance s e)

unfoldable pub reduce : GraphState → StreamFrame → Thrown GraphState
reduce s (snapshot f) = ok (reduce_snapshot s f)
reduce s (event e) = reduce_event s e

-- The frames of a connection, applied one after the other. The line opens all that a test runs.
unfoldable pub reduce_all : GraphState → List StreamFrame → Thrown GraphState
unfolding reduce reduce_event reduce_snapshot advance reduce_nodes reduce_metrics record_incident
    update_existing compromise_node quarantine_node index_nodes log_incident agent_ids add_id
    incident_event_types add contains lookup insert slice_last meta initial_graph_state
reduce_all s [] = ok s
reduce_all s (f ∷ fs) = do t ← reduce s f; reduce_all t fs
