-- ===== src/Stream/Samples.antt =====
-- Events and frames that the tests run on.
use htn.Prelude.{String, none, some, true, List, [], ◌∷◌}
use htn.Prelude.Int.{pos}
use htn.Stream.Types.{
  healthy, compromised, simulated, Json, EventType, NodeView, Event, SnapshotFrame,
}
use htn.Stream.Reducer.{GraphState, initial_graph_state, reduce_snapshot}

abbrev pub agent : String → NodeView
agent a = record {
  id = a;
  software_type = "type-1";
  security_state = healthy;
  compromised_by = none;
  tick_compromised = none;
  agent_kind = simulated;
}

abbrev pub bare : EventType → Event
bare t = record {
  sim_tick = 1;
  event_type = t;
  agent_id = none;
  source_agent_id = none;
  target_agent_id = none;
  metadata = none;
  event_id = "e";
  seq = pos 1;
  schema_version = 1;
  experiment_id = "x";
  wall_time = "2026-09-05T10:00:00Z";
}

abbrev pub compromise : Event
compromise = record (bare EventType.compromise_succeeded) {
  source_agent_id = some "a";
  target_agent_id = some "b";
  sim_tick = 4;
}

abbrev pub repeated : Event
repeated = record compromise { metadata = some (("already_compromised", Json.bool true) ∷ []) }

abbrev pub quarantine : Event
quarantine = record (bare EventType.agent_quarantined) { agent_id = some "b"; sim_tick = 5 }

abbrev pub history : List Event
history = compromise ∷ repeated ∷ bare EventType.model_requested ∷ quarantine ∷ []

abbrev pub first_frame : SnapshotFrame
first_frame = record {
  experiment_id = "x";
  last_seq = pos 0;
  sim_tick = 0;
  nodes = record (agent "a") { security_state = compromised } ∷ agent "b" ∷ [];
  edges = [];
}

abbrev pub start : GraphState
start = reduce_snapshot initial_graph_state first_frame
