-- ===== src/Security/Trace.antt =====
-- The trace of one node: frontend/src/lib/security/useProvenance.ts. A change of what is selected ends
-- the effect and runs it again, with a request that has the next number.
mod Tests
use htn.Prelude.{
  ℕ, ◌+◌, String, Bool, false, Option, none, some, List, nat_eq, truthy, if◌then◌else◌,
}

pub record ProvenanceState : Type 0 where
  pub chain : Option (List String)
  pub loading : Bool
  pub error : Option String

-- What a request comes to: a chain, none where nothing was asked for, or a message.
pub data TraceAnswer : Type 0 where
  traced : Option (List String) → TraceAnswer
  refused : String → TraceAnswer

-- `request` is the number of the request that has not been cancelled, `asks` what it asks for.
pub record Trace : Type 0 where
  pub state : ProvenanceState
  pub request : ℕ
  pub asks : Option (String × String)

abbrev pub initial_trace : Trace
initial_trace = record {
  state = record { chain = none; loading = false; error = none };
  request = 0;
  asks = none;
}

-- The run and the node, if there is something to ask for.
abbrev pub asked_for : Option String → Option String → Option (String × String)
asked_for experiment_id node_id = elim (truthy experiment_id) [
  | none ↦ none
  | some e ↦ elim (truthy node_id) [ none ↦ none | some n ↦ some (e, n) ]
]

unfoldable pub settle_trace : TraceAnswer → ProvenanceState
settle_trace (traced chain) = record { chain = chain; loading = false; error = none }
settle_trace (refused message) = record { chain = none; loading = false; error = some message }

pub data TraceInput : Type 0 where
  selected : Option String → Option String → TraceInput
  answered : ℕ → TraceAnswer → TraceInput

unfoldable pub trace_step : Trace → TraceInput → Trace
unfolding settle_trace
trace_step t (selected experiment_id node_id) = record t {
  request = t.request + 1;
  asks = asked_for experiment_id node_id;
}
trace_step t (answered n a) = if nat_eq n t.request then record t { state = settle_trace a } else t
