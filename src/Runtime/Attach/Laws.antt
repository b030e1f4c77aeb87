-- ===== src/Runtime/Attach/Laws.antt =====
-- What the backfill leaves alone, and what it does not: useRuntimeStream.ts.
use mathlib.Core.Option
use htn.Prelude.{
  ℕ, ◌+◌, ◌≡◌, refl, sym, ap, ◌∙◌, String, Bool, true, false, ◌&&◌, Option, none, some, List, [],
  ◌∷◌, ◌++◌, map, foldl, length, filter, All, nat_eq, lookup, coalesce, or_else, Bool-cases, inl,
  inr, string_eq, if◌then◌else◌, arith,
}
use htn.Stream.Types.{
  SecurityState, compromised, quarantined, NodeView, Event, SnapshotFrame, snapshot, event,
}
use htn.Stream.Reducer.{
  ok, GraphState, is_compromise_succeeded, is_agent_quarantined, is_duplicate_claim, is_exposed,
  reduce, reduce_event, reduce_snapshot, reduce_all, advance, index_nodes, initial_graph_state,
  same_experiment,
}
use htn.Prelude.Int.{ℤ}
use htn.Stream.Nodes.{names, touch, reduce_all-nodes}
use htn.Stream.Connection.{Connection, initial_connection, connect, note_frame, seq_after}
use htn.Stream.Counts.{IsUnderstood, reduce_all_total, reduce_all-seeded, is_new_compromise}
use htn.Runtime.Attach.{
  apply, apply_history, got_snapshot, got_events, answer_snapshot, answer_events, runtime_step,
  runtime_session, initial_runtime_stream, snapshot_answered, events_answered,
}

-- A write of the state, and one of who compromised a node and when.
abbrev Claim : Type 0
Claim = Option String × Option ℕ

abbrev overwrite : Option SecurityState → Option Claim → NodeView → NodeView
overwrite state claim n = record n {
  security_state = coalesce state n.security_state;
  compromised_by = elim claim [ none ↦ n.compromised_by | some (by, at) ↦ by ];
  tick_compromised = elim claim [ none ↦ n.tick_compromised | some (by, at) ↦ at ];
}

-- What one event writes to the node with the id `a`.
abbrev state_of : String → Event → Option SecurityState
state_of a e =
    if is_compromise_succeeded e.event_type && names e.target_agent_id a
    then some compromised
    else if is_agent_quarantined e.event_type && names e.agent_id a
    then some quarantined
    else none

abbrev claim_of : String → Event → Option Claim
claim_of a e =
    if is_compromise_succeeded e.event_type && names e.target_agent_id a
    then (if is_duplicate_claim e then none else some (e.source_agent_id, some e.sim_tick))
    else none

touch-overwrite :
    (a : String) (n : NodeView) (e : Event)
    → touch a n e ≡ overwrite (state_of a e) (claim_of a e) n
touch-overwrite a n e = elim (Bool-cases (is_duplicate_claim e)) [
  | inl again ↦ rw again (ground arith)
  | inr first ↦ rw first (ground arith)
]

-- The last writes of a history.
abbrev last_state : String → List Event → Option SecurityState
last_state a [] = none
last_state a (e ∷ es) = or_else (last_state a es) (state_of a e)

abbrev last_claim : String → List Event → Option Claim
last_claim a [] = none
last_claim a (e ∷ es) = or_else (last_claim a es) (claim_of a e)

overwrite_twice :
    (s t : Option SecurityState) (c d : Option Claim) (n : NodeView)
    → overwrite s c (overwrite t d n) ≡ overwrite (or_else s t) (or_else c d) n
overwrite_twice s t c d n = ground arith

foldl-touch :
    (a : String) (n : NodeView) (es : List Event)
    → foldl (touch a) n es ≡ overwrite (last_state a es) (last_claim a es) n
foldl-touch a n [] = refl
foldl-touch a n (e ∷ es) =
    foldl-touch a (touch a n e) es
    ∙ ap (overwrite (last_state a es) (last_claim a es)) (touch-overwrite a n e)
    ∙ overwrite_twice (last_state a es) (state_of a e) (last_claim a es) (claim_of a e) n

or_else_self : {A : Type 0} (o : Option A) → or_else o o ≡ o
or_else_self none = refl
or_else_self (some a) = refl

foldl-append :
    (a : String) (n : NodeView) (ds es : List Event)
    → foldl (touch a) n (ds ++ es) ≡ foldl (touch a) (foldl (touch a) n ds) es
foldl-append a n [] es = refl
foldl-append a n (d ∷ ds) es = foldl-append a (touch a n d) ds es

-- The end of a history, told again, changes no node.
touch_again :
    (a : String) (n : NodeView) (ds es : List Event)
    → foldl (touch a) (foldl (touch a) n (ds ++ es)) es ≡ foldl (touch a) n (ds ++ es)
touch_again a n ds es =
    let m = foldl (touch a) n ds in
    let once = foldl-append a n ds es ∙ foldl-touch a m es in
    foldl-touch a (foldl (touch a) n (ds ++ es)) es
    ∙ ap (overwrite (last_state a es) (last_claim a es)) once
    ∙ overwrite_twice (last_state a es) (last_state a es) (last_claim a es) (last_claim a es) m
    ∙ rw (or_else_self (last_state a es), or_else_self (last_claim a es)) (sym once)

-- The variables once an event is applied.
abbrev applied : Connection → Event → Connection
applied c e = record c {
  state = advance c.state e;
  expected_next_seq = some (seq_after (event e));
  schema_error = none;
}

-- The variables once the snapshot is applied.
abbrev shown_snapshot : SnapshotFrame → Connection
shown_snapshot f = record initial_connection {
  state = reduce_snapshot initial_graph_state f;
  expected_next_seq = some (seq_after (snapshot f));
  schema_error = none;
}

apply-current :
    (rethrows : Bool) (e : Event) (c : Connection)
    → c.crashed ≡ false
    → nat_eq e.schema_version 1 ≡ true
    → apply rethrows (event e) c ≡ (applied c e, true)
unfolding apply note_frame reduce reduce_event
apply-current rethrows e c k v = rw (v, k, apply) refl

apply_history-cons :
    (rethrows : Bool) (e : Event) (es : List Event) (c d : Connection)
    → (apply rethrows (event e) c).1 ≡ true
    → (apply rethrows (event e) c).0 ≡ d
    → apply_history rethrows (e ∷ es) c ≡ apply_history rethrows es d
unfolding apply_history
apply_history-cons rethrows e es c d good first =
    rw (good, apply_history) (ap (apply_history rethrows es) first)

apply_history-reduce_all :
    (rethrows : Bool) (c : Connection) (es : List Event) (u : GraphState)
    → c.crashed ≡ false
    → reduce_all c.state (map event es) ≡ ok u
    → let d = (apply_history rethrows es c).0 in
      ((apply_history rethrows es c).1 ≡ true)
      × (d.state ≡ u)
      × (d.cancelled ≡ c.cancelled)
      × (d.sockets ≡ c.sockets)
      × (d.next_id ≡ c.next_id)
unfolding reduce_all reduce reduce_event
apply_history-reduce_all rethrows c [] u k h = unfold apply_history in ground arith
apply_history-reduce_all rethrows c (e ∷ es) u k h = elim (Bool-cases (nat_eq e.schema_version 1)) [
  | inl v ↦
      let now = apply-current rethrows e c k v in
      rw (apply_history-cons rethrows e es c (applied c e) (ap (λ p. p.1) now) (ap (λ p. p.0) now))
        (apply_history-reduce_all rethrows (applied c e) es u k (rw v at h))
  | inr v ↦ absurd (ground arith)
]

-- The session after both answers, once the history has been applied.
runtime_session_attached :
    (rethrows : Bool) (f : SnapshotFrame) (es : List Event)
    → (apply_history rethrows es (shown_snapshot f)).1 ≡ true
    → (runtime_session rethrows initial_runtime_stream
        (snapshot_answered (some f) ∷ events_answered (some es) ∷ [])).connection
      ≡ connect (some f.last_seq) (apply_history rethrows es (shown_snapshot f)).0
unfolding runtime_session runtime_step answer_snapshot answer_events got_snapshot got_events apply
    note_frame reduce
runtime_session_attached rethrows f es good = rw good refl

told_again :
    (a : String) (pre es : List Event) (o : Option NodeView)
    → Option.map (λ n. foldl (touch a) n es) (Option.map (λ n. foldl (touch a) n (pre ++ es)) o)
      ≡ Option.map (λ n. foldl (touch a) n (pre ++ es)) o
told_again a pre es none = refl
told_again a pre es (some n) = ap some (touch_again a n pre es)

connect_live :
    (since : Option ℤ) (d : Connection)
    → d.cancelled ≡ false
    → d.sockets ≡ []
    → d.next_id ≡ 1
    → ((connect since d).state ≡ d.state)
      × ((connect since d).sockets ≡ record { id = 1; since_seq = since; closing = false } ∷ [])
unfolding connect
connect_live since d live none_open first = rw (live, none_open, first) (refl, refl)

-- Attaching to a session that is under way. If the snapshot shows the nodes that a history led to,
-- and the page holds the end of that history, then the backfill leaves every node as the snapshot
-- shows it and a socket is opened that goes on after the snapshot; but the counter of new compromises
-- holds each compromise of the page on top of the exposed nodes of the snapshot.
pub runtime_session-backfill :
    (rethrows : Bool) (s w : GraphState) (f : SnapshotFrame) (pre es : List Event)
    → reduce_all s (map event (pre ++ es)) ≡ ok w
    → All IsUnderstood (map event es)
    → ((a : String) → lookup a (index_nodes [] f.nodes) ≡ lookup a w.nodes)
    → let c =
        (runtime_session rethrows initial_runtime_stream
          (snapshot_answered (some f) ∷ events_answered (some es) ∷ [])).connection in
      ((a : String) → lookup a c.state.nodes ≡ lookup a w.nodes)
      × (c.state.metrics.new_compromises
          ≡ length (filter is_exposed f.nodes) + length (filter is_new_compromise es))
      × (c.sockets ≡ record { id = 1; since_seq = some f.last_seq; closing = false } ∷ [])
runtime_session-backfill rethrows s w f pre es h known shown =
    let t = reduce_snapshot initial_graph_state f in
    let (u, run) = (reduce_all_total t (map event es) known).0 in
    let seeded : reduce_all initial_graph_state (snapshot f ∷ map event es) ≡ ok u =
      unfold reduce_all reduce in run in
    let fresh : same_experiment f.experiment_id initial_graph_state.experiment_id ≡ false =
      unfold initial_graph_state in refl in
    let shown_at : (a : String) → lookup a t.nodes ≡ lookup a w.nodes =
      unfold reduce_snapshot in shown in
    let (fine, state, cancelled, sockets, next) =
      apply_history-reduce_all rethrows (shown_snapshot f) es u refl run in
    let d = (apply_history rethrows es (shown_snapshot f)).0 in
    let ends = runtime_session_attached rethrows f es fine in
    let (kept, opened) = connect_live (some f.last_seq) d cancelled sockets next in
    let final = ap (λ (c : Connection). c.state) ends ∙ kept ∙ state in
    (
      λ a.
          ap (λ (v : GraphState). lookup a v.nodes) final
          ∙ (reduce_all-nodes t u es run).0 a
          ∙ ap (Option.map (λ n. foldl (touch a) n es))
              (shown_at a ∙ (reduce_all-nodes s w (pre ++ es) h).0 a)
          ∙ told_again a pre es (lookup a s.nodes)
          ∙ sym ((reduce_all-nodes s w (pre ++ es) h).0 a),
      ap (λ (v : GraphState). v.metrics.new_compromises) final
          ∙ reduce_all-seeded initial_graph_state u f es fresh seeded,
      ap (λ (c : Connection). c.sockets) ends ∙ opened,
    )
