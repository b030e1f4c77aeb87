-- ===== src/Stream/Window.antt =====
-- The bounded logs of the reducer: reducer.ts, `recentEvents` and `incidentsByAgent`.
use htn.Prelude.{
  ◌≤◌, ◌≡◌, refl, sym, ap, ◌∙◌, String, Bool, true, false, ◌&&◌, Option, none, some, List, [], ◌∷◌,
  ◌++◌, map, foldl, Dict, lookup, lookup-insert, contains, length, filter, slice_last,
  slice_last-length, slice_last-append, coalesce, nat_eq, Distinct, Distinct-add, slice_last_short,
  string_eq, ◌==◌, if◌then◌else◌, Bool-cases, inl, inr, arith,
}
use htn.Stream.Types.{Event, StreamFrame, SnapshotFrame, snapshot, event}
use htn.Stream.Reducer.{
  ok, GraphState, incident_event_types, agent_ids, add_id, log_incident, record_incident,
  event_log_cap, incident_log_cap, advance, reduce, reduce_event, reduce_all, reduce_snapshot,
  same_experiment,
}
use mathlib.Core.List.{append_assoc, append-nil}
use text.Mathlib.TextEquality.{eq_iff}

-- A history of events that is accepted is `advance`, event by event.
pub reduce_all-events :
    (s t : GraphState) (es : List Event)
    → reduce_all s (map event es) ≡ ok t
    → t ≡ foldl advance s es
unfolding reduce_all reduce reduce_event
reduce_all-events s t [] h = ground arith
reduce_all-events s t (e ∷ es) h = elim (Bool-cases (nat_eq e.schema_version 1)) [
  | inl v ↦ reduce_all-events (advance s e) t es (rw v at h)
  | inr v ↦ ground arith
]

-- The event is an incident of the agent.
abbrev pub concerns : String → Event → Bool
concerns a e = incident_event_types e.event_type && contains a (agent_ids e)

abbrev pub incidents_of : String → Dict String (List Event) → List Event
incidents_of a m = coalesce (lookup a m) []

add_id-Distinct : (ids : List String) (id : Option String) → Distinct ids → Distinct (add_id ids id)
unfolding add_id
add_id-Distinct ids none d = d
add_id-Distinct ids (some a) d = elim (Bool-cases (a == "")) [
  | inl h ↦ rw (h, add_id) d
  | inr h ↦ rw (h, add_id) (Distinct-add a ids d)
]

agent_ids-Distinct : (e : Event) → Distinct (agent_ids e)
unfolding agent_ids
agent_ids-Distinct e =
    add_id-Distinct _ e.target_agent_id
      (add_id-Distinct _ e.source_agent_id (add_id-Distinct [] e.agent_id tt))

incidents_of-log :
    (e : Event) (m : Dict String (List Event)) (a i : String)
    → incidents_of a (log_incident e m i) ≡ (
        if i == a
        then slice_last incident_log_cap (incidents_of i m ++ e ∷ [])
        else incidents_of a m)
unfolding log_incident
incidents_of-log e m a i = elim (Bool-cases (i == a)) [
  | inl h ↦ rw (h, lookup-insert i a _ m, h)
  | inr h ↦ rw (h, lookup-insert i a _ m, h)
]

incidents_of-foldl :
    (e : Event) (a : String) (m : Dict String (List Event)) (ids : List String)
    → Distinct ids
    → incidents_of a (foldl (log_incident e) m ids) ≡ (
        if contains a ids
        then slice_last incident_log_cap (incidents_of a m ++ e ∷ [])
        else incidents_of a m)
unfolding contains
incidents_of-foldl e a m [] d = refl
incidents_of-foldl e a m (i ∷ ids) d = ground (
  arith,
  incidents_of-foldl e a (log_incident e m i) ids d.1,
  incidents_of-log e m a i,
  eq_iff i a,
)

incidents_of-record :
    (a : String) (m : Dict String (List Event)) (e : Event)
    → incidents_of a (record_incident m e) ≡ (
        if concerns a e
        then slice_last incident_log_cap (incidents_of a m ++ e ∷ [])
        else incidents_of a m)
unfolding record_incident
incidents_of-record a m e =
    ground
      (arith, incidents_of-foldl e a m (agent_ids e) (agent_ids-Distinct e), none_in (agent_ids e))
  where
    none_in : (ids : List String) → nat_eq (length ids) 0 ≡ true → contains a ids ≡ false
    none_in [] h = unfold contains in refl
    none_in (i ∷ ids) h = ground arith

foldl-recent_events :
    (s : GraphState) (es : List Event)
    → length s.recent_events ≤ event_log_cap
    → (foldl advance s es).recent_events ≡ slice_last event_log_cap (s.recent_events ++ es)
unfolding advance
foldl-recent_events s [] h = rw append-nil (sym (slice_last_short event_log_cap s.recent_events h))
foldl-recent_events s (e ∷ es) h =
    foldl-recent_events (advance s e) es
      (omega (arith, slice_last-length event_log_cap (s.recent_events ++ e ∷ [])))
    ∙ slice_last-append event_log_cap (s.recent_events ++ e ∷ []) es
    ∙ ap (slice_last event_log_cap) (append_assoc s.recent_events (e ∷ []) es)

-- A history of accepted events leaves in `recentEvents` the last 200 of the events that were there
-- and the new ones, if at most 200 were there: cutting at each frame loses nothing else.
pub reduce_all-recent_events :
    (s t : GraphState) (es : List Event)
    → length s.recent_events ≤ event_log_cap
    → reduce_all s (map event es) ≡ ok t
    → t.recent_events ≡ slice_last event_log_cap (s.recent_events ++ es)
reduce_all-recent_events s t es h r =
    ap (λ (u : GraphState). u.recent_events) (reduce_all-events s t es r)
    ∙ foldl-recent_events s es h

foldl-incidents :
    (a : String) (s : GraphState) (es : List Event)
    → length (incidents_of a s.incidents_by_agent) ≤ incident_log_cap
    → incidents_of a (foldl advance s es).incidents_by_agent
      ≡ slice_last incident_log_cap (incidents_of a s.incidents_by_agent ++ filter (concerns a) es)
unfolding advance
foldl-incidents a s [] h =
    rw append-nil (sym (slice_last_short incident_log_cap (incidents_of a s.incidents_by_agent) h))
foldl-incidents a s (e ∷ es) h = elim (Bool-cases (concerns a e)) [
  | inl c ↦
      let logged = rw c at (incidents_of-record a s.incidents_by_agent e) in
      rw c (
        foldl-incidents a (advance s e) es (rw logged (at_most (held ++ e ∷ [])))
        ∙ ap (λ xs. slice_last incident_log_cap (xs ++ filter (concerns a) es)) logged
        ∙ slice_last-append incident_log_cap (held ++ e ∷ []) (filter (concerns a) es)
        ∙ ap (slice_last incident_log_cap) (append_assoc held (e ∷ []) (filter (concerns a) es)))
  | inr c ↦
      let kept = rw c at (incidents_of-record a s.incidents_by_agent e) in
      rw c (
        foldl-incidents a (advance s e) es (rw kept h)
        ∙ ap (λ xs. slice_last incident_log_cap (xs ++ filter (concerns a) es)) kept)
]
  where
    held : List Event
    held = incidents_of a s.incidents_by_agent

    at_most : (xs : List Event) → length (slice_last incident_log_cap xs) ≤ incident_log_cap
    at_most xs = omega (arith, slice_last-length incident_log_cap xs)

-- A history of accepted events leaves under an agent the last 50 of the incidents that were there
-- and those of the new events that are incidents with the agent among the agents they name, if at
-- most 50 were there.
pub reduce_all-incidents :
    (a : String) (s t : GraphState) (es : List Event)
    → length (incidents_of a s.incidents_by_agent) ≤ incident_log_cap
    → reduce_all s (map event es) ≡ ok t
    → incidents_of a t.incidents_by_agent
      ≡ slice_last incident_log_cap (incidents_of a s.incidents_by_agent ++ filter (concerns a) es)
reduce_all-incidents a s t es h r =
    ap (λ (u : GraphState). incidents_of a u.incidents_by_agent) (reduce_all-events s t es r)
    ∙ foldl-incidents a s es h

-- No log is longer than its cap.
pub record IsBounded (s : GraphState) : Type 0 where
  pub recent : length s.recent_events ≤ event_log_cap
  pub incidents : (a : String) → length (incidents_of a s.incidents_by_agent) ≤ incident_log_cap

advance-IsBounded : (s : GraphState) (e : Event) → IsBounded s → IsBounded (advance s e)
unfolding advance
advance-IsBounded s e b = record {
  recent = omega (arith, slice_last-length event_log_cap (s.recent_events ++ e ∷ []));
  incidents = λ a. ground (
    arith,
    b.incidents a,
    incidents_of-record a s.incidents_by_agent e,
    slice_last-length incident_log_cap (incidents_of a s.incidents_by_agent ++ e ∷ []),
  );
}

reduce_snapshot-IsBounded :
    (s : GraphState) (f : SnapshotFrame) → IsBounded s → IsBounded (reduce_snapshot s f)
unfolding reduce_snapshot lookup
reduce_snapshot-IsBounded s f b =
    elim (Bool-cases (same_experiment f.experiment_id s.experiment_id)) [
      | inl same ↦ record { recent = rw same b.recent; incidents = λ a. rw same (b.incidents a) }
      | inr other ↦ record {
        recent = rw other (omega arith);
        incidents = λ a. rw other (omega arith);
      }
    ]

-- Whatever frames arrive, from a state within the caps they lead to one within the caps.
pub reduce_all-IsBounded :
    (s t : GraphState) (fs : List StreamFrame) → IsBounded s → reduce_all s fs ≡ ok t → IsBounded t
unfolding reduce_all reduce reduce_event
reduce_all-IsBounded s t [] b h = ground arith
reduce_all-IsBounded s t (snapshot f ∷ fs) b h =
    reduce_all-IsBounded (reduce_snapshot s f) t fs (reduce_snapshot-IsBounded s f b) h
reduce_all-IsBounded s t (event e ∷ fs) b h = elim (Bool-cases (nat_eq e.schema_version 1)) [
  | inl v ↦ reduce_all-IsBounded (advance s e) t fs (advance-IsBounded s e b) (rw v at h)
  | inr v ↦ ground arith
]
