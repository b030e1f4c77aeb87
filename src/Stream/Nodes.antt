-- ===== src/Stream/Nodes.antt =====
-- The node map under a history of events: reducer.ts, the two writes to `nodes`.
use mathlib.Core.Option
use text.Mathlib.TextEquality.{eq_iff}
use htn.Prelude.{
  ◌≡◌, refl, sym, ap, ◌∙◌, String, Bool, true, false, ◌&&◌, Option, none, some, List, [], ◌∷◌, map,
  foldl, Dict, keys, lookup, lookup-insert, keys-insert, truthy, string_eq, ◌==◌, if◌then◌else◌,
  Option-cases, Bool-cases, inl, inr, arith,
}
use htn.Stream.Types.{compromised, quarantined, NodeView, EventType, Event, event}
use htn.Stream.Reducer.{
  ok, GraphState, is_compromise_succeeded, is_agent_quarantined, compromise_node, quarantine_node,
  is_duplicate_claim, update_existing, reduce_nodes, advance, reduce_all,
}
use htn.Stream.Window.{reduce_all-events}

-- The event's field holds the id `a`, and `a` is not empty.
abbrev pub names : Option String → String → Bool
names id a = elim (truthy id) [ none ↦ false | some b ↦ b == a ]

-- What one event makes of the node with the id `a`: a compromise of it marks it compromised, and
-- says by whom and when unless the event repeats an earlier claim; a quarantine of it marks it so.
abbrev pub touch : String → NodeView → Event → NodeView
touch a n e =
    if is_compromise_succeeded e.event_type && names e.target_agent_id a
    then record n {
      security_state = compromised;
      compromised_by = if is_duplicate_claim e then n.compromised_by else e.source_agent_id;
      tick_compromised = if is_duplicate_claim e then n.tick_compromised else some e.sim_tick;
    }
    else if is_agent_quarantined e.event_type && names e.agent_id a
    then record n { security_state = quarantined }
    else n

lookup-update :
    (a : String) (id : Option String) (f : NodeView → NodeView) (m : Dict String NodeView)
    → lookup a (update_existing id f m m)
      ≡ (if names id a then Option.map f (lookup a m) else lookup a m)
unfolding update_existing
lookup-update a none f m = refl
lookup-update a (some b) f m = elim (Option-cases (lookup b m)) [
  | inl missing ↦ ground (arith, eq_iff b a)
  | inr (n, found) ↦ ground (arith, eq_iff b a, lookup-insert b a (f n) m)
]

keys-update :
    (id : Option String) (f : NodeView → NodeView) (m : Dict String NodeView)
    → keys (update_existing id f m m) ≡ keys m
unfolding update_existing
keys-update none f m = refl
keys-update (some b) f m = elim (Option-cases (lookup b m)) [
  | inl missing ↦ ground arith
  | inr (n, found) ↦ ground (arith, keys-insert b (f n) m)
]

one_kind : (t : EventType) → is_compromise_succeeded t ≡ true → is_agent_quarantined t ≡ false
one_kind EventType.compromise_succeeded h = refl
one_kind _ h = cc

touch_cases :
    (a : String) (n : NodeView) (e : Event)
    → touch a n e ≡ (
        if is_compromise_succeeded e.event_type && names e.target_agent_id a
        then compromise_node e n
        else if is_agent_quarantined e.event_type && names e.agent_id a
        then quarantine_node n
        else n)
unfolding compromise_node quarantine_node
touch_cases a n e = elim (Bool-cases (is_duplicate_claim e)) [
  | inl repeated ↦ rw repeated (ground arith)
  | inr first ↦ rw first (ground arith)
]

lookup-reduce_nodes :
    (a : String) (m : Dict String NodeView) (e : Event)
    → lookup a (reduce_nodes m e) ≡ Option.map (λ n. touch a n e) (lookup a m)
unfolding reduce_nodes
lookup-reduce_nodes a m e = elim (Option-cases (lookup a m)) [
  | inl missing ↦ ground (
    arith,
    one_kind e.event_type,
    lookup-update a e.target_agent_id (compromise_node e) m,
    lookup-update a e.agent_id quarantine_node m,
  )
  | inr (n, found) ↦ rw found (
      ground (
        arith,
        one_kind e.event_type,
        lookup-update a e.target_agent_id (compromise_node e) m,
        lookup-update a e.agent_id quarantine_node m,
        found,
      )
      ∙ ap some (sym (touch_cases a n e)))
]

keys-reduce_nodes : (m : Dict String NodeView) (e : Event) → keys (reduce_nodes m e) ≡ keys m
unfolding reduce_nodes
keys-reduce_nodes m e = ground (
  arith,
  one_kind e.event_type,
  keys-update e.target_agent_id (compromise_node e) m,
  keys-update e.agent_id quarantine_node m,
)

map-map-node :
    (o : Option NodeView) (f : NodeView → NodeView) (g : NodeView → NodeView)
    → Option.map g (Option.map f o) ≡ Option.map (λ n. g (f n)) o
map-map-node none f g = refl
map-map-node (some n) f g = refl

foldl-nodes :
    (a : String) (s : GraphState) (es : List Event)
    → lookup a (foldl advance s es).nodes
      ≡ Option.map (λ n. foldl (touch a) n es) (lookup a s.nodes)
unfolding advance
foldl-nodes a s [] = ground arith
foldl-nodes a s (e ∷ es) =
    foldl-nodes a (advance s e) es
    ∙ ap (Option.map (λ n. foldl (touch a) n es)) (lookup-reduce_nodes a s.nodes e)
    ∙ map-map-node (lookup a s.nodes) (λ n. touch a n e) (λ n. foldl (touch a) n es)

foldl-keys : (s : GraphState) (es : List Event) → keys (foldl advance s es).nodes ≡ keys s.nodes
unfolding advance
foldl-keys s [] = refl
foldl-keys s (e ∷ es) = foldl-keys (advance s e) es ∙ keys-reduce_nodes s.nodes e

-- After a history of accepted events the node with any id is what the events make of that node
-- alone, one by one, and the ids of the nodes, with their order, are the ones that were there: an
-- event changes no other node, and neither adds nor removes one.
pub reduce_all-nodes :
    (s t : GraphState) (es : List Event)
    → reduce_all s (map event es) ≡ ok t
    → ((a : String) → lookup a t.nodes ≡ Option.map (λ n. foldl (touch a) n es) (lookup a s.nodes))
      × (keys t.nodes ≡ keys s.nodes)
reduce_all-nodes s t es r = (
  (λ a.
      ap (λ (u : GraphState). lookup a u.nodes) (reduce_all-events s t es r) ∙ foldl-nodes a s es),
  ap (λ (u : GraphState). keys u.nodes) (reduce_all-events s t es r) ∙ foldl-keys s es,
)
