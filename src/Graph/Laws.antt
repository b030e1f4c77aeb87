-- ===== src/Graph/Laws.antt =====
-- No line is drawn twice and none is missing: model.ts and swarmModel.ts.
use htn.Prelude.{
  ◌≡◌, refl, sym, ap, ◌∙◌, String, Bool, true, ◌||◌, List, [], ◌∷◌, ◌++◌, map, filter, All,
  contains, contains-append, filter-append, Distinct, string_eq,
}
use htn.Graph.Collect.{none_seen, first_of_each, IsTidy, first_of_each-IsTidy, first_of_each-seen}
use htn.Graph.Topology.{TopologyEdge, EdgeLayer, is_drawn, render_key, renderable_edges}
use htn.Graph.Swarm.{WorkerView, declared, inherited, is_known, handoff_key, swarm_edges}

none_seen-IsTidy : {E : Type 0} (kept : E → Bool) (key : E → String) → IsTidy kept key none_seen
none_seen-IsTidy kept key = record { seen_keys = refl; distinct = tt; all_kept = tt }

-- The drawn edges have distinct keys, each passes the guards (it is no loop, and its layer is shown),
-- and the keys are exactly those of the edges that pass them.
renderable_edges-keys :
    (edges : List TopologyEdge) (layers : EdgeLayer → Bool)
    → let out = renderable_edges edges layers in
      Distinct (map render_key out)
      × All (λ e. is_drawn layers e ≡ true) out
      × ((k : String)
          → contains k (map render_key out)
            ≡ contains k (map render_key (filter (is_drawn layers) edges)))
unfolding renderable_edges
renderable_edges-keys edges layers =
    let t =
      first_of_each-IsTidy (is_drawn layers) render_key none_seen edges
        (none_seen-IsTidy (is_drawn layers) render_key) in
    (
      rw (← t.seen_keys) t.distinct,
      t.all_kept,
      λ k. rw (← t.seen_keys) (
          first_of_each-seen (is_drawn layers) render_key k none_seen edges
          ∙ (unfold contains in refl)),
    )

map-append :
    (f : TopologyEdge → String) (ds es : List TopologyEdge)
    → map f (ds ++ es) ≡ map f ds ++ map f es
map-append f [] es = refl
map-append f (d ∷ ds) es = ap (λ ks. f d ∷ ks) (map-append f ds es)

-- The handoffs that are drawn have distinct keys, join workers of the session, and are those that
-- were declared or are inherited by a replacement, as far as both ends are workers of the session.
swarm_edges-keys :
    (ws : List WorkerView)
    → Distinct (map handoff_key (swarm_edges ws))
      × All (λ e. is_known ws e ≡ true) (swarm_edges ws)
      × ((k : String)
          → contains k (map handoff_key (swarm_edges ws))
            ≡ contains k (map handoff_key (filter (is_known ws) (declared ws ++ inherited ws ws))))
unfolding swarm_edges
swarm_edges-keys ws =
    let known = is_known ws in
    let first = first_of_each known handoff_key none_seen (declared ws) in
    let t = first_of_each-IsTidy known handoff_key first (inherited ws ws) (
      first_of_each-IsTidy known handoff_key none_seen (declared ws)
        (none_seen-IsTidy known handoff_key)) in
    (
      rw (← t.seen_keys) t.distinct,
      t.all_kept,
      λ k. rw (← t.seen_keys) (
          first_of_each-seen known handoff_key k first (inherited ws ws)
          ∙ ap (λ b. b || contains k (map handoff_key (filter known (inherited ws ws))))
              (first_of_each-seen known handoff_key k none_seen (declared ws)
                ∙ (unfold contains in refl))
          ∙ joined k),
    )
  where
    joined :
        (k : String)
        → (contains k (map handoff_key (filter (is_known ws) (declared ws)))
            || contains k (map handoff_key (filter (is_known ws) (inherited ws ws))))
          ≡ contains k (map handoff_key (filter (is_known ws) (declared ws ++ inherited ws ws)))
    joined k =
        sym (
          contains-append k (map handoff_key (filter (is_known ws) (declared ws)))
            (map handoff_key (filter (is_known ws) (inherited ws ws))))
        ∙ ap (contains k) (
            sym (
              map-append handoff_key (filter (is_known ws) (declared ws))
                (filter (is_known ws) (inherited ws ws)))
            ∙ ap (map handoff_key)
                (sym (filter-append (is_known ws) (declared ws) (inherited ws ws))))
