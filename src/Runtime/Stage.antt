-- ===== src/Runtime/Stage.antt =====
-- The layout of the incident stage: frontend/src/lib/runtime/stage.ts.
pub mod Depths
pub mod Chain
mod Tests
use mathlib.Core.Option
use htn.Prelude.{
  ℕ, zero, suc, ◌+◌, max, String, Bool, true, false, not, Option, none, some, List, [], ◌∷◌, ◌++◌,
  map, foldl, Dict, lookup, insert, contains, coalesce, any, length, ltb, truthy, same_option,
  string_eq, ℕ_eq, if◌then◌else◌,
}
use htn.Prelude.Sort.{sort}
use htn.Stream.Types.{SecurityState, NodeView}
use htn.Stream.Reducer.{GraphState, is_quarantined}
use htn.Graph.Swarm.{WorkerView, RuntimeSessionSummary, live_nodes, live_state}

pub record StageNode : Type 0 where
  pub id : String
  pub role : String
  pub security_state : SecurityState
  pub current_task : Option String
  pub quarantine_reason : Option String
  pub replaces : Option String
  pub model_backed : Bool
  pub column : ℕ

pub record StageColumn : Type 0 where
  pub column : ℕ
  pub nodes : List StageNode

pub record Stage : Type 0 where
  pub columns : List StageColumn
  pub reassignments : Dict String String
  pub breached : Bool

abbrev pub empty_stage : Stage
empty_stage = record { columns = []; reassignments = []; breached = false }

-- `byId.has`
abbrev pub ids_of : List WorkerView → List String
ids_of = map (λ (w : WorkerView). w.id)

-- `depth.get(id) ?? 0`
abbrev pub depth_at : Dict String ℕ → String → ℕ
depth_at depth id = coalesce (lookup id depth) 0

abbrev pub parents : WorkerView → List String
parents w = elim (w.replaces) [ none ↦ w.upstream | some id ↦ id ∷ [] ]

-- One round of the loop over the parents.
unfoldable pub raise : List String → WorkerView → (String → ℕ) → ℕ → String → ℕ
raise ids w depth next id =
    if not (contains id ids)
    then next
    else if same_option w.replaces (some id)
    then max next (depth id)
    else max next (depth id + 1)

unfoldable pub next_depth : List String → WorkerView → (String → ℕ) → ℕ
next_depth ids w depth = foldl (raise ids w depth) 0 (parents w)

-- The variables of a pass.
pub record Pass : Type 0 where
  pub depth : Dict String ℕ
  pub changed : Bool

-- The body of the loop over the workers.
unfoldable pub visit : List String → Pass → WorkerView → Pass
visit ids s w =
    let next = next_depth ids w (depth_at s.depth) in
    if same_option (lookup w.id s.depth) (some next)
    then s
    else record { depth = insert w.id next s.depth; changed = true }

unfoldable pub one_pass : List WorkerView → Dict String ℕ → Pass
one_pass ws depth = foldl (visit (ids_of ws)) (record { depth = depth; changed = false }) ws

-- The loop over the passes: so many are left.
unfoldable pub passes : ℕ → List WorkerView → Dict String ℕ → Dict String ℕ
passes zero ws depth = depth
passes (suc n) ws depth = elim ((one_pass ws depth).changed) [
  | true ↦ passes n ws (one_pass ws depth).depth
  | false ↦ (one_pass ws depth).depth
]

unfoldable pub depths : List WorkerView → Dict String ℕ
depths ws = passes (length ws + 1) ws []

unfoldable pub stage_node : Option (Dict String NodeView) → Dict String ℕ → WorkerView → StageNode
stage_node live depth w = record {
  id = w.id;
  role = w.role;
  security_state = live_state live w;
  current_task = w.current_task;
  quarantine_reason = w.quarantine_reason;
  replaces = w.replaces;
  model_backed = w.model_backed;
  column = depth_at depth w.id;
}

-- `order`
unfoldable pub number_nodes : ℕ → Dict String ℕ → List StageNode → Dict String ℕ
number_nodes index order [] = order
number_nodes index order (n ∷ ns) = number_nodes (index + 1) (insert n.id index order) ns

-- One round of the loop that groups the nodes.
unfoldable pub group_node : Dict ℕ (List StageNode) → StageNode → Dict ℕ (List StageNode)
group_node grouped n = insert n.column (coalesce (lookup n.column grouped) [] ++ n ∷ []) grouped

-- The comparator of a column is negative.
unfoldable pub is_above : Dict String ℕ → StageNode → StageNode → Bool
is_above order a b =
    if same_option a.replaces (some b.id)
    then false
    else if same_option b.replaces (some a.id)
    then true
    else ltb (depth_at order a.id) (depth_at order b.id)

abbrev pub is_left : ℕ × List StageNode → ℕ × List StageNode → Bool
is_left (a, _) (b, _) = ltb a b

abbrev pub stage_column : Dict String ℕ → ℕ × List StageNode → StageColumn
stage_column order (column, group) = record { column = column; nodes = sort (is_above order) group }

-- One round of the loop over the replacements.
unfoldable pub reassign : Dict String String → StageNode → Dict String String
reassign m n = elim (truthy n.replaces) [ none ↦ m | some id ↦ insert id n.id m ]

unfoldable pub stage_of : List StageNode → Stage
stage_of nodes =
    let order = number_nodes 0 [] nodes in
    record {
      columns = map (stage_column order) (sort is_left (foldl group_node [] nodes));
      reassignments = foldl reassign [] nodes;
      breached = any (λ (n : StageNode). is_quarantined n.security_state) nodes;
    }

-- The line opens all that a test runs.
unfoldable pub build_stage : Option RuntimeSessionSummary → GraphState → Stage
unfolding depths passes one_pass visit next_depth raise stage_node number_nodes group_node is_above
    reassign stage_of live_nodes live_state sort lookup insert contains
build_stage none stream = empty_stage
build_stage (some summary) stream = elim (summary.workers) [
  | [] ↦ empty_stage
  | _ ∷ _ ↦
      stage_of
        (map (stage_node (live_nodes summary stream) (depths summary.workers)) summary.workers)
]
