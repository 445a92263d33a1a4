-- ===== src/Workflow/Publish/Tests.antt =====
-- A workflow that can be published, and the theorems at it.
use bbz_platform.Prelude.{
  String, true, none, some, [], ◌∷◌, ◌≡◌, refl, ok, contains, sorted, is_some, length,
}
use bbz_platform.RuleDsl.Value.{Fields, end, field, str, list, cons, nil, object}
use bbz_platform.Workflow.Graph.{
  Definition, DefinitionNode, DefinitionEdge, GraphNode, DerivedGraph, derive_index, validate_graph,
  duplicates, check_edges, flatten,
}
use bbz_platform.Workflow.Reach.{find_node, graph_keys, is_closed}
use bbz_platform.Workflow.Publish.{successors, visit, validate_publishable}
use bbz_platform.Workflow.Publish.Cycle.{visit_returns}
use bbz_platform.Workflow.Publish.Sound.{IsSound, validate_publishable-IsSound}

abbrev plain : String → String → DefinitionNode
plain key type = record {
  key = key;
  type = type;
  label = none;
  kind = none;
  connector = none;
  direction = none;
  props = none;
}

abbrev plain_edge : String → String → String → DefinitionEdge
plain_edge key source target = record {
  key = key;
  source = source;
  target = target;
  branch = none;
  condition = none;
}

abbrev confirmed : Fields
confirmed =
    field "op" (str "exists")
      (field "args" (list (cons (object (field "field" (str "operator_confirmed") end)) nil)) end)

abbrev drill : Definition
drill = record {
  start = "alarm";
  nodes =
      plain "alarm" "event"
      ∷ record (plain "fork" "connector") { connector = some "xor"; direction = some "split" }
      ∷ plain "call" "function"
      ∷ plain "note" "function"
      ∷ record (plain "meet" "connector") { connector = some "xor"; direction = some "join" }
      ∷ plain "closed" "event"
      ∷ [];
  edges =
      plain_edge "e1" "alarm" "fork"
      ∷ record (plain_edge "e2" "fork" "call") { condition = some confirmed }
      ∷ plain_edge "e3" "fork" "note"
      ∷ plain_edge "e4" "call" "meet"
      ∷ plain_edge "e5" "note" "meet"
      ∷ plain_edge "e6" "meet" "closed"
      ∷ [];
}

publishable : validate_publishable (λ _. true) drill (some []) ≡ ok []
unfolding validate_publishable sorted derive_index validate_graph duplicates check_edges
publishable = refl

validate_publishable-IsSound_example :
    (g : DerivedGraph) × (start : GraphNode) × (derive_index (λ _. true) drill ≡ ok g)
    × (find_node g.start g.nodes ≡ some start)
    × IsSound g start
validate_publishable-IsSound_example =
    validate_publishable-IsSound (λ _. true) drill (some []) publishable

closed : is_closed (flatten drill) ≡ true
unfolding sorted
closed = refl

known : contains "alarm" (graph_keys (flatten drill)) ≡ true
unfolding sorted
known = refl

visit_returns_example :
    is_some (visit (successors (flatten drill)) (length (flatten drill).nodes) "alarm" []) ≡ true
visit_returns_example = visit_returns (flatten drill) "alarm" closed known
