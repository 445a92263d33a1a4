-- ===== src/Workflow/Graph.antt =====
-- server/bbz_core/domain/workflow/graph.py. A definition is the object that the JSON schema
-- describes, with what the code reads of it; whether it meets the schema is asked of a parameter,
-- since `jsonschema` is not the program's own.
pub mod Derived
use bbz_platform.Prelude.{
  str_lt, ℕ, suc, String, Bool, true, false, ◌&&◌, Option, none, some, List, [], ◌∷◌, map, Result,
  ok, err, ◌>>=◌, ◌>>◌, guard, ltb, length, is_empty, all, filter, contains, sorted, ◌==◌,
  if◌then◌else◌, find,
}
use bbz_platform.RuleDsl.Value.{Fields, end}

pub record DefinitionNode : Type 0 where
  pub key : String
  pub type : String
  pub label : Option String
  pub kind : Option String
  pub connector : Option String
  pub direction : Option String
  pub props : Option Fields

pub record DefinitionEdge : Type 0 where
  pub key : String
  pub source : String
  pub target : String
  pub branch : Option String
  pub condition : Option Fields

pub record Definition : Type 0 where
  pub start : String
  pub nodes : List DefinitionNode
  pub edges : List DefinitionEdge

pub record GraphNode : Type 0 where
  pub key : String
  pub type : String
  pub label : Option String
  pub function_kind : Option String
  pub connector_type : Option String
  pub connector_direction : Option String
  pub props : Fields

pub record GraphEdge : Type 0 where
  pub key : String
  pub from_key : String
  pub to_key : String
  pub branch : Option String
  pub condition : Option Fields

pub record DerivedGraph : Type 0 where
  pub start : String
  pub nodes : List GraphNode
  pub edges : List GraphEdge

-- the messages of `WorkflowGraphError`
pub data WorkflowGraphError : Type 0 where
  schema_violated : WorkflowGraphError
  duplicate_nodes duplicate_edges : List String → WorkflowGraphError
  unknown_start : String → WorkflowGraphError
  missing_source missing_target : String → WorkflowGraphError

-- `keys.count(k)`
abbrev pub count : String → List String → ℕ
count k [] = 0
count k (x ∷ xs) = let rest = count k xs in if x == k then suc rest else rest

-- each text of a list once, as a set has them
abbrev pub distinct : List String → List String
distinct [] = []
distinct (x ∷ xs) = let rest = distinct xs in if contains x xs then rest else x ∷ rest

-- `sorted({k for k in keys if keys.count(k) > 1})`
unfoldable pub duplicates : List String → List String
unfolding sorted
duplicates keys = sorted str_lt (distinct (filter (λ k. ltb 1 (count k keys)) keys))

unfoldable pub check_edges :
    List String → List DefinitionEdge → Result WorkflowGraphError (Unit {0})
check_edges keys [] = ok tt
check_edges keys (e ∷ es) =
    guard (contains e.source keys) (missing_source e.key)
    >> (guard (contains e.target keys) (missing_target e.key) >> check_edges keys es)

abbrev pub node_keys : List DefinitionNode → List String
node_keys nodes = map (λ n. n.key) nodes

abbrev pub edge_keys : List DefinitionEdge → List String
edge_keys edges = map (λ e. e.key) edges

module _ (meets_schema : Definition → Bool) where
  unfoldable pub validate_graph : Definition → Result WorkflowGraphError (Unit {0})
  validate_graph d = do
    guard (meets_schema d) schema_violated
    guard (is_empty (duplicates (node_keys d.nodes)))
        (duplicate_nodes (duplicates (node_keys d.nodes)))
    guard (contains d.start (node_keys d.nodes)) (unknown_start d.start)
    guard (is_empty (duplicates (edge_keys d.edges)))
        (duplicate_edges (duplicates (edge_keys d.edges)))
    check_edges (node_keys d.nodes) d.edges

abbrev pub props_of : Option Fields → Fields
props_of none = end
props_of (some fs) = fs

abbrev pub to_node : DefinitionNode → GraphNode
to_node n = record {
  key = n.key;
  type = n.type;
  label = n.label;
  function_kind = n.kind;
  connector_type = n.connector;
  connector_direction = n.direction;
  props = props_of n.props;
}

abbrev pub to_edge : DefinitionEdge → GraphEdge
to_edge e = record {
  key = e.key;
  from_key = e.source;
  to_key = e.target;
  branch = e.branch;
  condition = e.condition;
}

abbrev pub node_before : DefinitionNode → DefinitionNode → Bool
node_before m n = str_lt m.key n.key

abbrev pub edge_before : DefinitionEdge → DefinitionEdge → Bool
edge_before d e = str_lt d.key e.key

abbrev pub flatten : Definition → DerivedGraph
flatten d = record {
  start = d.start;
  nodes = map to_node (sorted node_before d.nodes);
  edges = map to_edge (sorted edge_before d.edges);
}

module _ (meets_schema : Definition → Bool) where
  unfoldable pub derive_index : Definition → Result WorkflowGraphError DerivedGraph
  derive_index d = validate_graph meets_schema d >>= λ _. ok (flatten d)
