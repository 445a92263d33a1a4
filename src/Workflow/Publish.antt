-- ===== src/Workflow/Publish.antt =====
-- server/bbz_core/domain/workflow/publish.py: what a graph must meet to be published. The messages of
-- the issues are left out.
pub mod Cycle
pub mod Sound
mod Tests
use bbz_platform.Prelude.{
  is_text, ℕ, zero, suc, ◌+◌, String, Bool, true, false, not, ◌&&◌, ◌||◌, Option, none, some, List,
  [], ◌∷◌, ◌++◌, map, Result, ok, err, ◌>>=◌, length, is_empty, any, all, filter, contains, leb,
  nat_eq, ltb, Dict, lookup, ◌==◌, if◌then◌else◌, is_none, is_some,
}
use bbz_platform.RuleDsl.Value.{Value, str, list, object, Fields, lookup_field}
use bbz_platform.Workflow.Graph.{Definition, GraphNode, GraphEdge, DerivedGraph, derive_index}
use bbz_platform.Workflow.Reach.{graph_keys, find_node, explore}

pub record ValidationIssue : Type 0 where
  pub code : String
  pub node_key : Option String

-- `out.get(key, [])` and `inc[key]`, in the order of the graph
abbrev pub out_edges : DerivedGraph → String → List GraphEdge
out_edges g key =
    if contains key (graph_keys g) then filter (λ e. e.from_key == key) g.edges else []

abbrev pub in_edges : DerivedGraph → String → List GraphEdge
in_edges g key = if contains key (graph_keys g) then filter (λ e. e.to_key == key) g.edges else []

abbrev pub successors : DerivedGraph → String → List String
successors g key = map (λ e. e.to_key) (out_edges g key)

-- `_reachable`; one more than the number of edges is fuel enough
pub reachable_from : DerivedGraph → String → List String
unfolding explore
reachable_from g start = explore (successors g) (suc (length g.edges)) [] (start ∷ [])

-- the colours of `_has_cycle`: `false` while a node is visited, and `true` behind that
abbrev pub Colours : Type 0
Colours = Dict Bool

abbrev pub Visit : Type 0
Visit = Option (Bool × Colours)

-- the loop of `visit` over the edges of a node, where `visit` visits a node; `none` is a visit that
-- ran out of fuel
pub visit_all : (String → Colours → Visit) → String → List String → Colours → Visit
visit_all visit key [] colours = some (false, (key, true) ∷ colours)
visit_all visit key (next ∷ nexts) colours =
    let rest = visit_all visit key nexts in
    elim (lookup next colours) [
      | some false ↦ some (true, colours)
      | some true ↦ rest colours
      | none ↦ elim (visit next colours) [
        | none ↦ none
        | some (found, after) ↦ elim found [ true ↦ some (true, after) | false ↦ rest after ]
      ]
    ]

-- fuel is the depth of the recursion
pub visit : (String → List String) → ℕ → String → Colours → Visit
unfolding visit_all
visit nexts zero key colours = none
visit nexts (suc fuel) key colours =
    visit_all (visit nexts fuel) key (nexts key) ((key, false) ∷ colours)

abbrev pub is_cycle : Visit → Bool
is_cycle none = true
is_cycle (some (found, _)) = found

-- `_has_cycle`; a visit goes no deeper than there are nodes, so the fuel is enough (see `Cycle`)
pub has_cycle : DerivedGraph → String → Bool
unfolding visit
has_cycle g start = is_cycle (visit (successors g) (length g.nodes) start [])

-- `if test: issues.append(ValidationIssue(code, …, key))`
abbrev pub issue_if : Bool → String → Option String → List ValidationIssue
issue_if true code key = record { code = code; node_key = key } ∷ []
issue_if false code key = []

abbrev pub for_all : (GraphNode → List ValidationIssue) → List GraphNode → List ValidationIssue
for_all check [] = []
for_all check (n ∷ ns) = check n ++ for_all check ns

abbrev pub start_issues : DerivedGraph → GraphNode → List ValidationIssue
start_issues g start =
    issue_if (not (start.type == "event")) "start_not_event" (some start.key)
    ++ issue_if (not (is_empty (in_edges g start.key))) "start_has_predecessor" (some start.key)

abbrev pub orphan_issues : List String → GraphNode → List ValidationIssue
orphan_issues reach n = issue_if (not (contains n.key reach)) "orphan" (some n.key)

abbrev pub end_issues : DerivedGraph → List String → List ValidationIssue
end_issues g reach =
    issue_if (not (any (λ n. is_empty (out_edges g n.key) && contains n.key reach) g.nodes))
      "no_end" none

abbrev pub cardinality_issues : DerivedGraph → GraphNode → List ValidationIssue
cardinality_issues g n =
    let o = length (out_edges g n.key) in
    let i = length (in_edges g n.key) in
    if n.type == "connector"
    then (issue_if (is_text n.connector_direction "split" && not (nat_eq i 1 && leb 2 o))
          "split_cardinality" (some n.key)
        ++ issue_if (is_text n.connector_direction "join" && not (leb 2 i && nat_eq o 1))
            "join_cardinality" (some n.key))
    else issue_if (ltb 1 o) "branch_without_connector" (some n.key)

abbrev pub split_issues : DerivedGraph → GraphNode → List ValidationIssue
split_issues g n =
    let branches = out_edges g n.key in
    if not (n.type == "connector") || not (is_text n.connector_direction "split")
    then []
    else (issue_if
          (is_text n.connector_type "xor"
            && ltb 1 (length (filter (λ e. is_none e.condition) branches)))
          "xor_unresolvable" (some n.key)
        ++ issue_if (is_text n.connector_type "or" && any (λ e. is_none e.branch) branches)
            "or_untrackable" (some n.key))

-- `_REQUIRED_PROPS`
abbrev pub required_props : Dict String
required_props =
    ("integration_action", "capability")
    ∷ ("notification", "channel")
    ∷ ("timer", "duration_seconds")
    ∷ []

abbrev pub needed_prop : Option String → Option String
needed_prop none = none
needed_prop (some kind) = lookup kind required_props

abbrev pub lacks : Fields → Option String → Bool
lacks props none = false
lacks props (some need) = not (is_some (lookup_field need props))

-- `cap not in caps`; a list or an object is not hashable, and the test raises a `TypeError`;
-- `nodes[graph.start]` raises a `KeyError` without the node
pub data PublishError : Type 0 where
  unhashable : PublishError
  key_error : PublishError

abbrev pub is_unknown : List String → Option Value → Result PublishError Bool
is_unknown caps (some (str s)) = ok (not (contains s caps))
is_unknown caps (some (list _)) = err unhashable
is_unknown caps (some (object _)) = err unhashable
is_unknown caps _ = ok true

abbrev pub capability_issues :
    Option (List String) → GraphNode → Result PublishError (List ValidationIssue)
capability_issues none n = ok []
capability_issues (some caps) n =
    if is_text n.function_kind "integration_action"
    then (is_unknown caps (lookup_field "capability" n.props) >>= λ unknown.
        ok (issue_if unknown "unknown_capability" (some n.key)))
    else ok []

abbrev pub function_issues :
    Option (List String) → GraphNode → Result PublishError (List ValidationIssue)
function_issues caps n =
    if n.type == "function"
    then (capability_issues caps n >>= λ found. ok (
        issue_if (lacks n.props (needed_prop n.function_kind)) "missing_prop" (some n.key)
        ++ found))
    else ok []

abbrev pub all_function_issues :
    Option (List String) → List GraphNode → Result PublishError (List ValidationIssue)
all_function_issues caps [] = ok []
all_function_issues caps (n ∷ ns) =
    function_issues caps n >>= λ found. all_function_issues caps ns >>= λ rest. ok (found ++ rest)

abbrev pub loop_issues : DerivedGraph → List ValidationIssue
unfolding has_cycle
loop_issues g =
    let bounded =
      any (λ n. n.type == "connector" && is_some (lookup_field "reentry" n.props)) g.nodes in
    issue_if (has_cycle g g.start && not bounded) "unbounded_loop" none

-- the checks behind `derive_index`, on the start node
pub graph_issues :
    Option (List String) → DerivedGraph → GraphNode → Result PublishError (List ValidationIssue)
unfolding reachable_from has_cycle
graph_issues caps g start =
    let reach = reachable_from g g.start in
    all_function_issues caps g.nodes >>= λ functions. ok (
      start_issues g start
      ++ (for_all (orphan_issues reach) g.nodes
          ++ (end_issues g reach
              ++ (for_all (cardinality_issues g) g.nodes
                  ++ (for_all (split_issues g) g.nodes ++ (functions ++ loop_issues g))))))

module _ (meets_schema : Definition → Bool) where
  pub validate_publishable :
      Definition → Option (List String) → Result PublishError (List ValidationIssue)
  unfolding derive_index graph_issues
  validate_publishable definition caps = elim (derive_index meets_schema definition) [
    | err _ ↦ ok (record { code = "structure"; node_key = none } ∷ [])
    | ok g ↦ elim (find_node g.start g.nodes) [
      | none ↦ err key_error
      | some start ↦ graph_issues caps g start
    ]
  ]
