-- ===== src/Workflow/Reach.antt =====
-- The dictionaries of `_Index` (server/bbz_core/domain/workflow/engine.py), as functions of the
-- graph: its nodes, its edges out of and into a node in the order of their keys, and what can be
-- reached from a node.
pub mod Search
use bbz_platform.Prelude.{
  str_lt, ℕ, zero, suc, ◌+◌, String, Bool, true, false, ◌&&◌, Option, none, some, List, [], ◌∷◌,
  ◌++◌, map, Result, ok, err, length, all, filter, contains, sorted, ◌==◌, if◌then◌else◌,
}
use mathlib.Core.List.{reverse}
use bbz_platform.Workflow.Graph.{GraphNode, GraphEdge, DerivedGraph}

abbrev pub graph_keys : DerivedGraph → List String
graph_keys g = map (λ n. n.key) g.nodes

-- of two nodes with one key a dict comprehension keeps the later one
abbrev pub find_node : String → List GraphNode → Option GraphNode
find_node k [] = none
find_node k (n ∷ ns) =
    let later = find_node k ns in
    elim later [ some m ↦ some m | none ↦ if n.key == k then some n else none ]

abbrev pub edge_lt : GraphEdge → GraphEdge → Bool
edge_lt d e = str_lt d.key e.key

pub edges_in_order : DerivedGraph → List GraphEdge
unfolding sorted
edges_in_order g = sorted edge_lt g.edges

-- `self.out.get(key, [])`
unfoldable pub edges_out : DerivedGraph → String → List GraphEdge
unfolding edges_in_order
edges_out g key =
    if contains key (graph_keys g) then filter (λ e. e.from_key == key) (edges_in_order g) else []

-- `self.inc.get(key, [])`
unfoldable pub edges_in : DerivedGraph → String → List GraphEdge
unfolding edges_in_order
edges_in g key =
    if contains key (graph_keys g) then filter (λ e. e.to_key == key) (edges_in_order g) else []

-- `self.out[e.from_key]` and `self.inc[e.to_key]` raise a `KeyError` on an unknown node
abbrev pub is_closed : DerivedGraph → Bool
is_closed g =
    all (λ e. contains e.from_key (graph_keys g) && contains e.to_key (graph_keys g)) g.edges

abbrev pub targets : DerivedGraph → String → List String
targets g key = map (λ e. e.to_key) (edges_out g key)

-- The loop of `_descendants`, over the function that gives a node's successors. The list `stack` has
-- its top at the head, where `list.pop` finds it.
unfoldable pub explore : (String → List String) → ℕ → List String → List String → List String
explore next fuel seen [] = seen
explore next zero seen (key ∷ stack) = seen
explore next (suc fuel) seen (key ∷ stack) =
    let skip = explore next fuel seen stack in
    let visit = explore next fuel (key ∷ seen) (reverse (next key) ++ stack) in
    if contains key seen then skip else visit

-- Twice the number of edges is fuel enough: see `Search`.
abbrev pub explore_fuel : DerivedGraph → ℕ
explore_fuel g = length g.edges + length g.edges

unfoldable pub descendants : DerivedGraph → String → List String
unfolding explore edges_out
descendants g start = explore (targets g) (explore_fuel g) [] (reverse (targets g start))

-- `self.reachable.get(key, set())`
unfoldable pub reachable : DerivedGraph → String → List String
unfolding descendants
reachable g key = if contains key (graph_keys g) then descendants g key else []
