-- ===== src/Workflow/Engine/Tests.antt =====
-- A small workflow, and the theorems on graphs and on the engine at it.
use bbz_platform.Prelude.{
  ℕ, String, true, false, none, some, List, [], ◌∷◌, ◌≡◌, ◌≤◌, ◌↔◌, ◌⊎◌, refl, ok, contains, map,
  ◌||◌, sorted,
}
use bbz_platform.RuleDsl.Value.{Fields, str, list, object, nil, cons, end, field}
use bbz_platform.RuleDsl.Eval.{Context}
use bbz_platform.Workflow.Graph.{
  Definition, DefinitionNode, DefinitionEdge, GraphNode, GraphEdge, DerivedGraph, derive_index,
  validate_graph, duplicates, check_edges, flatten, count,
}
use bbz_platform.Workflow.Graph.Derived.{derive_index_sound}
use bbz_platform.Workflow.Reach.{find_node, graph_keys, is_closed, edges_out, targets, descendants}
use bbz_platform.Workflow.Reach.Search.{Reaches, descendants_iff}
use bbz_platform.Workflow.Engine.{
  Token, EngineResult, Run, Work, State, active, waiting, consumed, advance, make_work, make_run,
  settle, run_loop, process, process_at, connector, result, mark, spawn_on, choice_split,
}
use bbz_platform.Workflow.Engine.Quiet.{has_id, advance_clears}
use bbz_platform.Workflow.Engine.Splits.{IsAuto, IsUndecided, choice_split_xor}

abbrev plain : String → String → DefinitionNode
plain key type = record {
  key = key;
  type = type;
  label = none;
  kind = none;
  connector = none;
  direction = none;
  props = none;
}

abbrev fork : DefinitionNode
fork = record (plain "fork" "connector") { connector = some "xor"; direction = some "split" }

abbrev plain_edge : String → String → String → DefinitionEdge
plain_edge key source target = record {
  key = key;
  source = source;
  target = target;
  branch = none;
  condition = none;
}

abbrev is_high : Fields
is_high = field "op" (str "eq") (
    field "args"
      (list (cons (object (field "field" (str "event_priority") end)) (cons (str "high") nil))) end)

-- an alarm is checked; if its priority is high, the fire brigade is called, else the case is noted
abbrev fire : Definition
fire = record {
  start = "alarm";
  nodes =
      plain "alarm" "event"
      ∷ plain "check" "function"
      ∷ fork
      ∷ plain "call" "function"
      ∷ plain "note" "event"
      ∷ [];
  edges =
      plain_edge "e1" "alarm" "check"
      ∷ plain_edge "e2" "check" "fork"
      ∷ record (plain_edge "e3" "fork" "call") { condition = some is_high }
      ∷ plain_edge "e4" "fork" "note"
      ∷ [];
}

abbrev graph : DerivedGraph
graph = flatten fire

derived : derive_index (λ _. true) fire ≡ ok graph
unfolding derive_index validate_graph duplicates check_edges
derived = refl

derive_index_sound_example :
    (is_closed graph ≡ true)
    × (contains graph.start (graph_keys graph) ≡ true)
    × ((k : String) → count k (graph_keys graph) ≤ 1)
    × ((k : String) → count k (map (λ e. e.key) graph.edges) ≤ 1)
derive_index_sound_example = derive_index_sound (λ _. true) fire graph derived

descendants_iff_example :
    contains "note" (descendants graph "alarm") ≡ true ↔ Reaches (targets graph) "alarm" "note"
descendants_iff_example = descendants_iff graph "alarm" "note"

reached : contains "note" (descendants graph "alarm") ≡ true
unfolding descendants
reached = refl

abbrev token : ℕ → String → String → Token
token i key state = record { id = i; node_key = key; state = state; inbound_edge_key = none }

abbrev priority_high : Context
priority_high = ("event_priority", str "high") ∷ []

abbrev tokens : List Token
tokens = token 4 "fork" "active" ∷ token 5 "check" "active" ∷ token 6 "call" "waiting" ∷ []

abbrev moved : EngineResult
moved = record {
  consumed = 4 ∷ [];
  parked = 5 ∷ [];
  spawned = ("call", some "e3") ∷ [];
  decisions =
      record { connector_node_key = "fork"; chosen_edge_keys = "e3" ∷ []; auto = true } ∷ [];
  completed = false;
}

advanced : advance graph tokens priority_high [] ≡ ok moved
unfolding advance make_run sorted make_work settle run_loop process process_at connector result
advanced = refl

advance_clears_example : (has_id 5 moved.consumed || has_id 5 moved.parked) ≡ true
advance_clears_example = advance_clears graph tokens priority_high [] moved 5 advanced refl

abbrev parked_tokens : List Token
parked_tokens = token 6 "call" "waiting" ∷ token 7 "check" "waiting" ∷ []

closed : is_closed graph ≡ true
unfolding sorted
closed = refl

abbrev parked_work : List Work
parked_work =
    record { id = some 6; node_key = "call"; state = waiting; inbound = none; was_active = false }
    ∷ record {
      id = some 7;
      node_key = "check";
      state = waiting;
      inbound = none;
      was_active = false;
    }
    ∷ []

made : make_work parked_tokens ≡ ok parked_work
unfolding make_work
made = refl

abbrev fork_node : GraphNode
fork_node = record {
  key = "fork";
  type = "connector";
  label = none;
  function_kind = none;
  connector_type = some "xor";
  connector_direction = some "split";
  props = end;
}

abbrev undecided_run : Run
undecided_run = record { graph = graph; context = priority_high; decisions = [] }

abbrev decided_run : Run
decided_run = record undecided_run { decisions = ("fork", "e4" ∷ []) ∷ [] }

abbrev at_fork : State
at_fork = record {
  work =
      record { id = some 4; node_key = "fork"; state = active; inbound = none; was_active = true }
      ∷ [];
  made = [];
}

abbrev past_fork : State
past_fork = record {
  work =
      record { id = some 4; node_key = "fork"; state = consumed; inbound = none; was_active = true }
      ∷ record {
        id = none;
        node_key = "call";
        state = active;
        inbound = some "e3";
        was_active = false;
      }
      ∷ [];
  made = record { connector_node_key = "fork"; chosen_edge_keys = "e3" ∷ []; auto = true } ∷ [];
}

splits : choice_split undecided_run fork_node at_fork ≡ ok past_fork
unfolding choice_split
splits = refl

choice_split_xor_example :
    ((e : GraphEdge) × (past_fork.work ≡ spawn_on (mark consumed at_fork.work) (e ∷ []))
      × IsAuto priority_high (edges_out graph "fork") e)
    ⊎ ((past_fork.work ≡ mark waiting at_fork.work)
        × IsUndecided priority_high (edges_out graph "fork"))
choice_split_xor_example =
    choice_split_xor undecided_run fork_node at_fork past_fork refl refl splits

abbrev past_decision : State
past_decision = record {
  work =
      record { id = some 4; node_key = "fork"; state = consumed; inbound = none; was_active = true }
      ∷ record {
        id = none;
        node_key = "note";
        state = active;
        inbound = some "e4";
        was_active = false;
      }
      ∷ [];
  made = [];
}

splits_decided : choice_split decided_run fork_node at_fork ≡ ok past_decision
unfolding choice_split
splits_decided = refl

abbrev note_node : GraphNode
note_node = record {
  key = "note";
  type = "event";
  label = none;
  function_kind = none;
  connector_type = none;
  connector_direction = none;
  props = end;
}

note_found : find_node "note" graph.nodes ≡ some note_node
unfolding sorted
note_found = refl

note_is_last : edges_out graph "note" ≡ []
unfolding edges_out sorted
note_is_last = refl
