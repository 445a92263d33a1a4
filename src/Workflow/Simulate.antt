-- ===== src/Workflow/Simulate.antt =====
-- server/bbz_core/domain/workflow/simulate.py: the dry run of a workflow on top of the engine. A step
-- returns the driver's new state; what the code raises is a value.
pub mod Report
pub mod Visits
mod Tests
use bbz_platform.Prelude.{
  ℕ, zero, suc, ◌+◌, ◌*◌, String, Bool, true, false, not, ◌&&◌, ◌||◌, List, [], ◌∷◌, ◌++◌, map,
  Option, none, some, ◌==◌, str_lt, nat_eq, is_text, is_empty, length, any, filter, contains,
  sorted, Dict, Result, ok, err, ◌>>=◌, ℤ, if◌then◌else◌,
}
use bbz_platform.RuleDsl.Value.{Fields}
use bbz_platform.RuleDsl.Eval.{Context}
use bbz_platform.Workflow.Graph.{
  Definition, DerivedGraph, GraphNode, WorkflowGraphError, derive_index, distinct,
}
use bbz_platform.Workflow.Reach.{find_node}
use bbz_platform.Workflow.Engine.{
  Token, EngineResult, DecisionMade, EngineError, advance, resume_function,
}
use bbz_platform.Workflow.Tasks.{
  TaskKindError, auto_kinds, timer_kinds, outbox_action, timer_seconds, step_dedupe_key,
}

-- `str(_SIM_INSTANCE)`
abbrev pub sim_instance : String
sim_instance = "00000000-0000-0000-0000-000000000000"

pub data SimulationError : Type 0 where
  graph_error : WorkflowGraphError → SimulationError
  engine_error : EngineError → SimulationError
  task_error : TaskKindError → SimulationError
  not_settled : SimulationError

pub data Outcome : Type 0 where
  completed : Outcome
  dispatched : Outcome
  waited : ℕ → Outcome

pub record SimulatedStep : Type 0 where
  pub node_key : String
  pub kind : String
  pub outcome : Outcome

pub record DryRunRow : Type 0 where
  pub node_key : String
  pub action_type : String
  pub dedupe_key : String
  pub kind : String
  pub props : Fields

-- `_Sim` with the lists of its report
pub record Sim : Type 0 where
  pub tokens : List Token
  pub next_id : ℕ
  pub visited : List String
  pub steps : List SimulatedStep
  pub decisions_made : List DecisionMade
  pub outbox : List DryRunRow
  pub pending : List String

pub record SimulationReport : Type 0 where
  pub is_completed : Bool
  pub visited_nodes : List String
  pub steps : List SimulatedStep
  pub decisions : List DecisionMade
  pub outbox_dry_run : List DryRunRow
  pub pending_decisions : List String
  pub active_nodes : List String

abbrev pub lift_engine : {A : Type 0} → Result EngineError A → Result SimulationError A
lift_engine (ok a) = ok a
lift_engine (err e) = err (engine_error e)

abbrev pub lift_task : {A : Type 0} → Result TaskKindError A → Result SimulationError A
lift_task (ok a) = ok a
lift_task (err e) = err (task_error e)

abbrev pub lift_graph : {A : Type 0} → Result WorkflowGraphError A → Result SimulationError A
lift_graph (ok a) = ok a
lift_graph (err e) = err (graph_error e)

abbrev pub new_token : ℕ → String → Option String → String → Token
new_token id node_key inbound state = record {
  id = id;
  node_key = node_key;
  state = state;
  inbound_edge_key = inbound;
}

abbrev pub is_among : ℕ → List ℕ → Bool
is_among id ids = any (λ i. nat_eq i id) ids

-- `for node_key, inbound in res.spawned`
abbrev pub add_spawned : List (String × Option String) → Sim → Sim
add_spawned [] sim = sim
add_spawned ((node_key, inbound) ∷ more) sim = add_spawned more (record sim {
  tokens = sim.tokens ++ (new_token (suc sim.next_id) node_key inbound "waiting" ∷ []);
  next_id = suc sim.next_id;
  visited = sim.visited ++ (node_key ∷ []);
})

unfoldable pub apply : Sim → EngineResult → Sim
apply sim res =
    let kept =
      add_spawned res.spawned
        (record sim { tokens = filter (λ t. not (is_among t.id res.consumed)) sim.tokens }) in
    record kept { decisions_made = kept.decisions_made ++ res.decisions }

-- `node.function_kind or "manual"`
abbrev pub kind_of : Option String → String
kind_of none = "manual"
kind_of (some kind) = if kind == "" then "manual" else kind

abbrev pub is_split : GraphNode → Bool
is_split node =
    node.type == "connector"
    && (is_text node.connector_direction "split"
        && (is_text node.connector_type "xor" || is_text node.connector_type "or"))

-- `_dedupe`
unfoldable pub dedupe : List String → List String → List String
dedupe seen [] = []
dedupe seen (x ∷ xs) =
    let known = dedupe seen xs in
    let fresh = dedupe (x ∷ seen) xs in if contains x seen then known else x ∷ fresh

abbrev pub budget_of : DerivedGraph → ℕ
budget_of graph = (length graph.nodes + length graph.edges) * 4 + 50

abbrev pub start_sim : DerivedGraph → Sim
start_sim graph = record {
  tokens = new_token 1 graph.start none "active" ∷ [];
  next_id = 1;
  visited = graph.start ∷ [];
  steps = [];
  decisions_made = [];
  outbox = [];
  pending = [];
}

unfoldable pub report_of : Sim → SimulationReport
report_of sim = record {
  is_completed = is_empty sim.tokens;
  visited_nodes = dedupe [] sim.visited;
  steps = sim.steps;
  decisions = sim.decisions_made;
  outbox_dry_run = sim.outbox;
  pending_decisions = sim.pending;
  active_nodes = sorted str_lt (distinct (map (λ t. t.node_key) sim.tokens));
}

abbrev pub dry_row : GraphNode → String → String → DryRunRow
dry_row node kind action = record {
  node_key = node.key;
  action_type = action;
  dedupe_key = step_dedupe_key sim_instance node.key;
  kind = kind;
  props = node.props;
}

abbrev pub with_step : GraphNode → String → Outcome × List DryRunRow → Sim → Sim
with_step node kind (outcome, rows) sim = record sim {
  steps = sim.steps ++ (record { node_key = node.key; kind = kind; outcome = outcome } ∷ []);
  outbox = sim.outbox ++ rows;
}

module _ (int_of_text : String → Option ℤ) where
  -- the outcome, and the row that would be enqueued
  unfoldable pub task_of : GraphNode → String → Result TaskKindError (Outcome × List DryRunRow)
  unfolding outbox_action timer_seconds
  task_of node kind =
      if contains kind auto_kinds
      then outbox_action kind >>= (λ action. ok (dispatched, dry_row node kind action ∷ []))
      else if contains kind timer_kinds
      then timer_seconds int_of_text node.props >>= (λ seconds. ok (waited seconds, []))
      else ok (completed, [])

  unfoldable pub run_function :
      DerivedGraph → Context → Dict (List String) → Sim → GraphNode → Result SimulationError Sim
  run_function graph context decisions sim node =
      let kind = kind_of node.function_kind in
      lift_task (task_of node kind) >>= λ task.
      lift_engine (resume_function graph sim.tokens node.key context decisions) >>= λ res.
      ok (apply (with_step node kind task sim) res)

  -- the body of the loop of `_act`, and what goes on with it; the flag says that something was done
  unfoldable pub act_at :
      DerivedGraph
      → Context
      → Dict (List String)
      → Option GraphNode
      → (Sim → Result SimulationError (Sim × Bool))
      → Sim
      → Result SimulationError (Sim × Bool)
  act_at graph context decisions none continue sim = continue sim
  act_at graph context decisions (some node) continue sim =
      if node.type == "function"
      then run_function graph context decisions sim node >>= (λ after. ok (after, true))
      else if is_split node && not (contains node.key sim.pending)
      then continue (record sim { pending = sim.pending ++ (node.key ∷ []) })
      else continue sim

  unfoldable pub act_on :
      DerivedGraph
      → Context
      → Dict (List String)
      → List Token
      → Sim
      → Result SimulationError (Sim × Bool)
  act_on graph context decisions [] sim = ok (sim, false)
  act_on graph context decisions (tok ∷ toks) sim =
      act_at graph context decisions (find_node tok.node_key graph.nodes)
        (act_on graph context decisions toks) sim

  -- `_act`, on a copy of the tokens
  abbrev pub act :
      DerivedGraph → Context → Dict (List String) → Sim → Result SimulationError (Sim × Bool)
  act graph context decisions sim = act_on graph context decisions sim.tokens sim

  -- `for _ in range(budget): … else: raise`
  unfoldable pub run_loop :
      DerivedGraph → Context → Dict (List String) → ℕ → Sim → Result SimulationError Sim
  run_loop graph context decisions zero sim = err not_settled
  run_loop graph context decisions (suc budget) sim =
      act graph context decisions sim >>= λ (after, acted).
      let rest = run_loop graph context decisions budget after in if acted then rest else ok after

  unfoldable pub simulate_graph :
      DerivedGraph → Context → Dict (List String) → Result SimulationError SimulationReport
  simulate_graph graph context decisions =
      let sim = start_sim graph in
      lift_engine (advance graph sim.tokens context decisions) >>= λ res.
      run_loop graph context decisions (budget_of graph) (apply sim res) >>= λ final.
      ok (report_of final)

  abbrev pub simulate :
      (Definition → Bool)
      → Definition
      → Context
      → Dict (List String)
      → Result SimulationError SimulationReport
  simulate meets_schema definition context decisions =
      lift_graph (derive_index meets_schema definition) >>= λ graph.
      simulate_graph graph context decisions
