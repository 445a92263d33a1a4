-- ===== src/Workflow/Simulate/Tests.antt =====
-- Dry runs of a small workflow, and the theorem on their reports at one of them.
use bbz_platform.Prelude.{
  String, true, false, none, some, [], ◌∷◌, Option, ◌≡◌, ◌≤◌, refl, ok, err, contains, ℤ, pos,
  sorted, is_empty,
}
use bbz_platform.RuleDsl.Value.{Fields, str, int, list, object, nil, cons, end, field}
use bbz_platform.RuleDsl.Eval.{Context}
use bbz_platform.Workflow.Graph.{Definition, DefinitionNode, DefinitionEdge, flatten, count}
use bbz_platform.Workflow.Engine.{
  advance, resume_function, resume_work, make_work, make_run, settle, run_loop, process, process_at,
  connector, result, step_not_waiting,
}
use bbz_platform.Workflow.Tasks.{outbox_action, timer_seconds}
use bbz_platform.Workflow.Simulate.{
  SimulationReport, completed, dispatched, waited, engine_error, apply, dedupe, task_of,
  run_function, act_at, act_on, run_loop as act_loop, report_of, simulate_graph,
}
use bbz_platform.Workflow.Simulate.Report.{auto_steps, row_keys}
use bbz_platform.Workflow.Simulate.Visits.{simulate_graph_report}

abbrev step : String → String → Option String → Fields → DefinitionNode
step key type kind props = record {
  key = key;
  type = type;
  label = none;
  kind = kind;
  connector = none;
  direction = none;
  props = some props;
}

abbrev flow : String → String → String → DefinitionEdge
flow key source target = record {
  key = key;
  source = source;
  target = target;
  branch = none;
  condition = none;
}

abbrev has_priority : String → Fields
has_priority priority = field "op" (str "eq") (
    field "args"
      (list (cons (object (field "field" (str "event_priority") end)) (cons (str priority) nil)))
      end)

abbrev context : Context
context = ("event_priority", str "medium") ∷ []

-- an alarm is announced, five seconds pass, and the operator calls back; the two ways after it need a choice
abbrev alarm : Definition
alarm = record {
  start = "alarm";
  nodes =
      step "alarm" "event" none end
      ∷ step "tell" "function" (some "notification") end
      ∷ step "pause" "function" (some "timer") (field "duration_seconds" (int (pos 5)) end)
      ∷ record (step "fork" "connector" none end) {
        connector = some "xor";
        direction = some "split";
      }
      ∷ step "call" "function" none end
      ∷ step "done" "event" none end
      ∷ [];
  edges =
      flow "e1" "alarm" "tell"
      ∷ flow "e2" "tell" "pause"
      ∷ flow "e3" "pause" "fork"
      ∷ record (flow "e4" "fork" "call") { condition = some (has_priority "high") }
      ∷ record (flow "e5" "fork" "done") { condition = some (has_priority "low") }
      ∷ [];
}

abbrev no_number : String → Option ℤ
no_number _ = none

abbrev blocked : SimulationReport
blocked = record {
  is_completed = false;
  visited_nodes = "alarm" ∷ "tell" ∷ "pause" ∷ "fork" ∷ [];
  steps =
      record { node_key = "tell"; kind = "notification"; outcome = dispatched }
      ∷ record { node_key = "pause"; kind = "timer"; outcome = waited 5 }
      ∷ [];
  decisions = [];
  outbox_dry_run =
      record {
        node_key = "tell";
        action_type = "notify";
        dedupe_key = "workflow-step:00000000-0000-0000-0000-000000000000:tell:attempt-0";
        kind = "notification";
        props = end;
      }
      ∷ [];
  pending_decisions = "fork" ∷ [];
  active_nodes = "fork" ∷ [];
}

simulated : simulate_graph no_number (flatten alarm) context [] ≡ ok blocked
unfolding simulate_graph advance make_run sorted make_work settle run_loop process process_at
    connector result act_loop apply act_on act_at run_function task_of resume_function resume_work
    report_of dedupe outbox_action timer_seconds
simulated = refl

simulate_graph_report_example :
    (row_keys blocked.outbox_dry_run ≡ auto_steps blocked.steps)
    × (contains "alarm" blocked.visited_nodes ≡ true)
    × ((k : String) → count k blocked.visited_nodes ≤ 1)
    × (blocked.is_completed ≡ is_empty blocked.active_nodes)
simulate_graph_report_example =
    simulate_graph_report no_number (flatten alarm) context [] blocked simulated

-- the operator's choice at the fork lets the dry run go through; only a choice that a condition makes
-- is among the decisions, and a connector passed at once is not among the visited nodes
chosen :
    simulate_graph no_number (flatten alarm) context (("fork", "e4" ∷ []) ∷ [])
    ≡ ok (record blocked {
      is_completed = true;
      visited_nodes = "alarm" ∷ "tell" ∷ "pause" ∷ "call" ∷ [];
      steps =
          record { node_key = "tell"; kind = "notification"; outcome = dispatched }
          ∷ record { node_key = "pause"; kind = "timer"; outcome = waited 5 }
          ∷ record { node_key = "call"; kind = "manual"; outcome = completed }
          ∷ [];
      pending_decisions = [];
      active_nodes = [];
    })
unfolding simulate_graph advance make_run sorted make_work settle run_loop process process_at
    connector result act_loop apply act_on act_at run_function task_of resume_function resume_work
    report_of dedupe outbox_action timer_seconds
chosen = refl

-- a graph that starts at a function: the token of its start stays active, and does not wait there
abbrev ask : Definition
ask = record { start = "ask"; nodes = step "ask" "function" none end ∷ []; edges = [] }

starts_at_function :
    simulate_graph no_number (flatten ask) [] [] ≡ err (engine_error (step_not_waiting "ask"))
unfolding simulate_graph advance make_run sorted make_work settle run_loop process process_at
    connector result act_loop apply act_on act_at run_function task_of resume_function resume_work
    report_of dedupe outbox_action timer_seconds
starts_at_function = refl
