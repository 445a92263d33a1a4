-- ===== src/Workflow/Engine/Ends.antt =====
-- A token that ends while others wait: nothing that waits is looked at again.
use bbz_platform.Prelude.{
  ℕ, suc, ◌+◌, ◌*◌, String, true, some, List, [], ◌∷◌, ◌++◌, map, ◌≡◌, refl, ap, ◌∙◌, ok, Result,
  is_empty, Dict, eq_iff, length, arith, ◌>>=◌,
}
use bbz_platform.RuleDsl.Eval.{Context}
use bbz_platform.Workflow.Graph.{GraphNode, DerivedGraph}
use bbz_platform.Workflow.Reach.{is_closed, find_node, edges_out}
use bbz_platform.Workflow.Engine.{
  EngineError, Token, active, consumed, Work, Run, State, run_loop, result, process, process_at,
  settle, advance, make_run, make_work, make_existing, budget,
}
use bbz_platform.Workflow.Engine.Idle.{
  AllWait, parked_copy, work_of_waiting, no_spawned_copy, first_active_copy, consumed_copy,
  parked_copy_ids, spawned_copy, live_copy, run_loop_quiet_id,
}

abbrev active_copy : Token → Work
active_copy t = record {
  id = some t.id;
  node_key = t.node_key;
  state = active;
  inbound = t.inbound_edge_key;
  was_active = true;
}

abbrev spent_copy : Token → Work
spent_copy t = record (active_copy t) { state = consumed }

existing_of_active : (t : Token) → t.state ≡ "active" → make_existing t ≡ ok (active_copy t)
unfolding make_existing
existing_of_active t h = rw ((eq_iff t.state "active").1 h) refl

append_nothing : (ws : List Work) → ws ++ [] ≡ ws
append_nothing [] = refl
append_nothing (w ∷ ws) = ap (λ vs. w ∷ vs) (append_nothing ws)

-- the token of an event without an edge out is consumed, and that is all
process_end :
    (run : Run) (t : Token) (n : GraphNode) (ws : List Work)
    → find_node t.node_key run.graph.nodes ≡ some n
    → n.type ≡ "event"
    → edges_out run.graph n.key ≡ []
    → process run (active_copy t) (record { work = active_copy t ∷ ws; made = [] })
      ≡ ok (record { work = spent_copy t ∷ ws; made = [] })
unfolding process process_at
process_end run t n ws found event last =
    rw (found, process)
      (rw ((eq_iff n.type "event").1 event, process_at)
        (rw (last, append_nothing (spent_copy t ∷ ws)) refl))

run_loop_end :
    (run : Run) (t : Token) (n : GraphNode) (ts : List Token) (steps : ℕ)
    → find_node t.node_key run.graph.nodes ≡ some n
    → n.type ≡ "event"
    → edges_out run.graph n.key ≡ []
    → run_loop run (suc steps) (record { work = active_copy t ∷ map parked_copy ts; made = [] })
      ≡ ok (record { work = spent_copy t ∷ map parked_copy ts; made = [] })
unfolding run_loop
run_loop_end run t n ts steps found event last =
    rw (process_end run t n (map parked_copy ts) found event last, run_loop)
      (run_loop_quiet_id run steps (record { work = spent_copy t ∷ map parked_copy ts; made = [] })
        (first_active_copy ts))

work_of_tokens :
    (t : Token) (ts : List Token)
    → t.state ≡ "active"
    → AllWait ts
    → make_work (t ∷ ts) ≡ ok (active_copy t ∷ map parked_copy ts)
unfolding make_work
work_of_tokens t ts moves waits = rw (existing_of_active t moves, work_of_waiting ts waits) refl

result_end :
    (t : Token) (ts : List Token)
    → result (record { work = spent_copy t ∷ map parked_copy ts; made = [] })
      ≡ ok (record {
        consumed = t.id ∷ [];
        parked = [];
        spawned = [];
        decisions = [];
        completed = is_empty ts;
      })
unfolding result
result_end t ts =
    rw (no_spawned_copy ts, consumed_copy ts, parked_copy_ids ts, spawned_copy ts, live_copy ts)
      refl

budget-suc : (g : DerivedGraph) (ws : List Work) → (n : ℕ) × (budget g ws ≡ suc n)
budget-suc g ws =
    ((length g.nodes + length g.edges + length ws) * (length g.nodes + 1) + 99, omega arith)

settle_end :
    (run : Run) (t : Token) (n : GraphNode) (ts : List Token)
    → find_node t.node_key run.graph.nodes ≡ some n
    → n.type ≡ "event"
    → edges_out run.graph n.key ≡ []
    → settle run (active_copy t ∷ map parked_copy ts)
      ≡ ok (record {
        consumed = t.id ∷ [];
        parked = [];
        spawned = [];
        decisions = [];
        completed = is_empty ts;
      })
unfolding settle
settle_end run t n ts found event last =
    let (steps, b) = budget-suc run.graph (active_copy t ∷ map parked_copy ts) in
    ap
      (λ (k : ℕ).
        run_loop run k (record { work = active_copy t ∷ map parked_copy ts; made = [] }) >>= result)
      b
    ∙ (ap (λ (r : Result EngineError State). r >>= result)
          (run_loop_end run t n ts steps found event last)
        ∙ result_end t ts)

-- An advance with one active token, at an event without an edge out, while all others wait consumes
-- that token and does nothing else, whatever the others wait at: no join is tried again, and the
-- instance is completed only if there are no others.
pub advance_end :
    (g : DerivedGraph) (t : Token) (ts : List Token) (n : GraphNode) (ctx : Context)
    (ds : Dict (List String))
    → is_closed g ≡ true
    → t.state ≡ "active"
    → AllWait ts
    → find_node t.node_key g.nodes ≡ some n
    → n.type ≡ "event"
    → edges_out g n.key ≡ []
    → advance g (t ∷ ts) ctx ds
      ≡ ok (record {
        consumed = t.id ∷ [];
        parked = [];
        spawned = [];
        decisions = [];
        completed = is_empty ts;
      })
unfolding advance make_run
advance_end g t ts n ctx ds closed moves waits found event last =
    rw (closed, work_of_tokens t ts moves waits) (settle_end _ t n ts found event last)
