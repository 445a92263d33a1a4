-- ===== src/Workflow/Simulate/Report.antt =====
-- server/bbz_core/domain/workflow/simulate.py: what the report of a dry run says.
use bbz_platform.Prelude.{
  ℕ, zero, suc, String, Bool, true, not, ◌&&◌, List, [], ◌∷◌, ◌++◌, map, Option, none, some, ◌≡◌,
  refl, sym, ap, ◌∙◌, subst, inl, inr, ◌==◌, contains, Dict, Result, ok, err, >>=-eq-ok,
  ok_injective, ℤ, Bool-cases, if◌then◌else◌,
}
use bbz_platform.RuleDsl.Eval.{Context}
use bbz_platform.Workflow.Graph.{DerivedGraph, GraphNode}
use bbz_platform.Workflow.Reach.{find_node}
use bbz_platform.Workflow.Engine.{Token, EngineResult, resume_function}
use bbz_platform.Workflow.Tasks.{
  TaskKindError, auto_kinds, timer_kinds, outbox_action, timer_seconds,
}
use bbz_platform.Workflow.Simulate.{
  Sim, SimulatedStep, DryRunRow, SimulationError, Outcome, add_spawned, apply, kind_of, is_split,
  task_of, with_step, run_function, act_at, act_on, act, run_loop, lift_engine, lift_task,
}

-- The node and the kind of each step that the runtime would hand to the outbox.
abbrev pub auto_steps : List SimulatedStep → List (String × String)
auto_steps [] = []
auto_steps (step ∷ steps) =
    let rest = auto_steps steps in
    if contains step.kind auto_kinds then (step.node_key, step.kind) ∷ rest else rest

abbrev pub row_keys : List DryRunRow → List (String × String)
row_keys rows = map (λ (row : DryRunRow). (row.node_key, row.kind)) rows

auto_steps-append :
    (xs ys : List SimulatedStep) → auto_steps (xs ++ ys) ≡ auto_steps xs ++ auto_steps ys
auto_steps-append [] ys = refl
auto_steps-append (x ∷ xs) ys = elim (Bool-cases (contains x.kind auto_kinds)) [
  | inl auto ↦ rw auto (
      ap (λ (rest : List (String × String)). (x.node_key, x.kind) ∷ rest) (auto_steps-append xs ys))
  | inr other ↦ rw other (auto_steps-append xs ys)
]

row_keys-append : (xs ys : List DryRunRow) → row_keys (xs ++ ys) ≡ row_keys xs ++ row_keys ys
row_keys-append [] ys = refl
row_keys-append (x ∷ xs) ys =
    ap (λ (rest : List (String × String)). (x.node_key, x.kind) ∷ rest) (row_keys-append xs ys)

-- The rows are those of the automatic steps, and the start was visited.
abbrev pub IsTraced : String → Sim → Type 0
IsTraced start sim =
    (row_keys sim.outbox ≡ auto_steps sim.steps) × (contains start sim.visited ≡ true)

contains-append :
    (x : String) (xs ys : List String) → contains x xs ≡ true → contains x (xs ++ ys) ≡ true
contains-append x [] ys found = absurd (cc found)
contains-append x (y ∷ xs) ys found = elim (Bool-cases (y == x)) [
  | inl here ↦ rw here refl
  | inr other ↦ rw other (contains-append x xs ys (rw other at found))
]

add_spawned-IsTraced :
    (start : String) (spawned : List (String × Option String)) (sim : Sim)
    → IsTraced start sim
    → IsTraced start (add_spawned spawned sim)
add_spawned-IsTraced start [] sim traced = traced
add_spawned-IsTraced start ((key, inbound) ∷ more) sim traced =
    add_spawned-IsTraced start more _
      (traced.0, contains-append start sim.visited (key ∷ []) traced.1)

pub apply-IsTraced :
    (start : String) (sim : Sim) (res : EngineResult)
    → IsTraced start sim
    → IsTraced start (apply sim res)
unfolding apply
apply-IsTraced start sim res traced = add_spawned-IsTraced start res.spawned _ traced

module _ (int_of_text : String → Option ℤ) where
  task_of-row_keys :
      (node : GraphNode) (kind : String) {outcome : Outcome} {rows : List DryRunRow}
      → task_of int_of_text node kind ≡ ok (outcome, rows)
      → row_keys rows
        ≡ auto_steps (record { node_key = node.key; kind = kind; outcome = outcome } ∷ [])
  unfolding task_of outbox_action timer_seconds
  task_of-row_keys node kind {outcome} {rows} done = elim (Bool-cases (contains kind auto_kinds)) [
    | inl auto ↦
        let (action, _, result) = >>=-eq-ok (outbox_action kind) _ (rw auto at done) in
        rw auto (ap (λ (p : Outcome × List DryRunRow). row_keys p.1) (sym (ok_injective result)))
    | inr other ↦ elim (Bool-cases (contains kind timer_kinds)) [
      | inl timer ↦
          let (seconds, _, result) =
            >>=-eq-ok (timer_seconds int_of_text node.props) _ (rw timer at (rw other at done)) in
          rw other (ap (λ (p : Outcome × List DryRunRow). row_keys p.1) (sym (ok_injective result)))
      | inr manual ↦ rw other (
          ap (λ (p : Outcome × List DryRunRow). row_keys p.1)
            (sym (ok_injective (rw manual at (rw other at done)))))
    ]
  ]

  with_step-IsTraced :
      (start : String) (sim : Sim) (node : GraphNode) (kind : String)
      (task : Outcome × List DryRunRow)
      → task_of int_of_text node kind ≡ ok task
      → IsTraced start sim
      → IsTraced start (with_step node kind task sim)
  with_step-IsTraced start sim node kind (outcome, rows) done traced = (
    row_keys-append sim.outbox rows
        ∙ (ap (λ front. front ++ row_keys rows) traced.0
            ∙ (ap (λ back. auto_steps sim.steps ++ back) (task_of-row_keys node kind done)
                ∙ sym (
                    auto_steps-append sim.steps
                      (record { node_key = node.key; kind = kind; outcome = outcome } ∷ [])))),
    traced.1,
  )

  lift_task-ok :
      {A : Type 0} (call : Result TaskKindError A) {a : A} → lift_task call ≡ ok a → call ≡ ok a
  lift_task-ok (ok b) lifted = ap (λ x. ok x) (ok_injective lifted)
  lift_task-ok (err e) lifted = absurd (cc lifted)

  run_function-IsTraced :
      (graph : DerivedGraph) (context : Context) (decisions : Dict (List String)) (start : String)
      (sim : Sim) (node : GraphNode) {after : Sim}
      → run_function int_of_text graph context decisions sim node ≡ ok after
      → IsTraced start sim
      → IsTraced start after
  unfolding run_function
  run_function-IsTraced graph context decisions start sim node ran traced =
      let kind = kind_of node.function_kind in
      let (task, tasked, rest) = >>=-eq-ok (lift_task (task_of int_of_text node kind)) _ ran in
      let (res, resumed, applied) =
        >>=-eq-ok (lift_engine (resume_function graph sim.tokens node.key context decisions)) _
          rest in
      subst (IsTraced start) (ok_injective applied) (
        apply-IsTraced start (with_step node kind task sim) res (
          with_step-IsTraced start sim node kind task
            (lift_task-ok (task_of int_of_text node kind) tasked) traced))

  -- What goes on with the loop keeps the trace.
  Keeps : String → (Sim → Result SimulationError (Sim × Bool)) → Type 0
  Keeps start continue =
      (sim after : Sim) (acted : Bool)
      → continue sim ≡ ok (after, acted)
      → IsTraced start sim
      → IsTraced start after

  act_at-IsTraced :
      (graph : DerivedGraph) (context : Context) (decisions : Dict (List String)) (start : String)
      (found : Option GraphNode) (continue : Sim → Result SimulationError (Sim × Bool))
      → Keeps start continue
      → Keeps start (act_at int_of_text graph context decisions found continue)
  unfolding act_at Keeps
  act_at-IsTraced graph context decisions start none continue keeps sim after acted ran traced =
      keeps sim after acted ran traced
  act_at-IsTraced graph context decisions start (some node) continue keeps sim after acted ran
        traced =
      elim (Bool-cases (node.type == "function")) [
        | inl function ↦
            let (done, called, result) =
              >>=-eq-ok (run_function int_of_text graph context decisions sim node) _
                (rw function at ran) in
            subst (IsTraced start) (ap (λ (p : Sim × Bool). p.0) (ok_injective result))
              (run_function-IsTraced graph context decisions start sim node called traced)
        | inr other ↦ elim (Bool-cases (is_split node && not (contains node.key sim.pending))) [
          | inl blocked ↦
              keeps (record sim { pending = sim.pending ++ (node.key ∷ []) }) after acted
                (rw blocked at (rw other at ran)) traced
          | inr passed ↦ keeps sim after acted (rw passed at (rw other at ran)) traced
        ]
      ]

  act_on-IsTraced :
      (graph : DerivedGraph) (context : Context) (decisions : Dict (List String)) (start : String)
      (toks : List Token)
      → Keeps start (act_on int_of_text graph context decisions toks)
  unfolding act_on Keeps
  act_on-IsTraced graph context decisions start [] sim after acted ran traced =
      subst (IsTraced start) (ap (λ (p : Sim × Bool). p.0) (ok_injective ran)) traced
  act_on-IsTraced graph context decisions start (tok ∷ toks) sim after acted ran traced =
      act_at-IsTraced graph context decisions start (find_node tok.node_key graph.nodes)
        (act_on int_of_text graph context decisions toks)
        (act_on-IsTraced graph context decisions start toks) sim after acted ran traced

  pub run_loop-IsTraced :
      (graph : DerivedGraph) (context : Context) (decisions : Dict (List String)) (start : String)
      (budget : ℕ) (sim : Sim) {final : Sim}
      → run_loop int_of_text graph context decisions budget sim ≡ ok final
      → IsTraced start sim
      → IsTraced start final
  unfolding run_loop Keeps
  run_loop-IsTraced graph context decisions start zero sim ran traced = absurd (cc ran)
  run_loop-IsTraced graph context decisions start (suc budget) sim {final} ran traced =
      let ((after, acted), called, rest) =
        >>=-eq-ok (act int_of_text graph context decisions sim) _ ran in
      let kept =
        act_on-IsTraced graph context decisions start sim.tokens sim after acted called traced in
      elim (Bool-cases acted) [
        | inl again ↦
            run_loop-IsTraced graph context decisions start budget after (rw again at rest) kept
        | inr done ↦ subst (IsTraced start) (ok_injective (rw done at rest)) kept
      ]
