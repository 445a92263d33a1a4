-- ===== src/Workflow/Simulate/Visits.antt =====
-- server/bbz_core/domain/workflow/simulate.py: the nodes that a dry run lists, and its whole report.
use bbz_platform.Prelude.{
  ◌≤◌, String, true, false, not, ◌&&◌, List, [], ◌∷◌, Option, ◌≡◌, refl, sym, ap, subst, inl, inr,
  ◌==◌, eq_iff, ◌∙◌, is_empty, map, sorted, insert_sorted, str_lt, contains, Dict, ok, >>=-eq-ok,
  ok_injective, ℤ, Bool-cases, arith, if◌then◌else◌,
}
use bbz_platform.RuleDsl.Eval.{Context}
use bbz_platform.Workflow.Graph.{DerivedGraph, count, distinct}
use bbz_platform.Workflow.Engine.{Token, advance}
use bbz_platform.Workflow.Simulate.{
  SimulationReport, apply, dedupe, run_loop, start_sim, report_of, simulate_graph, budget_of,
  lift_engine,
}
use bbz_platform.Workflow.Simulate.Report.{auto_steps, row_keys, apply-IsTraced, run_loop-IsTraced}

contains-same : (x y : String) (xs : List String) → (y == x) ≡ true → contains y xs ≡ contains x xs
contains-same x y xs same = ap (λ k. contains k xs) ((eq_iff y x).0 same)

dedupe-contains :
    (x : String) (seen xs : List String)
    → contains x (dedupe seen xs) ≡ (not (contains x seen) && contains x xs)
unfolding dedupe
dedupe-contains x seen [] = ground (arith)
dedupe-contains x seen (y ∷ xs) = elim (Bool-cases (y == x)) [
  | inl same ↦ ground (arith, same, contains-same x y seen same, dedupe-contains x seen xs)
  | inr other ↦ ground (arith, other, dedupe-contains x seen xs, dedupe-contains x (y ∷ seen) xs)
]

dedupe-count :
    (x : String) (seen xs : List String)
    → count x (dedupe seen xs) ≤ (if contains x seen then 0 else 1)
unfolding dedupe
dedupe-count x seen [] = ground (arith)
dedupe-count x seen (y ∷ xs) = elim (Bool-cases (y == x)) [
  | inl same ↦ ground (
    arith,
    same,
    contains-same x y seen same,
    dedupe-count x seen xs,
    dedupe-count x (y ∷ seen) xs,
  )
  | inr other ↦ ground (arith, other, dedupe-count x seen xs, dedupe-count x (y ∷ seen) xs)
]

is_empty-insert_sorted :
    (x : String) (xs : List String) → is_empty (insert_sorted str_lt x xs) ≡ false
unfolding insert_sorted
is_empty-insert_sorted x [] = refl
is_empty-insert_sorted x (y ∷ ys) = elim (Bool-cases (str_lt y x)) [
  | inl before ↦ rw before refl
  | inr after ↦ rw after refl
]

is_empty-sorted : (xs : List String) → is_empty (sorted str_lt xs) ≡ is_empty xs
unfolding sorted
is_empty-sorted [] = refl
is_empty-sorted (x ∷ xs) = is_empty-insert_sorted x (sorted str_lt xs)

is_empty-distinct : (xs : List String) → is_empty (distinct xs) ≡ is_empty xs
is_empty-distinct [] = refl
is_empty-distinct (x ∷ []) = refl
is_empty-distinct (x ∷ y ∷ xs) = elim (Bool-cases (contains x (y ∷ xs))) [
  | inl again ↦ rw again (is_empty-distinct (y ∷ xs))
  | inr once ↦ rw once refl
]

-- There are active nodes just when there are tokens.
is_empty-active :
    (tokens : List Token)
    → is_empty tokens ≡ is_empty (sorted str_lt (distinct (map (λ t. t.node_key) tokens)))
is_empty-active [] = sym (is_empty-sorted [])
is_empty-active (t ∷ ts) =
    let keys = map (λ (tok : Token). tok.node_key) (t ∷ ts) in
    sym (is_empty-sorted (distinct keys) ∙ is_empty-distinct keys)

-- A dry run that settles, whatever the context, the decisions and the parser of numbers: the rows that it
-- would hand to the outbox are, in order, those of its steps at automatic functions, each for the node
-- and the kind of its step; the nodes it lists as visited have the start among them and none twice; and
-- it is completed only when no node is left active.
pub simulate_graph_report :
    (int_of_text : String → Option ℤ) (graph : DerivedGraph) (context : Context)
    (decisions : Dict (List String)) (report : SimulationReport)
    → simulate_graph int_of_text graph context decisions ≡ ok report
    → (row_keys report.outbox_dry_run ≡ auto_steps report.steps)
      × (contains graph.start report.visited_nodes ≡ true)
      × ((k : String) → count k report.visited_nodes ≤ 1)
      × (report.is_completed ≡ is_empty report.active_nodes)
unfolding simulate_graph report_of
simulate_graph_report int_of_text graph context decisions report simulated =
    let sim = start_sim graph in
    let (res, _, rest) =
      >>=-eq-ok (lift_engine (advance graph sim.tokens context decisions)) _ simulated in
    let (final, settled, reported) =
      >>=-eq-ok (run_loop int_of_text graph context decisions (budget_of graph) (apply sim res)) _
        rest in
    let (traced, started) =
      run_loop-IsTraced int_of_text graph context decisions graph.start (budget_of graph)
        (apply sim res) settled
        (apply-IsTraced graph.start sim res
          (refl, ground (arith, eq_iff graph.start graph.start))) in
    subst
      (λ (r : SimulationReport).
        (row_keys r.outbox_dry_run ≡ auto_steps r.steps)
        × (contains graph.start r.visited_nodes ≡ true)
        × ((k : String) → count k r.visited_nodes ≤ 1)
        × (r.is_completed ≡ is_empty r.active_nodes))
      (ok_injective reported)
      (
        traced,
        dedupe-contains graph.start [] final.visited ∙ started,
        (λ k. dedupe-count k [] final.visited),
        is_empty-active final.tokens,
      )
