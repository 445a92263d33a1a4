-- ===== src/Workflow/Publish/Sound.antt =====
-- What a graph without issues is like.
use bbz_platform.Prelude.{
  is_text, suc, ◌≤◌, String, Bool, true, false, not, ◌&&◌, Option, some, List, [], ◌∷◌, ◌++◌, ok,
  >>=-eq-ok, ok_injective, Result-cases, Option-cases, Bool-cases, inl, inr, ◌⊎◌, ◌≡◌, ◌≢◌, refl,
  All, All-map, length, length-map, is_empty, any, filter, contains, leb, nat_eq, ltb, ◌==◌, eq_iff,
  arith, is_none,
}
use bbz_platform.Workflow.Graph.{Definition, GraphNode, GraphEdge, DerivedGraph, derive_index}
use bbz_platform.Workflow.Reach.{find_node}
use bbz_platform.Workflow.Reach.Search.{Reaches, IsBounded, from_start}
use bbz_platform.Workflow.Publish.{
  ValidationIssue, out_edges, in_edges, successors, reachable_from, issue_if, for_all, start_issues,
  orphan_issues, end_issues, cardinality_issues, split_issues, all_function_issues, graph_issues,
  validate_publishable,
}

-- a split has one edge in and two or more out, a join two or more in and one out, and no other node
-- more than one out
abbrev pub HasEdges : DerivedGraph → GraphNode → Type 0
HasEdges g n =
    (n.type ≢ "connector" → length (out_edges g n.key) ≤ 1)
    × (n.type ≡ "connector"
        → is_text n.connector_direction "split" ≡ true
        → (length (in_edges g n.key) ≡ 1) × (2 ≤ length (out_edges g n.key)))
    × (n.type ≡ "connector"
        → is_text n.connector_direction "join" ≡ true
        → (2 ≤ length (in_edges g n.key)) × (length (out_edges g n.key) ≡ 1))

-- an exclusive split has at most one branch without a guard
abbrev pub HasOneDefault : DerivedGraph → GraphNode → Type 0
HasOneDefault g n =
    n.type ≡ "connector"
    → is_text n.connector_direction "split" ≡ true
    → is_text n.connector_type "xor" ≡ true
    → length (filter (λ e. is_none e.condition) (out_edges g n.key)) ≤ 1

abbrev pub IsPlaced : DerivedGraph → GraphNode → Type 0
IsPlaced g n = (n.key ≡ g.start) ⊎ Reaches (successors g) g.start n.key

append_empty : (xs ys : List ValidationIssue) → (xs ++ ys) ≡ [] → (xs ≡ []) × (ys ≡ [])
append_empty [] ys h = (refl, h)
append_empty (x ∷ xs) ys h = absurd (cc h)

for_all_empty :
    (check : GraphNode → List ValidationIssue) (ns : List GraphNode)
    → for_all check ns ≡ []
    → All (λ n. check n ≡ []) ns
for_all_empty check [] h = tt
for_all_empty check (n ∷ ns) h =
    let (first, rest) = append_empty (check n) (for_all check ns) h in
    (first, for_all_empty check ns rest)

issue_if_empty :
    (b : Bool) (code : String) (key : Option String) → issue_if b code key ≡ [] → b ≡ false
issue_if_empty true code key h = absurd (cc h)
issue_if_empty false code key h = refl

two_empty :
    (a b : Bool) (code d : String) (key : Option String)
    → (issue_if a code key ++ issue_if b d key) ≡ []
    → (a ≡ false) × (b ≡ false)
two_empty true b code d key h = absurd (cc h)
two_empty false b code d key h = (refl, issue_if_empty b d key h)

not-false : (b : Bool) → not b ≡ false → b ≡ true
not-false true h = refl
not-false false h = absurd (cc h)

successors-IsBounded : (g : DerivedGraph) → IsBounded (successors g) g.edges
successors-IsBounded g k =
    ground (arith, length-map (λ (e : GraphEdge). e.to_key) (filter (λ e. e.from_key == k) g.edges))

placed :
    (g : DerivedGraph) (n : GraphNode)
    → orphan_issues (reachable_from g g.start) n ≡ []
    → IsPlaced g n
unfolding reachable_from
placed g n h =
    let found =
      issue_if_empty (not (contains n.key (reachable_from g g.start))) "orphan" (some n.key) h in
    (from_start (successors g) g.edges (suc (length g.edges)) g.start n.key (successors-IsBounded g)
        (omega arith)).0
      (not-false (contains n.key (reachable_from g g.start)) found)

abbrev split_misfit : DerivedGraph → GraphNode → Bool
split_misfit g n =
    is_text n.connector_direction "split"
    && not (nat_eq (length (in_edges g n.key)) 1 && leb 2 (length (out_edges g n.key)))

abbrev join_misfit : DerivedGraph → GraphNode → Bool
join_misfit g n =
    is_text n.connector_direction "join"
    && not (leb 2 (length (in_edges g n.key)) && nat_eq (length (out_edges g n.key)) 1)

has_edges : (g : DerivedGraph) (n : GraphNode) → cardinality_issues g n ≡ [] → HasEdges g n
has_edges g n h = elim (Bool-cases (n.type == "connector")) [
  | inl t ↦
      let is_one = (eq_iff n.type "connector").0 t in
      let (split, join) =
        two_empty (split_misfit g n) (join_misfit g n) "split_cardinality" "join_cardinality"
          (some n.key) (rw t at h) in
      (
        λ other. absurd (other is_one),
        λ c d. ground (arith, split, d),
        λ c d. ground (arith, join, d),
      )
  | inr f ↦
      let few =
        issue_if_empty (ltb 1 (length (out_edges g n.key))) "branch_without_connector" (some n.key)
          (rw f at h) in
      (
        λ other. ground (arith, few),
        λ c. absurd (cc ((eq_iff n.type "connector").1 c, f)),
        λ c. absurd (cc ((eq_iff n.type "connector").1 c, f)),
      )
]

abbrev ambiguous : DerivedGraph → GraphNode → Bool
ambiguous g n =
    is_text n.connector_type "xor"
    && ltb 1 (length (filter (λ e. is_none e.condition) (out_edges g n.key)))

one_default : (g : DerivedGraph) (n : GraphNode) → split_issues g n ≡ [] → HasOneDefault g n
one_default g n h c d x =
    let t = (eq_iff n.type "connector").1 c in
    let (xor, rest) =
      two_empty (ambiguous g n)
        (is_text n.connector_type "or" && any (λ e. is_none e.branch) (out_edges g n.key))
        "xor_unresolvable" "or_untrackable" (some n.key) (rw (t, d) at h) in
    ground (arith, xor, x)

-- what the theorem below says of a graph and its start
abbrev pub IsSound : DerivedGraph → GraphNode → Type 0
IsSound g start =
    (start.type ≡ "event")
    × (is_empty (in_edges g start.key) ≡ true)
    × All (IsPlaced g) g.nodes
    × All (HasEdges g) g.nodes
    × All (HasOneDefault g) g.nodes

graph_issues-IsSound :
    (caps : Option (List String)) (g : DerivedGraph) (start : GraphNode)
    → graph_issues caps g start ≡ ok []
    → IsSound g start
unfolding graph_issues
graph_issues-IsSound caps g start h =
    let (functions, p, q) = >>=-eq-ok (all_function_issues caps g.nodes) _ h in
    let reach = reachable_from g g.start in
    let (starts, q1) = append_empty (start_issues g start) _ (ok_injective q) in
    let (orphans, q2) = append_empty (for_all (orphan_issues reach) g.nodes) _ q1 in
    let (ends, q3) = append_empty (end_issues g reach) _ q2 in
    let (cardinality, q4) = append_empty (for_all (cardinality_issues g) g.nodes) _ q3 in
    let (splits, q5) = append_empty (for_all (split_issues g) g.nodes) _ q4 in
    let (is_event, no_predecessor) =
      two_empty (not (start.type == "event")) (not (is_empty (in_edges g start.key)))
        "start_not_event" "start_has_predecessor" (some start.key) starts in
    (
      (eq_iff start.type "event").0 (not-false (start.type == "event") is_event),
      not-false (is_empty (in_edges g start.key)) no_predecessor,
      All-map (λ n. orphan_issues reach n ≡ []) (IsPlaced g) g.nodes (placed g)
          (for_all_empty (orphan_issues reach) g.nodes orphans),
      All-map (λ n. cardinality_issues g n ≡ []) (HasEdges g) g.nodes (has_edges g)
          (for_all_empty (cardinality_issues g) g.nodes cardinality),
      All-map (λ n. split_issues g n ≡ []) (HasOneDefault g) g.nodes (one_default g)
          (for_all_empty (split_issues g) g.nodes splits),
    )

module _ (meets_schema : Definition → Bool) where
  -- A definition that is published without an issue has an index; its start is an event that no edge
  -- leads to, each of its nodes is the start or is reached from it, the numbers of edges fit the kinds
  -- of the nodes, and an exclusive split has at most one branch without a guard.
  pub validate_publishable-IsSound :
      (d : Definition) (caps : Option (List String))
      → validate_publishable meets_schema d caps ≡ ok []
      → (g : DerivedGraph) × (start : GraphNode) × (derive_index meets_schema d ≡ ok g)
        × (find_node g.start g.nodes ≡ some start)
        × IsSound g start
  unfolding validate_publishable
  validate_publishable-IsSound d caps h = elim (Result-cases (derive_index meets_schema d)) [
    | inr (e, refused) ↦ absurd (cc (rw (refused, validate_publishable) at h))
    | inl (g, derived) ↦ elim (Option-cases (find_node g.start g.nodes)) [
      | inl missing ↦ absurd (cc (rw (derived, missing, validate_publishable) at h))
      | inr (start, found) ↦ (
        g,
        start,
        derived,
        found,
        graph_issues-IsSound caps g start (ground (arith, derived, found, h)),
      )
    ]
  ]
