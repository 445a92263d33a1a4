-- ===== src/Workflow/Graph/Derived.antt =====
-- What `derive_index` (server/bbz_core/domain/workflow/graph.py) promises to the engine: the
-- conditions under which its index does not raise.
use bbz_platform.Prelude.{
  filter_none, str_lt, ◌≤◌, String, Bool, true, false, ◌&&◌, List, [], ◌∷◌, map, ok, >>=-eq-ok,
  ok_injective, guard-eq-ok, ◌≡◌, refl, sym, subst, ltb, is_empty, all, filter, contains, sorted,
  insert_sorted, arith, Bool-cases, inl, inr, ◌∙◌,
}
use bbz_platform.Workflow.Graph.{
  Definition, DefinitionNode, DefinitionEdge, GraphNode, GraphEdge, DerivedGraph, schema_violated,
  missing_source, missing_target, count, distinct, duplicates, check_edges, node_keys, edge_keys,
  validate_graph, flatten, derive_index, to_node, to_edge, node_before, edge_before,
}
use bbz_platform.Workflow.Reach.{graph_keys, is_closed}

module _ {ℓ} {A : Type ℓ} (before : A → A → Bool) where
  is_empty-insert : (x : A) (xs : List A) → is_empty (insert_sorted before x xs) ≡ false
  unfolding insert_sorted
  is_empty-insert x [] = refl
  is_empty-insert x (y ∷ ys) = ground arith

  is_empty-sorted : (xs : List A) → is_empty (sorted before xs) ≡ is_empty xs
  unfolding sorted
  is_empty-sorted [] = refl
  is_empty-sorted (x ∷ xs) = is_empty-insert x (sorted before xs)

  all-insert :
      (p : A → Bool) (x : A) (xs : List A) → all p (insert_sorted before x xs) ≡ (p x && all p xs)
  unfolding insert_sorted
  all-insert p x [] = refl
  all-insert p x (y ∷ ys) = ground (arith, all-insert p x ys)

  all-sorted : (p : A → Bool) (xs : List A) → all p (sorted before xs) ≡ all p xs
  unfolding sorted
  all-sorted p [] = refl
  all-sorted p (x ∷ xs) = ground (arith, all-insert p x (sorted before xs), all-sorted p xs)

  count-insert :
      (f : A → String) (k : String) (x : A) (xs : List A)
      → count k (map f (insert_sorted before x xs)) ≡ count k (map f (x ∷ xs))
  unfolding insert_sorted
  count-insert f k x [] = refl
  count-insert f k x (y ∷ ys) = ground (arith, count-insert f k x ys)

  count-sorted :
      (f : A → String) (k : String) (xs : List A)
      → count k (map f (sorted before xs)) ≡ count k (map f xs)
  unfolding sorted
  count-sorted f k [] = refl
  count-sorted f k (x ∷ xs) =
      ground (arith, count-insert f k x (sorted before xs), count-sorted f k xs)

contains-count : (k : String) (xs : List String) → contains k xs ≡ ltb 0 (count k xs)
contains-count k [] = refl
contains-count k (x ∷ xs) = ground (arith, contains-count k xs)

is_empty-distinct : (xs : List String) → is_empty (distinct xs) ≡ is_empty xs
is_empty-distinct [] = refl
is_empty-distinct (x ∷ []) = refl
is_empty-distinct (x ∷ y ∷ ys) = ground (arith, is_empty-distinct (y ∷ ys))

no_duplicates :
    (names : List String) (k : String) → is_empty (duplicates names) ≡ true → count k names ≤ 1
unfolding duplicates
no_duplicates names k h =
    let none_twice : is_empty (filter (λ i. ltb 1 (count i names)) names) ≡ true =
      sym (is_empty-distinct (filter (λ i. ltb 1 (count i names)) names))
      ∙ (sym (is_empty-sorted str_lt (distinct (filter (λ i. ltb 1 (count i names)) names))) ∙ h) in
    elim (Bool-cases (contains k names)) [
      | inl m ↦ ground (arith, filter_none (λ i. ltb 1 (count i names)) k names none_twice m)
      | inr m ↦ ground (arith, contains-count k names)
    ]

node_count :
    (k : String) (ns : List DefinitionNode)
    → count k (map (λ (n : GraphNode). n.key) (map to_node ns))
      ≡ count k (map (λ (n : DefinitionNode). n.key) ns)
node_count k [] = refl
node_count k (n ∷ ns) = ground (arith, node_count k ns)

edge_count :
    (k : String) (es : List DefinitionEdge)
    → count k (map (λ (e : GraphEdge). e.key) (map to_edge es))
      ≡ count k (map (λ (e : DefinitionEdge). e.key) es)
edge_count k [] = refl
edge_count k (e ∷ es) = ground (arith, edge_count k es)

graph_count :
    (d : Definition) (k : String) → count k (graph_keys (flatten d)) ≡ count k (node_keys d.nodes)
graph_count d k =
    node_count k (sorted node_before d.nodes)
    ∙ count-sorted node_before (λ (n : DefinitionNode). n.key) k d.nodes

graph_contains :
    (d : Definition) (k : String)
    → contains k (graph_keys (flatten d)) ≡ contains k (node_keys d.nodes)
graph_contains d k = ground (
  arith,
  contains-count k (graph_keys (flatten d)),
  contains-count k (node_keys d.nodes),
  graph_count d k,
)

all-to_edge :
    (p : GraphEdge → Bool) (es : List DefinitionEdge)
    → all p (map to_edge es) ≡ all (λ e. p (to_edge e)) es
all-to_edge p [] = refl
all-to_edge p (e ∷ es) = ground (arith, all-to_edge p es)

ends_known :
    (d : Definition) (es : List DefinitionEdge)
    → check_edges (node_keys d.nodes) es ≡ ok tt
    → all
        (λ e.
          contains e.source (graph_keys (flatten d)) && contains e.target (graph_keys (flatten d)))
        es
      ≡ true
unfolding check_edges
ends_known d [] h = refl
ends_known d (e ∷ es) h =
    let (source_known, rest) =
      guard-eq-ok (contains e.source (node_keys d.nodes)) (missing_source e.key) _ h in
    let (target_known, others) =
      guard-eq-ok (contains e.target (node_keys d.nodes)) (missing_target e.key) _ rest in
    ground (
      arith,
      source_known,
      target_known,
      graph_contains d e.source,
      graph_contains d e.target,
      ends_known d es others,
    )

closed_flat :
    (d : Definition)
    → check_edges (node_keys d.nodes) d.edges ≡ ok tt
    → is_closed (flatten d) ≡ true
closed_flat d h =
    all-to_edge
      (λ e.
        contains e.from_key (graph_keys (flatten d)) && contains e.to_key (graph_keys (flatten d)))
      (sorted edge_before d.edges)
    ∙ (all-sorted edge_before
          (λ e.
            contains e.source (graph_keys (flatten d))
            && contains e.target (graph_keys (flatten d)))
          d.edges
        ∙ ends_known d d.edges h)

module _ (meets_schema : Definition → Bool) where
  -- An index that `derive_index` returns has no dangling edge, its start is one of its nodes, and no
  -- two of its nodes and no two of its edges share a key.
  pub derive_index_sound :
      (d : Definition) (g : DerivedGraph)
      → derive_index meets_schema d ≡ ok g
      → (is_closed g ≡ true)
        × (contains g.start (graph_keys g) ≡ true)
        × ((k : String) → count k (graph_keys g) ≤ 1)
        × ((k : String) → count k (map (λ e. e.key) g.edges) ≤ 1)
  unfolding derive_index validate_graph
  derive_index_sound d g h =
      let (u, valid, flat) = >>=-eq-ok (validate_graph meets_schema d) (λ _. ok (flatten d)) h in
      let (v0, h1) = guard-eq-ok (meets_schema d) schema_violated _ valid in
      let (v1, h2) = guard-eq-ok (is_empty (duplicates (node_keys d.nodes))) _ _ h1 in
      let (v2, h3) = guard-eq-ok (contains d.start (node_keys d.nodes)) _ _ h2 in
      let (v3, h4) = guard-eq-ok (is_empty (duplicates (edge_keys d.edges))) _ _ h3 in
      subst
        (λ (x : DerivedGraph).
          (is_closed x ≡ true)
          × (contains x.start (graph_keys x) ≡ true)
          × ((k : String) → count k (graph_keys x) ≤ 1)
          × ((k : String) → count k (map (λ e. e.key) x.edges) ≤ 1))
        (ok_injective flat)
        (
          closed_flat d h4,
          graph_contains d d.start ∙ v2,
          λ k. omega (arith, graph_count d k, no_duplicates (node_keys d.nodes) k v1),
          λ k. omega (
            arith,
            edge_count k (sorted edge_before d.edges),
            count-sorted edge_before (λ (e : DefinitionEdge). e.key) k d.edges,
            no_duplicates (edge_keys d.edges) k v3,
          ),
        )
