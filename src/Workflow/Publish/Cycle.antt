-- ===== src/Workflow/Publish/Cycle.antt =====
-- The recursion of `_has_cycle` ends: it goes no deeper than there are nodes.
use bbz_platform.Prelude.{
  ℕ, zero, suc, ◌≤◌, ◌<◌, String, Bool, true, false, ◌&&◌, none, some, List, [], ◌∷◌, map, ◌≡◌,
  refl, sym, subst, inl, inr, Bool-cases, Option-cases, length, length-filter-le, length-map,
  filter, contains, all, lookup, ◌==◌, eq_iff, arith, is_none, is_some,
}
use bbz_platform.Workflow.Graph.{GraphNode, GraphEdge, DerivedGraph}
use bbz_platform.Workflow.Reach.{graph_keys, is_closed}
use bbz_platform.Workflow.Publish.{Colours, Visit, successors, visit_all, visit}

-- the nodes that have no colour yet
abbrev fresh : List String → Colours → ℕ
fresh ks c = length (filter (λ k. is_none (lookup k c)) ks)

-- what has a colour keeps one
abbrev Extends : Colours → Colours → Type 0
Extends c d = (k : String) → is_some (lookup k c) ≡ true → is_some (lookup k d) ≡ true

colour_Extends : (key : String) (b : Bool) (c : Colours) → Extends c ((key, b) ∷ c)
colour_Extends key b c k h = ground (arith, h)

fresh-Extends : (ks : List String) (c d : Colours) → Extends c d → fresh ks d ≤ fresh ks c
fresh-Extends [] c d x = omega arith
fresh-Extends (k ∷ ks) c d x = elim (Option-cases (lookup k c)) [
  | inl e ↦ ground (arith, e, fresh-Extends ks c d x)
  | inr (b, e) ↦ elim (Option-cases (lookup k d)) [
    | inl f ↦ absurd (cc (rw f at (x k (rw e refl))))
    | inr (v, f) ↦ rw (e, f) (fresh-Extends ks c d x)
  ]
]

fresh-colour :
    (ks : List String) (key : String) (b : Bool) (c : Colours)
    → contains key ks ≡ true
    → lookup key c ≡ none
    → fresh ks ((key, b) ∷ c) < fresh ks c
fresh-colour [] key b c m n = absurd (cc m)
fresh-colour (k ∷ ks) key b c m n = elim (Bool-cases (k == key)) [
  | inl e ↦
      let same = (eq_iff k key).0 e in
      let is_new : lookup k c ≡ none = subst (λ (x : String). lookup x c ≡ none) (sym same) n in
      let here : (key == k) ≡ true = (eq_iff key k).1 (sym same) in
      rw (is_new, here) (omega (arith, fresh-Extends ks c ((key, b) ∷ c) (colour_Extends key b c)))
  | inr e ↦ ground (arith, fresh-colour ks key b c (rw e at m) n, eq_iff k key, eq_iff key k)
]

-- a visit that ends, with its colours
abbrev Ends : Colours → Visit → Type 0
Ends c r = (found : Bool) × (d : Colours) × (r ≡ some (found, d)) × Extends c d

abbrev EndsWithin : List String → ℕ → (String → Colours → Visit) → Type 0
EndsWithin ks n f =
    (key : String) (c : Colours)
    → contains key ks ≡ true
    → lookup key c ≡ none
    → fresh ks c ≤ n
    → Ends c (f key c)

Ends-visit_all :
    (ks : List String) (n : ℕ) (f : String → Colours → Visit)
    → EndsWithin ks n f
    → (key : String) (nexts : List String) (c : Colours) → all (λ k. contains k ks) nexts ≡ true
    → fresh ks c ≤ n
    → Ends c (visit_all f key nexts c)
unfolding visit_all
Ends-visit_all ks n f ends key [] c known few =
    (false, (key, true) ∷ c, refl, colour_Extends key true c)
Ends-visit_all ks n f ends key (next ∷ nexts) c known few = elim (Option-cases (lookup next c)) [
  | inr (b, e) ↦ elim (Bool-cases b) [
    | inl t ↦
        let (later, after, r, y) =
          Ends-visit_all ks n f ends key nexts c (ground (arith, known)) few in
        (later, after, ground (arith, e, t, r), y)
    | inr u ↦ (true, c, ground (arith, e, u), λ k h. h)
  ]
  | inl e ↦
      let (found, d, q, x) = ends next c (ground (arith, known)) e few in
      elim (Bool-cases found) [
        | inl t ↦ (true, d, ground (arith, e, q, t), x)
        | inr u ↦
            let (later, after, r, y) =
              Ends-visit_all ks n f ends key nexts d (ground (arith, known))
                (omega (arith, fresh-Extends ks c d x, few)) in
            (later, after, ground (arith, e, q, u, r), λ k h. y k (x k h))
      ]
]

Ends-visit :
    (ks : List String) (nexts : String → List String)
    → ((k : String) → all (λ m. contains m ks) (nexts k) ≡ true)
    → (n : ℕ) → EndsWithin ks n (visit nexts n)
unfolding visit
Ends-visit ks nexts closed zero key c m e few =
    absurd (omega (arith, fresh-colour ks key false c m e))
Ends-visit ks nexts closed (suc n) key c m e few =
    let (found, d, q, x) =
      Ends-visit_all ks n (visit nexts n) (Ends-visit ks nexts closed n) key (nexts key)
        ((key, false) ∷ c) (closed key) (omega (arith, fresh-colour ks key false c m e)) in
    (found, d, q, λ k h. x k (colour_Extends key false c k h))

known_targets :
    (ks : List String) (p : GraphEdge → Bool) (es : List GraphEdge)
    → all (λ e. contains e.from_key ks && contains e.to_key ks) es ≡ true
    → all (λ m. contains m ks) (map (λ e. e.to_key) (filter p es)) ≡ true
known_targets ks p [] h = refl
known_targets ks p (e ∷ es) h = ground (arith, known_targets ks p es, h)

closed_successors :
    (g : DerivedGraph) (k : String)
    → is_closed g ≡ true
    → all (λ m. contains m (graph_keys g)) (successors g k) ≡ true
closed_successors g k h = elim (Bool-cases (contains k (graph_keys g))) [
  | inl e ↦ rw e (known_targets (graph_keys g) (λ e. e.from_key == k) g.edges h)
  | inr e ↦ rw e refl
]

-- In a graph without dangling edges the search for a cycle, from one of its nodes, ends within the
-- fuel that the model gives it.
pub visit_returns :
    (g : DerivedGraph) (start : String)
    → is_closed g ≡ true
    → contains start (graph_keys g) ≡ true
    → is_some (visit (successors g) (length g.nodes) start []) ≡ true
visit_returns g start closed known =
    let (found, d, q, x) =
      Ends-visit (graph_keys g) (successors g) (λ k. closed_successors g k closed) (length g.nodes)
        start [] known refl
        (omega (
          arith,
          length-filter-le (λ k. is_none {A = Bool} (lookup k [])) (graph_keys g),
          length-map (λ (n : GraphNode). n.key) g.nodes,
        )) in
    rw q refl
