-- ===== src/Workflow/Reach/Search.antt =====
-- The depth-first search of `_descendants` against paths in the graph: with the fuel of the model it
-- finds exactly what a path of one edge or more leads to.
use mathlib.Core.List.{reverse, reverse-cons}
use bbz_platform.Prelude.{
  ℕ, zero, suc, ◌+◌, ◌≤◌, String, true, false, not, ◌||◌, List, [], ◌∷◌, ◌++◌, ◌≡◌, refl, sym,
  subst, ◌⊎◌, inl, inr, ◌↔◌, length, length-append, filter, contains, arith, Bool-cases, eq_iff,
  ◌==◌,
}
use bbz_platform.Prelude.{length-filter-le, length-filter-sorted, length-map}
use bbz_platform.Workflow.Graph.{GraphEdge, DerivedGraph}
use bbz_platform.Workflow.Reach.{
  targets, edges_out, explore, explore_fuel, edge_lt, descendants, graph_keys,
}

abbrev In : String → List String → Type 0
In k xs = contains k xs ≡ true

-- a path of one edge or more
pub data Reaches (next : String → List String) (j : String) : String → Type 0 where
  edge : {k : String} → contains k (next j) ≡ true → Reaches next j k
  step : {k l : String} → Reaches next j k → contains l (next k) ≡ true → Reaches next j l

contains-append :
    (k : String) (xs ys : List String) → contains k (xs ++ ys) ≡ (contains k xs || contains k ys)
contains-append k [] ys = refl
contains-append k (x ∷ xs) ys = ground (arith, contains-append k xs ys)

contains-reverse : (k : String) (xs : List String) → contains k (reverse xs) ≡ contains k xs
contains-reverse k [] = refl
contains-reverse k (x ∷ xs) =
    rw (reverse-cons, contains-append) (ground (arith, contains-reverse k xs))

length-reverse : (xs : List String) → length (reverse xs) ≡ length xs
length-reverse [] = refl
length-reverse (x ∷ xs) = rw (reverse-cons, length-append) (omega (arith, length-reverse xs))

in_tail : (k i : String) (xs : List String) → In i xs → In i (k ∷ xs)
in_tail k i xs h = ground arith

head_in : (k : String) (xs : List String) → In k (k ∷ xs)
head_in k xs = ground (arith, eq_iff k k)

in_cons : (k i : String) (xs : List String) → In i (k ∷ xs) → (k ≡ i) ⊎ In i xs
in_cons k i xs h = elim (Bool-cases (k == i)) [
  | inl e ↦ inl ((eq_iff k i).0 e)
  | inr e ↦ inr (rw e at h)
]

in_append : (i : String) (xs ys : List String) → In i (xs ++ ys) → In i xs ⊎ In i ys
in_append i xs ys h = elim (Bool-cases (contains i xs)) [
  | inl e ↦ inl e
  | inr e ↦ inr (rw (contains-append, e) at h)
]

-- the edges out of a node, and the edges out of nodes that the search has not seen
abbrev pub outgoing : String → List GraphEdge → ℕ
outgoing k es = length (filter (λ e. e.from_key == k) es)

abbrev unseen : List String → List GraphEdge → ℕ
unseen seen es = length (filter (λ e. not (contains e.from_key seen)) es)

unseen-visit :
    (k : String) (seen : List String) (es : List GraphEdge)
    → contains k seen ≡ false
    → unseen (k ∷ seen) es + outgoing k es ≡ unseen seen es
unseen-visit k seen [] h = omega arith
unseen-visit k seen (e ∷ es) h =
    ground (arith, unseen-visit k seen es h, eq_iff e.from_key k, eq_iff k e.from_key)

length-edges_out-le : (g : DerivedGraph) (k : String) → length (edges_out g k) ≤ outgoing k g.edges
unfolding edges_out
length-edges_out-le g k = elim (Bool-cases (contains k (graph_keys g))) [
  | inl e ↦
      rw (e, edges_out) (omega (arith, length-filter-sorted (λ e. e.from_key == k) edge_lt g.edges))
  | inr e ↦ rw (e, edges_out) (omega arith)
]

length-targets-le : (g : DerivedGraph) (k : String) → length (targets g k) ≤ outgoing k g.edges
length-targets-le g k =
    omega (arith, length-edges_out-le g k, length-map (λ (e : GraphEdge). e.to_key) (edges_out g k))

-- the successors of a node are as many as its edges out, or fewer
abbrev pub IsBounded : (String → List String) → List GraphEdge → Type 0
IsBounded next es = (k : String) → length (next k) ≤ outgoing k es

module _ (next : String → List String) where
  -- what holds of the nodes to begin with, and goes over to successors, holds of all that is found
  explore_sound :
      (P : String → Type 0)
      → ((k l : String) → P k → In l (next k) → P l)
      → (fuel : ℕ) (seen stack : List String) (l : String) → ((k : String) → In k seen → P k)
      → ((k : String) → In k stack → P k)
      → In l (explore next fuel seen stack)
      → P l
  unfolding explore
  explore_sound P onwards fuel seen [] l hs ht m = hs l m
  explore_sound P onwards zero seen (k ∷ stack) l hs ht m = hs l m
  explore_sound P onwards (suc fuel) seen (k ∷ stack) l hs ht m =
      elim (Bool-cases (contains k seen)) [
        | inl e ↦
            explore_sound P onwards fuel seen stack l hs (λ i p. ht i (in_tail k i stack p))
              (rw (e, explore) at m)
        | inr e ↦
            explore_sound P onwards fuel (k ∷ seen) (reverse (next k) ++ stack) l
              (λ i p. elim (in_cons k i seen p) [
                | inl q ↦ subst (λ (x : String). P x) q (ht k (head_in k stack))
                | inr q ↦ hs i q
              ])
              (λ i p. elim (in_append i (reverse (next k)) stack p) [
                | inl q ↦ onwards k i (ht k (head_in k stack)) (rw contains-reverse at q)
                | inr q ↦ ht i (in_tail k i stack q)
              ])
              (rw (e, explore) at m)
      ]

  -- the edges out of what is seen lead to what is seen or waits on the stack
  Closed : List String → List String → Type 0
  Closed seen stack =
      (k l : String) → In k seen → In l (next k) → (contains l seen || contains l stack) ≡ true

  Closed-skip :
      (k : String) (seen stack : List String)
      → In k seen
      → Closed seen (k ∷ stack)
      → Closed seen stack
  unfolding Closed
  Closed-skip k seen stack h c i l m n = elim (Bool-cases (k == l)) [
    | inl e ↦ ground (arith, subst (λ (x : String). In x seen) ((eq_iff k l).0 e) h)
    | inr e ↦ rw e at (c i l m n)
  ]

  Closed-visit :
      (k : String) (seen stack : List String)
      → Closed seen (k ∷ stack)
      → Closed (k ∷ seen) (reverse (next k) ++ stack)
  unfolding Closed
  Closed-visit k seen stack c i l m n = elim (in_cons k i seen m) [
    | inl q ↦ ground (
      arith,
      contains-append l (reverse (next k)) stack,
      contains-reverse l (next k),
      subst (λ (x : String). In l (next x)) (sym q) n,
    )
    | inr q ↦ ground (arith, contains-append l (reverse (next k)) stack, c i l q n)
  ]

  record IsDone (seen stack found : List String) : Type 0 where
    keeps : (k : String) → In k seen → In k found
    takes : (k : String) → In k stack → In k found
    closed : (k l : String) → In k found → In l (next k) → In l found

  explore-IsDone :
      (es : List GraphEdge)
      → IsBounded next es
      → (fuel : ℕ) (seen stack : List String) → length stack + unseen seen es ≤ fuel
      → Closed seen stack
      → IsDone seen stack (explore next fuel seen stack)
  unfolding explore Closed
  explore-IsDone es bounded fuel seen [] b c = record {
    keeps = λ k m. m;
    takes = λ k m. cc m;
    closed = λ k l m n. ground (arith, c k l m n);
  }
  explore-IsDone es bounded zero seen (k ∷ stack) b c = absurd (omega arith)
  explore-IsDone es bounded (suc fuel) seen (k ∷ stack) b c = elim (Bool-cases (contains k seen)) [
    | inl e ↦
        let rest =
          explore-IsDone es bounded fuel seen stack (omega arith) (Closed-skip k seen stack e c) in
        rw (e, explore)
          (record {
            keeps = rest.keeps;
            takes = λ i p. elim (in_cons k i stack p) [
              | inl q ↦ rest.keeps i (subst (λ (x : String). In x seen) q e)
              | inr q ↦ rest.takes i q
            ];
            closed = rest.closed;
          })
    | inr e ↦
        let rest =
          explore-IsDone es bounded fuel (k ∷ seen) (reverse (next k) ++ stack)
            (omega (
              arith,
              unseen-visit k seen es e,
              bounded k,
              length-append (reverse (next k)) stack,
              length-reverse (next k),
            ))
            (Closed-visit k seen stack c) in
        rw (e, explore)
          (record {
            keeps = λ i p. rest.keeps i (in_tail k i seen p);
            takes = λ i p. elim (in_cons k i stack p) [
              | inl q ↦ rest.keeps i (subst (λ (x : String). In x (k ∷ seen)) q (head_in k seen))
              | inr q ↦ rest.takes i (ground (arith, contains-append i (reverse (next k)) stack))
            ];
            closed = rest.closed;
          })
  ]

  found_all :
      (start : List String) (j l : String) (found : List String)
      → IsDone [] start found
      → ((k : String) → In k (next j) → In k found)
      → Reaches next j l
      → In l found
  found_all start j l found d first (Reaches.edge m) = first l m
  found_all start j l found d first (Reaches.step {k} r m) =
      d.closed k l (found_all start j k found d first r) m

  -- a search from a node, the node itself among what it finds
  pub from_start :
      (es : List GraphEdge) (fuel : ℕ) (j l : String)
      → IsBounded next es
      → 1 + length es ≤ fuel
      → contains l (explore next fuel [] (j ∷ [])) ≡ true ↔ (l ≡ j) ⊎ Reaches next j l
  unfolding Closed
  from_start es fuel j l bounded enough =
      let done =
        explore-IsDone es bounded fuel [] (j ∷ [])
          (omega
            (arith, enough, length-filter-le (λ (e : GraphEdge). not (contains e.from_key [])) es))
          (λ k m p n. cc p) in
      (
        explore_sound (λ k. (k ≡ j) ⊎ Reaches next j k) onwards_from fuel [] (j ∷ []) l
            (λ k m. cc m)
            (λ k m. elim (in_cons j k [] m) [ inl q ↦ inl (sym q) | inr q ↦ absurd (cc q) ]),
        λ r. elim r [
          | inl q ↦
              subst (λ (x : String). In x (explore next fuel [] (j ∷ []))) (sym q)
                (done.takes j (head_in j []))
          | inr q ↦
              found_all (j ∷ []) j l (explore next fuel [] (j ∷ [])) done
                (λ k m. done.closed j k (done.takes j (head_in j [])) m) q
        ],
      )
    where
      onwards_from :
          (k m : String) → (k ≡ j) ⊎ Reaches next j k → In m (next k) → (m ≡ j) ⊎ Reaches next j m
      onwards_from k m (inl q) n = inr (Reaches.edge (subst (λ (x : String). In m (next x)) q n))
      onwards_from k m (inr r) n = inr (Reaches.step r n)

-- `_descendants` of a node holds exactly the keys that a path of one edge or more leads to from it.
pub descendants_iff :
    (g : DerivedGraph) (j l : String)
    → contains l (descendants g j) ≡ true ↔ Reaches (targets g) j l
unfolding descendants Closed
descendants_iff g j l =
    let done =
      explore-IsDone (targets g) g.edges (length-targets-le g) (explore_fuel g) []
        (reverse (targets g j))
        (omega (
          arith,
          length-targets-le g j,
          length-reverse (targets g j),
          length-filter-le (λ (e : GraphEdge). e.from_key == j) g.edges,
          length-filter-le (λ (e : GraphEdge). not (contains e.from_key [])) g.edges,
        ))
        (λ k l m n. cc m) in
    (
      explore_sound (targets g) (Reaches (targets g) j) (λ k m r n. Reaches.step r n)
          (explore_fuel g) [] (reverse (targets g j)) l (λ k m. cc m)
          (λ k m. Reaches.edge (rw contains-reverse at m)),
      λ r.
          found_all (targets g) (reverse (targets g j)) j l (descendants g j) done
            (λ k m. done.takes k (rw contains-reverse m)) r,
    )
