-- ===== src/Workflow/Engine/Splits.antt =====
-- Which branches a choice connector takes.
use bbz_platform.Prelude.{
  is_text, String, true, false, Option, none, some, List, [], ◌∷◌, ◌≡◌, refl, ap, ◌∙◌, subst, ◌⊎◌,
  ok, >>=-eq-ok, ok_injective, Result-cases, Option-cases, Bool-cases, inl, inr, arith, All, lookup,
}
use bbz_platform.RuleDsl.Value.{Fields}
use bbz_platform.RuleDsl.Eval.{Context}
use bbz_platform.Workflow.Graph.{GraphNode, GraphEdge}
use bbz_platform.Workflow.Reach.{edges_out}
use bbz_platform.Workflow.Engine.{
  Run, State, waiting, consumed, mark, spawn_on, guard_true, first_guarded, unguarded,
  auto_branches, hit_or_default, wanted_edges, follow_decision, follow_guards, choice_split,
}

-- the guard of an edge holds
abbrev pub Holds : Context → GraphEdge → Type 0
Holds ctx e = (c : Fields) × (e.condition ≡ some c) × (guard_true ctx c ≡ ok true)

-- the guard of an edge is there and does not hold, or there is none
abbrev pub Fails : Context → GraphEdge → Type 0
Fails ctx e =
    (e.condition ≡ none) ⊎ ((c : Fields) × (e.condition ≡ some c) × (guard_true ctx c ≡ ok false))

-- `e` is the first edge of the list whose guard holds
pub data IsFirst (ctx : Context) (e : GraphEdge) : List GraphEdge → Type 0 where
  here : (out : List GraphEdge) → Holds ctx e → IsFirst ctx e (e ∷ out)
  later :
      {d : GraphEdge} {out : List GraphEdge}
      → Fails ctx d
      → IsFirst ctx e out
      → IsFirst ctx e (d ∷ out)

-- `e` is the first edge of the list that has no guard
pub data IsDefault (e : GraphEdge) : List GraphEdge → Type 0 where
  found : (out : List GraphEdge) → e.condition ≡ none → IsDefault e (e ∷ out)
  skipped : {d : GraphEdge} {out : List GraphEdge} → IsDefault e out → IsDefault e (d ∷ out)

-- what the loop over the guards finds
abbrev Finds : Context → List GraphEdge → Option GraphEdge → Type 0
Finds ctx out none = All (Fails ctx) out
Finds ctx out (some e) = IsFirst ctx e out

Finds-later :
    (ctx : Context) (d : GraphEdge) (out : List GraphEdge) (r : Option GraphEdge)
    → Fails ctx d
    → Finds ctx out r
    → Finds ctx (d ∷ out) r
Finds-later ctx d out none f h = (f, h)
Finds-later ctx d out (some e) f h = later f h

first_guarded-Finds :
    (ctx : Context) (out : List GraphEdge) (r : Option GraphEdge)
    → first_guarded ctx out ≡ ok r
    → Finds ctx out r
unfolding first_guarded
first_guarded-Finds ctx [] r h = subst (Finds ctx []) (ok_injective h) tt
first_guarded-Finds ctx (d ∷ out) r h = elim (Option-cases d.condition) [
  | inl n ↦
      Finds-later ctx d out r (inl n) (first_guarded-Finds ctx out r (rw (n, first_guarded) at h))
  | inr (c, n) ↦ elim (Result-cases (guard_true ctx c)) [
    | inl (b, g) ↦ elim (Bool-cases b) [
      | inl t ↦
          let same : some d ≡ r = ground (arith, n, g, t, h) in
          subst (Finds ctx (d ∷ out)) same (here out (c, n, g ∙ ap ok t))
      | inr f ↦
          Finds-later ctx d out r (inr (c, n, g ∙ ap ok f))
            (first_guarded-Finds ctx out r (ground (arith, n, g, f, h)))
    ]
    | inr (x, g) ↦ absurd (ground (arith, n, g, h))
  ]
]

IsDefault-found :
    (e : GraphEdge) (out rest : List GraphEdge) → unguarded out ≡ e ∷ rest → IsDefault e out
IsDefault-found e [] rest h = cc
IsDefault-found e (d ∷ out) rest h = elim (Option-cases d.condition) [
  | inl n ↦
      let same : d ≡ e = ground (arith, n, h) in
      subst (λ x. IsDefault x (d ∷ out)) same (found out n)
  | inr (c, n) ↦ skipped (IsDefault-found e out rest (ground (arith, n, h)))
]

-- the branch of an exclusive split, by its guards: the first that holds, else the first default
abbrev pub IsAuto : Context → List GraphEdge → GraphEdge → Type 0
IsAuto ctx out e = IsFirst ctx e out ⊎ (All (Fails ctx) out × IsDefault e out)

-- no guard holds, and there is no default
abbrev pub IsUndecided : Context → List GraphEdge → Type 0
IsUndecided ctx out = All (Fails ctx) out × (unguarded out ≡ [])

abbrev Picks : Context → List GraphEdge → Option (List GraphEdge) → Type 0
Picks ctx out r =
    ((e : GraphEdge) × (r ≡ some (e ∷ [])) × IsAuto ctx out e) ⊎ ((r ≡ none) × IsUndecided ctx out)

List-cases {ℓ} :
    {A : Type ℓ} (xs : List A) → (xs ≡ []) ⊎ ((x : A) × (rest : List A) × (xs ≡ x ∷ rest))
List-cases [] = inl refl
List-cases (x ∷ xs) = inr (x, xs, refl)

hit-Picks :
    (ctx : Context) (out : List GraphEdge) (hit : Option GraphEdge)
    → Finds ctx out hit
    → Picks ctx out (hit_or_default out hit)
hit-Picks ctx out (some e) f = inl (e, refl, inl f)
hit-Picks ctx out none f = elim (List-cases (unguarded out)) [
  | inl n ↦ inr (rw (n, hit_or_default) refl, (f, n))
  | inr (e, rest, n) ↦ inl (e, rw (n, hit_or_default) refl, inr (f, IsDefault-found e out rest n))
]

auto-Picks :
    (ctx : Context) (out : List GraphEdge) (r : Option (List GraphEdge))
    → auto_branches ctx out true ≡ ok r
    → Picks ctx out r
unfolding auto_branches
auto-Picks ctx out r h =
    let (hit, p, q) = >>=-eq-ok (first_guarded ctx out) _ h in
    subst (Picks ctx out) (ok_injective q)
      (hit-Picks ctx out hit (first_guarded-Finds ctx out hit p))

decided :
    (key : String) (chosen : List GraphEdge) (s t : State)
    → follow_decision key true chosen s ≡ ok t
    → (e : GraphEdge) × (chosen ≡ e ∷ [])
      × (t.work ≡ spawn_on (mark consumed s.work) (e ∷ []))
      × (t.made ≡ s.made)
unfolding follow_decision
decided key [] s t h = absurd (cc h)
decided key (e ∷ []) s t h = (e, refl, ground (arith, h), ground (arith, h))
decided key (e ∷ d ∷ es) s t h = absurd (ground (arith, h))

-- At an XOR split for which no decision is recorded, a step that returns consumes the token and
-- spawns one on a single branch, the first whose guard holds or, if none holds, the first without a
-- guard; or it parks the token, if no guard holds and every branch has one.
pub choice_split_xor :
    (run : Run) (node : GraphNode) (s t : State)
    → is_text node.connector_type "xor" ≡ true
    → lookup node.key run.decisions ≡ none
    → choice_split run node s ≡ ok t
    → ((e : GraphEdge) × (t.work ≡ spawn_on (mark consumed s.work) (e ∷ []))
        × IsAuto run.context (edges_out run.graph node.key) e)
      ⊎ ((t.work ≡ mark waiting s.work) × IsUndecided run.context (edges_out run.graph node.key))
unfolding choice_split follow_guards
choice_split_xor run node s t x d h =
    let (r, p, q) =
      >>=-eq-ok (auto_branches run.context (edges_out run.graph node.key) true)
        (λ chosen. ok (follow_guards node.key chosen s)) (rw x at (rw (d, choice_split) at h)) in
    elim (auto-Picks run.context (edges_out run.graph node.key) r p) [
      | inl (e, a, b) ↦ inl (e, ground (arith, a, q), b)
      | inr (a, b) ↦ inr (ground (arith, a, q), b)
    ]

-- A recorded decision at an XOR split that returns spawns one token, on an edge out of the split
-- that the decision names.
pub choice_split_decided :
    (run : Run) (node : GraphNode) (wanted : List String) (s t : State)
    → is_text node.connector_type "xor" ≡ true
    → lookup node.key run.decisions ≡ some wanted
    → choice_split run node s ≡ ok t
    → (e : GraphEdge) × (wanted_edges wanted (edges_out run.graph node.key) ≡ e ∷ [])
      × (t.work ≡ spawn_on (mark consumed s.work) (e ∷ []))
      × (t.made ≡ s.made)
unfolding choice_split follow_decision
choice_split_decided run node wanted s t x d h =
    decided node.key (wanted_edges wanted (edges_out run.graph node.key)) s t
      (rw x at (rw (d, choice_split) at h))
