-- ===== src/Workflow/Engine/Tokens.antt =====
-- What a run does to the tokens that it was given: none is lost or made up, and a state only moves
-- on, from active to waiting to consumed.
use bbz_platform.Prelude.{
  is_text, ℕ, zero, suc, String, Bool, true, false, Option, none, some, List, [], ◌∷◌, ◌++◌, map,
  ◌≡◌, refl, ◌∙◌, subst, ok, >>=-eq-ok, ok_injective, Result-cases, Option-cases, Bool-cases, inl,
  inr, arith, All, All-append, lookup, if◌then◌else◌,
}
use bbz_platform.Workflow.Graph.{GraphNode, GraphEdge}
use bbz_platform.Workflow.Reach.{edges_out, find_node}
use bbz_platform.Workflow.Engine.{
  TokenState, active, waiting, consumed, is_active, Work, Run, State, first_active, mark, spawn,
  spawn_on, is_present, consume, fire_join, maybe_fire_and_join, fire_choice_join,
  maybe_fire_or_join, follow_decision, follow_guards, choice_split, auto_branches, join, connector,
  process_at, process, run_loop, wanted_edges,
}

abbrev pub Later : TokenState → TokenState → Type 0
Later active _ = Unit
Later waiting active = ⊥
Later waiting _ = Unit
Later consumed consumed = Unit
Later consumed _ = ⊥

-- the same token, in the same state or a later one
abbrev pub Moved : Work → Work → Type 0
Moved w v =
    (v.id ≡ w.id)
    × (v.node_key ≡ w.node_key)
    × (v.was_active ≡ w.was_active)
    × Later w.state v.state

abbrev pub IsSpawned : Work → Type 0
IsSpawned w = (w.id ≡ none) × (w.was_active ≡ false)

-- The tokens of the first list stand at the head of the second, and behind them what was spawned.
abbrev pub Evolves : List Work → List Work → Type 0
Evolves [] vs = All IsSpawned vs
Evolves (w ∷ ws) [] = ⊥
Evolves (w ∷ ws) (v ∷ vs) = Moved w v × Evolves ws vs

Later-refl : (s : TokenState) → Later s s
Later-refl active = tt
Later-refl waiting = tt
Later-refl consumed = tt

Later-trans : (s t u : TokenState) → Later s t → Later t u → Later s u
Later-trans active t u p q = tt
Later-trans waiting waiting u p q = q
Later-trans waiting consumed consumed p q = tt
Later-trans waiting active u p q = absurd p
Later-trans waiting consumed active p q = absurd q
Later-trans waiting consumed waiting p q = absurd q
Later-trans consumed consumed u p q = q
Later-trans consumed active u p q = absurd p
Later-trans consumed waiting u p q = absurd p

Evolves-IsSpawned : (vs us : List Work) → All IsSpawned vs → Evolves vs us → All IsSpawned us
Evolves-IsSpawned [] us h e = e
Evolves-IsSpawned (v ∷ vs) [] h e = absurd e
Evolves-IsSpawned (v ∷ vs) (u ∷ us) (h, hs) ((i, n, a, l), e) =
    ((i ∙ h.0, a ∙ h.1), Evolves-IsSpawned vs us hs e)

pub Evolves-trans : (ws vs us : List Work) → Evolves ws vs → Evolves vs us → Evolves ws us
Evolves-trans [] vs us p q = Evolves-IsSpawned vs us p q
Evolves-trans (w ∷ ws) [] us p q = absurd p
Evolves-trans (w ∷ ws) (v ∷ vs) [] p q = absurd q
Evolves-trans (w ∷ ws) (v ∷ vs) (u ∷ us) ((i, n, a, l), p) ((j, m, b, k), q) =
    ((j ∙ i, m ∙ n, b ∙ a, Later-trans w.state v.state u.state l k), Evolves-trans ws vs us p q)

Moved-refl : (w : Work) → Moved w w
Moved-refl w = (refl, refl, refl, Later-refl w.state)

pub Evolves-refl : (ws : List Work) → Evolves ws ws
Evolves-refl [] = tt
Evolves-refl (w ∷ ws) = (Moved-refl w, Evolves-refl ws)

pub Evolves-append :
    (ws vs us : List Work) → Evolves ws vs → All IsSpawned us → Evolves ws (vs ++ us)
Evolves-append [] vs us p q = All-append IsSpawned vs us p q
Evolves-append (w ∷ ws) [] us p q = absurd p
Evolves-append (w ∷ ws) (v ∷ vs) us (m, p) q = (m, Evolves-append ws vs us p q)

spawn-IsSpawned : (es : List GraphEdge) → All IsSpawned (map spawn es)
spawn-IsSpawned [] = tt
spawn-IsSpawned (e ∷ es) = ((refl, refl), spawn-IsSpawned es)

pub Evolves-spawn_on :
    (ws vs : List Work) (es : List GraphEdge) → Evolves ws vs → Evolves ws (spawn_on vs es)
Evolves-spawn_on ws vs es p = Evolves-append ws vs (map spawn es) p (spawn-IsSpawned es)

Later-of_active : (s t : TokenState) → is_active s ≡ true → Later s t
Later-of_active active t h = tt
Later-of_active waiting t h = cc
Later-of_active consumed t h = cc

Later-consumed : (s : TokenState) → Later s consumed
Later-consumed active = tt
Later-consumed waiting = tt
Later-consumed consumed = tt

-- an active token may be marked as anything
mark-Moved :
    (s : TokenState) (w : Work) → is_active w.state ≡ true → Moved w (record w { state = s })
mark-Moved s w h = (refl, refl, refl, Later-of_active w.state s h)

pub Evolves-mark : (s : TokenState) (ws : List Work) → Evolves ws (mark s ws)
Evolves-mark s [] = tt
Evolves-mark s (w ∷ ws) = elim (Bool-cases (is_active w.state)) [
  | inl e ↦ rw e (mark-Moved s w e, Evolves-refl ws)
  | inr e ↦ rw e (Moved-refl w, Evolves-mark s ws)
]

consume-Moved : (key : String) (w : Work) → Moved w (consume key w)
consume-Moved key w = elim (Bool-cases (is_present key w)) [
  | inl e ↦ rw e (refl, refl, refl, Later-consumed w.state)
  | inr e ↦ rw e (Moved-refl w)
]

Evolves-consume : (key : String) (ws : List Work) → Evolves ws (map (consume key) ws)
Evolves-consume key [] = tt
Evolves-consume key (w ∷ ws) = (consume-Moved key w, Evolves-consume key ws)

Evolves-fire_join : (run : Run) (key : String) (ws : List Work) → Evolves ws (fire_join run key ws)
unfolding fire_join
Evolves-fire_join run key ws =
    Evolves-spawn_on ws (map (consume key) ws) (edges_out run.graph key) (Evolves-consume key ws)

Evolves-if :
    (b : Bool) (ws vs us : List Work)
    → Evolves ws vs
    → Evolves ws us
    → Evolves ws (if b then vs else us)
Evolves-if true ws vs us p q = p
Evolves-if false ws vs us p q = q

Evolves-join : (run : Run) (node : GraphNode) (ws : List Work) → Evolves ws (join run node ws)
unfolding join maybe_fire_and_join fire_choice_join maybe_fire_or_join
Evolves-join run node ws =
    let fired = Evolves-fire_join run node.key ws in
    let same = Evolves-refl ws in
    Evolves-if (is_text node.connector_type "and") ws _ _ (Evolves-if _ ws _ _ same fired) (
      Evolves-if (is_text node.connector_type "xor") ws _ _ (Evolves-if _ ws _ _ fired same)
        (Evolves-if _ ws _ _ same (Evolves-if _ ws _ _ same fired)))

Evolves-marked_spawn :
    (ws : List Work) (es : List GraphEdge) → Evolves ws (spawn_on (mark consumed ws) es)
Evolves-marked_spawn ws es = Evolves-spawn_on ws (mark consumed ws) es (Evolves-mark consumed ws)

Evolves-follow_decision :
    (key : String) (x : Bool) (es : List GraphEdge) (s t : State)
    → follow_decision key x es s ≡ ok t
    → Evolves s.work t.work
unfolding follow_decision
Evolves-follow_decision key x es s t h = ground (arith, Evolves-marked_spawn s.work es)

Evolves-follow_guards :
    (key : String) (chosen : Option (List GraphEdge)) (s : State)
    → Evolves s.work (follow_guards key chosen s).work
unfolding follow_guards
Evolves-follow_guards key none s = Evolves-mark waiting s.work
Evolves-follow_guards key (some es) s = Evolves-marked_spawn s.work es

Evolves-choice_split :
    (run : Run) (node : GraphNode) (s t : State)
    → choice_split run node s ≡ ok t
    → Evolves s.work t.work
unfolding choice_split
Evolves-choice_split run node s t h = elim (Option-cases (lookup node.key run.decisions)) [
  | inl e ↦
      let (chosen, p, q) =
        >>=-eq-ok
          (auto_branches run.context (edges_out run.graph node.key)
            (is_text node.connector_type "xor"))
          (λ chosen. ok (follow_guards node.key chosen s)) (rw (e, choice_split) at h) in
      subst (λ (u : State). Evolves s.work u.work) (ok_injective q)
        (Evolves-follow_guards node.key chosen s)
  | inr (wanted, e) ↦
      Evolves-follow_decision node.key (is_text node.connector_type "xor")
        (wanted_edges wanted (edges_out run.graph node.key)) s t (rw (e, choice_split) at h)
]

Evolves-connector :
    (run : Run) (node : GraphNode) (s t : State)
    → connector run node s ≡ ok t
    → Evolves s.work t.work
unfolding connector
Evolves-connector run node s t h = ground (
  arith,
  Evolves-marked_spawn s.work (edges_out run.graph node.key),
  Evolves-choice_split run node s t,
  Evolves-trans s.work (mark waiting s.work) (join run node (mark waiting s.work))
      (Evolves-mark waiting s.work) (Evolves-join run node (mark waiting s.work)),
)

Evolves-process_at :
    (run : Run) (node : GraphNode) (s t : State)
    → process_at run node s ≡ ok t
    → Evolves s.work t.work
unfolding process_at
Evolves-process_at run node s t h = ground (
  arith,
  Evolves-marked_spawn s.work (edges_out run.graph node.key),
  Evolves-connector run node s t,
  Evolves-mark waiting s.work,
)

pub Evolves-process :
    (run : Run) (w : Work) (s t : State) → process run w s ≡ ok t → Evolves s.work t.work
unfolding process
Evolves-process run w s t h = elim (Option-cases (find_node w.node_key run.graph.nodes)) [
  | inl e ↦ absurd (cc (rw (e, process) at h))
  | inr (node, e) ↦ Evolves-process_at run node s t (rw (e, process) at h)
]

pub Evolves-run_loop :
    (run : Run) (steps : ℕ) (s t : State) → run_loop run steps s ≡ ok t → Evolves s.work t.work
unfolding run_loop
Evolves-run_loop run zero s t h = elim (Option-cases (first_active s.work)) [
  | inl e ↦
      subst (λ (u : State). Evolves s.work u.work) (ok_injective (rw (e, run_loop) at h))
        (Evolves-refl s.work)
  | inr (w, e) ↦ absurd (cc (rw (e, run_loop) at h))
]
Evolves-run_loop run (suc steps) s t h = elim (Option-cases (first_active s.work)) [
  | inl e ↦
      subst (λ (u : State). Evolves s.work u.work) (ok_injective (rw (e, run_loop) at h))
        (Evolves-refl s.work)
  | inr (w, e) ↦ elim (Result-cases (process run w s)) [
    | inl (u, p) ↦
        Evolves-trans s.work u.work t.work (Evolves-process run w s u p)
          (Evolves-run_loop run steps u t (rw (p, run_loop) at (rw (e, run_loop) at h)))
    | inr (x, p) ↦ absurd (cc (rw (p, run_loop) at (rw (e, run_loop) at h)))
  ]
]
