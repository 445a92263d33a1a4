-- ===== src/Workflow/Engine/Quiet.antt =====
-- A run that returns leaves no token active, and accounts for every token that it was given.
use bbz_platform.Prelude.{
  ℕ, zero, suc, String, Bool, true, false, ◌&&◌, ◌||◌, none, List, [], ◌∷◌, ◌++◌, ◌≡◌, refl, ◌∙◌,
  subst, sym, ok, >>=-eq-ok, ok_injective, Result-cases, Option-cases, inl, inr, arith, All, any,
  Dict, ◌==◌, nat_eq, eq_iff,
}
use bbz_platform.RuleDsl.Eval.{Context}
use bbz_platform.Workflow.Graph.{DerivedGraph}
use bbz_platform.Workflow.Engine.{
  Token, Work, Run, State, EngineResult, first_active, run_loop, result, settle, advance, make_run,
  make_work, make_existing, budget, consumed_ids, parked_ids, id_list, process,
}
use bbz_platform.Workflow.Engine.Tokens.{Evolves, Evolves-run_loop, IsSpawned}

run_loop_quiet :
    (run : Run) (steps : ℕ) (s t : State) → run_loop run steps s ≡ ok t → first_active t.work ≡ none
unfolding run_loop
run_loop_quiet run zero s t h = elim (Option-cases (first_active s.work)) [
  | inl e ↦
      subst (λ (u : State). first_active u.work ≡ none) (ok_injective (rw (e, run_loop) at h)) e
  | inr (w, e) ↦ absurd (cc (rw (e, run_loop) at h))
]
run_loop_quiet run (suc steps) s t h = elim (Option-cases (first_active s.work)) [
  | inl e ↦
      subst (λ (u : State). first_active u.work ≡ none) (ok_injective (rw (e, run_loop) at h)) e
  | inr (w, e) ↦ elim (Result-cases (process run w s)) [
    | inl (u, p) ↦ run_loop_quiet run steps u t (rw (p, run_loop) at (rw (e, run_loop) at h))
    | inr (x, p) ↦ absurd (cc (rw (p, run_loop) at (rw (e, run_loop) at h)))
  ]
]

-- membership of a token's id
abbrev pub has_id : ℕ → List ℕ → Bool
has_id i [] = false
has_id i (j ∷ js) = nat_eq j i || has_id i js

-- a token of this id is among the tokens given
abbrev pub is_given : ℕ → List Token → Bool
is_given i ts = any (λ t. nat_eq t.id i) ts

-- an active token of this id is among the tokens given
abbrev pub is_given_active : ℕ → List Token → Bool
is_given_active i ts = any (λ t. nat_eq t.id i && t.state == "active") ts

abbrev names : ℕ → Work → Bool
names i w = has_id i (id_list w.id)

has_id-append : (i : ℕ) (js ks : List ℕ) → has_id i (js ++ ks) ≡ (has_id i js || has_id i ks)
has_id-append i [] ks = refl
has_id-append i (j ∷ js) ks = ground (arith, has_id-append i js ks)

-- without an active token, what was active is consumed or parked
accounted :
    (i : ℕ) (ws vs : List Work)
    → Evolves ws vs
    → first_active vs ≡ none
    → any (λ w. names i w && w.was_active) ws ≡ true
    → (has_id i (consumed_ids vs) || has_id i (parked_ids vs)) ≡ true
accounted i [] vs e q h = cc
accounted i (w ∷ ws) [] e q h = absurd e
accounted i (w ∷ ws) (v ∷ vs) ((a, n, b, l), e) q h = ground (
  arith,
  a,
  b,
  has_id-append i (id_list v.id) (consumed_ids vs),
  has_id-append i (id_list v.id) (parked_ids vs),
  accounted i ws vs e,
)

spawned-names :
    (i : ℕ) (vs : List Work)
    → All IsSpawned vs
    → (has_id i (consumed_ids vs) ≡ false) × (has_id i (parked_ids vs) ≡ false)
spawned-names i [] h = (refl, refl)
spawned-names i (v ∷ vs) ((a, b), h) = ground (arith, a, b, spawned-names i vs h)

-- what is consumed was given, and what is parked was given as active
consumed_given :
    (i : ℕ) (ws vs : List Work)
    → Evolves ws vs
    → has_id i (consumed_ids vs) ≡ true
    → any (names i) ws ≡ true
consumed_given i [] vs e h = absurd (cc (h, (spawned-names i vs e).0))
consumed_given i (w ∷ ws) [] e h = absurd e
consumed_given i (w ∷ ws) (v ∷ vs) ((a, n, b, l), e) h =
    ground (arith, a, has_id-append i (id_list v.id) (consumed_ids vs), consumed_given i ws vs e)

parked_given :
    (i : ℕ) (ws vs : List Work)
    → Evolves ws vs
    → has_id i (parked_ids vs) ≡ true
    → any (λ w. names i w && w.was_active) ws ≡ true
parked_given i [] vs e h = absurd (cc (h, (spawned-names i vs e).1))
parked_given i (w ∷ ws) [] e h = absurd e
parked_given i (w ∷ ws) (v ∷ vs) ((a, n, b, l), e) h =
    ground (arith, a, b, has_id-append i (id_list v.id) (parked_ids vs), parked_given i ws vs e)

existing_names :
    (i : ℕ) (t : Token) (w : Work)
    → make_existing t ≡ ok w
    → (names i w ≡ nat_eq t.id i)
      × ((names i w && w.was_active) ≡ (nat_eq t.id i && t.state == "active"))
unfolding make_existing
existing_names i t w h = ground (arith, eq_iff t.state "active", eq_iff t.state "waiting")

or_cong : {a b c d : Bool} → a ≡ b → c ≡ d → (a || c) ≡ (b || d)
or_cong p q = cc

work_names :
    (i : ℕ) (ts : List Token) (ws : List Work)
    → make_work ts ≡ ok ws
    → (any (names i) ws ≡ is_given i ts)
      × (any (λ w. names i w && w.was_active) ws ≡ is_given_active i ts)
unfolding make_work
work_names i [] ws h = ground (arith, ok_injective h)
work_names i (t ∷ ts) ws h =
    let (w, p, q) = >>=-eq-ok (make_existing t) _ h in
    let (us, r, z) = >>=-eq-ok (make_work ts) _ q in
    let (a, b) = existing_names i t w p in
    let (c, d) = work_names i ts us r in rw (← ok_injective z) (or_cong a c, or_cong b d)

settle_quiet :
    (run : Run) (ws : List Work) (r : EngineResult)
    → settle run ws ≡ ok r
    → (vs : List Work) × Evolves ws vs
      × (first_active vs ≡ none)
      × (r.consumed ≡ consumed_ids vs)
      × (r.parked ≡ parked_ids vs)
unfolding settle result
settle_quiet run ws r h =
    let (t, p, q) =
      >>=-eq-ok (run_loop run (budget run.graph ws) (record { work = ws; made = [] })) result h in
    (
      t.work,
      Evolves-run_loop run (budget run.graph ws) (record { work = ws; made = [] }) t p,
      run_loop_quiet run (budget run.graph ws) (record { work = ws; made = [] }) t p,
      ground (arith, q),
      ground (arith, q),
    )

advance_settles :
    (g : DerivedGraph) (ts : List Token) (ctx : Context) (ds : Dict (List String))
    (r : EngineResult)
    → advance g ts ctx ds ≡ ok r
    → (run : Run) × (ws : List Work) × (make_work ts ≡ ok ws) × (settle run ws ≡ ok r)
unfolding advance
advance_settles g ts ctx ds r h =
    let (run, p, q) = >>=-eq-ok (make_run g ctx ds) _ h in
    let (ws, a, b) = >>=-eq-ok (make_work ts) (settle run) q in (run, ws, a, b)

-- After an advance that returns, each active token that was given is consumed or parked, so what is
-- persisted has no active token left.
pub advance_clears :
    (g : DerivedGraph) (ts : List Token) (ctx : Context) (ds : Dict (List String))
    (r : EngineResult) (i : ℕ)
    → advance g ts ctx ds ≡ ok r
    → is_given_active i ts ≡ true
    → (has_id i r.consumed || has_id i r.parked) ≡ true
advance_clears g ts ctx ds r i h given =
    let (run, ws, a, b) = advance_settles g ts ctx ds r h in
    let (vs, e, q, c, p) = settle_quiet run ws r b in
    cc (c, p, accounted i ws vs e q ((work_names i ts ws a).1 ∙ given))

-- An advance that returns consumes only tokens that were given.
pub advance_consumes_given :
    (g : DerivedGraph) (ts : List Token) (ctx : Context) (ds : Dict (List String))
    (r : EngineResult) (i : ℕ)
    → advance g ts ctx ds ≡ ok r
    → has_id i r.consumed ≡ true
    → is_given i ts ≡ true
advance_consumes_given g ts ctx ds r i h k =
    let (run, ws, a, b) = advance_settles g ts ctx ds r h in
    let (vs, e, q, c, p) = settle_quiet run ws r b in
    sym (work_names i ts ws a).0 ∙ consumed_given i ws vs e (subst (λ js. has_id i js ≡ true) c k)

-- An advance that returns parks only tokens that were given as active.
pub advance_parks_given :
    (g : DerivedGraph) (ts : List Token) (ctx : Context) (ds : Dict (List String))
    (r : EngineResult) (i : ℕ)
    → advance g ts ctx ds ≡ ok r
    → has_id i r.parked ≡ true
    → is_given_active i ts ≡ true
advance_parks_given g ts ctx ds r i h k =
    let (run, ws, a, b) = advance_settles g ts ctx ds r h in
    let (vs, e, q, c, p) = settle_quiet run ws r b in
    sym (work_names i ts ws a).1 ∙ parked_given i ws vs e (subst (λ js. has_id i js ≡ true) p k)
