-- ===== src/Workflow/Engine/Idle.antt =====
-- A run on tokens that all wait, and a resume at a node where none does.
use bbz_platform.Prelude.{
  ℕ, zero, suc, String, true, false, not, none, some, List, [], ◌∷◌, map, ◌≡◌, refl, subst, sym, ok,
  err, All, any, is_empty, Dict, ◌==◌, eq_iff,
}
use bbz_platform.RuleDsl.Eval.{Context}
use bbz_platform.Workflow.Graph.{DerivedGraph}
use bbz_platform.Workflow.Reach.{is_closed}
use bbz_platform.Workflow.Engine.{
  Token, waiting, is_live, Work, Run, State, step_not_waiting, first_active, run_loop, result,
  settle, advance, make_run, make_work, make_existing, budget, consumed_ids, parked_ids,
  spawned_waiting, spawned_active, waits_at, resume_function, resume_work,
}

-- every token is given as waiting
abbrev pub AllWait : List Token → Type 0
AllWait ts = All (λ t. t.state ≡ "waiting") ts

-- the working copy of a waiting token
abbrev pub parked_copy : Token → Work
parked_copy t = record {
  id = some t.id;
  node_key = t.node_key;
  state = waiting;
  inbound = t.inbound_edge_key;
  was_active = false;
}

existing_of_waiting : (t : Token) → t.state ≡ "waiting" → make_existing t ≡ ok (parked_copy t)
unfolding make_existing
existing_of_waiting t h =
    let no_active : (t.state == "active") ≡ false =
      subst (λ u. (u == "active") ≡ false) (sym h) refl in
    rw (no_active, (eq_iff t.state "waiting").1 h) refl

pub work_of_waiting : (ts : List Token) → AllWait ts → make_work ts ≡ ok (map parked_copy ts)
unfolding make_work
work_of_waiting [] h = refl
work_of_waiting (t ∷ ts) (h, hs) = rw (existing_of_waiting t h, work_of_waiting ts hs) refl

pub no_spawned_copy : (ts : List Token) → any spawned_active (map parked_copy ts) ≡ false
no_spawned_copy [] = refl
no_spawned_copy (t ∷ ts) = no_spawned_copy ts

pub first_active_copy : (ts : List Token) → first_active (map parked_copy ts) ≡ none
first_active_copy [] = refl
first_active_copy (t ∷ ts) = first_active_copy ts

pub consumed_copy : (ts : List Token) → consumed_ids (map parked_copy ts) ≡ []
consumed_copy [] = refl
consumed_copy (t ∷ ts) = consumed_copy ts

pub parked_copy_ids : (ts : List Token) → parked_ids (map parked_copy ts) ≡ []
parked_copy_ids [] = refl
parked_copy_ids (t ∷ ts) = parked_copy_ids ts

pub spawned_copy : (ts : List Token) → spawned_waiting (map parked_copy ts) ≡ []
spawned_copy [] = refl
spawned_copy (t ∷ ts) = spawned_copy ts

pub live_copy :
    (ts : List Token) → not (any (λ w. is_live w.state) (map parked_copy ts)) ≡ is_empty ts
live_copy [] = refl
live_copy (t ∷ ts) = refl

pub run_loop_quiet_id :
    (run : Run) (steps : ℕ) (s : State) → first_active s.work ≡ none → run_loop run steps s ≡ ok s
unfolding run_loop
run_loop_quiet_id run zero s h = rw (h, run_loop) refl
run_loop_quiet_id run (suc n) s h = rw (h, run_loop) refl

settle_idle :
    (run : Run) (ts : List Token)
    → settle run (map parked_copy ts)
      ≡ ok (record {
        consumed = [];
        parked = [];
        spawned = [];
        decisions = [];
        completed = is_empty ts;
      })
unfolding settle result
settle_idle run ts =
    let s : State = record { work = map parked_copy ts; made = [] } in
    rw (run_loop_quiet_id run (budget run.graph s.work) s (first_active_copy ts)) (
      rw (no_spawned_copy ts, consumed_copy ts, parked_copy_ids ts, spawned_copy ts, live_copy ts)
        refl)

-- Advancing an instance whose tokens all wait changes nothing: no token is consumed, parked or
-- spawned, no decision is made, and the instance is completed exactly if it has no token.
pub advance_idle :
    (g : DerivedGraph) (ts : List Token) (ctx : Context) (ds : Dict (List String))
    → is_closed g ≡ true
    → AllWait ts
    → advance g ts ctx ds
      ≡ ok (record {
        consumed = [];
        parked = [];
        spawned = [];
        decisions = [];
        completed = is_empty ts;
      })
unfolding advance make_run
advance_idle g ts ctx ds closed h = rw (closed, work_of_waiting ts h) (settle_idle _ ts)

-- Resuming a node where no token waits raises, and nothing else is done.
pub resume_function_refused :
    (g : DerivedGraph) (ts : List Token) (ws : List Work) (key : String) (ctx : Context)
    (ds : Dict (List String))
    → is_closed g ≡ true
    → make_work ts ≡ ok ws
    → any (waits_at key) ws ≡ false
    → resume_function g ts key ctx ds ≡ err (step_not_waiting key)
unfolding resume_function make_run resume_work
resume_function_refused g ts ws key ctx ds closed made none_waits =
    rw (closed, made, none_waits) refl
