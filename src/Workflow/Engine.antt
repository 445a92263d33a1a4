-- ===== src/Workflow/Engine.antt =====
-- server/bbz_core/domain/workflow/engine.py: the token engine. The list `work` holds mutable objects;
-- a step changes the first active one, and the tokens at a join that fires, which is all the sharing
-- that there is, so the list is rebuilt. Identifiers of tokens are numbers.
pub mod Tokens
pub mod Quiet
pub mod Idle
pub mod Ends
pub mod Splits
mod Tests
use bbz_platform.Prelude.{
  is_text, ℕ, zero, suc, ◌+◌, ◌*◌, String, Bool, true, false, not, ◌&&◌, ◌||◌, Option, none, some,
  List, [], ◌∷◌, ◌++◌, map, Result, ok, err, ◌>>=◌, length, is_empty, any, all, filter, contains,
  lookup, Dict, ◌==◌, nat_eq, if◌then◌else◌, is_none,
}
use bbz_platform.RuleDsl.Value.{Value, Fields, object}
use bbz_platform.RuleDsl.Parse.{DslError, rule_error, unknown_field, type_error, parse}
use bbz_platform.RuleDsl.Eval.{Context, evaluate}
use bbz_platform.Workflow.Graph.{GraphNode, GraphEdge, DerivedGraph}
use bbz_platform.Workflow.Reach.{find_node, edges_out, edges_in, is_closed, reachable}

pub record Token : Type 0 where
  pub id : ℕ
  pub node_key : String
  pub state : String
  pub inbound_edge_key : Option String

pub record DecisionMade : Type 0 where
  pub connector_node_key : String
  pub chosen_edge_keys : List String
  pub auto : Bool

pub record EngineResult : Type 0 where
  pub consumed : List ℕ
  pub parked : List ℕ
  pub spawned : List (String × Option String)
  pub decisions : List DecisionMade
  pub completed : Bool

-- `_ACTIVE`, `_WAITING`, `_CONSUMED`
pub data TokenState : Type 0 where
  active waiting consumed : TokenState

abbrev pub is_active : TokenState → Bool
is_active active = true
is_active _ = false

abbrev pub is_waiting : TokenState → Bool
is_waiting waiting = true
is_waiting _ = false

abbrev pub is_live : TokenState → Bool
is_live consumed = false
is_live _ = true

-- `_W`; the id is `none` for a token that this run spawned (`origin`)
pub record Work : Type 0 where
  pub id : Option ℕ
  pub node_key : String
  pub state : TokenState
  pub inbound : Option String
  pub was_active : Bool

-- `WorkflowEngineError`, and two errors of Python's own that a run can end in
pub data EngineError : Type 0 where
  unexpected_state : ℕ → EngineError
  step_not_waiting : String → EngineError
  not_settled : EngineError
  unknown_node : String → EngineError
  unknown_type : String → EngineError
  no_direction : String → EngineError
  no_valid_branch : String → EngineError
  not_exactly_one : String → EngineError
  spawned_still_active : EngineError
  key_error : EngineError
  guard_type_error : EngineError

-- what `_Run` holds but for `made`, which is threaded
pub record Run : Type 0 where
  pub graph : DerivedGraph
  pub context : Context
  pub decisions : Dict (List String)

-- the mutable state of a run: the tokens, and `run.made`
pub record State : Type 0 where
  pub work : List Work
  pub made : List DecisionMade

-- `_mk_run`: `_Index(graph)` raises on an edge of an unknown node
unfoldable pub make_run : DerivedGraph → Context → Dict (List String) → Result EngineError Run
make_run graph context decisions =
    if is_closed graph
    then ok (record { graph = graph; context = context; decisions = decisions })
    else err key_error

unfoldable pub make_existing : Token → Result EngineError Work
make_existing t =
    if t.state == "active"
    then ok (record {
      id = some t.id;
      node_key = t.node_key;
      state = active;
      inbound = t.inbound_edge_key;
      was_active = true;
    })
    else if t.state == "waiting"
    then ok (record {
      id = some t.id;
      node_key = t.node_key;
      state = waiting;
      inbound = t.inbound_edge_key;
      was_active = false;
    })
    else err (unexpected_state t.id)

unfoldable pub make_work : List Token → Result EngineError (List Work)
unfolding make_existing
make_work [] = ok []
make_work (t ∷ ts) = make_existing t >>= λ w. make_work ts >>= λ ws. ok (w ∷ ws)

-- `next((w for w in work if w.state == _ACTIVE), None)`
abbrev pub first_active : List Work → Option Work
first_active [] = none
first_active (w ∷ ws) = let rest = first_active ws in if is_active w.state then some w else rest

-- `w.state = s`, for the token that `first_active` finds
abbrev pub mark : TokenState → List Work → List Work
mark s [] = []
mark s (w ∷ ws) =
    let rest = mark s ws in if is_active w.state then record w { state = s } ∷ ws else w ∷ rest

abbrev pub spawn : GraphEdge → Work
spawn e = record {
  id = none;
  node_key = e.to_key;
  state = active;
  inbound = some e.key;
  was_active = false;
}

-- `_spawn_on`
abbrev pub spawn_on : List Work → List GraphEdge → List Work
spawn_on work edges = work ++ map spawn edges

abbrev pub is_present : String → Work → Bool
is_present key w = w.node_key == key && is_live w.state

-- `for w in present: w.state = _CONSUMED`
abbrev pub consume : String → Work → Work
consume key w = if is_present key w then record w { state = consumed } else w

pub fire_join : Run → String → List Work → List Work
fire_join run key work = spawn_on (map (consume key) work) (edges_out run.graph key)

abbrev pub came_by : String → Work → Bool
came_by edge w = elim w.inbound [ none ↦ false | some k ↦ k == edge ]

-- `needed <= arrived`, over the tokens that are present
abbrev pub all_arrived : List GraphEdge → String → List Work → Bool
all_arrived needed key work = all (λ e. any (λ w. is_present key w && came_by e.key w) work) needed

pub maybe_fire_and_join : Run → String → List Work → List Work
unfolding fire_join edges_in
maybe_fire_and_join run key work =
    let needed = edges_in run.graph key in
    if is_empty needed || not (all_arrived needed key work) then work else fire_join run key work

pub fire_choice_join : Run → String → List Work → List Work
unfolding fire_join
fire_choice_join run key work = if any (is_present key) work then fire_join run key work else work

abbrev pub can_reach : Run → String → Work → Bool
can_reach run key w =
    is_live w.state && not (w.node_key == key) && contains key (reachable run.graph w.node_key)

pub maybe_fire_or_join : Run → String → List Work → List Work
unfolding fire_join reachable
maybe_fire_or_join run key work =
    if not (any (is_present key) work)
    then work
    else if any (can_reach run key) work
    then work
    else fire_join run key work

-- `_guard_true`: every `RuleDslError` counts as "not satisfied"
unfoldable pub guard_true : Context → Fields → Result EngineError Bool
unfolding parse evaluate
guard_true context condition = elim (parse (object condition) >>= λ e. evaluate e context) [
  | ok b ↦ ok b
  | err rule_error ↦ ok false
  | err (unknown_field _) ↦ ok false
  | err type_error ↦ err guard_type_error
]

-- the loop of `_auto_branches` for an exclusive split: the first edge whose guard holds
unfoldable pub first_guarded : Context → List GraphEdge → Result EngineError (Option GraphEdge)
unfolding guard_true
first_guarded context [] = ok none
first_guarded context (e ∷ es) =
    let rest = first_guarded context es in
    elim e.condition [
      | none ↦ rest
      | some c ↦ elim (guard_true context c) [
        | err x ↦ err x
        | ok b ↦ if b then ok (some e) else rest
      ]
    ]

-- `default`
abbrev pub unguarded : List GraphEdge → List GraphEdge
unguarded es = filter (λ e. is_none e.condition) es

-- `picked`
unfoldable pub all_guarded : Context → List GraphEdge → Result EngineError (List GraphEdge)
unfolding guard_true
all_guarded context [] = ok []
all_guarded context (e ∷ es) =
    let rest = all_guarded context es in
    let keep = rest >>= λ xs. ok (e ∷ xs) in
    elim e.condition [
      | none ↦ keep
      | some c ↦ elim (guard_true context c) [ err x ↦ err x | ok b ↦ if b then keep else rest ]
    ]

-- `return [edge]`, or behind the loop the first default
abbrev pub hit_or_default : List GraphEdge → Option GraphEdge → Option (List GraphEdge)
hit_or_default out (some e) = some (e ∷ [])
hit_or_default out none = elim (unguarded out) [ [] ↦ none | e ∷ _ ↦ some (e ∷ []) ]

unfoldable pub auto_branches :
    Context → List GraphEdge → Bool → Result EngineError (Option (List GraphEdge))
unfolding first_guarded all_guarded
auto_branches context out true = first_guarded context out >>= λ hit. ok (hit_or_default out hit)
auto_branches context out false =
    all_guarded context out >>= λ picked. ok (elim picked [ [] ↦ none | e ∷ es ↦ some (e ∷ es) ])

-- the branches of `_choice_split` that a recorded decision, or its absence, leads to
pub follow_decision : String → Bool → List GraphEdge → State → Result EngineError State
follow_decision key exclusive chosen s =
    if is_empty chosen
    then err (no_valid_branch key)
    else if exclusive && not (nat_eq (length chosen) 1)
    then err (not_exactly_one key)
    else ok (record s { work = spawn_on (mark consumed s.work) chosen })

pub follow_guards : String → Option (List GraphEdge) → State → State
follow_guards key none s = record s { work = mark waiting s.work }
follow_guards key (some chosen) s = record {
  work = spawn_on (mark consumed s.work) chosen;
  made =
      s.made
      ++ record {
        connector_node_key = key;
        chosen_edge_keys = map (λ e. e.key) chosen;
        auto = true;
      }
        ∷ [];
}

abbrev pub wanted_edges : List String → List GraphEdge → List GraphEdge
wanted_edges wanted out = filter (λ e. contains e.key wanted) out

pub choice_split : Run → GraphNode → State → Result EngineError State
unfolding follow_decision follow_guards auto_branches edges_out
choice_split run node s =
    let exclusive = is_text node.connector_type "xor" in
    let out = edges_out run.graph node.key in
    elim (lookup node.key run.decisions) [
      | some wanted ↦ follow_decision node.key exclusive (wanted_edges wanted out) s
      | none ↦
          auto_branches run.context out exclusive >>= λ chosen. ok (follow_guards node.key chosen s)
    ]

-- the three joins, behind `w.state = _WAITING`
pub join : Run → GraphNode → List Work → List Work
unfolding maybe_fire_and_join fire_choice_join maybe_fire_or_join
join run node work =
    if is_text node.connector_type "and"
    then maybe_fire_and_join run node.key work
    else if is_text node.connector_type "xor"
    then fire_choice_join run node.key work
    else maybe_fire_or_join run node.key work

unfoldable pub connector : Run → GraphNode → State → Result EngineError State
unfolding choice_split join
connector run node s =
    if is_text node.connector_direction "split"
    then (if is_text node.connector_type "and"
        then ok (record s { work = spawn_on (mark consumed s.work) (edges_out run.graph node.key) })
        else choice_split run node s)
    else if is_text node.connector_direction "join"
    then ok (record s { work = join run node (mark waiting s.work) })
    else err (no_direction node.key)

-- `_process`, for the token `w` that `first_active` found, at its node
unfoldable pub process_at : Run → GraphNode → State → Result EngineError State
process_at run node s =
    if node.type == "event"
    then ok (record s { work = spawn_on (mark consumed s.work) (edges_out run.graph node.key) })
    else if node.type == "function"
    then ok (record s { work = mark waiting s.work })
    else if node.type == "connector"
    then connector run node s
    else err (unknown_type node.type)

unfoldable pub process : Run → Work → State → Result EngineError State
process run w s = elim (find_node w.node_key run.graph.nodes) [
  | none ↦ err (unknown_node w.node_key)
  | some node ↦ process_at run node s
]

-- `_run_loop` with the steps that the budget still allows
unfoldable pub run_loop : Run → ℕ → State → Result EngineError State
run_loop run zero s = elim (first_active s.work) [ none ↦ ok s | some w ↦ err not_settled ]
run_loop run (suc steps) s = elim (first_active s.work) [
  | none ↦ ok s
  | some w ↦ elim (process run w s) [ err e ↦ err e | ok t ↦ run_loop run steps t ]
]

abbrev pub budget : DerivedGraph → List Work → ℕ
budget g work = (length g.nodes + length g.edges + length work) * (length g.nodes + 1) + 100

abbrev pub id_list : Option ℕ → List ℕ
id_list none = []
id_list (some i) = i ∷ []

-- The loop of `_result`, a list for each of its three accumulators; `origin` is "existing" where
-- there is an id.
abbrev pub consumed_ids : List Work → List ℕ
consumed_ids [] = []
consumed_ids (w ∷ ws) =
    let rest = consumed_ids ws in if is_live w.state then rest else id_list w.id ++ rest

abbrev pub parked_ids : List Work → List ℕ
parked_ids [] = []
parked_ids (w ∷ ws) =
    let rest = parked_ids ws in
    if is_waiting w.state && w.was_active then id_list w.id ++ rest else rest

abbrev pub spawned_waiting : List Work → List (String × Option String)
spawned_waiting [] = []
spawned_waiting (w ∷ ws) =
    let rest = spawned_waiting ws in
    if is_none w.id && is_waiting w.state then (w.node_key, w.inbound) ∷ rest else rest

abbrev pub spawned_active : Work → Bool
spawned_active w = is_none w.id && is_active w.state

unfoldable pub result : State → Result EngineError EngineResult
result s =
    if any spawned_active s.work
    then err spawned_still_active
    else ok (record {
      consumed = consumed_ids s.work;
      parked = parked_ids s.work;
      spawned = spawned_waiting s.work;
      decisions = s.made;
      completed = not (any (λ w. is_live w.state) s.work);
    })

-- the part that `advance` and `resume_function` share
unfoldable pub settle : Run → List Work → Result EngineError EngineResult
settle run work =
    run_loop run (budget run.graph work) (record { work = work; made = [] }) >>= result

unfoldable pub advance :
    DerivedGraph → List Token → Context → Dict (List String) → Result EngineError EngineResult
advance graph tokens context decisions =
    make_run graph context decisions >>= λ run. make_work tokens >>= settle run

abbrev pub waits_at : String → Work → Bool
waits_at key w = w.node_key == key && is_waiting w.state

-- `target.state = _CONSUMED`, for the first token that waits at the node
abbrev pub consume_first : String → List Work → List Work
consume_first key [] = []
consume_first key (w ∷ ws) =
    let rest = consume_first key ws in
    if waits_at key w then record w { state = consumed } ∷ ws else w ∷ rest

unfoldable pub resume_work : Run → String → List Work → Result EngineError EngineResult
resume_work run key work =
    if any (waits_at key) work
    then settle run (spawn_on (consume_first key work) (edges_out run.graph key))
    else err (step_not_waiting key)

unfoldable pub resume_function :
    DerivedGraph
    → List Token
    → String
    → Context
    → Dict (List String)
    → Result EngineError EngineResult
resume_function graph tokens key context decisions =
    make_run graph context decisions >>= λ run. make_work tokens >>= resume_work run key
