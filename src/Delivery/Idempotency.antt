-- ===== src/Delivery/Idempotency.antt =====
-- server/bbz_core/infra/idempotency.py and server/bbz_core/infra/models/commands.py: the store of the
-- commands that were seen, and the guard around the body of a command. The body is a parameter, and
-- acts on a `World`.

pub mod Replay
pub mod Interleaved
mod Tests
use bbz_platform.Prelude.{
  ◌-◌, ℕ, String, Bool, true, false, not, ◌&&◌, List, [], ◌∷◌, ◌++◌, Option, none, some, ltb,
  nat_eq, ◌==◌, is_none, is_some, length, Result, ok, err, if◌then◌else◌, get_row, put_row,
  delete_rows,
}
use bbz_platform.RuleDsl.Value.{Fields}

pub record Command : Type 0 where
  command_id : ℕ
  user_id : Option ℕ
  endpoint : String
  request_hash : String
  result_status : Option ℕ
  result_json : Option Fields
  created_at : ℕ
  completed_at : Option ℕ

pub record StoredResult : Type 0 where
  status : ℕ
  body : Option Fields

-- `CommandConflictError`, `CommandInProgressError`, the `NoResultFound` of `scalar_one`, the
-- `RuntimeError` of a body that sets no result, and what the body raises.
pub data CommandError : Type 0 where
  command_conflict : CommandError
  command_in_progress : CommandError
  no_result_found : CommandError
  no_result_set : CommandError
  body_error : String → CommandError

abbrev pub command_key : Command → ℕ
command_key row = row.command_id

abbrev pub new_command : ℕ → ℕ → Option ℕ → String → String → Command
new_command now command_id user_id endpoint request_hash = record {
  command_id = command_id;
  user_id = user_id;
  endpoint = endpoint;
  request_hash = request_hash;
  result_status = none;
  result_json = none;
  created_at = now;
  completed_at = none;
}

-- `claim`, where the key is taken: the result to replay
abbrev pub claimed : Command → Option ℕ → Result CommandError StoredResult
claimed row none = err command_in_progress
claimed row (some status) = ok (record { status = status; body = row.result_json })

-- `claim`: `none` to run the body
abbrev pub claim_found :
    Command
    → Option Command
    → List Command
    → Result CommandError (Option StoredResult) × List Command
claim_found new none rows = (ok none, rows ++ (new ∷ []))
claim_found new (some row) rows =
    if row.request_hash == new.request_hash
    then elim (claimed row row.result_status) [
      | err e ↦ (err e, rows)
      | ok stored ↦ (ok (some stored), rows)
    ]
    else (err command_conflict, rows)

abbrev pub claim : Command → List Command → Result CommandError (Option StoredResult) × List Command
claim new rows = claim_found new (get_row command_key new.command_id rows) rows

abbrev pub completed_row : ℕ → StoredResult → Command → Command
completed_row now stored row = record row {
  result_status = some stored.status;
  result_json = stored.body;
  completed_at = some now;
}

abbrev pub complete_found :
    ℕ → StoredResult → Option Command → List Command → Result CommandError (Unit {0}) × List Command
complete_found now stored none rows = (err no_result_found, rows)
complete_found now stored (some row) rows =
    (ok tt, put_row command_key (completed_row now stored row) rows)

abbrev pub complete :
    ℕ → ℕ → StoredResult → List Command → Result CommandError (Unit {0}) × List Command
complete now command_id stored rows =
    complete_found now stored (get_row command_key command_id rows) rows

-- `Command.result_status.is_(None)` under this key
abbrev pub is_abandoned : ℕ → Command → Bool
is_abandoned command_id row = nat_eq row.command_id command_id && is_none row.result_status

abbrev pub abandon : ℕ → List Command → List Command
abandon command_id rows = delete_rows command_key (is_abandoned command_id) rows

-- What the body leaves in the slot: its result, or that it was not set.
abbrev pub Body : Type 0 → Type 0
Body World = World → Result String (Option StoredResult) × World

-- What the guarded call answers: a replay, or the result of its own run.
pub data Answer : Type 0 where
  replayed : StoredResult → Answer
  ran : StoredResult → Answer

abbrev pub after_complete :
    {World : Type 0}
    → StoredResult
    → Result CommandError (Unit {0}) × List Command
    → World
    → Result CommandError Answer × List Command × World
after_complete stored (ok u, rows) world = (ok (ran stored), rows, world)
after_complete stored (err e, rows) world = (err e, rows, world)

abbrev pub after_body :
    {World : Type 0}
    → ℕ
    → ℕ
    → List Command
    → Result String (Option StoredResult) × World
    → Result CommandError Answer × List Command × World
after_body now id rows (err e, world) = (err (body_error e), abandon id rows, world)
after_body now id rows (ok none, world) = (err no_result_set, abandon id rows, world)
after_body now id rows (ok (some stored), world) =
    after_complete stored (complete now id stored rows) world

abbrev pub after_claim :
    {World : Type 0}
    → ℕ
    → Command
    → Body World
    → Result CommandError (Option StoredResult) × List Command
    → World
    → Result CommandError Answer × List Command × World
after_claim now new body (err e, rows) world = (err e, rows, world)
after_claim now new body (ok (some stored), rows) world = (ok (replayed stored), rows, world)
after_claim now new body (ok none, rows) world = after_body now new.command_id rows (body world)

-- `async with idempotent(…)`, with nothing else in between: the answer, the store and the world
abbrev pub idempotent :
    {World : Type 0}
    → ℕ
    → Command
    → Body World
    → List Command
    → World
    → Result CommandError Answer × List Command × World
idempotent now new body rows world = after_claim now new body (claim new rows) world

-- `Command.completed_at < cutoff`: what is not set is not below
abbrev pub is_before : ℕ → Option ℕ → Bool
is_before cutoff none = false
is_before cutoff (some at) = ltb at cutoff

-- The rows that are left, and how many went.
abbrev pub purge : (Command → Bool) → List Command → List Command × ℕ
purge where_ rows =
    let left = delete_rows command_key where_ rows in (left, length rows - length left)

abbrev pub is_stale : ℕ → Command → Bool
is_stale cutoff row = is_none row.result_status && ltb row.created_at cutoff

abbrev pub is_past : ℕ → Command → Bool
is_past cutoff row = is_some row.result_status && is_before cutoff row.completed_at

abbrev pub purge_stale : ℕ → List Command → List Command × ℕ
purge_stale cutoff rows = purge (is_stale cutoff) rows

abbrev pub purge_completed : ℕ → List Command → List Command × ℕ
purge_completed cutoff rows = purge (is_past cutoff) rows
