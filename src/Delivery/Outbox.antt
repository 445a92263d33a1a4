-- ===== src/Delivery/Outbox.antt =====
-- server/bbz_core/infra/outbox.py and server/bbz_core/infra/models/outbox.py: the table of external
-- actions. Times are seconds. `scrub` masks the secrets that the calling context has registered, and
-- is a parameter: nothing depends on what it masks.
pub mod Backoff
use Prim.Native.Nat.{◌^◌}
use bbz_platform.Prelude.{
  ℕ, suc, ◌+◌, ◌*◌, String, Bool, true, false, ◌&&◌, List, [], ◌∷◌, ◌++◌, Option, none, some, ltb,
  leb, nat_eq, ◌==◌, any, filter, sorted, Result, ok, err, guard, ◌>>◌, if◌then◌else◌,
}
use bbz_platform.RuleDsl.Value.{Fields}
use bbz_platform.Audit.Chain.{take_first}

pub data OutboxStatus : Type 0 where
  pending : OutboxStatus
  dispatched : OutboxStatus
  failed : OutboxStatus

pub record ExternalActionOutbox : Type 0 where
  pub id : ℕ
  pub dedupe_key : String
  pub action_type : String
  pub payload : Fields
  pub status : OutboxStatus
  pub attempts : ℕ
  pub next_attempt_at : ℕ
  pub last_error : Option String
  pub result : Option Fields
  pub correlation_id : Option String
  pub created_at : ℕ
  pub dispatched_at : Option ℕ

pub data OutboxError : Type 0 where
  not_in_transaction : OutboxError

abbrev pub is_pending : OutboxStatus → Bool
is_pending pending = true
is_pending _ = false

abbrev pub base_backoff : ℕ
base_backoff = 5

abbrev pub max_backoff : ℕ
max_backoff = 1800

abbrev pub max_attempts : ℕ
max_attempts = 8

-- `min(_BASE_BACKOFF * (2**attempts), _MAX_BACKOFF)`
unfoldable pub delay : ℕ → ℕ
delay attempts =
    if ltb max_backoff (base_backoff * 2 ^ attempts)
    then max_backoff
    else base_backoff * 2 ^ attempts

abbrev pub backoff : ℕ → ℕ → ℕ
backoff now attempts = now + delay attempts

-- The row is due for a worker.
abbrev pub is_due : ℕ → ExternalActionOutbox → Bool
is_due now row = is_pending row.status && leb row.next_attempt_at now

abbrev pub attempt_before : ExternalActionOutbox → ExternalActionOutbox → Bool
attempt_before a b = ltb a.next_attempt_at b.next_attempt_at

abbrev pub claim_due : ℕ → ℕ → List ExternalActionOutbox → List ExternalActionOutbox
claim_due now limit rows = take_first limit (sorted attempt_before (filter (is_due now) rows))

module _ (scrub : Fields → Fields) (scrub_text : String → String) where
  -- `id` is the key that the database gives the new row
  abbrev pub new_row : ℕ → ℕ → Option String → String → String → Fields → ExternalActionOutbox
  new_row now id correlation_id dedupe_key action_type payload = record {
    id = id;
    dedupe_key = dedupe_key;
    action_type = action_type;
    payload = scrub payload;
    status = pending;
    attempts = 0;
    next_attempt_at = now;
    last_error = none;
    result = none;
    correlation_id = correlation_id;
    created_at = now;
    dispatched_at = none;
  }

  abbrev pub has_key : String → List ExternalActionOutbox → Bool
  has_key key rows = any (λ row. row.dedupe_key == key) rows

  -- The table after the call, and whether the row was added.
  abbrev pub enqueue :
      Bool
      → ExternalActionOutbox
      → List ExternalActionOutbox
      → Result OutboxError (List ExternalActionOutbox × Bool)
  enqueue in_transaction row rows =
      guard in_transaction not_in_transaction
      >> ok (if has_key row.dedupe_key rows then (rows, false) else (rows ++ (row ∷ []), true))

  abbrev pub scrub_result : Option Fields → Option Fields
  scrub_result none = none
  scrub_result (some fs) = some (scrub fs)

  abbrev pub mark_dispatched : ℕ → Option Fields → ExternalActionOutbox → ExternalActionOutbox
  mark_dispatched now result row = record row {
    status = dispatched;
    attempts = suc row.attempts;
    result = scrub_result result;
    last_error = none;
    dispatched_at = some now;
  }

  abbrev pub mark_retry : ℕ → String → ExternalActionOutbox → ExternalActionOutbox
  mark_retry now error row = record row {
    attempts = suc row.attempts;
    last_error = some (scrub_text error);
    next_attempt_at = backoff now (suc row.attempts);
  }

  abbrev pub mark_failed : String → ExternalActionOutbox → ExternalActionOutbox
  mark_failed error row = record row {
    status = failed;
    attempts = suc row.attempts;
    last_error = some (scrub_text error);
  }
