-- ===== src/Delivery/Dispatcher.antt =====
-- server/bbz_core/workers/outbox_dispatcher.py: the worker that runs the handlers of due actions and
-- records what came of each. The handlers are parameters, and act on a `World`; so is `append_event`,
-- whose failure is swallowed here.
pub mod Rows
pub mod Settled
pub mod Live
mod Tests
use Prim.Native.String
use bbz_platform.Prelude.{
  strip, get_row, put_row, ℕ, suc, ◌+◌, String, Bool, true, false, ◌&&◌, List, [], ◌∷◌, ◌++◌, map,
  Option, none, some, leb, ltb, nat_eq, ◌==◌, ◌||◌, find, filter, length, sorted, lookup, Dict,
  Result, ok, err, if◌then◌else◌,
}
use bbz_platform.RuleDsl.Value.{Value, null, str, Fields, end, field, lookup_field, truth}
use bbz_platform.Triggers.Signals.{get_field}
use bbz_platform.Delivery.Outbox.{
  ExternalActionOutbox, OutboxStatus, is_pending, max_attempts, claim_due, mark_dispatched,
  mark_retry, mark_failed,
}

-- An audit row of the dispatcher: its action is `EXTERNAL_ACTION_DISPATCHED` where `is_delivered`, and
-- `EXTERNAL_ACTION_FAILED` where not.
pub record AuditEntry : Type 0 where
  is_delivered : Bool
  target_id : ℕ
  action_type : String
  attempts : ℕ
  status : OutboxStatus
  reason : Option String

pub data NoteType : Type 0 where
  camera_opened : NoteType
  camera_action_failed : NoteType

-- A domain event on the event that the action belongs to.
pub record Note : Type 0 where
  event_type : NoteType
  aggregate_id : Value
  row : ExternalActionOutbox

abbrev pub camera_action_types : List String
camera_action_types = "open_camera" ∷ "open_camera_group" ∷ []

abbrev pub is_camera_action : String → Bool
is_camera_action t = t == "open_camera" || t == "open_camera_group"

abbrev pub error_or_default : Option String → Option String
error_or_default none = some "dispatch failed"
error_or_default (some error) = if error == "" then some "dispatch failed" else some error

-- what `AuditService.write` keeps of a reason: `(reason or "").strip() or None`
abbrev pub clean_reason : Option String → Option String
clean_reason none = none
clean_reason (some reason) = if strip reason == "" then none else some (strip reason)

abbrev pub audit_entry : Bool → ExternalActionOutbox → AuditEntry
audit_entry is_delivered row = record {
  is_delivered = is_delivered;
  target_id = row.id;
  action_type = row.action_type;
  attempts = row.attempts;
  status = row.status;
  reason = clean_reason (if is_delivered then none else error_or_default row.last_error);
}

-- the event to append, if there is one
abbrev pub note_of : NoteType → ExternalActionOutbox → List Note
note_of event_type row =
    let event_id = get_field "event_id" row.payload in
    if is_camera_action row.action_type && truth event_id
    then record { event_type = event_type; aggregate_id = event_id; row = row } ∷ []
    else []

-- `_on_terminal_failure`
abbrev pub failure_note : ExternalActionOutbox → List Note
failure_note row = note_of camera_action_failed row

-- `_on_camera_dispatched`
abbrev pub opened_note : ExternalActionOutbox → List Note
opened_note row = note_of camera_opened row

-- `session.get(…, row_id)`
abbrev pub row_by_id : ℕ → List ExternalActionOutbox → Option ExternalActionOutbox
row_by_id id rows = get_row (λ (row : ExternalActionOutbox). row.id) id rows

-- `self._handlers[action_type] = handler`
abbrev pub register {ℓ} : {A : Type ℓ} → String → A → Dict A → Dict A
register action_type handler [] = (action_type, handler) ∷ []
register action_type handler ((k, h) ∷ handlers) =
    let rest = register action_type handler handlers in
    if k == action_type then (k, handler) ∷ handlers else (k, h) ∷ rest

-- `f"no handler for {row.action_type!r}"`, quotes in the name left as they are
abbrev pub no_handler : String → String
no_handler action_type = String.◌++◌ "no handler for '" (String.◌++◌ action_type "'")

pub record State (World : Type 0) : Type 0 where
  rows : List ExternalActionOutbox
  audit : List AuditEntry
  world : World

-- What a transaction of the dispatcher writes: the row, its audit rows, and the world.
pub record Written (World : Type 0) : Type 0 where
  row : ExternalActionOutbox
  audit : List AuditEntry
  world : World

-- A handler returns its result or raises its error, and either way has acted on the world.
abbrev pub Handler : Type 0 → Type 0
Handler World = Fields → World → Result String (Option Fields) × World

module _ {World : Type 0} (scrub : Fields → Fields) (scrub_text : String → String)
    (append_event : Note → World → World) where
  abbrev append_all : List Note → World → World
  append_all [] world = world
  append_all (note ∷ notes) world = append_all notes (append_event note world)

  -- the row is failed for good, and audited
  abbrev pub failed_for_good : String → ExternalActionOutbox → List Note → World → Written World
  failed_for_good error row notes world =
      let new = mark_failed scrub scrub_text error row in
      record { row = new; audit = audit_entry false new ∷ []; world = append_all notes world }

  -- the handler has raised, on its last attempt or before
  abbrev pub raised : Bool → ℕ → ExternalActionOutbox → String → World → Written World
  raised true now row error world =
      failed_for_good error row (failure_note (mark_failed scrub scrub_text error row)) world
  raised false now row error world = record {
    row = mark_retry scrub scrub_text now error row;
    audit = [];
    world = world;
  }

  -- what the outcome of the handler makes of the row
  abbrev pub recorded :
      ℕ → ExternalActionOutbox → Result String (Option Fields) × World → Written World
  recorded now row (ok result, world) =
      let new = mark_dispatched scrub scrub_text now result row in
      record {
        row = new;
        audit = audit_entry true new ∷ [];
        world = append_all (opened_note new) world;
      }
  recorded now row (err error, world) =
      raised (leb max_attempts (suc row.attempts)) now row error world

  abbrev pub handled : ℕ → Option (Handler World) → ExternalActionOutbox → World → Written World
  handled now none row world = failed_for_good (no_handler row.action_type) row [] world
  handled now (some handler) row world = recorded now row (handler row.payload world)

  abbrev pub commit : Written World → State World → State World
  commit new s = record {
    rows = put_row (λ (row : ExternalActionOutbox). row.id) new.row s.rows;
    audit = s.audit ++ new.audit;
    world = new.world;
  }

  abbrev pub process_row :
      Dict (Handler World) → ℕ → Option ExternalActionOutbox → State World → State World
  process_row handlers now none s = s
  process_row handlers now (some row) s =
      if is_pending row.status
      then commit (handled now (lookup row.action_type handlers) row s.world) s
      else s

  unfoldable pub process_one : Dict (Handler World) → ℕ → ℕ → State World → State World
  process_one handlers now id s = process_row handlers now (row_by_id id s.rows) s

  unfoldable pub process_all : Dict (Handler World) → ℕ → List ℕ → State World → State World
  process_all handlers now [] s = s
  process_all handlers now (id ∷ ids) s =
      process_all handlers now ids (process_one handlers now id s)

  -- one batch, and the number of its rows
  abbrev pub run_once : Dict (Handler World) → ℕ → ℕ → State World → State World × ℕ
  run_once handlers now limit s =
      let ids = map (λ row. row.id) (claim_due now limit s.rows) in
      (process_all handlers now ids s, length ids)
