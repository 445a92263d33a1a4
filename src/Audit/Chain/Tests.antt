-- ===== src/Audit/Chain/Tests.antt =====
-- server/bbz_core/infra/repositories/audit_chain.py: the chain on concrete logs, with a digest that
-- prints the action.
use bbz_platform.Prelude.{
  ℕ, String, true, List, [], ◌∷◌, Option, none, some, ◌≡◌, refl, length, All, sorted, insert_sorted,
}
use bbz_platform.RuleDsl.Value.{Value, null, str, Fields, lookup_field}
use bbz_platform.Audit.Chain.{
  AuditEvent, Database, Detail, seal, verify, seq_gap, content_changed, vanished, seal_rows, walk,
  head, latest, row_fields, export,
}
use bbz_platform.Audit.Chain.History.{Action, write, run_sealer, run, empty}
use bbz_platform.Audit.Chain.Walk.{IsIntact}
use bbz_platform.Audit.Chain.Tamper.{verify-seal, tamper_found, sealed_rows}

abbrev same_text : String → String
same_text s = s

abbrev text_or_none : Option Value → String
text_or_none (some (str s)) = s
text_or_none _ = ""

abbrev action_text : Fields → String
action_text fs = text_or_none (lookup_field "action" fs)

abbrev event_of : ℕ → String → AuditEvent
event_of seq action = record {
  id = seq;
  seq = seq;
  occurred_at_utc = null;
  node_id = null;
  action = str action;
  actor_user_id = null;
  actor_client_id = null;
  workplace_id = null;
  target_type = null;
  target_id = null;
  before = null;
  after = null;
  reason = null;
  correlation_id = null;
  event_seq_ref = null;
}

-- Two rows are sealed, the third is not yet.
abbrev history : List Action
history =
    write (event_of 0 "login")
    ∷ run_sealer
    ∷ write (event_of 0 "logout")
    ∷ run_sealer
    ∷ write (event_of 0 "close")
    ∷ []

abbrev detail_after : List AuditEvent → Database → Option Detail
detail_after events db =
    (verify same_text action_text none (record db { audit_events = events })).detail

changed_row :
    detail_after
      (event_of 1 "login" ∷ event_of 2 "other" ∷ [])
      (run same_text action_text history empty)
    ≡ some content_changed
unfolding walk seal_rows head latest row_fields sorted insert_sorted
changed_row = refl

deleted_row :
    detail_after (event_of 2 "logout" ∷ []) (run same_text action_text history empty)
    ≡ some vanished
unfolding walk seal_rows head latest row_fields sorted insert_sorted
deleted_row = refl

-- A number that a rolled back transaction has used up is a gap, though nothing was changed.
abbrev gap_log : Database
gap_log = record { audit_events = event_of 1 "login" ∷ event_of 3 "logout" ∷ []; links = [] }

gap_reported :
    (verify same_text action_text none (seal same_text action_text gap_log).0).detail
    ≡ some (seq_gap 2 3)
unfolding walk seal_rows head latest row_fields sorted insert_sorted
gap_reported = refl

-- A row that commits below the head is not sealed.
abbrev late_log : Database
late_log =
    let (db, result) =
      seal same_text action_text (record { audit_events = event_of 2 "logout" ∷ []; links = [] }) in
    record db { audit_events = event_of 2 "logout" ∷ event_of 1 "login" ∷ [] }

late_row_left : (seal same_text action_text late_log).1.sealed ≡ 0
unfolding walk seal_rows head latest row_fields sorted insert_sorted
late_row_left = refl

exported : length (export 1 1000 (run same_text action_text history empty)) ≡ 1
unfolding walk seal_rows head latest row_fields sorted insert_sorted
exported = refl

verify-seal_example :
    (let db = (seal same_text action_text (run same_text action_text history empty)).0 in
      (verify same_text action_text none db).is_valid ≡ true
      × ((verify same_text action_text none db).checked ≡ length db.audit_events))
verify-seal_example = verify-seal same_text action_text history

tamper_found_example :
    All
      (IsIntact same_text action_text (event_of 1 "login" ∷ event_of 2 "logout" ∷ []))
      (sealed_rows (run same_text action_text history empty))
unfolding walk seal_rows head latest row_fields sorted insert_sorted
tamper_found_example =
    tamper_found same_text action_text history (event_of 1 "login" ∷ event_of 2 "logout" ∷ []) refl
