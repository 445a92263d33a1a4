-- ===== src/Delivery/Inbox.antt =====
-- server/bbz_core/infra/inbox.py and server/bbz_core/infra/models/inbox.py: events of the providers,
-- stored once. `hashlib.sha256(…).hexdigest()` and `json.dumps` are parameters; a payload that came in
-- before, under the same key, need not hash apart from others for what is proved.
pub mod Once
mod Tests
use Prim.Native.String
use bbz_platform.Prelude.{
  ℕ, String, Bool, true, false, ◌&&◌, List, [], ◌∷◌, ◌++◌, Option, none, some, find, nat_eq, ◌==◌,
  is_none, if◌then◌else◌, get_row, put_row,
}
use bbz_platform.RuleDsl.Value.{Fields}

pub data IngestOutcome : Type 0 where
  new : IngestOutcome
  duplicate : IngestOutcome

pub record IngestResult : Type 0 where
  outcome : IngestOutcome
  inbox_id : ℕ
  dedupe_key : String

pub record ProviderEventInbox : Type 0 where
  id : ℕ
  provider : String
  provider_event_id : Option String
  dedupe_key : String
  raw_ref : Option String
  raw_hash : Option String
  normalized : Fields
  correlation_id : Option String
  received_at : ℕ
  processed_at : Option ℕ

-- `if provider_event_id:`
abbrev pub given : Option String → Option String
given none = none
given (some s) = if s == "" then none else some s

-- `dedupe_key or derive_dedupe_key(…)`
abbrev pub key_or : Option String → String → String
key_or none derived = derived
key_or (some key) derived = key

-- `select(…).where(dedupe_key == key)`
abbrev pub row_by_key : String → List ProviderEventInbox → Option ProviderEventInbox
row_by_key key rows = find (λ row. row.dedupe_key == key) rows

-- `on_conflict_do_nothing(…)`, and the row that is there already
abbrev pub ingest_found :
    ProviderEventInbox
    → Option ProviderEventInbox
    → List ProviderEventInbox
    → IngestResult × List ProviderEventInbox
ingest_found row none rows =
    (record { outcome = new; inbox_id = row.id; dedupe_key = row.dedupe_key }, rows ++ (row ∷ []))
ingest_found row (some existing) rows =
    (record { outcome = duplicate; inbox_id = existing.id; dedupe_key = row.dedupe_key }, rows)

module _ (sha256 : String → String) (dumps : Fields → String) where
  abbrev pub payload_hash : Fields → String
  payload_hash normalized = sha256 (dumps normalized)

  unfoldable pub derive_dedupe_key : String → Option String → Fields → String
  derive_dedupe_key provider provider_event_id normalized = elim (given provider_event_id) [
    | some event_id ↦ String.◌++◌ provider (String.◌++◌ ":" event_id)
    | none ↦ String.◌++◌ provider (String.◌++◌ ":sha256:" (payload_hash normalized))
  ]

  -- `id` is the key that the database gives the new row
  abbrev pub new_row :
      ℕ
      → ℕ
      → String
      → Fields
      → Option String
      → Option String
      → Option String
      → Option String
      → Option String
      → ProviderEventInbox
  new_row now id provider normalized provider_event_id raw_ref raw_hash dedupe_key correlation_id =
      record {
        id = id;
        provider = provider;
        provider_event_id = provider_event_id;
        dedupe_key =
            key_or (given dedupe_key) (derive_dedupe_key provider provider_event_id normalized);
        raw_ref = raw_ref;
        raw_hash = raw_hash;
        normalized = normalized;
        correlation_id = correlation_id;
        received_at = now;
        processed_at = none;
      }

-- `ingest` of the row that it makes of its arguments
abbrev pub ingest :
    ProviderEventInbox → List ProviderEventInbox → IngestResult × List ProviderEventInbox
ingest row rows = ingest_found row (row_by_key row.dedupe_key rows) rows

abbrev pub inbox_key : ProviderEventInbox → ℕ
inbox_key row = row.id

abbrev pub mark_found :
    ℕ → Option ProviderEventInbox → List ProviderEventInbox → List ProviderEventInbox
mark_found now none rows = rows
mark_found now (some row) rows =
    if is_none row.processed_at
    then put_row inbox_key (record row { processed_at = some now }) rows
    else rows

abbrev pub mark_processed : ℕ → ℕ → List ProviderEventInbox → List ProviderEventInbox
mark_processed now inbox_id rows = mark_found now (get_row inbox_key inbox_id rows) rows
