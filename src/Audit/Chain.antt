-- ===== src/Audit/Chain.antt =====
-- server/bbz_core/infra/repositories/audit_chain.py: the hash chain over the audit log, and the
-- columns of server/bbz_core/infra/models/audit.py that it reads. `hashlib.sha256(…).hexdigest()` and
-- `json.dumps` are parameters: nothing is asked of them, and the theorems name the collision.
pub mod Sealed
pub mod History
pub mod Walk
pub mod Tamper
mod Tests
use Prim.Native.String
use mathlib.Core.List.{◌++◌}
use bbz_platform.Prelude.{
  ℕ, zero, suc, String, Bool, true, false, not, List, [], ◌∷◌, Option, none, some, ltb, nat_eq,
  ◌==◌, length, filter, find, sorted, insert_sorted, if◌then◌else◌, pos,
}
use bbz_platform.RuleDsl.Value.{Value, int, Fields, end, field}

-- The columns of `audit_events`. Every column but the key and the number is a JSON value, once
-- `default=str` has printed what is none.
pub record AuditEvent : Type 0 where
  id : ℕ
  seq : ℕ
  occurred_at_utc : Value
  node_id : Value
  action : Value
  actor_user_id : Value
  actor_client_id : Value
  workplace_id : Value
  target_type : Value
  target_id : Value
  before : Value
  after : Value
  reason : Value
  correlation_id : Value
  event_seq_ref : Value

pub record AuditChainLink : Type 0 where
  seq : ℕ
  audit_event_id : ℕ
  prev_hash : String
  row_hash : String

pub record SealResult : Type 0 where
  sealed : ℕ
  head_seq : ℕ
  head_hash : String

-- What `detail` says; its numbers are those of the message.
pub data Detail : Type 0 where
  seq_gap : (expected got : ℕ) → Detail
  prev_mismatch : Detail
  vanished : Detail
  content_changed : Detail

pub record VerifyResult : Type 0 where
  is_valid : Bool
  checked : ℕ
  head_seq : ℕ
  head_hash : String
  first_bad_seq : Option ℕ
  detail : Option Detail

pub record ChainLinkView : Type 0 where
  seq : ℕ
  audit_event_id : ℕ
  prev_hash : String
  row_hash : String
  action : Value
  occurred_at_utc : Value

-- The two tables.
pub record Database : Type 0 where
  audit_events : List AuditEvent
  links : List AuditChainLink

abbrev pub genesis : String
genesis = "0000000000000000000000000000000000000000000000000000000000000000"

-- `{k: row.get(k) for k in _ROW_FIELDS}`
unfoldable pub row_fields : AuditEvent → Fields
row_fields row = field "seq" (int (pos row.seq)) (
    field "occurred_at_utc" row.occurred_at_utc (
      field "node_id" row.node_id (
        field "action" row.action (
          field "actor_user_id" row.actor_user_id (
            field "actor_client_id" row.actor_client_id (
              field "workplace_id" row.workplace_id (
                field "target_type" row.target_type (
                  field "target_id" row.target_id (
                    field "before" row.before (
                      field "after" row.after (
                        field "reason" row.reason (
                          field "correlation_id" row.correlation_id
                            (field "event_seq_ref" row.event_seq_ref end)))))))))))))

-- `select(…).order_by(seq.desc()).limit(1)`: `seq` is the table's key
unfoldable pub latest : List AuditChainLink → Option AuditChainLink
latest [] = none
latest (l ∷ ls) = elim (latest ls) [
  | none ↦ some l
  | some m ↦ if ltb m.seq l.seq then some l else some m
]

abbrev pub head_or_genesis : Option AuditChainLink → ℕ × String
head_or_genesis none = (0, genesis)
head_or_genesis (some l) = (l.seq, l.row_hash)

unfoldable pub head : List AuditChainLink → ℕ × String
head links = head_or_genesis (latest links)

-- the rows a query returns, in the order of `seq`
abbrev pub event_before : AuditEvent → AuditEvent → Bool
event_before a b = ltb a.seq b.seq

abbrev pub link_before : AuditChainLink → AuditChainLink → Bool
link_before a b = ltb a.seq b.seq

abbrev pub rows_past : ℕ → List AuditEvent → List AuditEvent
rows_past head_seq events = sorted event_before (filter (λ row. ltb head_seq row.seq) events)

abbrev pub take_first {ℓ} : {A : Type ℓ} → ℕ → List A → List A
take_first zero xs = []
take_first (suc n) [] = []
take_first (suc n) (x ∷ xs) = x ∷ take_first n xs

-- `.limit(limit)`
abbrev pub take_limit {ℓ} : {A : Type ℓ} → Option ℕ → List A → List A
take_limit none xs = xs
take_limit (some n) xs = take_first n xs

-- `by_seq.get(seq)`: the column is unique
abbrev pub row_at : ℕ → List AuditEvent → Option AuditEvent
row_at seq events = find (λ row. nat_eq row.seq seq) events

abbrev pub bad : ℕ → Detail → String → VerifyResult
bad seq why head_hash = record {
  is_valid = false;
  checked = seq;
  head_seq = seq;
  head_hash = head_hash;
  first_bad_seq = some seq;
  detail = some why;
}

abbrev pub is_unexpected : Option ℕ → ℕ → Bool
is_unexpected none seq = false
is_unexpected (some expected) seq = not (nat_eq seq expected)

abbrev pub expected_or : Option ℕ → ℕ
expected_or none = 0
expected_or (some expected) = expected

-- the number and the hash of the last link
abbrev pub last_or : ℕ × String → List AuditChainLink → ℕ × String
last_or start [] = start
last_or start (l ∷ ls) = last_or (l.seq, l.row_hash) ls

-- `AuditEvent.seq == AuditChainLink.seq`: a link with no row is left out
abbrev pub views : List AuditEvent → List AuditChainLink → List ChainLinkView
views events [] = []
views events (l ∷ ls) =
    let rest = views events ls in
    elim (row_at l.seq events) [
      | none ↦ rest
      | some row ↦
          record {
            seq = l.seq;
            audit_event_id = l.audit_event_id;
            prev_hash = l.prev_hash;
            row_hash = l.row_hash;
            action = row.action;
            occurred_at_utc = row.occurred_at_utc;
          }
          ∷ rest
    ]

abbrev pub export : ℕ → ℕ → Database → List ChainLinkView
export after_seq limit db =
    take_first limit
      (views db.audit_events (sorted link_before (filter (λ l. ltb after_seq l.seq) db.links)))

abbrev pub first_fault : Option VerifyResult → Option VerifyResult → Option VerifyResult
first_fault (some fault) rest = some fault
first_fault none rest = rest

abbrev pub verified : List AuditChainLink → VerifyResult
verified links =
    let (head_seq, head_hash) = last_or (0, genesis) links in
    record {
      is_valid = true;
      checked = length links;
      head_seq = head_seq;
      head_hash = head_hash;
      first_bad_seq = none;
      detail = none;
    }

abbrev pub verdict : Option VerifyResult → List AuditChainLink → VerifyResult
verdict (some fault) links = fault
verdict none links = verified links

module _ (sha256 : String → String) (dumps : Fields → String) where
  abbrev pub row_digest : AuditEvent → String
  row_digest row = sha256 (dumps (row_fields row))

  abbrev pub link_hash : String → String → String
  link_hash prev digest = sha256 (String.◌++◌ prev digest)

  -- the loop of `seal`: the links it adds
  unfoldable pub seal_rows : String → List AuditEvent → List AuditChainLink
  seal_rows prev [] = []
  seal_rows prev (row ∷ rows) =
      let row_hash = link_hash prev (row_digest row) in
      record { seq = row.seq; audit_event_id = row.id; prev_hash = prev; row_hash = row_hash }
      ∷ seal_rows row_hash rows

  abbrev pub seal : Database → Database × SealResult
  seal db =
      let (head_seq, prev) = head db.links in
      let added = seal_rows prev (rows_past head_seq db.audit_events) in
      let links = db.links ++ added in
      let (last_seq, last_hash) = last_or (head_seq, prev) added in
      (
        record db { links = links },
        record { sealed = length added; head_seq = last_seq; head_hash = last_hash },
      )

  -- one link of the walk: what is wrong with its row, and with the link, if anything is
  abbrev pub content_fault : Option AuditEvent → String → AuditChainLink → Option VerifyResult
  content_fault none prev link = some (bad link.seq vanished prev)
  content_fault (some row) prev link =
      if link_hash prev (row_digest row) == link.row_hash
      then none
      else some (bad link.seq content_changed prev)

  abbrev pub link_fault : List AuditEvent → Option ℕ → String → AuditChainLink → Option VerifyResult
  link_fault events expected prev link =
      if is_unexpected expected link.seq
      then some (bad link.seq (seq_gap (expected_or expected) link.seq) prev)
      else if not (link.prev_hash == prev)
      then some (bad link.seq prev_mismatch prev)
      else content_fault (row_at link.seq events) prev link

  -- the loop of `verify`: what it returns early
  unfoldable pub walk :
      List AuditEvent → Option ℕ → String → List AuditChainLink → Option VerifyResult
  walk events expected prev [] = none
  walk events expected prev (link ∷ links) =
      first_fault (link_fault events expected prev link)
        (walk events (some (suc link.seq)) link.row_hash links)

  abbrev pub verify : Option ℕ → Database → VerifyResult
  verify limit db =
      let links = take_limit limit (sorted link_before db.links) in
      verdict (walk db.audit_events none genesis links) links
