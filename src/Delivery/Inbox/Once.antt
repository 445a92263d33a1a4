-- ===== src/Delivery/Inbox/Once.antt =====
-- server/bbz_core/infra/inbox.py: one event is stored and processed once.
use bbz_platform.Prelude.{
  ℕ, String, List, [], ◌∷◌, ◌++◌, none, some, ◌≡◌, refl, sym, subst, inl, inr, ◌==◌, eq_iff,
  get_row, put_row, get_row-key, get_row-put_row, Bool-cases, Option-cases,
}
use bbz_platform.Delivery.Inbox.{
  ProviderEventInbox, duplicate, row_by_key, ingest, inbox_key, mark_processed,
}

row_by_key-append :
    (key : String) (rows more : List ProviderEventInbox) {row : ProviderEventInbox}
    → row_by_key key rows ≡ some row
    → row_by_key key (rows ++ more) ≡ some row
row_by_key-append key [] more found = absurd (cc found)
row_by_key-append key (r ∷ rows) more found = elim (Bool-cases (r.dedupe_key == key)) [
  | inl same ↦ rw same (rw same at found)
  | inr other ↦ rw other (row_by_key-append key rows more (rw other at found))
]

row_by_key-append_none :
    (row : ProviderEventInbox) (rows : List ProviderEventInbox)
    → row_by_key row.dedupe_key rows ≡ none
    → row_by_key row.dedupe_key (rows ++ (row ∷ [])) ≡ some row
row_by_key-append_none row [] missing = rw ((eq_iff row.dedupe_key row.dedupe_key).1 refl) refl
row_by_key-append_none row (r ∷ rows) missing = elim (Bool-cases (r.dedupe_key == row.dedupe_key)) [
  | inl same ↦ absurd (cc (rw same at missing))
  | inr other ↦ rw other (row_by_key-append_none row rows (rw other at missing))
]

-- Any number of further events.
abbrev pub ingest_all : List ProviderEventInbox → List ProviderEventInbox → List ProviderEventInbox
ingest_all [] rows = rows
ingest_all (row ∷ more) rows = ingest_all more (ingest row rows).1

ingest-found :
    (row other : ProviderEventInbox) (rows : List ProviderEventInbox) {known : ProviderEventInbox}
    → row_by_key row.dedupe_key rows ≡ some known
    → row_by_key row.dedupe_key (ingest other rows).1 ≡ some known
ingest-found row other rows found = elim (Option-cases (row_by_key other.dedupe_key rows)) [
  | inl missing ↦ rw missing (row_by_key-append row.dedupe_key rows (other ∷ []) found)
  | inr (there, known) ↦ rw known found
]

ingest_all-found :
    (row : ProviderEventInbox) (more rows : List ProviderEventInbox) {known : ProviderEventInbox}
    → row_by_key row.dedupe_key rows ≡ some known
    → row_by_key row.dedupe_key (ingest_all more rows) ≡ some known
ingest_all-found row [] rows found = found
ingest_all-found row (other ∷ more) rows found =
    ingest_all-found row more (ingest other rows).1 (ingest-found row other rows found)

ingest-known :
    (row : ProviderEventInbox) (rows : List ProviderEventInbox)
    → (known : ProviderEventInbox) × (row_by_key row.dedupe_key (ingest row rows).1 ≡ some known)
      × ((ingest row rows).0.inbox_id ≡ known.id)
ingest-known row rows = elim (Option-cases (row_by_key row.dedupe_key rows)) [
  | inl missing ↦ (row, rw missing (row_by_key-append_none row rows missing), rw missing refl)
  | inr (there, known) ↦ (there, rw known known, rw known refl)
]

-- An event that was ingested is a duplicate whenever its key comes again, whatever came in between:
-- the table stays as it is, and the answer is the id of the row that was there first.
pub ingest-ingest :
    (row again : ProviderEventInbox) (more rows : List ProviderEventInbox)
    → again.dedupe_key ≡ row.dedupe_key
    → (let after = ingest_all more (ingest row rows).1 in
        ingest again after ≡ (
          record {
            outcome = duplicate;
            inbox_id = (ingest row rows).0.inbox_id;
            dedupe_key = row.dedupe_key;
          },
          after,
        ))
ingest-ingest row again more rows same =
    let (known, found, id) = ingest-known row rows in
    let later = ingest_all-found row more (ingest row rows).1 found in
    rw same (rw later (rw id refl))

-- A row is marked once: the second mark changes nothing.
pub mark_processed-mark_processed :
    (now later id : ℕ) (rows : List ProviderEventInbox)
    → mark_processed later id (mark_processed now id rows) ≡ mark_processed now id rows
mark_processed-mark_processed now later id rows = elim (Option-cases (get_row inbox_key id rows)) [
  | inl missing ↦ rw missing (rw missing refl)
  | inr (row, found) ↦ elim (Option-cases row.processed_at) [
    | inr (before, marked) ↦ rw found (rw marked (rw found (rw marked refl)))
    | inl unmarked ↦
        let marked = record row { processed_at = some now } in
        let key : row.id ≡ id = get_row-key inbox_key id rows found in
        let written : get_row inbox_key id (put_row inbox_key marked rows) ≡ some marked =
          subst (λ k. get_row inbox_key k (put_row inbox_key marked rows) ≡ some marked) key
            (get_row-put_row inbox_key marked rows
              (subst (λ k. get_row inbox_key k rows ≡ some row) (sym key) found)) in
        rw found (rw unmarked (rw written refl))
  ]
]
