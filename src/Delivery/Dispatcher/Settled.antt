-- ===== src/Delivery/Dispatcher/Settled.antt =====
-- server/bbz_core/workers/outbox_dispatcher.py: in any interleaving of enqueues and of dispatchers,
-- an action stays within its attempts and is audited once it is settled, and only then.
use bbz_platform.Prelude.{
  get_row-All, put_row-All, ℕ, suc, ◌+◌, ◌≤◌, String, Bool, true, false, List, [], ◌∷◌, ◌++◌,
  Option, none, some, ◌≡◌, refl, ap, ◌∙◌, subst, inl, inr, leb, nat_eq, lookup, Dict, Result, ok,
  err, ok_injective, All, All-append, Bool-cases, arith,
}
use bbz_platform.RuleDsl.Value.{Fields}
use bbz_platform.Delivery.Outbox.{
  ExternalActionOutbox, OutboxStatus, pending, dispatched, failed, is_pending, max_attempts,
  enqueue, has_key, mark_failed,
}
use bbz_platform.Delivery.Dispatcher.{
  AuditEntry, Note, State, Written, Handler, commit, failed_for_good, raised, failure_note,
  no_handler, handled, recorded, process_row, process_one, row_by_id,
}
use bbz_platform.Delivery.Dispatcher.Rows.{allowance, entries_due, entries_of}

-- The row is within its attempts, and is audited if it is settled.
abbrev pub IsAccounted : List AuditEntry → ExternalActionOutbox → Type 0
IsAccounted audit row =
    (row.attempts ≤ allowance row.status) × (entries_of row.id audit ≡ entries_due row.status)

pub is_pending-true : (status : OutboxStatus) → is_pending status ≡ true → status ≡ pending
is_pending-true pending waiting = refl
is_pending-true dispatched waiting = absurd (cc waiting)
is_pending-true failed waiting = absurd (cc waiting)

entries_of-append :
    (id : ℕ) (xs ys : List AuditEntry)
    → entries_of id (xs ++ ys) ≡ entries_of id xs + entries_of id ys
entries_of-append id [] ys = omega arith
entries_of-append id (x ∷ xs) ys = ground (arith, entries_of-append id xs ys)

module _ {World : Type 0} where
  -- What a transaction owes the row that it has handled.
  abbrev pub IsFair : ExternalActionOutbox → Written World → Type 0
  IsFair row new =
      (new.row.id ≡ row.id)
      × (new.row.attempts ≡ suc row.attempts)
      × (new.row.attempts ≤ allowance new.row.status)
      × (entries_of row.id new.audit ≡ entries_due new.row.status)
      × ((id : ℕ) → nat_eq row.id id ≡ false → entries_of id new.audit ≡ 0)

  -- The row waits, unused, and nothing was audited under its key.
  abbrev pub IsNew : State World → ExternalActionOutbox → Type 0
  IsNew s row = (row.status ≡ pending) × (row.attempts ≡ 0) × (entries_of row.id s.audit ≡ 0)

  abbrev pub AllAccounted : State World → Type 0
  AllAccounted s = All (IsAccounted s.audit) s.rows

module _ {World : Type 0} (scrub : Fields → Fields) (scrub_text : String → String)
    (append_event : Note → World → World) where
  failed_for_good-IsFair :
      (error : String) (row : ExternalActionOutbox) (notes : List Note) (world : World)
      → row.attempts ≤ 7
      → IsFair row (failed_for_good scrub scrub_text append_event error row notes world)
  failed_for_good-IsFair error row notes world within =
      (refl, refl, omega (arith, within), ground arith, λ id other. ground (arith, other))

  raised-IsFair :
      (b : Bool) (now : ℕ) (row : ExternalActionOutbox) (error : String) (world : World)
      → leb max_attempts (suc row.attempts) ≡ b
      → row.status ≡ pending
      → row.attempts ≤ 7
      → IsFair row (raised scrub scrub_text append_event b now row error world)
  raised-IsFair true now row error world last here within =
      failed_for_good-IsFair error row (failure_note (mark_failed scrub scrub_text error row)) world
        within
  raised-IsFair false now row error world last here within =
      (refl, refl, rw here (ground (arith, last)), rw here refl, λ id other. refl)

  recorded-IsFair :
      (now : ℕ) (row : ExternalActionOutbox) (outcome : Result String (Option Fields))
      (world : World)
      → row.status ≡ pending
      → row.attempts ≤ 7
      → IsFair row (recorded scrub scrub_text append_event now row (outcome, world))
  recorded-IsFair now row (ok result) world here within =
      (refl, refl, omega (arith, within), ground arith, λ id other. ground (arith, other))
  recorded-IsFair now row (err error) world here within =
      raised-IsFair (leb max_attempts (suc row.attempts)) now row error world refl here within

  pub handled-IsFair :
      (now : ℕ) (handler : Option (Handler World)) (row : ExternalActionOutbox) (world : World)
      → row.status ≡ pending
      → row.attempts ≤ 7
      → IsFair row (handled scrub scrub_text append_event now handler row world)
  handled-IsFair now none row world here within =
      failed_for_good-IsFair (no_handler row.action_type) row [] world within
  handled-IsFair now (some handler) row world here within =
      let (outcome, after) = handler row.payload world in
      recorded-IsFair now row outcome after here within

  commit-AllAccounted :
      (row : ExternalActionOutbox) (new : Written World) (s : State World)
      → row.status ≡ pending
      → IsAccounted s.audit row
      → IsFair row new
      → AllAccounted s
      → AllAccounted (commit scrub scrub_text append_event new s)
  commit-AllAccounted row new s here accounted (same, _, within, own, others) all_accounted =
      put_row-All (λ (row : ExternalActionOutbox). row.id) (IsAccounted s.audit)
        (IsAccounted (s.audit ++ new.audit)) new.row s.rows
        (
          within,
          rw same (
              entries_of-append row.id s.audit new.audit
              ∙ omega (arith, own, accounted.1 ∙ ap entries_due here)),
        )
        (λ other different fair. (
          fair.0,
          entries_of-append other.id s.audit new.audit
              ∙ omega (arith, fair.1, others other.id (ground (arith, different, same))),
        ))
        all_accounted

  -- A transaction keeps every row accounted for.
  process_row-AllAccounted :
      (handlers : Dict (Handler World)) (now : ℕ) (found : Option ExternalActionOutbox)
      (s : State World)
      → ((row : ExternalActionOutbox) → found ≡ some row → IsAccounted s.audit row)
      → AllAccounted s
      → AllAccounted (process_row scrub scrub_text append_event handlers now found s)
  process_row-AllAccounted handlers now none s here accounted = accounted
  process_row-AllAccounted handlers now (some row) s here accounted =
      elim (Bool-cases (is_pending row.status)) [
        | inr settled ↦ rw settled accounted
        | inl waiting ↦
            let status = is_pending-true row.status waiting in
            let own = here row refl in
            let within : row.attempts ≤ 7 = rw status at own.0 in
            rw waiting (
              commit-AllAccounted row
                (handled scrub scrub_text append_event now (lookup row.action_type handlers) row
                  s.world)
                s status own
                (handled-IsFair now (lookup row.action_type handlers) row s.world status within)
                accounted)
      ]

  pub process_one-AllAccounted :
      (handlers : Dict (Handler World)) (now id : ℕ) (s : State World)
      → AllAccounted s
      → AllAccounted (process_one scrub scrub_text append_event handlers now id s)
  unfolding process_one
  process_one-AllAccounted handlers now id s accounted =
      process_row-AllAccounted handlers now (row_by_id id s.rows) s
        (λ row found.
          get_row-All (λ (row : ExternalActionOutbox). row.id) (IsAccounted s.audit) id s.rows found
            accounted)
        accounted

  -- What the workers and the writers do to the table, with the actions that were processed, the latest
  -- first. A new row has a key of its own.
  pub data Reach (s : State World) : List ℕ → State World → Type 0 where
    here : Reach s [] s
    processed :
        {ids : List ℕ} {t : State World}
        → Reach s ids t
        → (handlers : Dict (Handler World)) (now id : ℕ)
        → Reach s (id ∷ ids) (process_one scrub scrub_text append_event handlers now id t)
    enqueued :
        {ids : List ℕ} {t : State World}
        → Reach s ids t
        → (row : ExternalActionOutbox) {after : List ExternalActionOutbox × Bool} → IsNew t row
        → enqueue scrub scrub_text true row t.rows ≡ ok after
        → Reach s ids (record t { rows = after.0 })

  enqueued-AllAccounted :
      (s : State World) (row : ExternalActionOutbox) {after : List ExternalActionOutbox × Bool}
      → IsNew s row
      → enqueue scrub scrub_text true row s.rows ≡ ok after
      → AllAccounted s
      → AllAccounted (record s { rows = after.0 })
  enqueued-AllAccounted s row {after} fresh added accounted =
      elim (Bool-cases (has_key scrub scrub_text row.dedupe_key s.rows)) [
        | inl known ↦
            subst (λ rows. All (IsAccounted s.audit) rows)
              (ap (λ p. p.0) (ok_injective (rw known at added))) accounted
        | inr unknown ↦
            subst (λ rows. All (IsAccounted s.audit) rows)
              (ap (λ p. p.0) (ok_injective (rw unknown at added)))
              (All-append _ s.rows (row ∷ []) accounted
                ((rw fresh.0 (omega (arith, fresh.1)), rw fresh.0 fresh.2), tt))
      ]

  -- In any history of the table each action is within its eight attempts, and has its audit row if it
  -- was dispatched or has failed, and none while it waits.
  pub Reach-AllAccounted :
      {s t : State World} {ids : List ℕ} → Reach s ids t → AllAccounted s → AllAccounted t
  Reach-AllAccounted here accounted = accounted
  Reach-AllAccounted (processed {t = t} reached handlers now id) accounted =
      process_one-AllAccounted handlers now id t (Reach-AllAccounted reached accounted)
  Reach-AllAccounted (enqueued {t = t} reached row fresh added) accounted =
      enqueued-AllAccounted t row fresh added (Reach-AllAccounted reached accounted)
