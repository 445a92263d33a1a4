-- ===== src/Delivery/Dispatcher/Live.antt =====
-- server/bbz_core/workers/outbox_dispatcher.py: an action is settled after its last attempt at the
-- latest, and stays as it is from then on.
use bbz_platform.Prelude.{
  get_row-key, get_row-put_row, get_row-put_row_other, get_row-append, put_row, Result, err, map, ℕ,
  suc, ◌≤◌, String, Bool, true, false, List, [], ◌∷◌, Option, none, some, ◌≡◌, refl, sym, ◌∙◌,
  subst, ◌⊎◌, inl, inr, nat_eq, lookup, Dict, ok, ok_injective, Bool-cases, arith, if◌then◌else◌,
}
use bbz_platform.RuleDsl.Value.{Fields}
use bbz_platform.Delivery.Outbox.{
  ExternalActionOutbox, OutboxStatus, pending, dispatched, failed, is_pending, claim_due,
  max_attempts, enqueue, has_key,
}
use bbz_platform.Delivery.Dispatcher.{
  Note, State, Handler, process_all, run_once, handled, raised, recorded, process_row, process_one,
  row_by_id,
}
use bbz_platform.Delivery.Dispatcher.Rows.{allowance}
use bbz_platform.Delivery.Dispatcher.Settled.{
  Reach, here, processed, enqueued, handled-IsFair, is_pending-true,
}

-- How often an action was processed.
abbrev pub rounds : ℕ → List ℕ → ℕ
rounds id [] = 0
rounds id (i ∷ ids) = let rest = rounds id ids in if nat_eq i id then suc rest else rest

-- The row is there within its attempts, and is settled or has used so many.
abbrev pub HasProgressed : {World : Type 0} → ℕ → ℕ → State World → Type 0
HasProgressed id used s =
    (row : ExternalActionOutbox) × (row_by_id id s.rows ≡ some row)
    × (row.attempts ≤ allowance row.status)
    × ((is_pending row.status ≡ false) ⊎ (used ≤ row.attempts))

one_more :
    (used before after : ℕ) (status : OutboxStatus)
    → after ≡ suc before
    → is_pending status ≡ true
    → (is_pending status ≡ false) ⊎ (used ≤ before)
    → suc used ≤ after
one_more used before after status more waiting (inl settled) = absurd (cc (waiting, settled))
one_more used before after status more waiting (inr so_far) = omega (arith, more, so_far)

used_up :
    (used attempts : ℕ) (status : OutboxStatus)
    → max_attempts ≤ used
    → attempts ≤ allowance status
    → (is_pending status ≡ false) ⊎ (used ≤ attempts)
    → is_pending status ≡ false
used_up used attempts status enough allowed (inl settled) = settled
used_up used attempts pending enough allowed (inr so_far) =
    absurd (omega (arith, enough, allowed, so_far))
used_up used attempts dispatched enough allowed (inr so_far) = refl
used_up used attempts failed enough allowed (inr so_far) = refl

module _ {World : Type 0} (scrub : Fields → Fields) (scrub_text : String → String)
    (append_event : Note → World → World) where
  -- A settled row is left alone, and so is the rest: its handler is not called.
  process_one-settled :
      (handlers : Dict (Handler World)) (now id : ℕ) (s : State World) {row : ExternalActionOutbox}
      → row_by_id id s.rows ≡ some row
      → is_pending row.status ≡ false
      → process_one scrub scrub_text append_event handlers now id s ≡ s
  unfolding process_one
  process_one-settled handlers now id s found settled = rw found (rw settled refl)

  raised-id :
      (b : Bool) (now : ℕ) (row : ExternalActionOutbox) (error : String) (world : World)
      → (raised scrub scrub_text append_event b now row error world).row.id ≡ row.id
  raised-id true now row error world = refl
  raised-id false now row error world = refl

  recorded-id :
      (now : ℕ) (row : ExternalActionOutbox) (outcome : Result String (Option Fields))
      (world : World)
      → (recorded scrub scrub_text append_event now row (outcome, world)).row.id ≡ row.id
  recorded-id now row (ok result) world = refl
  recorded-id now row (err error) world = raised-id _ now row error world

  handled-id :
      (now : ℕ) (handler : Option (Handler World)) (row : ExternalActionOutbox) (world : World)
      → (handled scrub scrub_text append_event now handler row world).row.id ≡ row.id
  handled-id now none row world = refl
  handled-id now (some handler) row world =
      let (outcome, after) = handler row.payload world in recorded-id now row outcome after

  -- Another row is found as before.
  process_row-other :
      (handlers : Dict (Handler World)) (now id : ℕ) (found : Option ExternalActionOutbox)
      (s : State World)
      → ((row : ExternalActionOutbox) → found ≡ some row → nat_eq row.id id ≡ false)
      → row_by_id id (process_row scrub scrub_text append_event handlers now found s).rows
        ≡ row_by_id id s.rows
  process_row-other handlers now id none s other = refl
  process_row-other handlers now id (some row) s other = elim (Bool-cases (is_pending row.status)) [
    | inr settled ↦ rw settled refl
    | inl waiting ↦
        let new =
          handled scrub scrub_text append_event now (lookup row.action_type handlers) row s.world in
        rw waiting (
          get_row-put_row_other (λ (row : ExternalActionOutbox). row.id) id new.row s.rows
            (rw (handled-id now (lookup row.action_type handlers) row s.world) (other row refl)))
  ]

  process_one-other :
      (handlers : Dict (Handler World)) (now i id : ℕ) (s : State World)
      → nat_eq i id ≡ false
      → row_by_id id (process_one scrub scrub_text append_event handlers now i s).rows
        ≡ row_by_id id s.rows
  unfolding process_one
  process_one-other handlers now i id s other =
      process_row-other handlers now id (row_by_id i s.rows) s (λ row found.
        rw (get_row-key (λ (row : ExternalActionOutbox). row.id) i s.rows found) other)

  -- A row that waits uses one more attempt.
  process_one-HasProgressed :
      (handlers : Dict (Handler World)) (now id used : ℕ) (s : State World)
      → HasProgressed id used s
      → HasProgressed id (suc used) (process_one scrub scrub_text append_event handlers now id s)
  unfolding process_one
  process_one-HasProgressed handlers now id used s (row, found, within, so_far) =
      elim (Bool-cases (is_pending row.status)) [
        | inr settled ↦ rw found (rw settled (row, found, within, inl settled))
        | inl waiting ↦
            let status = is_pending-true row.status waiting in
            let new =
              handled scrub scrub_text append_event now (lookup row.action_type handlers) row
                s.world in
            let (same, more, allowed, _, _) =
              handled-IsFair scrub scrub_text append_event now (lookup row.action_type handlers) row
                s.world status (rw status at within) in
            let key : new.row.id ≡ id =
              same ∙ get_row-key (λ (row : ExternalActionOutbox). row.id) id s.rows found in
            rw found (
              rw waiting (
                new.row,
                subst
                    (λ k.
                      row_by_id k (put_row (λ (row : ExternalActionOutbox). row.id) new.row s.rows)
                      ≡ some new.row)
                    key
                    (get_row-put_row (λ (row : ExternalActionOutbox). row.id) new.row s.rows
                      (subst (λ k. row_by_id k s.rows ≡ some row) (sym key) found)),
                allowed,
                inr (one_more used row.attempts new.row.attempts row.status more waiting so_far),
              ))
      ]

  stays_found :
      (handlers : Dict (Handler World)) (now i id : ℕ) (s : State World)
      {row : ExternalActionOutbox}
      → row_by_id id s.rows ≡ some row
      → is_pending row.status ≡ false
      → row_by_id id (process_one scrub scrub_text append_event handlers now i s).rows ≡ some row
  stays_found handlers now i id s {row} found settled = elim (Bool-cases (nat_eq i id)) [
    | inl same ↦
        let equal : i ≡ id = ground (arith, same) in
        subst
          (λ k.
            row_by_id id (process_one scrub scrub_text append_event handlers now k s).rows
            ≡ some row)
          (sym equal) (rw (process_one-settled handlers now id s found settled) found)
    | inr other ↦ process_one-other handlers now i id s other ∙ found
  ]

  process_one_counted :
      (handlers : Dict (Handler World)) (now i id used : ℕ) (s : State World)
      → HasProgressed id used s
      → HasProgressed id
          (if nat_eq i id then suc used else used)
          (process_one scrub scrub_text append_event handlers now i s)
  process_one_counted handlers now i id used s progress = elim (Bool-cases (nat_eq i id)) [
    | inl same ↦
        let equal : i ≡ id = ground (arith, same) in
        rw same (
          subst
            (λ k.
              HasProgressed id (suc used)
                (process_one scrub scrub_text append_event handlers now k s))
            (sym equal) (process_one-HasProgressed handlers now id used s progress))
    | inr other ↦
        let (row, found, within, so_far) = progress in
        rw other (row, process_one-other handlers now i id s other ∙ found, within, so_far)
  ]

  enqueued-found :
      (s : State World) (row : ExternalActionOutbox) {after : List ExternalActionOutbox × Bool}
      → enqueue scrub scrub_text true row s.rows ≡ ok after
      → (id : ℕ) {old : ExternalActionOutbox} → row_by_id id s.rows ≡ some old
      → row_by_id id after.0 ≡ some old
  enqueued-found s row added id {old} found =
      elim (Bool-cases (has_key scrub scrub_text row.dedupe_key s.rows)) [
        | inl known ↦
            subst (λ (a : List ExternalActionOutbox × Bool). row_by_id id a.0 ≡ some old)
              (ok_injective (rw known at added)) found
        | inr unknown ↦
            subst (λ (a : List ExternalActionOutbox × Bool). row_by_id id a.0 ≡ some old)
              (ok_injective (rw unknown at added))
              (get_row-append (λ (row : ExternalActionOutbox). row.id) id s.rows (row ∷ []) found)
      ]

  Reach-HasProgressed :
      {s t : State World} {ids : List ℕ} (id : ℕ)
      → Reach scrub scrub_text append_event s ids t
      → HasProgressed id 0 s
      → HasProgressed id (rounds id ids) t
  Reach-HasProgressed id here progress = progress
  Reach-HasProgressed id (processed {ids = ids} {t = t} reached handlers now i) progress =
      process_one_counted handlers now i id (rounds id ids) t
        (Reach-HasProgressed id reached progress)
  Reach-HasProgressed id (enqueued {t = t} reached row fresh added) progress =
      let (old, found, within, so_far) = Reach-HasProgressed id reached progress in
      (old, enqueued-found t row added id found, within, so_far)

  -- An action that is within its attempts is settled once it has been processed eight times, whatever
  -- its handler does and whatever else happens to the table in between.
  pub settles :
      {s t : State World} {ids : List ℕ} (id : ℕ) (row : ExternalActionOutbox)
      → Reach scrub scrub_text append_event s ids t
      → row_by_id id s.rows ≡ some row
      → row.attempts ≤ allowance row.status
      → max_attempts ≤ rounds id ids
      → (now : ExternalActionOutbox) × (row_by_id id t.rows ≡ some now)
        × (is_pending now.status ≡ false)
  settles id row reached found within enough =
      let (now, found_now, allowed, progress) =
        Reach-HasProgressed id reached (row, found, within, inr (omega arith)) in
      (now, found_now, used_up _ now.attempts now.status enough allowed progress)

  -- A settled action stays as it is, and a worker that comes to it changes nothing at all: the handler
  -- is not called again.
  pub settled_stays :
      {s t : State World} {ids : List ℕ} (id : ℕ) (row : ExternalActionOutbox)
      → Reach scrub scrub_text append_event s ids t
      → row_by_id id s.rows ≡ some row
      → is_pending row.status ≡ false
      → (row_by_id id t.rows ≡ some row)
        × ((handlers : Dict (Handler World)) (now : ℕ)
            → process_one scrub scrub_text append_event handlers now id t ≡ t)
  settled_stays id row here found settled =
      (found, λ handlers now. process_one-settled handlers now id _ found settled)
  settled_stays id row (processed {t = t} reached handlers now i) found settled =
      let still : row_by_id id (process_one scrub scrub_text append_event handlers now i t).rows
          ≡ some row =
        stays_found handlers now i id t (settled_stays id row reached found settled).0 settled in
      (still, λ others later. process_one-settled others later id _ still settled)
  settled_stays id row (enqueued {t = t} reached new fresh added) found settled =
      let still = enqueued-found t new added id (settled_stays id row reached found settled).0 in
      (still, λ others later. process_one-settled others later id _ still settled)

  -- A batch is one such step for each row that was claimed.
  process_all-Reach :
      (handlers : Dict (Handler World)) (now : ℕ) (ids : List ℕ) {s t : State World}
      {before : List ℕ}
      → Reach scrub scrub_text append_event s before t
      → (after : List ℕ) × Reach scrub scrub_text append_event s after
          (process_all scrub scrub_text append_event handlers now ids t)
  unfolding process_all
  process_all-Reach handlers now [] {before = before} reached = (before, reached)
  process_all-Reach handlers now (id ∷ ids) reached =
      process_all-Reach handlers now ids (processed reached handlers now id)

  pub run_once-Reach :
      (handlers : Dict (Handler World)) (now limit : ℕ) (s : State World)
      → (ids : List ℕ) × Reach scrub scrub_text append_event s ids
          (run_once scrub scrub_text append_event handlers now limit s).0
  run_once-Reach handlers now limit s =
      process_all-Reach handlers now (map (λ row. row.id) (claim_due now limit s.rows)) here
