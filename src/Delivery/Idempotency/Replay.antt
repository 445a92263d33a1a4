-- ===== src/Delivery/Idempotency/Replay.antt =====
-- server/bbz_core/infra/idempotency.py: what a command that ran is answered when it is sent again.
use bbz_platform.Prelude.{
  is_none, ℕ, ◌≤◌, String, Bool, true, false, List, [], ◌∷◌, ◌++◌, Option, none, some,
  some_injective, ◌≡◌, refl, sym, ap, ◌∙◌, subst, inl, inr, nat_eq, ◌==◌, Result, ok, err,
  Bool-cases, Option-cases, delete_rows, get_row-key, get_row-put_row_other, arith, if◌then◌else◌,
  get_row, put_row, get_row-append_none, get_row-put_row,
}
use bbz_platform.Delivery.Idempotency.{
  Command, StoredResult, CommandError, Answer, claim, claim_found, complete, is_abandoned, is_stale,
  is_past, purge_stale, purge_completed, Body, body_error, command_conflict, replayed, ran,
  command_key, completed_row, abandon, idempotent,
}

-- Deleting what is pending under a key that only the new row has takes the new row away.
abandon-append :
    (new : Command) (rows : List Command)
    → is_none new.result_status ≡ true
    → get_row command_key new.command_id rows ≡ none
    → abandon new.command_id (rows ++ (new ∷ [])) ≡ rows
abandon-append new [] pending missing =
    let itself : nat_eq new.command_id new.command_id ≡ true = ground arith in
    rw itself (rw pending refl)
abandon-append new (r ∷ rows) pending missing =
    elim (Bool-cases (nat_eq r.command_id new.command_id)) [
      | inl same ↦ absurd (cc (rw same at missing))
      | inr other ↦ rw other (
          ap (λ (rest : List Command). r ∷ rest)
            (abandon-append new rows pending (rw other at missing)))
    ]

-- The new row is found under its key.
pub get_row-new :
    (new : Command) (rows : List Command)
    → get_row command_key new.command_id rows ≡ none
    → get_row command_key new.command_id (rows ++ (new ∷ [])) ≡ some new
get_row-new new rows missing =
    let itself : nat_eq new.command_id new.command_id ≡ true = ground arith in
    get_row-append_none command_key new.command_id rows (new ∷ []) missing ∙ rw itself refl

-- What clients do to the store, but for completing this command once more and for a purge with a cutoff
-- past this time.
pub data Others (id now : ℕ) (rows : List Command) : List Command → Type 0 where
  quiet : Others id now rows rows
  claimed_by :
      {left : List Command}
      → Others id now rows left
      → (new : Command) → Others id now rows (claim new left).1
  completed_by :
      {left : List Command}
      → Others id now rows left
      → (time other : ℕ) (stored : StoredResult) → nat_eq other id ≡ false
      → Others id now rows (complete time other stored left).1
  abandoned_by :
      {left : List Command}
      → Others id now rows left
      → (other : ℕ) → Others id now rows (abandon other left)
  stale_purged :
      {left : List Command}
      → Others id now rows left
      → (cutoff : ℕ) → Others id now rows (purge_stale cutoff left).0
  completed_purged :
      {left : List Command}
      → Others id now rows left
      → (cutoff : ℕ) → cutoff ≤ now
      → Others id now rows (purge_completed cutoff left).0

get_row-append_found :
    (id : ℕ) (rows more : List Command) (row : Command)
    → get_row command_key id rows ≡ some row
    → get_row command_key id (rows ++ more) ≡ some row
get_row-append_found id [] more row found = absurd (cc found)
get_row-append_found id (r ∷ rows) more row found = elim (Bool-cases (nat_eq r.command_id id)) [
  | inl here ↦ rw here (rw here at found)
  | inr other ↦ rw other (get_row-append_found id rows more row (rw other at found))
]

get_row-undeleted :
    (p : Command → Bool) (id : ℕ) (rows : List Command) (row : Command)
    → p row ≡ false
    → get_row command_key id rows ≡ some row
    → get_row command_key id (delete_rows command_key p rows) ≡ some row
get_row-undeleted p id [] row spared found = absurd (cc found)
get_row-undeleted p id (r ∷ rows) row spared found = elim (Bool-cases (nat_eq r.command_id id)) [
  | inl here ↦
      let itself : r ≡ row = some_injective (rw here at found) in
      rw (ap p itself ∙ spared) (rw here (ap some itself))
  | inr other ↦
      let rest = get_row-undeleted p id rows row spared (rw other at found) in
      elim (Bool-cases (p r)) [ inl gone ↦ rw gone rest | inr kept ↦ rw kept (rw other rest) ]
]

get_row-claim :
    (id : ℕ) (new : Command) (earlier : Option Command) (rows : List Command) (row : Command)
    → get_row command_key id rows ≡ some row
    → get_row command_key id (claim_found new earlier rows).1 ≡ some row
get_row-claim id new none rows row found = get_row-append_found id rows (new ∷ []) row found
get_row-claim id new (some old) rows row found =
    elim (Bool-cases (old.request_hash == new.request_hash)) [
      | inr other ↦ rw other found
      | inl same ↦ elim (Option-cases old.result_status) [
        | inl waits ↦ rw same (rw waits found)
        | inr (status, closed) ↦ rw same (rw closed found)
      ]
    ]

get_row-complete :
    (id time other : ℕ) (stored : StoredResult) (rows : List Command) (row : Command)
    → nat_eq other id ≡ false
    → get_row command_key id rows ≡ some row
    → get_row command_key id (complete time other stored rows).1 ≡ some row
get_row-complete id time other stored rows row apart found =
    elim (Option-cases (get_row command_key other rows)) [
      | inl missing ↦ rw missing found
      | inr (old, there) ↦
          let key : old.command_id ≡ other = get_row-key command_key other rows there in
          rw there (
            get_row-put_row_other command_key id (completed_row time stored old) rows (rw key apart)
            ∙ found)
    ]

-- A completed row stays as it is.
Others-kept :
    (id now status : ℕ) (row : Command) {rows left : List Command}
    → row.result_status ≡ some status
    → row.completed_at ≡ some now
    → Others id now rows left
    → get_row command_key id rows ≡ some row
    → get_row command_key id left ≡ some row
Others-kept id now status row closed at_now quiet found = found
Others-kept id now status row closed at_now (claimed_by {left} before new) found =
    get_row-claim id new (get_row command_key new.command_id left) left row
      (Others-kept id now status row closed at_now before found)
Others-kept id now status row closed at_now (completed_by {left} before time other stored apart)
      found =
    get_row-complete id time other stored left row apart
      (Others-kept id now status row closed at_now before found)
Others-kept id now status row closed at_now (abandoned_by {left} before other) found =
    get_row-undeleted (is_abandoned other) id left row (rw closed (ground arith))
      (Others-kept id now status row closed at_now before found)
Others-kept id now status row closed at_now (stale_purged {left} before cutoff) found =
    get_row-undeleted (is_stale cutoff) id left row (rw closed refl)
      (Others-kept id now status row closed at_now before found)
Others-kept id now status row closed at_now (completed_purged {left} before cutoff early) found =
    get_row-undeleted (is_past cutoff) id left row (rw closed (rw at_now (ground (arith, early))))
      (Others-kept id now status row closed at_now before found)

module _ {World : Type 0} where
  idempotent_runs :
      (now : ℕ) (new : Command) (body : Body World) (rows : List Command) (world after : World)
      (stored : StoredResult)
      → get_row command_key new.command_id rows ≡ none
      → body world ≡ (ok (some stored), after)
      → idempotent now new body rows world ≡ (
        ok (ran stored),
        put_row command_key (completed_row now stored new) (rows ++ (new ∷ [])),
        after,
      )
  idempotent_runs now new body rows world after stored missing runs =
      rw missing (rw runs (rw (get_row-new new rows missing) refl))

  idempotent_again :
      (later now : ℕ) (stored : StoredResult) (first next : Command) (again : Body World)
      (rows : List Command) (world : World)
      → get_row command_key next.command_id rows ≡ some (completed_row now stored first)
      → idempotent later next again rows world ≡ (
        (if first.request_hash == next.request_hash
            then ok (replayed stored)
            else err command_conflict),
        rows,
        world,
      )
  idempotent_again later now stored first next again rows world found =
      rw found (elim (Bool-cases (first.request_hash == next.request_hash)) [
        | inl same ↦ rw same refl
        | inr other ↦ rw other refl
      ])

  -- A command that was not in the store, and whose body returned a result, is sent again, after any number
  -- of claims of any commands, completions of other commands, abandonments, purges of stale rows, and
  -- purges of completed rows whose cutoff is not past the time of completion. With the same request it is
  -- answered by the stored result, and with another it is a conflict; in neither case is the body run or
  -- the store changed.
  pub idempotent-idempotent :
      (now later : ℕ) (first next : Command) (body again : Body World) (rows between : List Command)
      (world after elsewhere : World) (stored : StoredResult)
      → get_row command_key first.command_id rows ≡ none
      → next.command_id ≡ first.command_id
      → body world ≡ (ok (some stored), after)
      → Others first.command_id now (idempotent now first body rows world).1 between
      → (let (answer, left, reached) = idempotent now first body rows world in
          (answer ≡ ok (ran stored))
          × (reached ≡ after)
          × (idempotent later next again between elsewhere ≡ (
            (if first.request_hash == next.request_hash
                then ok (replayed stored)
                else err command_conflict),
            between,
            elsewhere,
          )))
  idempotent-idempotent now later first next body again rows between world after elsewhere stored
        missing same runs others =
      let done = completed_row now stored first in
      let written = put_row command_key done (rows ++ (first ∷ [])) in
      let ran_once = idempotent_runs now first body rows world after stored missing runs in
      let found : get_row command_key first.command_id written ≡ some done =
        get_row-put_row command_key done (rows ++ (first ∷ [])) (get_row-new first rows missing) in
      let kept : get_row command_key first.command_id between ≡ some done =
        Others-kept first.command_id now stored.status done refl refl
          (subst
            (λ (r : Result CommandError Answer × List Command × World).
              Others first.command_id now r.1 between)
            ran_once others)
          found in
      rw ran_once (
        refl,
        refl,
        idempotent_again later now stored first next again between elsewhere
            (subst (λ id. get_row command_key id between ≡ some done) (sym same) kept),
      )

  -- A command whose body raises leaves the store as it was, so that it can be sent again.
  pub idempotent_raises :
      (now : ℕ) (new : Command) (body : Body World) (rows : List Command) (world after : World)
      (error : String)
      → is_none new.result_status ≡ true
      → get_row command_key new.command_id rows ≡ none
      → body world ≡ (err error, after)
      → idempotent now new body rows world ≡ (err (body_error error), rows, after)
  idempotent_raises now new body rows world after error pending missing raises = rw missing (
      rw raises (
        ap (λ left. (err (body_error error), left, after))
          (abandon-append new rows pending missing)))
