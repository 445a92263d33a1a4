-- ===== src/Delivery/Idempotency/Interleaved.antt =====
-- server/bbz_core/infra/idempotency.py: guarded calls of any number of clients, interleaved at the
-- transactions of the store and of the bodies, with raises, crashes and purges anywhere.
use bbz_platform.Prelude.{
  ℕ, suc, ◌+◌, ◌≤◌, Bool, true, false, List, [], ◌∷◌, ◌++◌, map, filter, Option, none, some, ◌≡◌,
  refl, ◌∙◌, subst, inl, inr, nat_eq, ◌==◌, Result, ok, Bool-cases, Option-cases, arith, get_row,
  delete_rows, rows_under, rows_under-append, rows_under-put_row, rows_under-none, occurrences,
  remove, occurrences-remove, occurrences-remove_other,
}
use bbz_platform.Delivery.Idempotency.{
  Command, StoredResult, CommandError, command_key, completed_row, claim, complete, claim_found,
  complete_found, abandon, is_abandoned, is_stale, is_past, purge_stale, purge_completed,
}

-- The store; the commands whose bodies run and have committed nothing yet, and those whose bodies run on
-- behind a commit; and what has happened: each effect that was committed, each body that was begun and
-- each row that was deleted, by its command.
pub record System : Type 0 where
  pub rows : List Command
  pub running : List ℕ
  pub committed : List ℕ
  pub effects : List ℕ
  pub begun : List ℕ
  pub deleted : List ℕ

abbrev pub empty : System
empty = record { rows = []; running = []; committed = []; effects = []; begun = []; deleted = [] }

abbrev pub is_run : Result CommandError (Option StoredResult) → Bool
is_run (ok none) = true
is_run _ = false

-- The bodies behind their commit, or before it.
abbrev pub bodies : Bool → System → List ℕ
bodies true s = s.committed
bodies false s = s.running

abbrev pub leave : Bool → ℕ → System → System
leave true id s = record s { committed = remove id s.committed }
leave false id s = record s { running = remove id s.running }

abbrev pub delete : (Command → Bool) → System → System
delete p s = record s {
  rows = delete_rows command_key p s.rows;
  deleted = map command_key (filter p s.rows) ++ s.deleted;
}

-- One transaction of the store, with what its caller does next; or one of a body, or its end.
pub data Step : System → System → Type 0 where
  started :
      (s : System) (new : Command)
      → new.result_status ≡ none
      → is_run (claim new s.rows).0 ≡ true
      → Step s (record s {
        rows = (claim new s.rows).1;
        running = new.command_id ∷ s.running;
        begun = new.command_id ∷ s.begun;
      })
  answered :
      (s : System) (new : Command)
      → is_run (claim new s.rows).0 ≡ false
      → Step s (record s { rows = (claim new s.rows).1 })
  acted :
      (s : System) (id : ℕ)
      → 1 ≤ occurrences id s.running
      → Step s (record s {
        running = remove id s.running;
        committed = id ∷ s.committed;
        effects = id ∷ s.effects;
      })
  finished :
      (s : System) (behind : Bool) (now id : ℕ) (stored : StoredResult)
      → 1 ≤ occurrences id (bodies behind s)
      → Step s (leave behind id (record s { rows = (complete now id stored s.rows).1 }))
  raised :
      (s : System) (behind : Bool) (id : ℕ)
      → 1 ≤ occurrences id (bodies behind s)
      → Step s (delete (is_abandoned id) (leave behind id s))
  crashed :
      (s : System) (behind : Bool) (id : ℕ)
      → 1 ≤ occurrences id (bodies behind s)
      → Step s (leave behind id s)
  stale_purged : (s : System) (cutoff : ℕ) → Step s (delete (is_stale cutoff) s)
  completed_purged : (s : System) (cutoff : ℕ) → Step s (delete (is_past cutoff) s)

pub data Reach : System → Type 0 where
  start : Reach empty
  later : {s t : System} → Reach s → Step s t → Reach t

-- What the deletions of the steps leave is what the functions of the store leave.
abandon-delete : (id : ℕ) (s : System) → (delete (is_abandoned id) s).rows ≡ abandon id s.rows
abandon-delete id s = refl

purge_stale-delete :
    (cutoff : ℕ) (s : System) → (delete (is_stale cutoff) s).rows ≡ (purge_stale cutoff s.rows).0
purge_stale-delete cutoff s = refl

purge_completed-delete :
    (cutoff : ℕ) (s : System) → (delete (is_past cutoff) s).rows ≡ (purge_completed cutoff s.rows).0
purge_completed-delete cutoff s = refl

-- The account of one command.
abbrev pub IsAccounted : ℕ → System → Type 0
IsAccounted id s =
    (occurrences id s.running + occurrences id s.effects ≤ occurrences id s.begun)
    × (occurrences id s.running + occurrences id s.committed ≤ occurrences id s.begun)
    × (occurrences id s.begun ≡ occurrences id s.deleted + rows_under command_key id s.rows)
    × (rows_under command_key id s.rows ≤ 1)

-- Only a key that is not in the store is run.
claim_found_run :
    (new : Command) (found : Option Command) (rows : List Command)
    → is_run (claim_found new found rows).0 ≡ true
    → (found ≡ none) × ((claim_found new found rows).1 ≡ rows ++ (new ∷ []))
claim_found_run new none rows run = (refl, refl)
claim_found_run new (some row) rows run = elim (Bool-cases (row.request_hash == new.request_hash)) [
  | inr other ↦ absurd (cc (rw other at run))
  | inl same ↦ elim (Option-cases row.result_status) [
    | inl waits ↦ absurd (cc (rw waits at (rw same at run)))
    | inr (status, closed) ↦ absurd (cc (rw closed at (rw same at run)))
  ]
]

claim_found_kept :
    (new : Command) (found : Option Command) (rows : List Command)
    → is_run (claim_found new found rows).0 ≡ false
    → (claim_found new found rows).1 ≡ rows
claim_found_kept new none rows run = absurd (cc run)
claim_found_kept new (some row) rows run =
    elim (Bool-cases (row.request_hash == new.request_hash)) [
      | inr other ↦ rw other refl
      | inl same ↦ elim (Option-cases row.result_status) [
        | inl waits ↦ rw same (rw waits refl)
        | inr (status, closed) ↦ rw same (rw closed refl)
      ]
    ]

-- A deletion moves rows to the deleted.
rows_under-delete :
    (p : Command → Bool) (id : ℕ) (rows : List Command)
    → rows_under command_key id rows
      ≡ occurrences id (map command_key (filter p rows))
        + rows_under command_key id (delete_rows command_key p rows)
rows_under-delete p id [] = omega arith
rows_under-delete p id (row ∷ rows) = elim (Bool-cases (p row)) [
  | inl gone ↦ rw gone (ground (arith, rows_under-delete p id rows))
  | inr kept ↦ rw kept (ground (arith, rows_under-delete p id rows))
]

delete-IsAccounted :
    (p : Command → Bool) (id : ℕ) (s : System) → IsAccounted id s → IsAccounted id (delete p s)
delete-IsAccounted p id s (ahead, once, kept, single) =
    let moved = rows_under-delete p id s.rows in
    let sum = rows_under-append (λ (i : ℕ). i) id (map command_key (filter p s.rows)) s.deleted in
    (ahead, once, omega (arith, kept, moved, sum), omega (arith, single, moved))

-- Taking an id out never adds to the count of any.
remove-le : (id j : ℕ) (ids : List ℕ) → occurrences id (remove j ids) ≤ occurrences id ids
remove-le id j [] = omega arith
remove-le id j (i ∷ ids) = elim (Bool-cases (nat_eq i j)) [
  | inl same ↦ rw same (ground arith)
  | inr kept ↦ rw kept (ground (arith, remove-le id j ids))
]

leave-IsAccounted :
    (behind : Bool) (j id : ℕ) (s : System) → IsAccounted id s → IsAccounted id (leave behind j s)
leave-IsAccounted true j id s (ahead, once, kept, single) =
    (ahead, omega (arith, once, remove-le id j s.committed), kept, single)
leave-IsAccounted false j id s (ahead, once, kept, single) = (
  omega (arith, ahead, remove-le id j s.running),
  omega (arith, once, remove-le id j s.running),
  kept,
  single,
)

-- Completing writes a row that is there, or none.
complete-rows_under :
    (now j id : ℕ) (stored : StoredResult) (found : Option Command) (rows : List Command)
    → rows_under command_key id (complete_found now stored found rows).1
      ≡ rows_under command_key id rows
complete-rows_under now j id stored none rows = refl
complete-rows_under now j id stored (some row) rows =
    rows_under-put_row command_key id (completed_row now stored row) rows

finished-IsAccounted :
    (now j id : ℕ) (stored : StoredResult) (s : System)
    → IsAccounted id s
    → IsAccounted id (record s { rows = (complete now j stored s.rows).1 })
finished-IsAccounted now j id stored s (ahead, once, kept, single) =
    let same = complete-rows_under now j id stored (get_row command_key j s.rows) s.rows in
    (ahead, once, kept ∙ rw same refl, rw same single)

started-IsAccounted :
    (new : Command) (id : ℕ) (s : System)
    → get_row command_key new.command_id s.rows ≡ none
    → IsAccounted id s
    → IsAccounted id (record s {
      rows = s.rows ++ (new ∷ []);
      running = new.command_id ∷ s.running;
      begun = new.command_id ∷ s.begun;
    })
started-IsAccounted new id s missing (ahead, once, kept, single) =
    let sum = rows_under-append command_key id s.rows (new ∷ []) in
    elim (Bool-cases (nat_eq new.command_id id)) [
      | inr other ↦ rw sum (rw other (ahead, once, omega (arith, kept), omega (arith, single)))
      | inl same ↦
          let equal : new.command_id ≡ id = ground (arith, same) in
          let nothing : rows_under command_key id s.rows ≡ 0 =
            subst (λ k. rows_under command_key k s.rows ≡ 0) equal
              (rows_under-none command_key new.command_id s.rows missing) in
          rw sum (
            rw same (
              omega (arith, ahead),
              omega (arith, once),
              omega (arith, kept),
              omega (arith, nothing),
            ))
    ]

acted-IsAccounted :
    (j id : ℕ) (s : System)
    → 1 ≤ occurrences j s.running
    → IsAccounted id s
    → IsAccounted id (record s {
      running = remove j s.running;
      committed = j ∷ s.committed;
      effects = j ∷ s.effects;
    })
acted-IsAccounted j id s runs (ahead, once, kept, single) = elim (Bool-cases (nat_eq j id)) [
  | inr other ↦
      let same = occurrences-remove_other id j s.running other in
      rw other (omega (arith, ahead, same), omega (arith, once, same), kept, single)
  | inl here ↦
      let equal : j ≡ id = ground (arith, here) in
      let less : suc (occurrences id (remove j s.running)) ≡ occurrences id s.running =
        subst (λ k. suc (occurrences k (remove j s.running)) ≡ occurrences k s.running) equal
          (occurrences-remove j s.running runs) in
      rw here (omega (arith, ahead, less), omega (arith, once, less), kept, single)
]

Step-IsAccounted : (id : ℕ) {s t : System} → Step s t → IsAccounted id s → IsAccounted id t
Step-IsAccounted id (started s new waits run) held =
    let (missing, rows) =
      claim_found_run new (get_row command_key new.command_id s.rows) s.rows run in
    rw rows (started-IsAccounted new id s missing held)
Step-IsAccounted id (answered s new run) held =
    rw (claim_found_kept new (get_row command_key new.command_id s.rows) s.rows run) held
Step-IsAccounted id (acted s j runs) held = acted-IsAccounted j id s runs held
Step-IsAccounted id (finished s behind now j stored runs) held =
    leave-IsAccounted behind j id (record s { rows = (complete now j stored s.rows).1 })
      (finished-IsAccounted now j id stored s held)
Step-IsAccounted id (raised s behind j runs) held =
    delete-IsAccounted (is_abandoned j) id (leave behind j s) (leave-IsAccounted behind j id s held)
Step-IsAccounted id (crashed s behind j runs) held = leave-IsAccounted behind j id s held
Step-IsAccounted id (stale_purged s cutoff) held = delete-IsAccounted (is_stale cutoff) id s held
Step-IsAccounted id (completed_purged s cutoff) held = delete-IsAccounted (is_past cutoff) id s held

-- Whatever the clients send, and however the transactions of the store and of the bodies interleave, with
-- bodies that raise or crash before or behind their commit and purges at any time, where a body has one
-- effect at most, its commit: the effects of a command, with its bodies that may still have theirs, and
-- also its bodies that run at once, are no more than the bodies that were begun for it. Those are as many
-- as the rows of the command that were deleted, by a body that raised or by a purge, and one more while the
-- command has a row, which is never twice there.
pub effects_accounted :
    {s : System} (id : ℕ)
    → Reach s
    → (occurrences id s.running + occurrences id s.effects ≤ occurrences id s.begun)
      × (occurrences id s.running + occurrences id s.committed ≤ occurrences id s.begun)
      × (occurrences id s.begun ≡ occurrences id s.deleted + rows_under command_key id s.rows)
      × (rows_under command_key id s.rows ≤ 1)
effects_accounted id start = (omega arith, omega arith, omega arith, omega arith)
effects_accounted id (later reached step) = Step-IsAccounted id step (effects_accounted id reached)
