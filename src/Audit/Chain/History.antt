-- ===== src/Audit/Chain/History.antt =====
-- server/bbz_core/infra/repositories/audit_chain.py: the log and its chain over any history of rows
-- written and of runs of the sealer.
use mathlib.Core.List.{append_assoc, append-nil}
use bbz_platform.Prelude.{
  ℕ, suc, ◌+◌, ◌≤◌, String, List, [], ◌∷◌, ◌++◌, some, ◌≡◌, refl, sym, ap, subst, length, arith,
  ◌∙◌,
}
use bbz_platform.RuleDsl.Value.{Fields}
use bbz_platform.Audit.Chain.{
  AuditEvent, AuditChainLink, Database, genesis, latest, head, rows_past, last_or, link_hash,
  row_digest, seal_rows, seal,
}
use bbz_platform.Audit.Chain.Sealed.{
  IsContiguous, IsAscending, append-IsContiguous, prefix-IsContiguous, rows_past-IsContiguous,
}

-- A committed transaction writes a row, whose number the identity column gives, or the worker seals.
pub data Action : Type 0 where
  write : AuditEvent → Action
  run_sealer : Action

abbrev pub empty : Database
empty = record { audit_events = []; links = [] }

abbrev insert_event : AuditEvent → Database → Database
insert_event row db = record db {
  audit_events = db.audit_events ++ (record row { seq = suc (length db.audit_events) } ∷ []);
}

latest-IsAscending :
    (n : ℕ) (l : AuditChainLink) (ls : List AuditChainLink)
    → IsAscending n (l ∷ ls)
    → (m : AuditChainLink) × (latest (l ∷ ls) ≡ some m)
      × (last_or (l.seq, l.row_hash) ls ≡ (m.seq, m.row_hash))
      × (l.seq ≤ m.seq)
unfolding latest
latest-IsAscending n l [] c = (l, refl, refl, omega arith)
latest-IsAscending n l (next ∷ ls) c =
    let (m, found, at_end, above) = latest-IsAscending (suc l.seq) next ls c.1 in
    (m, ground (arith, found, above, c.1.0), at_end, omega (arith, above, c.1.0))

head-IsAscending :
    (n : ℕ) (ls : List AuditChainLink) → IsAscending n ls → head ls ≡ last_or (0, genesis) ls
unfolding head latest
head-IsAscending n [] c = refl
head-IsAscending n (l ∷ ls) c =
    let (m, found, at_end, above) = latest-IsAscending n l ls c in rw found (sym at_end)

module _ (sha256 : String → String) (dumps : Fields → String) where
  abbrev pub run : List Action → Database → Database
  run [] db = db
  run (write row ∷ actions) db = run actions (insert_event row db)
  run (run_sealer ∷ actions) db = run actions (seal sha256 dumps db).0

  abbrev next_hash : String → AuditEvent → String
  next_hash prev row = link_hash sha256 dumps prev (row_digest sha256 dumps row)

  pub seal_rows-IsAscending :
      (prev : String) (n : ℕ) (rows : List AuditEvent)
      → IsContiguous n rows
      → IsAscending n (seal_rows sha256 dumps prev rows)
  unfolding seal_rows
  seal_rows-IsAscending prev n [] c = tt
  seal_rows-IsAscending prev n (row ∷ rows) c = (
    omega (arith, c.0),
    subst (λ k. IsAscending (suc k) (seal_rows sha256 dumps (next_hash prev row) rows)) (sym c.0)
        (seal_rows-IsAscending (next_hash prev row) (suc n) rows c.1),
  )

  -- The loop over two batches is the loop over the first, and over the second from its last hash.
  seal_rows-append :
      (prev : String) (n : ℕ) (done fresh : List AuditEvent)
      → seal_rows sha256 dumps prev (done ++ fresh)
        ≡ seal_rows sha256 dumps prev done
          ++ seal_rows sha256 dumps (last_or (n, prev) (seal_rows sha256 dumps prev done)).1 fresh
  unfolding seal_rows
  seal_rows-append prev n [] fresh = refl
  seal_rows-append prev n (row ∷ done) fresh =
      ap
        (λ (ls : List AuditChainLink).
          record {
            seq = row.seq;
            audit_event_id = row.id;
            prev_hash = prev;
            row_hash = next_hash prev row;
          }
          ∷ ls)
        (seal_rows-append (next_hash prev row) row.seq done fresh)

  last_or-seal_rows :
      (prev : String) (n : ℕ) (rows : List AuditEvent)
      → IsContiguous (suc n) rows
      → (last_or (n, prev) (seal_rows sha256 dumps prev rows)).0 ≡ n + length rows
  unfolding seal_rows
  last_or-seal_rows prev n [] c = omega arith
  last_or-seal_rows prev n (row ∷ rows) c =
      let at_end : (last_or (row.seq, next_hash prev row)
            (seal_rows sha256 dumps (next_hash prev row) rows)).0
          ≡ row.seq + length rows =
        last_or-seal_rows (next_hash prev row) row.seq rows
          (subst (λ k. IsContiguous (suc k) rows) (sym c.0) c.1) in
      omega (arith, at_end, c.0)

  pub length-seal_rows :
      (prev : String) (rows : List AuditEvent)
      → length (seal_rows sha256 dumps prev rows) ≡ length rows
  unfolding seal_rows
  length-seal_rows prev [] = refl
  length-seal_rows prev (row ∷ rows) = ap suc (length-seal_rows (next_hash prev row) rows)

  -- The chain is that of the rows sealed so far, which the log begins with.
  abbrev pub IsSealed : Database → Type 0
  IsSealed db =
      (done : List AuditEvent) × (fresh : List AuditEvent) × (db.audit_events ≡ done ++ fresh)
      × IsContiguous 1 (done ++ fresh)
      × (db.links ≡ seal_rows sha256 dumps genesis done)

  empty-IsSealed : IsSealed empty
  unfolding seal_rows
  empty-IsSealed = ([], [], refl, tt, refl)

  head-IsSealed :
      (done fresh : List AuditEvent)
      → IsContiguous 1 (done ++ fresh)
      → head (seal_rows sha256 dumps genesis done)
        ≡ last_or (0, genesis) (seal_rows sha256 dumps genesis done)
  head-IsSealed done fresh c =
      head-IsAscending 1 (seal_rows sha256 dumps genesis done)
        (seal_rows-IsAscending genesis 1 done (prefix-IsContiguous 1 done fresh c))

  insert_event-IsSealed :
      (row : AuditEvent) (db : Database) → IsSealed db → IsSealed (insert_event row db)
  insert_event-IsSealed row db (done, fresh, events, c, links) =
      let new = record row { seq = suc (length db.audit_events) } in
      (
        done,
        fresh ++ (new ∷ []),
        ap (λ es. es ++ (new ∷ [])) events ∙ append_assoc done fresh (new ∷ []),
        subst (IsContiguous 1) (append_assoc done fresh (new ∷ []))
            (append-IsContiguous 1 (done ++ fresh) new c (rw events (omega arith))),
        links,
      )

  seal_step :
      (done fresh : List AuditEvent)
      → IsContiguous 1 (done ++ fresh)
      → (let (head_seq, prev) = head (seal_rows sha256 dumps genesis done) in
          seal_rows sha256 dumps genesis done
          ++ seal_rows sha256 dumps prev (rows_past head_seq (done ++ fresh)))
        ≡ seal_rows sha256 dumps genesis (done ++ fresh)
  seal_step done fresh c =
      let count : (last_or (0, genesis) (seal_rows sha256 dumps genesis done)).0 ≡ length done =
        omega (arith, last_or-seal_rows genesis 0 done (prefix-IsContiguous 1 done fresh c)) in
      rw (head-IsSealed done fresh c) (
        rw count
          (rw (rows_past-IsContiguous done fresh c) (sym (seal_rows-append genesis 0 done fresh))))

  -- After a run of the sealer the whole log is sealed.
  pub seal-audit_events :
      (db : Database)
      → IsSealed db
      → (seal sha256 dumps db).0.links ≡ seal_rows sha256 dumps genesis db.audit_events
  seal-audit_events db (done, fresh, events, c, links) =
      rw links (rw events (seal_step done fresh c))

  pub seal-IsSealed : (db : Database) → IsSealed db → IsSealed (seal sha256 dumps db).0
  seal-IsSealed db (done, fresh, events, c, links) = (
    done ++ fresh,
    [],
    events ∙ sym (append-nil (done ++ fresh)),
    subst (IsContiguous 1) (sym (append-nil (done ++ fresh))) c,
    seal-audit_events db (done, fresh, events, c, links)
        ∙ ap (seal_rows sha256 dumps genesis) events,
  )

  pub run-IsSealed :
      (actions : List Action) (db : Database) → IsSealed db → IsSealed (run actions db)
  run-IsSealed [] db sealed = sealed
  run-IsSealed (write row ∷ actions) db sealed =
      run-IsSealed actions (insert_event row db) (insert_event-IsSealed row db sealed)
  run-IsSealed (run_sealer ∷ actions) db sealed =
      run-IsSealed actions (seal sha256 dumps db).0 (seal-IsSealed db sealed)

  pub run-empty-IsSealed : (actions : List Action) → IsSealed (run actions empty)
  run-empty-IsSealed actions = run-IsSealed actions empty empty-IsSealed
