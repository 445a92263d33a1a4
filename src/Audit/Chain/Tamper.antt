-- ===== src/Audit/Chain/Tamper.antt =====
-- server/bbz_core/infra/repositories/audit_chain.py: what `verify` says of a log that the sealer has
-- followed, and of a table that was changed since.
use bbz_platform.Prelude.{
  ℕ, zero, suc, String, Bool, true, false, List, [], ◌∷◌, ◌++◌, Option, none, some, ◌≡◌, refl, sym,
  ap, ◌∙◌, subst, All-map, if◌then◌else◌, ◌==◌, not, length, All, sorted,
}
use bbz_platform.RuleDsl.Value.{Fields}
use bbz_platform.Audit.Chain.{
  AuditEvent, AuditChainLink, Database, VerifyResult, genesis, link_before, row_at, take_first,
  take_limit, seal_rows, seal, link_fault, link_hash, row_digest, verdict, first_fault,
  content_fault, is_unexpected, walk, verify, verified,
}
use bbz_platform.Audit.Chain.Sealed.{
  IsContiguous, prefix-IsContiguous, sorted-IsAscending, row_at-IsContiguous,
}
use bbz_platform.Audit.Chain.History.{
  Action, run, empty, IsSealed, run-empty-IsSealed, seal-IsSealed, seal-audit_events,
  length-seal_rows, seal_rows-IsAscending,
}
use bbz_platform.Audit.Chain.Walk.{
  first_fault-none, IsConsecutive, IsIntact, walk-seal_rows, walk-IsIntact, walk-IsConsecutive,
}

All-prefix : (P : AuditEvent → Type 0) (xs ys : List AuditEvent) → All P (xs ++ ys) → All P xs
All-prefix P [] ys h = tt
All-prefix P (x ∷ xs) ys h = (h.0, All-prefix P xs ys h.1)

take_first-append : (xs ys : List AuditEvent) → take_first (length xs) (xs ++ ys) ≡ xs
take_first-append [] [] = refl
take_first-append [] (y ∷ ys) = refl
take_first-append (x ∷ xs) ys = ap (λ (zs : List AuditEvent). x ∷ zs) (take_first-append xs ys)

-- Of each row that the sealer has reached.
abbrev pub sealed_rows : Database → List AuditEvent
sealed_rows db = take_first (length db.links) db.audit_events

-- What ends a walk early is a refusal.
abbrev IsRefusal : Option VerifyResult → Type 0
IsRefusal none = Unit
IsRefusal (some fault) = fault.is_valid ≡ false

if-IsRefusal :
    (b : Bool) (x y : Option VerifyResult)
    → IsRefusal x
    → IsRefusal y
    → IsRefusal (if b then x else y)
if-IsRefusal true x y hx hy = hx
if-IsRefusal false x y hx hy = hy

first_fault-IsRefusal :
    (fault rest : Option VerifyResult)
    → IsRefusal fault
    → IsRefusal rest
    → IsRefusal (first_fault fault rest)
first_fault-IsRefusal (some fault) rest refusal after = refusal
first_fault-IsRefusal none rest refusal after = after

module _ (sha256 : String → String) (dumps : Fields → String) where
  walk-take_first :
      (n : ℕ) (events : List AuditEvent) (expected : Option ℕ) (prev : String)
      (links : List AuditChainLink)
      → walk sha256 dumps events expected prev links ≡ none
      → walk sha256 dumps events expected prev (take_first n links) ≡ none
  unfolding walk
  walk-take_first zero events expected prev links sound = refl
  walk-take_first (suc n) events expected prev [] sound = refl
  walk-take_first (suc n) events expected prev (link ∷ links) sound =
      let (here, after) = first_fault-none _ _ sound in
      ap
        (λ fault.
          first_fault fault
            (walk sha256 dumps events (some (suc link.seq)) link.row_hash (take_first n links)))
        here
      ∙ walk-take_first n events (some (suc link.seq)) link.row_hash links after

  walk-take_limit :
      (limit : Option ℕ) (events : List AuditEvent) (links : List AuditChainLink)
      → walk sha256 dumps events none genesis links ≡ none
      → walk sha256 dumps events none genesis (take_limit limit links) ≡ none
  walk-take_limit none events links sound = sound
  walk-take_limit (some n) events links sound = walk-take_first n events none genesis links sound

  content_fault-IsRefusal :
      (found : Option AuditEvent) (prev : String) (link : AuditChainLink)
      → IsRefusal (content_fault sha256 dumps found prev link)
  content_fault-IsRefusal none prev link = refl
  content_fault-IsRefusal (some row) prev link =
      if-IsRefusal (link_hash sha256 dumps prev (row_digest sha256 dumps row) == link.row_hash) none
        _ tt refl

  walk-IsRefusal :
      (events : List AuditEvent) (expected : Option ℕ) (prev : String) (links : List AuditChainLink)
      → IsRefusal (walk sha256 dumps events expected prev links)
  unfolding walk
  walk-IsRefusal events expected prev [] = tt
  walk-IsRefusal events expected prev (link ∷ links) =
      first_fault-IsRefusal (link_fault sha256 dumps events expected prev link) _
        (if-IsRefusal (is_unexpected expected link.seq) (some _) _ refl (
          if-IsRefusal (not (link.prev_hash == prev)) (some _) _ refl
            (content_fault-IsRefusal (row_at link.seq events) prev link)))
        (walk-IsRefusal events (some (suc link.seq)) link.row_hash links)

  verdict_walk :
      (fault : Option VerifyResult) (links : List AuditChainLink)
      → IsRefusal fault
      → (verdict fault links).is_valid ≡ true
      → fault ≡ none
  verdict_walk none links refusal valid = refl
  verdict_walk (some fault) links refusal valid = absurd (cc)

  walk-verify :
      (limit : Option ℕ) (db : Database)
      → (verify sha256 dumps limit db).is_valid ≡ true
      → walk sha256 dumps db.audit_events none genesis
          (take_limit limit (sorted link_before db.links))
        ≡ none
  walk-verify limit db valid =
      verdict_walk _ _ (walk-IsRefusal db.audit_events none genesis _) valid

  -- The numbers of a chain that `verify` accepts follow each other without a gap.
  pub verify-IsConsecutive :
      (limit : Option ℕ) (db : Database)
      → (verify sha256 dumps limit db).is_valid ≡ true
      → IsConsecutive none (take_limit limit (sorted link_before db.links))
  verify-IsConsecutive limit db valid =
      walk-IsConsecutive sha256 dumps db.audit_events none genesis _ (walk-verify limit db valid)

  sorted-IsSealed :
      (done fresh : List AuditEvent)
      → IsContiguous 1 (done ++ fresh)
      → sorted link_before (seal_rows sha256 dumps genesis done)
        ≡ seal_rows sha256 dumps genesis done
  sorted-IsSealed done fresh c =
      sorted-IsAscending 1 _
        (seal_rows-IsAscending sha256 dumps genesis 1 done (prefix-IsContiguous 1 done fresh c))

  links-IsSealed :
      (db : Database) → IsSealed sha256 dumps db → sorted link_before db.links ≡ db.links
  links-IsSealed db (done, fresh, events, c, links) = rw links (sorted-IsSealed done fresh c)

  sealed_rows-IsSealed :
      (db : Database) (done fresh : List AuditEvent)
      → db.audit_events ≡ done ++ fresh
      → db.links ≡ seal_rows sha256 dumps genesis done
      → sealed_rows db ≡ done
  sealed_rows-IsSealed db done fresh events links =
      rw events
        (rw links (rw (length-seal_rows sha256 dumps genesis done) (take_first-append done fresh)))

  sealed_found :
      (db : Database) (done fresh : List AuditEvent)
      → db.audit_events ≡ done ++ fresh
      → IsContiguous 1 (done ++ fresh)
      → All (λ row. row_at row.seq db.audit_events ≡ some row) done
  sealed_found db done fresh events c = rw events (
      All-prefix _ done fresh (
        All-map _ _ (done ++ fresh) (λ row found. found.1)
          (row_at-IsContiguous 1 (done ++ fresh) c)))

  -- The sealer has followed a log without gaps: each link is accepted.
  walk-IsSealed :
      (db : Database)
      → IsSealed sha256 dumps db
      → walk sha256 dumps db.audit_events none genesis (sorted link_before db.links) ≡ none
  walk-IsSealed db (done, fresh, events, c, links) = rw links (
      rw (sorted-IsSealed done fresh c) (
        walk-seal_rows sha256 dumps db.audit_events done 1 none genesis
          (prefix-IsContiguous 1 done fresh c) (sealed_found db done fresh events c) refl))

  pub verify-IsSealed :
      (limit : Option ℕ) (db : Database)
      → IsSealed sha256 dumps db
      → verify sha256 dumps limit db ≡ verified (take_limit limit (sorted link_before db.links))
  verify-IsSealed limit db sealed =
      ap (λ fault. verdict fault (take_limit limit (sorted link_before db.links)))
        (walk-take_limit limit db.audit_events _ (walk-IsSealed db sealed))

  -- Whatever rows a log without gaps was given, and whenever the sealer ran, once it has run again
  -- `verify` accepts the chain, which then has a link for each row of the log.
  pub verify-seal :
      (actions : List Action)
      → (let db = (seal sha256 dumps (run sha256 dumps actions empty)).0 in
          (verify sha256 dumps none db).is_valid ≡ true
          × ((verify sha256 dumps none db).checked ≡ length db.audit_events))
  verify-seal actions =
      let before = run sha256 dumps actions empty in
      let sealed = run-empty-IsSealed sha256 dumps actions in
      let whole = seal-audit_events sha256 dumps before sealed in
      let accepted =
        verify-IsSealed none (seal sha256 dumps before).0
          (seal-IsSealed sha256 dumps before sealed) in
      (
        ap (λ result. result.is_valid) accepted,
        ap (λ result. result.checked) accepted
            ∙ ap length (
                links-IsSealed (seal sha256 dumps before).0
                  (seal-IsSealed sha256 dumps before sealed))
            ∙ ap length whole
            ∙ length-seal_rows sha256 dumps genesis before.audit_events,
      )

  -- Where `verify` accepts the chain of such a history over a table that may have been changed since,
  -- the table has each sealed row under its number with the text that was sealed, unless two texts
  -- with one digest have been found.
  pub tamper_found :
      (actions : List Action) (events : List AuditEvent)
      → (verify sha256 dumps none
          (record (run sha256 dumps actions empty) { audit_events = events })).is_valid
        ≡ true
      → All (IsIntact sha256 dumps events) (sealed_rows (run sha256 dumps actions empty))
  tamper_found actions events valid =
      let db = run sha256 dumps actions empty in
      let (done, fresh, log, c, links) = run-empty-IsSealed sha256 dumps actions in
      let sound = walk-verify none (record db { audit_events = events }) valid in
      let chain : walk sha256 dumps events none genesis (seal_rows sha256 dumps genesis done)
          ≡ none =
        subst (λ ls. walk sha256 dumps events none genesis ls ≡ none)
          (links-IsSealed db (done, fresh, log, c, links) ∙ links) sound in
      subst (λ rows. All (IsIntact sha256 dumps events) rows)
        (sym (sealed_rows-IsSealed db done fresh log links))
        (walk-IsIntact sha256 dumps events none genesis done chain)
