-- ===== src/Audit/Chain/Walk.antt =====
-- server/bbz_core/infra/repositories/audit_chain.py: what the walk of `verify` accepts.

use text.Mathlib.TextLemmas.{append_cancel_left}
use bbz_platform.Prelude.{
  ℕ, suc, String, false, List, [], ◌∷◌, Option, none, some, ◌≡◌, ◌≢◌, ◌⊎◌, refl, inl, inr, ◌==◌,
  eq_iff, All, Bool-cases, arith, ◌∙◌, ap,
}
use bbz_platform.RuleDsl.Value.{Fields}
use bbz_platform.Audit.Chain.{
  AuditEvent, AuditChainLink, VerifyResult, row_at, row_digest, row_fields, link_hash, seal_rows,
  link_fault, content_fault, first_fault, is_unexpected, walk,
}
use bbz_platform.Audit.Chain.Sealed.{IsContiguous}

-- Two texts with one digest.
abbrev pub Collision : (String → String) → Type 0
Collision sha256 = (x : String) × (y : String) × (x ≢ y) × (sha256 x ≡ sha256 y)

-- The numbers follow each other, each from the one that is expected.
abbrev pub IsConsecutive : Option ℕ → List AuditChainLink → Type 0
IsConsecutive expected [] = Unit
IsConsecutive expected (l ∷ ls) =
    (is_unexpected expected l.seq ≡ false) × IsConsecutive (some (suc l.seq)) ls

pub first_fault-none :
    (fault rest : Option VerifyResult)
    → first_fault fault rest ≡ none
    → (fault ≡ none) × (rest ≡ none)
first_fault-none none rest sound = (refl, sound)
first_fault-none (some fault) rest sound = absurd (cc sound)

module _ (sha256 : String → String) (dumps : Fields → String) where
  -- The table still has the row of the link, and its text hashes to the link.
  abbrev pub IsLinked : List AuditEvent → String → AuditChainLink → Type 0
  IsLinked events prev link =
      (link.prev_hash ≡ prev)
      × (row : AuditEvent) × (row_at link.seq events ≡ some row)
      × (link_hash sha256 dumps prev (row_digest sha256 dumps row) ≡ link.row_hash)

  -- The row under this number has the canonical text of this row, or a collision is at hand.
  abbrev pub IsIntact : List AuditEvent → AuditEvent → Type 0
  IsIntact events row =
      (found : AuditEvent) × (row_at row.seq events ≡ some found)
      × ((dumps (row_fields found) ≡ dumps (row_fields row)) ⊎ Collision sha256)

  content_fault-none :
      (found : Option AuditEvent) (prev : String) (link : AuditChainLink)
      → content_fault sha256 dumps found prev link ≡ none
      → (row : AuditEvent) × (found ≡ some row)
        × (link_hash sha256 dumps prev (row_digest sha256 dumps row) ≡ link.row_hash)
  content_fault-none none prev link sound = absurd (cc sound)
  content_fault-none (some row) prev link sound =
      elim (Bool-cases
        (link_hash sha256 dumps prev (row_digest sha256 dumps row) == link.row_hash)) [
          | inl same ↦ (row, refl, (eq_iff _ _).0 same)
          | inr other ↦ absurd (cc (rw other at sound))
        ]

  link_fault-none :
      (events : List AuditEvent) (expected : Option ℕ) (prev : String) (link : AuditChainLink)
      → link_fault sha256 dumps events expected prev link ≡ none
      → (is_unexpected expected link.seq ≡ false) × IsLinked events prev link
  link_fault-none events expected prev link sound =
      elim (Bool-cases (is_unexpected expected link.seq)) [
        | inl u ↦ absurd (cc (rw u at sound))
        | inr u ↦ elim (Bool-cases (link.prev_hash == prev)) [
          | inr p ↦ absurd (cc (rw p at (rw u at sound)))
          | inl p ↦
              let (row, found, same) =
                content_fault-none (row_at link.seq events) prev link (rw p at (rw u at sound)) in
              (u, ((eq_iff link.prev_hash prev).0 p, row, found, same))
        ]
      ]

  same_digest : (x y : String) → sha256 x ≡ sha256 y → (x ≡ y) ⊎ Collision sha256
  same_digest x y same = elim (Bool-cases (x == y)) [
    | inl e ↦ inl ((eq_iff x y).0 e)
    | inr e ↦ inr (x, y, (λ p. ground (arith, (eq_iff x y).1 p, e)), same)
  ]

  same_link :
      (prev : String) (row found : AuditEvent)
      → link_hash sha256 dumps prev (row_digest sha256 dumps found)
        ≡ link_hash sha256 dumps prev (row_digest sha256 dumps row)
      → (dumps (row_fields found) ≡ dumps (row_fields row)) ⊎ Collision sha256
  same_link prev row found same = elim (same_digest _ _ same) [
    | inr collision ↦ inr collision
    | inl joined ↦ same_digest _ _ (append_cancel_left prev _ _ joined)
  ]

  -- The link that the sealer makes of a row is accepted where the table has that row.
  abbrev pub own_link : String → AuditEvent → AuditChainLink
  own_link prev row = record {
    seq = row.seq;
    audit_event_id = row.id;
    prev_hash = prev;
    row_hash = link_hash sha256 dumps prev (row_digest sha256 dumps row);
  }

  own_link_accepted :
      (events : List AuditEvent) (expected : Option ℕ) (prev : String) (row : AuditEvent)
      → row_at row.seq events ≡ some row
      → is_unexpected expected row.seq ≡ false
      → link_fault sha256 dumps events expected prev (own_link prev row) ≡ none
  own_link_accepted events expected prev row found fits = rw fits (
      rw ((eq_iff prev prev).1 refl) (
        rw found
          (rw ((eq_iff (own_link prev row).row_hash (own_link prev row).row_hash).1 refl) refl)))

  -- The walk over the chain of a log without gaps falls through where the table has each row.
  pub walk-seal_rows :
      (events rows : List AuditEvent) (n : ℕ) (expected : Option ℕ) (prev : String)
      → IsContiguous n rows
      → All (λ row. row_at row.seq events ≡ some row) rows
      → is_unexpected expected n ≡ false
      → walk sha256 dumps events expected prev (seal_rows sha256 dumps prev rows) ≡ none
  unfolding walk seal_rows
  walk-seal_rows events [] n expected prev c found fits = refl
  walk-seal_rows events (row ∷ rows) n expected prev c found fits =
      let accepted : link_fault sha256 dumps events expected prev (own_link prev row) ≡ none =
        own_link_accepted events expected prev row found.0 (ground (arith, c.0, fits)) in
      ap
        (λ fault. first_fault fault (
          walk sha256 dumps events (some (suc row.seq)) (own_link prev row).row_hash
            (seal_rows sha256 dumps (own_link prev row).row_hash rows)))
        accepted
      ∙ walk-seal_rows events rows (suc n) (some (suc row.seq)) (own_link prev row).row_hash c.1
          found.1 (ground (arith, c.0))

  pub walk-IsConsecutive :
      (events : List AuditEvent) (expected : Option ℕ) (prev : String) (links : List AuditChainLink)
      → walk sha256 dumps events expected prev links ≡ none
      → IsConsecutive expected links
  unfolding walk
  walk-IsConsecutive events expected prev [] sound = tt
  walk-IsConsecutive events expected prev (link ∷ links) sound =
      let (here, after) =
        first_fault-none (link_fault sha256 dumps events expected prev link) _ sound in
      (
        (link_fault-none events expected prev link here).0,
        walk-IsConsecutive events (some (suc link.seq)) link.row_hash links after,
      )

  -- Where the walk over the chain of these rows falls through, the table has them unchanged.
  pub walk-IsIntact :
      (events : List AuditEvent) (expected : Option ℕ) (prev : String) (rows : List AuditEvent)
      → walk sha256 dumps events expected prev (seal_rows sha256 dumps prev rows) ≡ none
      → All (IsIntact events) rows
  unfolding walk seal_rows
  walk-IsIntact events expected prev [] sound = tt
  walk-IsIntact events expected prev (row ∷ rows) sound =
      let (here, after) =
        first_fault-none (link_fault sha256 dumps events expected prev (own_link prev row)) _
          sound in
      let (fits, linked) = link_fault-none events expected prev (own_link prev row) here in
      (
        (linked.1, linked.2, same_link prev row linked.1 linked.3),
        walk-IsIntact events (some (suc row.seq)) (own_link prev row).row_hash rows after,
      )
