-- ===== src/Audit/Chain/Sealed.antt =====
-- server/bbz_core/infra/repositories/audit_chain.py: what the sealer adds to a log that is numbered
-- without gaps, and the walk over it.

use bbz_platform.Prelude.{
  ℕ, suc, ◌+◌, ◌≤◌, ◌<◌, List, [], ◌∷◌, ◌++◌, some, ◌≡◌, refl, ap, subst, ltb, length, filter,
  sorted, insert_sorted, All, All-map, arith, ◌∙◌,
}
use bbz_platform.Audit.Chain.{
  AuditEvent, AuditChainLink, event_before, link_before, row_at, rows_past,
}

-- The numbers are `n`, `n + 1` and so on.
abbrev pub IsContiguous : ℕ → List AuditEvent → Type 0
IsContiguous n [] = Unit
IsContiguous n (row ∷ rows) = (row.seq ≡ n) × IsContiguous (suc n) rows

abbrev pub IsAscending : ℕ → List AuditChainLink → Type 0
IsAscending n [] = Unit
IsAscending n (l ∷ ls) = (n ≤ l.seq) × IsAscending (suc l.seq) ls

pub append-IsContiguous :
    (n : ℕ) (rows : List AuditEvent) (row : AuditEvent)
    → IsContiguous n rows
    → row.seq ≡ n + length rows
    → IsContiguous n (rows ++ row ∷ [])
append-IsContiguous n [] row c e = (omega (arith, e), tt)
append-IsContiguous n (r ∷ rows) row c e =
    (c.0, append-IsContiguous (suc n) rows row c.1 (omega (arith, e)))

pub filter-IsContiguous :
    (h n : ℕ) (rows : List AuditEvent)
    → h < n
    → IsContiguous n rows
    → filter (λ row. ltb h row.seq) rows ≡ rows
filter-IsContiguous h n [] lt c = refl
filter-IsContiguous h n (row ∷ rows) lt c =
    ground (arith, lt, c.0, filter-IsContiguous h (suc n) rows (omega (arith, lt)) c.1)

-- Of the rows up to the head, none is past it.
pub filter-append-IsContiguous :
    (n h : ℕ) (done fresh : List AuditEvent)
    → suc h ≡ n + length done
    → IsContiguous n (done ++ fresh)
    → filter (λ row. ltb h row.seq) (done ++ fresh) ≡ fresh
filter-append-IsContiguous n h [] fresh e c = filter-IsContiguous h n fresh (omega (arith, e)) c
filter-append-IsContiguous n h (row ∷ done) fresh e c =
    ground (arith, e, c.0, filter-append-IsContiguous (suc n) h done fresh (omega (arith, e)) c.1)

pub drop-IsContiguous :
    (n : ℕ) (done fresh : List AuditEvent)
    → IsContiguous n (done ++ fresh)
    → IsContiguous (n + length done) fresh
drop-IsContiguous n [] fresh c = subst (λ k. IsContiguous k fresh) (omega arith) c
drop-IsContiguous n (row ∷ done) fresh c =
    subst (λ k. IsContiguous k fresh) (omega arith) (drop-IsContiguous (suc n) done fresh c.1)

pub prefix-IsContiguous :
    (n : ℕ) (done fresh : List AuditEvent) → IsContiguous n (done ++ fresh) → IsContiguous n done
prefix-IsContiguous n [] fresh c = tt
prefix-IsContiguous n (row ∷ done) fresh c = (c.0, prefix-IsContiguous (suc n) done fresh c.1)

pub sorted-IsContiguous :
    (n : ℕ) (rows : List AuditEvent) → IsContiguous n rows → sorted event_before rows ≡ rows
unfolding sorted insert_sorted
sorted-IsContiguous n [] c = refl
sorted-IsContiguous n (row ∷ []) c = refl
sorted-IsContiguous n (row ∷ next ∷ rows) c =
    rw (sorted-IsContiguous (suc n) (next ∷ rows) c.1) (ground (arith, c.0, c.1.0))

-- Each row is found under its number.
pub row_at-IsContiguous :
    (n : ℕ) (rows : List AuditEvent)
    → IsContiguous n rows
    → All (λ row. (n ≤ row.seq) × (row_at row.seq rows ≡ some row)) rows
row_at-IsContiguous n [] c = tt
row_at-IsContiguous n (row ∷ rows) c = (
  (omega (arith, c.0), ground (arith)),
  All-map _ _ rows (λ other found. (omega (arith, found.0), ground (arith, found.0, found.1, c.0)))
      (row_at-IsContiguous (suc n) rows c.1),
)

pub sorted-IsAscending :
    (n : ℕ) (links : List AuditChainLink) → IsAscending n links → sorted link_before links ≡ links
unfolding sorted insert_sorted
sorted-IsAscending n [] c = refl
sorted-IsAscending n (l ∷ []) c = refl
sorted-IsAscending n (l ∷ next ∷ links) c =
    rw (sorted-IsAscending (suc l.seq) (next ∷ links) c.1) (ground (arith, c.1.0))

-- The rows past the head are those that follow the sealed ones.
pub rows_past-IsContiguous :
    (done fresh : List AuditEvent)
    → IsContiguous 1 (done ++ fresh)
    → rows_past (length done) (done ++ fresh) ≡ fresh
rows_past-IsContiguous done fresh c =
    ap (sorted event_before) (filter-append-IsContiguous 1 (length done) done fresh (omega arith) c)
    ∙ sorted-IsContiguous (1 + length done) fresh (drop-IsContiguous 1 done fresh c)
