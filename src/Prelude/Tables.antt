-- ===== src/Prelude/Tables.antt =====
-- A table of a database, as the list of its rows under a numeric key.
use Prim.Native.Nat.{ℕ, suc, ◌+◌, ◌≤◌}
use mathlib.Core.Path.{◌≡◌, refl, subst, ap}
use mathlib.Core.Logic.{inl, inr}
use mathlib.Core.Bool.{Bool, true, false, not}
use mathlib.Core.Option.{Option, none, some}
use mathlib.Core.List.{List, [], ◌∷◌, ◌++◌}
use native.Mathlib.Omega.{arith}
use bbz_platform.Prelude.Tests.{if◌then◌else◌, Bool-cases, nat_eq}
use bbz_platform.Prelude.Lists.{find, filter, All}

pub some_injective {ℓ} : {A : Type ℓ} {a b : A} → ◌≡◌ {A = Option A} (some a) (some b) → a ≡ b
some_injective p = cc

module _ {ℓ} {A : Type ℓ} (key : A → ℕ) where
  -- `session.get(…, id)`
  abbrev pub get_row : ℕ → List A → Option A
  get_row id rows = find (λ row. nat_eq (key row) id) rows

  -- the row written back
  abbrev pub put_row : A → List A → List A
  put_row new [] = []
  put_row new (row ∷ rows) =
      let rest = put_row new rows in (if nat_eq (key row) (key new) then new else row) ∷ rest

  pub get_row-key : (id : ℕ) (rows : List A) {row : A} → get_row id rows ≡ some row → key row ≡ id
  get_row-key id [] found = absurd (cc found)
  get_row-key id (r ∷ rows) {row} found = elim (Bool-cases (nat_eq (key r) id)) [
    | inl same ↦
        let equal : key r ≡ id = ground (arith, same) in
        subst (λ x. key x ≡ id) (some_injective (rw same at found)) equal
    | inr other ↦ get_row-key id rows (rw other at found)
  ]

  -- What holds of every row holds of the one that is found.
  pub get_row-All {κ} :
      (P : A → Type κ) (id : ℕ) (rows : List A) {row : A}
      → get_row id rows ≡ some row
      → All P rows
      → P row
  get_row-All P id [] found all_hold = absurd (cc found)
  get_row-All P id (r ∷ rows) {row} found all_hold = elim (Bool-cases (nat_eq (key r) id)) [
    | inl same ↦ subst P (some_injective (rw same at found)) all_hold.0
    | inr other ↦ get_row-All P id rows (rw other at found) all_hold.1
  ]

  -- Written back, the row is found, and the others as before.
  pub get_row-put_row :
      (new : A) (rows : List A) {row : A}
      → get_row (key new) rows ≡ some row
      → get_row (key new) (put_row new rows) ≡ some new
  get_row-put_row new [] found = absurd (cc found)
  get_row-put_row new (r ∷ rows) found = elim (Bool-cases (nat_eq (key r) (key new))) [
    | inl same ↦
        let itself : nat_eq (key new) (key new) ≡ true = ground arith in rw same (rw itself refl)
    | inr other ↦ rw other (rw other (get_row-put_row new rows (rw other at found)))
  ]

  pub get_row-put_row_other :
      (id : ℕ) (new : A) (rows : List A)
      → nat_eq (key new) id ≡ false
      → get_row id (put_row new rows) ≡ get_row id rows
  get_row-put_row_other id new [] other = refl
  get_row-put_row_other id new (r ∷ rows) other = elim (Bool-cases (nat_eq (key r) (key new))) [
    | inl same ↦
        let missed : nat_eq (key r) id ≡ false = ground (arith, same, other) in
        rw same (rw other (rw missed (get_row-put_row_other id new rows other)))
    | inr kept ↦ rw kept (
        ap (λ rest. if nat_eq (key r) id then some r else rest)
          (get_row-put_row_other id new rows other))
  ]

  pub get_row-append :
      (id : ℕ) (rows more : List A) {row : A}
      → get_row id rows ≡ some row
      → get_row id (rows ++ more) ≡ some row
  get_row-append id [] more found = absurd (cc found)
  get_row-append id (r ∷ rows) more found = elim (Bool-cases (nat_eq (key r) id)) [
    | inl same ↦ rw same (rw same at found)
    | inr other ↦ rw other (get_row-append id rows more (rw other at found))
  ]

  pub get_row-append_none :
      (id : ℕ) (rows more : List A)
      → get_row id rows ≡ none
      → get_row id (rows ++ more) ≡ get_row id more
  get_row-append_none id [] more missing = refl
  get_row-append_none id (r ∷ rows) more missing = elim (Bool-cases (nat_eq (key r) id)) [
    | inl same ↦ absurd (cc (rw same at missing))
    | inr other ↦ rw other (get_row-append_none id rows more (rw other at missing))
  ]

  pub put_row-All {κ} :
      (P Q : A → Type κ) (new : A) (rows : List A)
      → Q new
      → ((row : A) → nat_eq (key row) (key new) ≡ false → P row → Q row)
      → All P rows
      → All Q (put_row new rows)
  put_row-All P Q new [] holds kept all_hold = tt
  put_row-All P Q new (r ∷ rows) holds kept all_hold =
      elim (Bool-cases (nat_eq (key r) (key new))) [
        | inl same ↦ rw same (holds, put_row-All P Q new rows holds kept all_hold.1)
        | inr other ↦
            rw other (kept r other all_hold.0, put_row-All P Q new rows holds kept all_hold.1)
      ]

  -- `DELETE … WHERE p`
  abbrev pub delete_rows : (A → Bool) → List A → List A
  delete_rows p rows = filter (λ row. not (p row)) rows

  -- How many rows have the key.
  abbrev pub rows_under : ℕ → List A → ℕ
  rows_under id [] = 0
  rows_under id (row ∷ rows) =
      let rest = rows_under id rows in if nat_eq (key row) id then suc rest else rest

  pub rows_under-append :
      (id : ℕ) (xs ys : List A) → rows_under id (xs ++ ys) ≡ rows_under id xs + rows_under id ys
  rows_under-append id [] ys = omega arith
  rows_under-append id (x ∷ xs) ys = ground (arith, rows_under-append id xs ys)

  pub rows_under-put_row :
      (id : ℕ) (new : A) (rows : List A) → rows_under id (put_row new rows) ≡ rows_under id rows
  rows_under-put_row id new [] = refl
  rows_under-put_row id new (r ∷ rows) = elim (Bool-cases (nat_eq (key r) (key new))) [
    | inl same ↦
        let equal : key r ≡ key new = ground (arith, same) in
        rw same (rw equal (ground (arith, rows_under-put_row id new rows)))
    | inr other ↦ rw other (ground (arith, rows_under-put_row id new rows))
  ]

  pub rows_under-none : (id : ℕ) (rows : List A) → get_row id rows ≡ none → rows_under id rows ≡ 0
  rows_under-none id [] missing = refl
  rows_under-none id (r ∷ rows) missing = elim (Bool-cases (nat_eq (key r) id)) [
    | inl same ↦ absurd (cc (rw same at missing))
    | inr other ↦ rw other (rows_under-none id rows (rw other at missing))
  ]

-- Lists of keys.
abbrev pub occurrences : ℕ → List ℕ → ℕ
occurrences id ids = rows_under (λ (i : ℕ). i) id ids

-- the first of these taken out
abbrev pub remove : ℕ → List ℕ → List ℕ
remove id [] = []
remove id (i ∷ ids) = let rest = remove id ids in if nat_eq i id then ids else i ∷ rest

pub occurrences-remove :
    (id : ℕ) (ids : List ℕ)
    → 1 ≤ occurrences id ids
    → suc (occurrences id (remove id ids)) ≡ occurrences id ids
occurrences-remove id [] some_there = absurd (omega (arith, some_there))
occurrences-remove id (i ∷ ids) some_there = elim (Bool-cases (nat_eq i id)) [
  | inl same ↦ rw same refl
  | inr other ↦ rw other (rw other (occurrences-remove id ids (rw other at some_there)))
]

pub occurrences-remove_other :
    (id j : ℕ) (ids : List ℕ)
    → nat_eq j id ≡ false
    → occurrences id (remove j ids) ≡ occurrences id ids
occurrences-remove_other id j [] other = refl
occurrences-remove_other id j (i ∷ ids) other = elim (Bool-cases (nat_eq i j)) [
  | inl same ↦ rw same (ground (arith, same, other))
  | inr kept ↦ rw kept (ground (arith, occurrences-remove_other id j ids other))
]
