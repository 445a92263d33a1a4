-- ===== src/Monitor/Routing/Applied.antt =====
-- What `apply_assignments` leaves behind: every route that was asked for, or nothing.
use bbz_platform.Prelude.{
  is_text, String, Bool, true, false, not, ◌&&◌, List, filter, if◌then◌else◌, ◌==◌, Bool-cases, inl,
  inr, sym, subst, [], ◌∷◌, ◌++◌, Option, none, some, Result, ok, err, ◌≡◌, refl, ap, ◌∙◌, contains,
  Dict, lookup, keys, eq_iff, arith,
}
use bbz_platform.Monitor.Layout.{MonitorError, validate_items, standard_layout}
use bbz_platform.Monitor.Layout.Fixed.{standard_items}
use bbz_platform.Monitor.Routing.{
  World, RouteChanged, changes_of, upsert, upsert_all, drive, after_calls, after_validation,
  records_of, apply_assignments, reset_to_standard,
}
use bbz_platform.Monitor.Routing.Fixed.{lookup-upsert}

-- a Python dict has no key twice
abbrev pub is_dict : Dict String → Bool
is_dict [] = true
is_dict ((k, v) ∷ d) = not (contains k (keys d)) && is_dict d

abbrev pub or_else : Option String → Option String → Option String
or_else none y = y
or_else (some x) y = some x

lookup_absent : (o : String) (d : Dict String) → contains o (keys d) ≡ false → lookup o d ≡ none
lookup_absent o [] h = refl
lookup_absent o ((p, j) ∷ d) h = ground (arith, lookup_absent o d, h)

changes_keys :
    (o : String) (rows d : Dict String)
    → contains o (keys d) ≡ false
    → contains o (keys (changes_of rows d)) ≡ false
changes_keys o rows [] h = refl
changes_keys o rows ((p, j) ∷ d) h = ground (arith, changes_keys o rows d, h)

is_dict-changes_of : (rows d : Dict String) → is_dict d ≡ true → is_dict (changes_of rows d) ≡ true
is_dict-changes_of rows [] h = refl
is_dict-changes_of rows ((p, j) ∷ d) h =
    ground (arith, is_dict-changes_of rows d, changes_keys p rows d, h)

lookup-upsert_all :
    (o : String) (changes rows : Dict String)
    → is_dict changes ≡ true
    → lookup o (upsert_all changes rows) ≡ or_else (lookup o changes) (lookup o rows)
lookup-upsert_all o [] rows h = refl
lookup-upsert_all o ((p, j) ∷ changes) rows h = ground (
  arith,
  lookup-upsert_all o changes (upsert p j rows),
  lookup-upsert p j o rows,
  lookup_absent o changes,
  eq_iff p o,
  h,
)

is_text-some : (x : Option String) (t : String) → is_text x t ≡ true → x ≡ some t
is_text-some none t h = absurd (cc h)
is_text-some (some s) t h = ap some ((eq_iff s t).0 h)

lookup-changes_of :
    (o : String) (rows d : Dict String)
    → is_dict d ≡ true
    → or_else (lookup o (changes_of rows d)) (lookup o rows) ≡ or_else (lookup o d) (lookup o rows)
lookup-changes_of o rows [] h = refl
lookup-changes_of o rows ((p, j) ∷ d) h = ground (
  arith,
  lookup-changes_of o rows d,
  lookup_absent o (changes_of rows d),
  changes_keys p rows d,
  is_text-some (lookup p rows) j,
  lookup_absent o d,
  eq_iff p o,
  h,
)

-- The audit record of one output, by its input before and after: none where that is the same.
abbrev pub change_records : String → Option String → Option String → List RouteChanged
change_records o before none = []
change_records o before (some i) =
    if is_text before i then [] else record { target_id = o; before = before; after = i } ∷ []

abbrev pub records_for : String → List RouteChanged → List RouteChanged
records_for o records = filter (λ (r : RouteChanged). r.target_id == o) records

unchanged_records : (o : String) (before : Option String) → change_records o before before ≡ []
unchanged_records o none = refl
unchanged_records o (some i) = rw ((eq_iff i i).1 refl) refl

records_for-absent :
    (o : String) (rows d : Dict String)
    → contains o (keys d) ≡ false
    → records_for o (records_of rows (changes_of rows d)) ≡ []
records_for-absent o rows [] absent = refl
records_for-absent o rows ((p, j) ∷ d) absent =
    let other : (p == o) ≡ false = ground (arith, absent) in
    let rest = records_for-absent o rows d (ground (arith, absent)) in
    elim (Bool-cases (is_text (lookup p rows) j)) [
      | inl same ↦ rw same rest
      | inr new ↦ rw new (rw other rest)
    ]

-- The records of the changes, output by output.
records_for-changes :
    (o : String) (rows d : Dict String)
    → is_dict d ≡ true
    → records_for o (records_of rows (changes_of rows d))
      ≡ change_records o (lookup o rows) (or_else (lookup o d) (lookup o rows))
records_for-changes o rows [] unique = sym (unchanged_records o (lookup o rows))
records_for-changes o rows ((p, j) ∷ d) unique =
    let fresh : contains p (keys d) ≡ false = ground (arith, unique) in
    let rest = records_for-changes o rows d (ground (arith, unique)) in
    elim (Bool-cases (p == o)) [
      | inl here ↦
          let equal : p ≡ o = (eq_iff p o).0 here in
          let nothing =
            records_for-absent o rows d (subst (λ k. contains k (keys d) ≡ false) equal fresh) in
          elim (Bool-cases (is_text (lookup p rows) j)) [
            | inl same ↦
                rw same
                  (rw here (rw (subst (λ k. is_text (lookup k rows) j ≡ true) equal same) nothing))
            | inr new ↦ rw new (
                rw here (
                  rw (subst (λ k. is_text (lookup k rows) j ≡ false) equal new) (
                    rw nothing (
                      ap (λ k. record { target_id = k; before = lookup k rows; after = j } ∷ [])
                        equal))))
          ]
      | inr other ↦ elim (Bool-cases (is_text (lookup p rows) j)) [
        | inl same ↦ rw same (rw other rest)
        | inr new ↦ rw new (rw other rest)
      ]
    ]

module _ (takes : Dict String → String → String → Bool) where
  abbrev IsApplied : Dict String → World → World → Type 0
  IsApplied assignments w v =
      ((o : String) → lookup o v.routes ≡ or_else (lookup o assignments) (lookup o w.routes))
      × (v.audit ≡ w.audit ++ records_of w.routes (changes_of w.routes assignments))

  abbrev IsLeft : World → World → Type 0
  IsLeft w v = (v.routes ≡ w.routes) × (v.audit ≡ w.audit)

  IsApplied-calls :
      (assignments : Dict String) (w : World) (r : Dict String × Result MonitorError (Unit {0}))
      → is_dict assignments ≡ true
      → (after_calls takes (changes_of w.routes assignments) w r).1 ≡ ok tt
      → IsApplied assignments w (after_calls takes (changes_of w.routes assignments) w r).0
  IsApplied-calls assignments w (sent, err e) unique h = absurd (cc h)
  IsApplied-calls assignments w (sent, ok u) unique h = (
    λ o.
        lookup-upsert_all o (changes_of w.routes assignments) w.routes
          (is_dict-changes_of w.routes assignments unique)
        ∙ lookup-changes_of o w.routes assignments unique,
    refl,
  )

  IsApplied-validation :
      (assignments : Dict String) (w : World) (r : Result MonitorError (Unit {0}))
      → is_dict assignments ≡ true
      → (after_validation takes assignments w r).1 ≡ ok tt
      → IsApplied assignments w (after_validation takes assignments w r).0
  unfolding after_validation
  IsApplied-validation assignments w (err e) unique h = absurd (cc h)
  IsApplied-validation assignments w (ok u) unique h =
      IsApplied-calls assignments w (drive takes (changes_of w.routes assignments) w.sent) unique h

  IsLeft-calls :
      (changes : Dict String) (w : World) (r : Dict String × Result MonitorError (Unit {0}))
      (e : MonitorError)
      → (after_calls takes changes w r).1 ≡ err e
      → IsLeft w (after_calls takes changes w r).0
  IsLeft-calls changes w (sent, err x) e h = (refl, refl)
  IsLeft-calls changes w (sent, ok u) e h = absurd (cc h)

  IsLeft-validation :
      (assignments : Dict String) (w : World) (r : Result MonitorError (Unit {0}))
      (e : MonitorError)
      → (after_validation takes assignments w r).1 ≡ err e
      → IsLeft w (after_validation takes assignments w r).0
  unfolding after_validation
  IsLeft-validation assignments w (err x) e h = (refl, refl)
  IsLeft-validation assignments w (ok u) e h =
      IsLeft-calls (changes_of w.routes assignments) w
        (drive takes (changes_of w.routes assignments) w.sent) e h

  -- An application of assignments with no output twice that returns leaves each output that it names with
  -- the input it names, and each other output as it was. For each output, what it adds to the audit log is
  -- one record, with the input of before and the one of after, if these differ, and else none.
  pub apply_assignments_ok :
      (assignments : Dict String) (w : World)
      → is_dict assignments ≡ true
      → (apply_assignments takes assignments w).1 ≡ ok tt
      → ((o : String)
          → lookup o (apply_assignments takes assignments w).0.routes
            ≡ or_else (lookup o assignments) (lookup o w.routes))
        × (added : List RouteChanged) × ((apply_assignments takes assignments w).0.audit
            ≡ w.audit ++ added)
        × ((o : String)
            → records_for o added
              ≡ change_records o
                  (lookup o w.routes)
                  (lookup o (apply_assignments takes assignments w).0.routes))
  unfolding apply_assignments
  apply_assignments_ok assignments w unique returns =
      let (routes, audit) =
        IsApplied-validation assignments w (validate_items assignments) unique returns in
      (
        routes,
        records_of w.routes (changes_of w.routes assignments),
        audit,
        λ o.
            records_for-changes o w.routes assignments unique
            ∙ ap (λ after. change_records o (lookup o w.routes) after) (sym (routes o)),
      )

  -- An application that raises, refused by the domain or by the provider, leaves the routes and the
  -- audit log as they were.
  pub apply_assignments_err :
      (assignments : Dict String) (w : World) (e : MonitorError)
      → (apply_assignments takes assignments w).1 ≡ err e
      → ((apply_assignments takes assignments w).0.routes ≡ w.routes)
        × ((apply_assignments takes assignments w).0.audit ≡ w.audit)
  unfolding apply_assignments
  apply_assignments_err assignments w e =
      IsLeft-validation assignments w (validate_items assignments) e

  drive_all :
      (changes sent : Dict String)
      → ((told : Dict String) (o i : String) → takes told o i ≡ true)
      → (drive takes changes sent).1 ≡ ok tt
  unfolding drive
  drive_all [] sent all_taken = refl
  drive_all ((o, i) ∷ changes) sent all_taken =
      rw (all_taken sent o i) (drive_all changes (sent ++ (o, i) ∷ []) all_taken)

  calls_return :
      (changes : Dict String) (w : World) (r : Dict String × Result MonitorError (Unit {0}))
      → r.1 ≡ ok tt
      → (after_calls takes changes w r).1 ≡ ok tt
  calls_return changes w (sent, err e) h = absurd (cc h)
  calls_return changes w (sent, ok u) h = refl

  validation_returns :
      (w : World) (r : Result MonitorError (Unit {0}))
      → r ≡ ok tt
      → ((told : Dict String) (o i : String) → takes told o i ≡ true)
      → (after_validation takes standard_layout w r).1 ≡ ok tt
  unfolding after_validation
  validation_returns w (err e) h all_taken = absurd (cc h)
  validation_returns w (ok u) h all_taken =
      calls_return (changes_of w.routes standard_layout) w
        (drive takes (changes_of w.routes standard_layout) w.sent)
        (drive_all (changes_of w.routes standard_layout) w.sent all_taken)

  -- Where the provider takes every route, a reset returns, and each output of the standard layout
  -- has the input that the layout gives it.
  pub reset_to_standard_ok :
      (w : World)
      → ((told : Dict String) (o i : String) → takes told o i ≡ true)
      → ((reset_to_standard takes w).1 ≡ ok tt)
        × ((o i : String)
            → lookup o standard_layout ≡ some i
            → lookup o (reset_to_standard takes w).0.routes ≡ some i)
  unfolding reset_to_standard apply_assignments
  reset_to_standard_ok w all_taken =
      let returns =
        validation_returns w (validate_items standard_layout) standard_items all_taken in
      let applied =
        IsApplied-validation standard_layout w (validate_items standard_layout) refl returns in
      (returns, λ o i l. applied.0 o ∙ ap (λ x. or_else x (lookup o w.routes)) l)
