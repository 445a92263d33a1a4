-- ===== src/Monitor/Routing/Fixed.antt =====
-- The fixed rule over the table of routes: whatever is applied, the rows stay sound.
use bbz_platform.Prelude.{
  is_text, String, Bool, [], ◌∷◌, some, Result, ok, err, ◌≡◌, refl, subst, inl, inr, Bool-cases,
  Dict, lookup, ◌==◌, eq_iff, arith, if◌then◌else◌,
}
use bbz_platform.Monitor.Layout.{MonitorError, bottom_left, validate_assignment, validate_items}
use bbz_platform.Monitor.Layout.Fixed.{AreValid, valid_items, fixed_only}
use bbz_platform.Monitor.Routing.{
  World, changes_of, upsert, upsert_all, drive, after_calls, after_validation, apply_assignments,
}

pub lookup-upsert :
    (o i p : String) (rows : Dict String)
    → lookup p (upsert o i rows) ≡ (if o == p then some i else lookup p rows)
lookup-upsert o i p [] = refl
lookup-upsert o i p ((q, j) ∷ rows) =
    ground (arith, lookup-upsert o i p rows, eq_iff q o, eq_iff o p, eq_iff q p)

-- every row of the table is an assignment that the domain accepts
abbrev pub IsSound : Dict String → Type 0
IsSound rows = (o i : String) → lookup o rows ≡ some i → validate_assignment o i ≡ ok tt

valid_changes : (current m : Dict String) → AreValid m → AreValid (changes_of current m)
valid_changes current [] h = tt
valid_changes current ((p, j) ∷ m) h = elim (Bool-cases (is_text (lookup p current) j)) [
  | inl e ↦ rw e (valid_changes current m h.1)
  | inr e ↦ rw e (h.0, valid_changes current m h.1)
]

IsSound-upsert :
    (p j : String) (rows : Dict String)
    → validate_assignment p j ≡ ok tt
    → IsSound rows
    → IsSound (upsert p j rows)
IsSound-upsert p j rows valid sound o i l = elim (Bool-cases (p == o)) [
  | inl e ↦
      let same : j ≡ i = ground (arith, lookup-upsert p j o rows, e, l) in
      subst (λ (x : String). validate_assignment x i ≡ ok tt) ((eq_iff p o).0 e)
        (subst (λ (x : String). validate_assignment p x ≡ ok tt) same valid)
  | inr e ↦ sound o i (ground (arith, lookup-upsert p j o rows, e, l))
]

IsSound-upsert_all :
    (changes rows : Dict String)
    → AreValid changes
    → IsSound rows
    → IsSound (upsert_all changes rows)
IsSound-upsert_all [] rows valid sound = sound
IsSound-upsert_all ((p, j) ∷ changes) rows valid sound =
    IsSound-upsert_all changes (upsert p j rows) valid.1 (IsSound-upsert p j rows valid.0 sound)

abbrev Kept : Dict String → Type 0
Kept rows = IsSound rows × ((i : String) → lookup bottom_left rows ≡ some i → i ≡ "bbz-os")

IsSound-Kept : (rows : Dict String) → IsSound rows → Kept rows
IsSound-Kept rows sound = (sound, λ i l. fixed_only i (sound bottom_left i l))

module _ (takes : Dict String → String → String → Bool) where
  IsSound-calls :
      (changes : Dict String) (w : World) (r : Dict String × Result MonitorError (Unit {0}))
      → AreValid changes
      → IsSound w.routes
      → IsSound (after_calls takes changes w r).0.routes
  IsSound-calls changes w (sent, err e) valid sound = sound
  IsSound-calls changes w (sent, ok u) valid sound = IsSound-upsert_all changes w.routes valid sound

  IsSound-validation :
      (assignments : Dict String) (w : World) (r : Result MonitorError (Unit {0}))
      → validate_items assignments ≡ r
      → IsSound w.routes
      → IsSound (after_validation takes assignments w r).0.routes
  unfolding after_validation
  IsSound-validation assignments w (err e) valid sound = sound
  IsSound-validation assignments w (ok u) valid sound =
      let changes = changes_of w.routes assignments in
      IsSound-calls changes w (drive takes changes w.sent)
        (valid_changes w.routes assignments (valid_items assignments valid)) sound

  -- Whatever is applied and however the provider answers, a table whose rows the domain accepts is
  -- left with rows that it accepts, and the output at the lower left shows "bbz-os" if anything.
  pub apply_assignments-IsSound :
      (assignments : Dict String) (w : World)
      → IsSound w.routes
      → IsSound (apply_assignments takes assignments w).0.routes
        × ((i : String)
            → lookup bottom_left (apply_assignments takes assignments w).0.routes ≡ some i
            → i ≡ "bbz-os")
  unfolding apply_assignments
  apply_assignments-IsSound assignments w sound =
      IsSound-Kept (apply_assignments takes assignments w).0.routes
        (IsSound-validation assignments w (validate_items assignments) refl sound)
