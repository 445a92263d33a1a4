-- ===== src/Monitor/Layout/Fixed.antt =====
-- What `validate_assignment` and `validate_layout` (server/bbz_core/domain/monitor/layout.py) let
-- through.
use bbz_platform.Prelude.{
  String, true, not, [], ◌∷◌, some, ok, guard-eq-ok, >>=-eq-ok, ◌≡◌, refl, subst, ap, ◌∙◌, inl, inr,
  Bool-cases, filter_none, is_empty, All, contains, contains-keys, Dict, lookup, keys, ◌==◌, eq_iff,
  arith,
}
use bbz_platform.Monitor.Layout.{
  standard_layout, output_keys, input_keys, bottom_left, fixed_input_for, honours, without,
  validate_assignment, validate_items, validate_layout, unknown_output, unknown_input,
}

pub valid_item :
    (m : Dict String) (o i : String)
    → validate_items m ≡ ok tt
    → lookup o m ≡ some i
    → validate_assignment o i ≡ ok tt
unfolding validate_items
valid_item [] o i h l = absurd (cc l)
valid_item ((p, j) ∷ m) o i h l =
    let (u, first, rest) = >>=-eq-ok (validate_assignment p j) (λ _. validate_items m) h in
    elim (Bool-cases (p == o)) [
      | inl e ↦
          let same : j ≡ i = ground (arith, e, l) in
          subst (λ (x : String). validate_assignment x i ≡ ok tt) ((eq_iff p o).0 e)
            (subst (λ (x : String). validate_assignment p x ≡ ok tt) same first)
      | inr e ↦ valid_item m o i rest (rw e at l)
    ]

-- the items of a dict are assignments that the domain accepts
abbrev pub AreValid : Dict String → Type 0
AreValid items = All (λ (o, i). validate_assignment o i ≡ ok tt) items

pub valid_items : (m : Dict String) → validate_items m ≡ ok tt → AreValid m
unfolding validate_items
valid_items [] h = tt
valid_items ((p, j) ∷ m) h =
    let (u, first, rest) = >>=-eq-ok (validate_assignment p j) (λ _. validate_items m) h in
    (first, valid_items m rest)

pub valid_assignment_parts :
    (o i : String)
    → validate_assignment o i ≡ ok tt
    → (contains o output_keys ≡ true)
      × (contains i input_keys ≡ true)
      × (honours (fixed_input_for o) i ≡ true)
unfolding validate_assignment
valid_assignment_parts o i h =
    let (known_output, h1) = guard-eq-ok (contains o output_keys) (unknown_output o) _ h in
    let (known_input, h2) = guard-eq-ok (contains i input_keys) (unknown_input i) _ h1 in
    (known_output, known_input, ground (arith, h2))

pub fixed_only : (i : String) → validate_assignment bottom_left i ≡ ok tt → i ≡ "bbz-os"
fixed_only i h = (eq_iff i "bbz-os").0 (valid_assignment_parts bottom_left i h).2

-- A layout that is accepted assigns a known input to each output of the catalogue, and "bbz-os" to
-- the output at the lower left, and assigns nothing else.
pub validate_layout_sound :
    (m : Dict String)
    → validate_layout m ≡ ok tt
    → ((o : String)
        → contains o output_keys ≡ true
        → (i : String) × (lookup o m ≡ some i) × (contains i input_keys ≡ true))
      × (lookup bottom_left m ≡ some "bbz-os")
      × ((o : String) → contains o (keys m) ≡ true → contains o output_keys ≡ true)
unfolding validate_layout
validate_layout_sound m h =
    let (full, h1) = guard-eq-ok (is_empty (without output_keys (keys m))) _ _ h in
    let (narrow, items) = guard-eq-ok (is_empty (without (keys m) output_keys)) _ _ h1 in
    let assigned : ((o : String)
        → contains o output_keys ≡ true
        → (i : String) × (lookup o m ≡ some i)) =
      λ o known.
        contains-keys o m
          (ground (arith, filter_none (λ k. not (contains k (keys m))) o output_keys full known)) in
    let (fixed, found) = assigned bottom_left refl in
    (
      λ o known.
          let (i, l) = assigned o known in
          (i, l, (valid_assignment_parts o i (valid_item m o i items l)).1),
      found ∙ ap some (fixed_only fixed (valid_item m bottom_left fixed items found)),
      λ o k. ground (arith, filter_none (λ k. not (contains k output_keys)) o (keys m) narrow k),
    )

pub standard_items : validate_items standard_layout ≡ ok tt
unfolding validate_items
standard_items = refl
