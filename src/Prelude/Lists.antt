-- ===== src/Prelude/Lists.antt =====
-- Lists measured by native numbers, with Boolean tests, and dictionaries with text keys.
use Prim.Native.Nat.{ℕ, suc, ◌+◌, ◌≤◌}
use Prim.Native.String.{String}
use mathlib.Core.Path.{◌≡◌, refl, ap, subst}
use mathlib.Core.Logic.{inl, inr}
use text.Mathlib.TextEquality.{eq_iff}
use mathlib.Core.Bool.{Bool, true, false, ◌&&◌, ◌||◌}
use mathlib.Core.Option.{Option, none, some}
use mathlib.Core.List.{List, [], ◌∷◌, ◌++◌, map}
use native.Mathlib.Omega.{arith}
use text.Mathlib.Text.{◌==◌}
use bbz_platform.Prelude.Tests.{if◌then◌else◌, Bool-cases}

module _ {ℓ} {A : Type ℓ} where
  abbrev pub length : List A → ℕ
  length [] = 0
  length (_ ∷ xs) = suc (length xs)

  abbrev pub is_empty : List A → Bool
  is_empty [] = true
  is_empty (_ ∷ _) = false

  abbrev pub any : (A → Bool) → List A → Bool
  any p [] = false
  any p (x ∷ xs) = p x || any p xs

  abbrev pub all : (A → Bool) → List A → Bool
  all p [] = true
  all p (x ∷ xs) = p x && all p xs

  -- `[x for x in xs if p(x)]`
  abbrev pub filter : (A → Bool) → List A → List A
  filter p [] = []
  filter p (x ∷ xs) = let rest = filter p xs in if p x then x ∷ rest else rest

  -- `next((x for x in xs if p(x)), None)`
  abbrev pub find : (A → Bool) → List A → Option A
  find p [] = none
  find p (x ∷ xs) = let rest = find p xs in if p x then some x else rest

  -- `sorted(xs, key=…)`: stable, where `before y x` says that the key of `y` is below that of `x`.
  unfoldable pub insert_sorted : (A → A → Bool) → A → List A → List A
  insert_sorted before x [] = x ∷ []
  insert_sorted before x (y ∷ ys) =
      let rest = insert_sorted before x ys in if before y x then y ∷ rest else x ∷ y ∷ ys

  unfoldable pub sorted : (A → A → Bool) → List A → List A
  unfolding insert_sorted
  sorted before [] = []
  sorted before (x ∷ xs) = insert_sorted before x (sorted before xs)

  abbrev pub All {κ} : (A → Type κ) → List A → Type κ
  All P [] = Unit
  All P (x ∷ xs) = P x × All P xs

  pub All-append {κ} : (P : A → Type κ) (xs ys : List A) → All P xs → All P ys → All P (xs ++ ys)
  All-append P [] ys none_left after = after
  All-append P (x ∷ xs) ys (first, rest) after = (first, All-append P xs ys rest after)

  pub All-map {κ ν} :
      (P : A → Type κ) (Q : A → Type ν) (xs : List A) → ((x : A) → P x → Q x) → All P xs → All Q xs
  All-map P Q [] f h = tt
  All-map P Q (x ∷ xs) f h = (f x h.0, All-map P Q xs f h.1)

  pub length-append : (xs ys : List A) → length (xs ++ ys) ≡ length xs + length ys
  length-append [] ys = omega arith
  length-append (x ∷ xs) ys = omega (arith, length-append xs ys)

  pub length-filter-le : (p : A → Bool) (xs : List A) → length (filter p xs) ≤ length xs
  length-filter-le p [] = omega arith
  length-filter-le p (x ∷ xs) = ground (arith, length-filter-le p xs)

module _ {ℓ} {A : Type ℓ} (p : A → Bool) (before : A → A → Bool) where
  length-filter-insert :
      (x : A) (xs : List A)
      → length (filter p (insert_sorted before x xs)) ≡ length (filter p (x ∷ xs))
  unfolding insert_sorted
  length-filter-insert x [] = refl
  length-filter-insert x (y ∷ ys) = ground (arith, length-filter-insert x ys)

  -- Sorting keeps the number of items of any kind.
  pub length-filter-sorted :
      (xs : List A) → length (filter p (sorted before xs)) ≡ length (filter p xs)
  unfolding sorted
  length-filter-sorted [] = refl
  length-filter-sorted (x ∷ xs) =
      ground (arith, length-filter-insert x (sorted before xs), length-filter-sorted xs)

pub length-map {ℓ κ} :
    {A : Type ℓ} {B : Type κ} (f : A → B) (xs : List A) → length (map f xs) ≡ length xs
length-map f [] = refl
length-map f (x ∷ xs) = ap suc (length-map f xs)

-- the text is there, and is this one
abbrev pub is_text : Option String → String → Bool
is_text none t = false
is_text (some s) t = s == t

-- `x in xs` for texts
abbrev pub contains : String → List String → Bool
contains k [] = false
contains k (x ∷ xs) = x == k || contains k xs

-- A Python dict with text keys, as the list of its items.
abbrev pub Dict {ℓ} : Type ℓ → Type ℓ
Dict V = List (String × V)

module _ {ℓ} {V : Type ℓ} where
  -- `d.get(k)`
  abbrev pub lookup : String → Dict V → Option V
  lookup k [] = none
  lookup k ((j, v) ∷ d) = let rest = lookup k d in if j == k then some v else rest

  abbrev pub keys : Dict V → List String
  keys [] = []
  keys ((k, _) ∷ d) = k ∷ keys d

-- Where a filter keeps nothing, no item passes.
pub filter_none :
    (p : String → Bool) (k : String) (xs : List String)
    → is_empty (filter p xs) ≡ true
    → contains k xs ≡ true
    → p k ≡ false
filter_none p k [] h m = cc m
filter_none p k (x ∷ xs) h m = elim (Bool-cases (p x)) [
  | inl t ↦ absurd (ground (arith, h, t))
  | inr f ↦ elim (Bool-cases (x == k)) [
    | inl e ↦ subst (λ (y : String). p y ≡ false) ((eq_iff x k).0 e) f
    | inr e ↦ filter_none p k xs (ground (arith, h, f)) (rw e at m)
  ]
]

-- A key of a dictionary has a value.
pub contains-keys {ℓ} :
    {V : Type ℓ} (k : String) (d : Dict V)
    → contains k (keys d) ≡ true
    → (v : V) × (lookup k d ≡ some v)
contains-keys k [] h = absurd (cc h)
contains-keys k ((j, v) ∷ d) h = elim (Bool-cases (j == k)) [
  | inl e ↦ (v, rw e refl)
  | inr e ↦ let (w, found) = contains-keys k d (rw e at h) in (w, rw e found)
]

pub lookup-keys {ℓ} :
    {V : Type ℓ} (k : String) (v : V) (d : Dict V)
    → lookup k d ≡ some v
    → contains k (keys d) ≡ true
lookup-keys k v [] h = absurd (cc h)
lookup-keys k v ((j, w) ∷ d) h = elim (Bool-cases (j == k)) [
  | inl e ↦ rw e refl
  | inr e ↦ rw e (lookup-keys k v d (rw e at h))
]
