-- ===== src/RuleDsl/Value.antt =====
-- The values that a rule meets: what `json.loads` returns, floats left out. An object is the list of
-- its items, with no key twice. Equality, order, truth and membership are Python's.
use Prim.Native.Nat.{Ordering}
use Prim.Native.String.{compare}
use text.Mathlib.Text.{find?}
use bbz_platform.Prelude.{
  ℕ, String, Bool, true, false, not, ◌&&◌, Option, none, some, ◌==◌, ℤ, pos, compare_ℤ, int_eq,
  nat_eq, is_some, if◌then◌else◌,
}

mutual
  pub data Value : Type 0 where
    null : Value
    bool : Bool → Value
    int : ℤ → Value
    str : String → Value
    list : Values → Value
    object : Fields → Value

  pub data Values : Type 0 where
    nil : Values
    cons : Value → Values → Values

  pub data Fields : Type 0 where
    end : Fields
    field : String → Value → Fields → Fields

abbrev pub lookup_field : String → Fields → Option Value
lookup_field k end = none
lookup_field k (field j v fs) = let rest = lookup_field k fs in if j == k then some v else rest

abbrev pub count_fields : Fields → ℕ
count_fields end = 0
count_fields (field j v fs) = ℕ.suc (count_fields fs)

-- `True` is the integer 1
abbrev pub as_int : Value → Option ℤ
as_int (bool true) = some (pos 1)
as_int (bool false) = some (pos 0)
as_int (int n) = some n
as_int _ = none

abbrev same_number : Option ℤ → Option ℤ → Bool
same_number (some m) (some n) = int_eq m n
same_number _ _ = false

-- `a == b`. Objects are equal if they have the same keys, with equal values.
unfoldable mutual
  pub value_eq : Value → Value → Bool
  value_eq null w = elim w [ null ↦ true | _ ↦ false ]
  value_eq (bool b) w = same_number (as_int (bool b)) (as_int w)
  value_eq (int n) w = same_number (some n) (as_int w)
  value_eq (str s) w = elim w [ str t ↦ s == t | _ ↦ false ]
  value_eq (list xs) w = elim w [ list ys ↦ values_eq xs ys | _ ↦ false ]
  value_eq (object fs) w = elim w [
    | object gs ↦ nat_eq (count_fields fs) (count_fields gs) && fields_eq fs gs
    | _ ↦ false
  ]

  pub values_eq : Values → Values → Bool
  values_eq nil ws = elim ws [ nil ↦ true | _ ↦ false ]
  values_eq (cons v vs) ws = elim ws [
    | nil ↦ false
    | cons w rest ↦ value_eq v w && values_eq vs rest
  ]

  pub fields_eq : Fields → Fields → Bool
  fields_eq end gs = true
  fields_eq (field k v fs) gs =
      elim (lookup_field k gs) [ none ↦ false | some w ↦ value_eq v w ] && fields_eq fs gs

-- `a < b` and its like: `none` is a `TypeError`. Lists compare by their first unequal items.
abbrev order_numbers : Option ℤ → Option ℤ → Option Ordering
order_numbers (some m) (some n) = some (compare_ℤ m n)
order_numbers _ _ = none

unfoldable mutual
  pub order : Value → Value → Option Ordering
  order null w = none
  order (bool b) w = order_numbers (as_int (bool b)) (as_int w)
  order (int n) w = order_numbers (some n) (as_int w)
  order (str s) w = elim w [ str t ↦ some (compare s t) | _ ↦ none ]
  order (list xs) w = elim w [ list ys ↦ order_items xs ys | _ ↦ none ]
  order (object fs) w = none

  pub order_items : Values → Values → Option Ordering
  order_items nil ws = elim ws [ nil ↦ some Ordering.eq | _ ↦ some Ordering.lt ]
  order_items (cons v vs) ws = elim ws [
    | nil ↦ some Ordering.gt
    | cons w rest ↦ elim (value_eq v w) [ true ↦ order_items vs rest | false ↦ order v w ]
  ]

-- `bool(v)`
abbrev pub truth : Value → Bool
truth null = false
truth (bool b) = b
truth (int n) = not (int_eq n (pos 0))
truth (str s) = not (s == "")
truth (list nil) = false
truth (list (cons _ _)) = true
truth (object end) = false
truth (object (field _ _ _)) = true

unfoldable pub any_eq : Value → Values → Bool
unfolding value_eq
any_eq v nil = false
any_eq v (cons w ws) = let rest = any_eq v ws in if value_eq w v then true else rest

-- `needle in haystack`, `none` where the haystack is no collection, or a text that is asked for
-- something that is no text
unfoldable pub within : Value → Value → Option Bool
unfolding any_eq
within needle (list vs) = some (any_eq needle vs)
within (str t) (str s) = some (is_some (find? s t))
within _ _ = none
