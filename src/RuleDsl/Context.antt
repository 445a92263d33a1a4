-- ===== src/RuleDsl/Context.antt =====
-- packages/rule-dsl/bbz_rule_dsl/context.py: the typed contexts and the check at publish time.
pub mod Reads
pub mod Unchecked
use bbz_platform.Prelude.{
  ℕ, String, Bool, true, false, not, ◌&&◌, ◌||◌, Option, none, some, ◌∷◌, [], Dict, lookup, Result,
  ok, err, ◌>>=◌, ◌>>◌, guard, if◌then◌else◌,
}
use bbz_platform.RuleDsl.Value.{Value, null, bool, int, str, list, object, Values, nil, cons}
use bbz_platform.RuleDsl.Parse.{
  DslError, rule_error, unknown_field, Operator, op_eq, op_ne, op_in, op_not_in, op_lt, op_lte,
  op_gt, op_gte, op_and, op_or, op_not, op_exists, Expr, node, Args, done, arg, Operand, nested,
  field_ref, literal, parse,
}

pub data FieldType : Type 0 where
  string number boolean datetime sequence : FieldType

-- membership in `_ORDERABLE`
abbrev pub orderable : FieldType → Bool
orderable number = true
orderable datetime = true
orderable _ = false

-- `_literal_matches`
abbrev pub literal_matches : FieldType → Value → Bool
literal_matches string (str _) = true
literal_matches datetime (str _) = true
literal_matches number (int _) = true
literal_matches boolean (bool _) = true
literal_matches sequence (list _) = true
literal_matches _ _ = false

pub record ContextSchema : Type 0 where
  pub name : String
  pub fields : Dict FieldType

unfoldable pub field_type : ContextSchema → String → Result DslError FieldType
field_type schema name = elim (lookup name schema.fields) [
  | none ↦ err (unknown_field name)
  | some ft ↦ ok ft
]

-- `_operand_type`
abbrev pub operand_type : ContextSchema → Operand → Result DslError (Option FieldType)
operand_type schema (nested e) = ok (some boolean)
operand_type schema (field_ref s) = field_type schema s >>= λ ft. ok (some ft)
operand_type schema (literal v) = ok none

-- `_check_literal`
abbrev pub check_literal : Option FieldType → Operand → Result DslError (Unit {0})
check_literal none other = ok tt
check_literal (some ft) (nested e) = ok tt
check_literal (some ft) (field_ref s) = ok tt
check_literal (some ft) (literal v) = guard (literal_matches ft v) rule_error

abbrev pub check_orderable : Option FieldType → Result DslError (Unit {0})
check_orderable none = ok tt
check_orderable (some ft) = guard (orderable ft) rule_error

abbrev pub all_match : FieldType → Values → Bool
all_match ft nil = true
all_match ft (cons v vs) = literal_matches ft v && all_match ft vs

-- the right operand of `in` and `not_in`
abbrev pub check_haystack : Option FieldType → Operand → Result DslError (Unit {0})
check_haystack none (literal (list vs)) = ok tt
check_haystack none _ = err rule_error
check_haystack (some sequence) _ = ok tt
check_haystack (some _) _ = err rule_error

abbrev pub check_items : Option FieldType → Operand → Result DslError (Unit {0})
check_items (some ft) (literal (list vs)) = guard (all_match ft vs) rule_error
check_items _ _ = ok tt

-- the branches of `_check` for two operands of the types `lt` and `rt`
abbrev pub check_types :
    Operator → Option FieldType → Option FieldType → Operand → Operand → Result DslError (Unit {0})
check_types op_in lt rt left right = check_haystack rt right >> check_items lt right
check_types op_not_in lt rt left right = check_haystack rt right >> check_items lt right
check_types op_eq lt rt left right = check_literal lt right >> check_literal rt left
check_types op_ne lt rt left right = check_literal lt right >> check_literal rt left
check_types op_and lt rt left right = ok tt
check_types op_or lt rt left right = ok tt
check_types op_not lt rt left right = ok tt
check_types op_exists lt rt left right = ok tt
check_types _ lt rt left right =
    check_orderable lt >> (check_orderable rt >> (check_literal lt right >> check_literal rt left))

unfoldable pub check_pair : ContextSchema → Operator → Args → Result DslError (Unit {0})
unfolding field_type
check_pair schema o (arg left (arg right done)) = do
  lt ← operand_type schema left
  rt ← operand_type schema right
  check_types o lt rt left right
check_pair schema o _ = err rule_error

unfoldable pub check_exists : ContextSchema → Args → Result DslError (Unit {0})
unfolding field_type
check_exists schema (arg (field_ref s) done) = field_type schema s >>= λ _. ok tt
check_exists schema _ = err rule_error

-- `_check`, and its loop over the operands of `and`, `or` and `not`
unfoldable mutual
  unfolding check_pair check_exists field_type

  pub check : ContextSchema → Expr → Result DslError (Unit {0})
  check schema (node o xs) =
      let every = check_all schema xs in
      elim o [
        | op_and ↦ every
        | op_or ↦ every
        | op_not ↦ every
        | op_exists ↦ check_exists schema xs
        | other ↦ check_pair schema other xs
      ]

  pub check_all : ContextSchema → Args → Result DslError (Unit {0})
  check_all schema done = ok tt
  check_all schema (arg a xs) = check_operand schema a >> check_all schema xs

  pub check_operand : ContextSchema → Operand → Result DslError (Unit {0})
  check_operand schema (nested e) = check schema e
  check_operand schema (field_ref s) = field_type schema s >>= λ _. ok tt
  check_operand schema (literal v) = ok tt

-- `validate`, on a tree that has not been parsed
unfoldable pub validate : ContextSchema → Value → Result DslError (Unit {0})
validate schema tree = parse tree >>= check schema

abbrev pub trigger_context : ContextSchema
trigger_context = record {
  name = "trigger";
  fields =
      ("provider", string)
      ∷ ("signal_type", string)
      ∷ ("calling_number", string)
      ∷ ("called_number", string)
      ∷ ("cti_route_point", string)
      ∷ ("technical_endpoint_id", string)
      ∷ ("external_source_id", string)
      ∷ ("workplace", string)
      ∷ ("site", string)
      ∷ ("station", string)
      ∷ ("alarm_type", string)
      ∷ ("alarm_subtype", string)
      ∷ ("severity", number)
      ∷ ("call_direction", string)
      ∷ ("call_state", string)
      ∷ [];
}

abbrev pub workflow_context : ContextSchema
workflow_context = record {
  name = "workflow";
  fields =
      ("event_priority", string)
      ∷ ("event_status", string)
      ∷ ("event_source", string)
      ∷ ("event_bbz_id", string)
      ∷ ("event_workplace_id", string)
      ∷ ("branch_key", string)
      ∷ ("step_completed_count", number)
      ∷ ("operator_confirmed", boolean)
      ∷ [];
}

abbrev pub rbac_context : ContextSchema
rbac_context = record {
  name = "rbac";
  fields =
      ("now.hour", number) ∷ ("now.weekday", number) ∷ ("now.iso", string) ∷ ("scope", string) ∷ [];
}
