-- ===== src/RuleDsl/Parse.antt =====
-- packages/rule-dsl/bbz_rule_dsl/model.py: the expressions, and `parse`. An operand is classified
-- when it is parsed: a nested expression, a field reference, or a literal.
use bbz_platform.Prelude.{
  String, none, some, ◌==◌, ◌∷◌, [], Dict, lookup, Result, ok, err, if◌then◌else◌, is_some,
}
use bbz_platform.RuleDsl.Value.{
  Value, null, bool, int, str, list, object, Values, nil, cons, Fields, end, field, lookup_field,
}

-- `rule_error` is `RuleDslError`, `unknown_field` its subclass; `type_error` is a `TypeError` of
-- Python's own that no `except` of the DSL catches.
pub data DslError : Type 0 where
  rule_error : DslError
  unknown_field : String → DslError
  type_error : DslError

-- `ALLOWED_OPERATORS`
pub data Operator : Type 0 where
  op_eq op_ne op_in op_not_in op_lt op_lte op_gt op_gte op_and op_or op_not op_exists : Operator

abbrev pub allowed_operators : Dict Operator
allowed_operators =
    ("eq", op_eq)
    ∷ ("ne", op_ne)
    ∷ ("in", op_in)
    ∷ ("not_in", op_not_in)
    ∷ ("lt", op_lt)
    ∷ ("lte", op_lte)
    ∷ ("gt", op_gt)
    ∷ ("gte", op_gte)
    ∷ ("and", op_and)
    ∷ ("or", op_or)
    ∷ ("not", op_not)
    ∷ ("exists", op_exists)
    ∷ []

mutual
  pub data Expr : Type 0 where
    node : Operator → Args → Expr

  pub data Args : Type 0 where
    done : Args
    arg : Operand → Args → Args

  pub data Operand : Type 0 where
    nested : Expr → Operand
    field_ref : String → Operand
    literal : Value → Operand

-- `op = tree["op"]`, held against the allowlist. A list or an object is not hashable, and `in` on
-- the frozen set raises a `TypeError`.
unfoldable pub operator_of : Fields → Result DslError Operator
operator_of fs = elim (lookup_field "op" fs) [
  | none ↦ err rule_error
  | some (str s) ↦ elim (lookup s allowed_operators) [ none ↦ err rule_error | some o ↦ ok o ]
  | some (list _) ↦ err type_error
  | some (object _) ↦ err type_error
  | some _ ↦ err rule_error
]

-- how `parse` reads one argument: `isinstance(arg, dict)` with an "op", with a "field", or else
pub data Shape : Type 0 where
  expression reference other : Shape

abbrev pub shape : Value → Shape
shape (object fs) =
    if is_some (lookup_field "op" fs)
    then expression
    else if is_some (lookup_field "field" fs)
    then reference
    else other
shape _ = other

-- the name of a field reference must be a text that is not empty
unfoldable pub reference_of : Value → Result DslError Operand
reference_of (object fs) = elim (lookup_field "field" fs) [
  | some (str s) ↦ if s == "" then err rule_error else ok (field_ref s)
  | _ ↦ err rule_error
]
reference_of _ = err rule_error

unfoldable mutual
  unfolding operator_of reference_of

  pub parse : Value → Result DslError Expr
  parse null = err rule_error
  parse (bool b) = err rule_error
  parse (int n) = err rule_error
  parse (str s) = err rule_error
  parse (list vs) = err rule_error
  parse (object fs) =
      let args = parse_args_of fs in
      elim (operator_of fs) [
        | err e ↦ err e
        | ok o ↦ elim args [ err e ↦ err e | ok xs ↦ ok (node o xs) ]
      ]

  -- `tree.get("args", [])`, which must be a list
  pub parse_args_of : Fields → Result DslError Args
  parse_args_of end = ok done
  parse_args_of (field k v fs) =
      let here = parse_args v in let rest = parse_args_of fs in if k == "args" then here else rest

  pub parse_args : Value → Result DslError Args
  parse_args null = err rule_error
  parse_args (bool b) = err rule_error
  parse_args (int n) = err rule_error
  parse_args (str s) = err rule_error
  parse_args (list vs) = parse_items vs
  parse_args (object fs) = err rule_error

  pub parse_items : Values → Result DslError Args
  parse_items nil = ok done
  parse_items (cons v vs) =
      let inner = parse v in
      let rest = parse_items vs in
      let first : Result DslError Operand = elim (shape v) [
        | expression ↦ elim inner [ err e ↦ err e | ok x ↦ ok (nested x) ]
        | reference ↦ reference_of v
        | other ↦ ok (literal v)
      ] in
      elim first [ err e ↦ err e | ok a ↦ elim rest [ err e ↦ err e | ok as' ↦ ok (arg a as') ] ]
