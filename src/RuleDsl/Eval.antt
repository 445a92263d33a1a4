-- ===== src/RuleDsl/Eval.antt =====
-- packages/rule-dsl/bbz_rule_dsl/model.py: `evaluate`. `Context.values` is a dict of values, and a
-- missing name is `None`.
use Prim.Native.Nat.{Ordering}
use bbz_platform.Prelude.{
  ℕ, suc, String, Bool, true, false, not, Option, none, some, Dict, lookup, Result, ok, err, ltb,
  if◌then◌else◌,
}
use bbz_platform.RuleDsl.Value.{Value, null, bool, object, value_eq, order, truth, within}
use bbz_platform.RuleDsl.Parse.{
  DslError, rule_error, Operator, op_eq, op_ne, op_in, op_not_in, op_lt, op_lte, op_gt, op_gte,
  op_and, op_or, op_not, op_exists, Expr, node, Args, done, arg, Operand, nested, field_ref,
  literal,
}

abbrev pub Context : Type 0
Context = Dict Value

-- `Context.get`
abbrev pub get : Context → String → Value
get ctx name = elim (lookup name ctx) [ none ↦ null | some v ↦ v ]

abbrev pub max_depth : ℕ
max_depth = 64

-- `except TypeError: raise RuleDslError`
abbrev test_order : (Ordering → Bool) → Option Ordering → Result DslError Bool
test_order test none = err rule_error
test_order test (some o) = ok (test o)

abbrev below : Ordering → Bool
below Ordering.lt = true
below _ = false

abbrev above : Ordering → Bool
above Ordering.gt = true
above _ = false

-- `_compare` for the six comparisons, and the end of the membership branch of `_eval`, on two
-- values
unfoldable pub apply_binary : Operator → Value → Value → Result DslError Bool
unfolding value_eq order within
apply_binary op_eq l r = ok (value_eq l r)
apply_binary op_ne l r = ok (not (value_eq l r))
apply_binary op_lt l r = test_order below (order l r)
apply_binary op_lte l r = test_order (λ o. not (above o)) (order l r)
apply_binary op_gt l r = test_order above (order l r)
apply_binary op_gte l r = test_order (λ o. not (below o)) (order l r)
apply_binary op_in l r = elim (within l r) [ none ↦ err rule_error | some b ↦ ok b ]
apply_binary op_not_in l r = elim (within l r) [ none ↦ err rule_error | some b ↦ ok (not b) ]
apply_binary _ l r = err rule_error

abbrev pub is_null : Value → Bool
is_null null = true
is_null _ = false

-- the branch for `exists`
unfoldable pub field_exists : Args → Context → Result DslError Bool
field_exists (arg (field_ref s) done) ctx = ok (not (is_null (get ctx s)))
field_exists _ ctx = err rule_error

abbrev pub is_done : Args → Bool
is_done done = true
is_done _ = false

-- `_eval` and the helpers that call it. `all` and `any` stop at the first item that decides, and an
-- item behind it raises nothing.
unfoldable mutual
  unfolding apply_binary field_exists

  pub eval : Expr → Context → ℕ → Result DslError Bool
  eval (node o xs) ctx depth =
      let every = all_true xs ctx depth in
      let some' = any_true xs ctx depth in
      let one = only_truth xs ctx depth in
      let two = binary o xs ctx depth in
      let body : Result DslError Bool = elim o [
        | op_and ↦ if is_done xs then err rule_error else every
        | op_or ↦ if is_done xs then err rule_error else some'
        | op_not ↦ elim one [ err e ↦ err e | ok b ↦ ok (not b) ]
        | op_exists ↦ field_exists xs ctx
        | _ ↦ two
      ] in
      if ltb max_depth depth then err rule_error else body

  pub all_true : Args → Context → ℕ → Result DslError Bool
  all_true done ctx depth = ok true
  all_true (arg a xs) ctx depth =
      let rest = all_true xs ctx depth in
      elim (truthy a ctx depth) [ err e ↦ err e | ok b ↦ if b then rest else ok false ]

  pub any_true : Args → Context → ℕ → Result DslError Bool
  any_true done ctx depth = ok false
  any_true (arg a xs) ctx depth =
      let rest = any_true xs ctx depth in
      elim (truthy a ctx depth) [ err e ↦ err e | ok b ↦ if b then ok true else rest ]

  -- `_truthy(args[0], …)` behind `_require_arity(op, args, n=1)`
  pub only_truth : Args → Context → ℕ → Result DslError Bool
  only_truth done ctx depth = err rule_error
  only_truth (arg a done) ctx depth = truthy a ctx depth
  only_truth (arg a (arg b xs)) ctx depth = err rule_error

  -- the branches for two operands, the left one evaluated first
  pub binary : Operator → Args → Context → ℕ → Result DslError Bool
  binary o done ctx depth = err rule_error
  binary o (arg a done) ctx depth = err rule_error
  binary o (arg a (arg b done)) ctx depth =
      let right = value b ctx depth in
      elim (value a ctx depth) [
        | err e ↦ err e
        | ok l ↦ elim right [ err e ↦ err e | ok r ↦ apply_binary o l r ]
      ]
  binary o (arg a (arg b (arg c xs))) ctx depth = err rule_error

  -- `_truthy`
  pub truthy : Operand → Context → ℕ → Result DslError Bool
  truthy (nested e) ctx depth = eval e ctx (suc depth)
  truthy (field_ref s) ctx depth = ok (truth (get ctx s))
  truthy (literal v) ctx depth = ok (truth v)

  -- `_value`
  pub value : Operand → Context → ℕ → Result DslError Value
  value (nested e) ctx depth = elim (eval e ctx (suc depth)) [ err e ↦ err e | ok b ↦ ok (bool b) ]
  value (field_ref s) ctx depth = ok (get ctx s)
  value (literal v) ctx depth = elim v [ object _ ↦ err rule_error | w ↦ ok w ]

unfoldable pub evaluate : Expr → Context → Result DslError Bool
unfolding eval
evaluate e ctx = eval e ctx 0
