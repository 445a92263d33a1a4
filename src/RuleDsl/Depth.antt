-- ===== src/RuleDsl/Depth.antt =====
-- The bound on the nesting of an expression.
use bbz_platform.Prelude.{
  ℕ, zero, suc, ◌+◌, String, Bool, not, ◌≡◌, ok, err, arith, leb, if◌then◌else◌,
}
use bbz_platform.RuleDsl.Parse.{
  Expr, node, op_not, op_exists, arg, done, nested, field_ref, rule_error,
}
use bbz_platform.RuleDsl.Eval.{Context, get, is_null, evaluate, eval, max_depth}

-- `n` times `not`, round the test of a field
pub nots : ℕ → String → Expr
nots zero s = node op_exists (arg (field_ref s) done)
nots (suc n) s = node op_not (arg (nested (nots n s)) done)

-- the Boolean after `n` negations
pub flips : ℕ → Bool → Bool
flips zero b = b
flips (suc n) b = not (flips n b)

eval-nots :
    (n depth : ℕ) (s : String) (ctx : Context)
    → eval (nots n s) ctx depth ≡ (
        if leb (n + depth) max_depth
        then ok (flips n (not (is_null (get ctx s))))
        else err rule_error)
unfolding eval nots flips
eval-nots zero depth s ctx = ground arith
eval-nots (suc n) depth s ctx = ground (arith, eval-nots n (suc depth) s ctx)

-- An expression that nests 64 negations or fewer round a test has its value; with 65 or more the
-- evaluation raises.
pub evaluate-nots :
    (n : ℕ) (s : String) (ctx : Context)
    → evaluate (nots n s) ctx
      ≡ (if leb n 64 then ok (flips n (not (is_null (get ctx s)))) else err rule_error)
unfolding evaluate
evaluate-nots n s ctx = ground (arith, eval-nots n 0 s ctx)
