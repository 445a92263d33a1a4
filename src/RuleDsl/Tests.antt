-- ===== src/RuleDsl/Tests.antt =====
-- Rules as the program stores them, and the theorems at them.
use bbz_platform.Prelude.{
  true, [], ◌∷◌, ◌≡◌, refl, ok, arith, pos, lookup, eq_iff, Bool-cases, ◌==◌, inl, inr, is_ok,
}
use bbz_platform.RuleDsl.Value.{Value, int, str, list, object, nil, cons, end, field}
use bbz_platform.RuleDsl.Parse.{
  Expr, node, op_and, op_gte, op_eq, arg, done, nested, field_ref, literal, parse,
}
use bbz_platform.RuleDsl.Eval.{Context, get, evaluate}
use bbz_platform.RuleDsl.Context.{rbac_context, check, field_type}
use bbz_platform.RuleDsl.Context.Reads.{IsFlat, Agree, evaluate-Agree}
use bbz_platform.RuleDsl.Guarantee.{IsSimple, HasTypes, evaluate_returns}

-- the hour is 22 or later, in the scope of a BBZ
abbrev late : Expr
late = node op_and (
    arg (nested (node op_gte (arg (field_ref "now.hour") (arg (literal (int (pos 22))) done))))
      (arg (nested (node op_eq (arg (field_ref "scope") (arg (literal (str "bbz")) done)))) done))

abbrev late_tree : Value
late_tree = object (
    field "op" (str "and") (
      field "args"
        (list (
          cons
            (object (
              field "op" (str "gte") (
                field "args"
                  (list
                    (cons (object (field "field" (str "now.hour") end)) (cons (int (pos 22)) nil)))
                  end)))
            (cons
              (object (
                field "op" (str "eq") (
                  field "args"
                    (list (cons (object (field "field" (str "scope") end)) (cons (str "bbz") nil)))
                    end)))
              nil)))
        end))

abbrev night : Context
night =
    ("now.hour", int (pos 23))
    ∷ ("now.weekday", int (pos 2))
    ∷ ("now.iso", str "2026-01-01T23:00:00")
    ∷ ("scope", str "bbz")
    ∷ []

late_parses : parse late_tree ≡ ok late
unfolding parse
late_parses = refl

late_holds : evaluate late night ≡ ok true
unfolding evaluate
late_holds = refl

late_checked : check rbac_context late ≡ ok tt
unfolding check
late_checked = refl

IsFlat-late : IsFlat late
unfolding IsFlat
IsFlat-late = ((tt, (tt, tt)), ((tt, (tt, tt)), tt))

-- another context with the fields of the RBAC schema, and one field more
abbrev night_with_more : Context
night_with_more = ("password", str "x") ∷ night

night-Agree : Agree rbac_context night night_with_more
unfolding field_type
night-Agree s h = elim (Bool-cases ("password" == s)) [
  | inl e ↦ let q = (eq_iff "password" s).0 e in absurd (cc (rw (← q) at h))
  | inr e ↦ rw (e, get, lookup) refl
]

evaluate-Agree_example : evaluate late night ≡ evaluate late night_with_more
evaluate-Agree_example =
    evaluate-Agree rbac_context late night night_with_more IsFlat-late late_checked night-Agree

night-HasTypes : HasTypes rbac_context night
unfolding field_type
night-HasTypes s ft h = ground arith

IsSimple-late : IsSimple late 64
unfolding IsSimple
IsSimple-late = ((tt, (tt, tt)), tt)

evaluate_returns_example : is_ok (evaluate late night) ≡ true
evaluate_returns_example =
    evaluate_returns rbac_context late night night-HasTypes IsSimple-late late_checked
