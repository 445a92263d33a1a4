-- ===== src/Triggers/Rules.antt =====
-- server/bbz_core/domain/triggers/rules.py: the publish gate for conditions, the context of a signal,
-- and the selection of the rules that match.
pub mod Selected
pub mod Gaps
mod Tests
use Prim.Native.Nat.{Ordering}
use bbz_platform.Prelude.{
  String, Bool, true, false, ◌||◌, ◌&&◌, Option, none, some, List, [], ◌∷◌, Dict, lookup, Result,
  ok, err, ◌>>=◌, ℤ, pos, compare_ℤ, int_eq, str_lt, sorted, if◌then◌else◌,
}
use bbz_platform.RuleDsl.Value.{Value, null, int, str, object, Fields, end}
use bbz_platform.RuleDsl.Parse.{DslError, rule_error, unknown_field, type_error, Expr, parse}
use bbz_platform.RuleDsl.Eval.{Context, evaluate}
use bbz_platform.RuleDsl.Context.{validate, trigger_context}
use bbz_platform.Triggers.Signals.{SignalError, get_field, fields_of}

-- `not conditions`
abbrev pub no_conditions : Option Fields → Bool
no_conditions none = true
no_conditions (some end) = true
no_conditions (some _) = false

-- `RuleConditionError`, and what no `except` catches
pub data RuleError : Type 0 where
  condition_error : RuleError
  dsl_error : DslError → RuleError
  signal_error : RuleError

abbrev pub fields_or_end : Option Fields → Fields
fields_or_end none = end
fields_or_end (some fs) = fs

abbrev pub gate : Result DslError (Unit {0}) → Result RuleError (Unit {0})
gate (ok u) = ok u
gate (err rule_error) = err condition_error
gate (err (unknown_field _)) = err condition_error
gate (err type_error) = err (dsl_error type_error)

unfoldable pub validate_conditions : Option Fields → Result RuleError (Unit {0})
unfolding validate
validate_conditions conditions =
    if no_conditions conditions
    then ok tt
    else gate (validate trigger_context (object (fields_or_end conditions)))

-- `_SEVERITY_RANK`
abbrev pub severity_rank : Dict ℤ
severity_rank = ("low", pos 1) ∷ ("medium", pos 2) ∷ ("high", pos 3) ∷ ("critical", pos 4) ∷ []

abbrev pub int_or_null : Option ℤ → Value
int_or_null none = null
int_or_null (some n) = int n

abbrev pub rank_of : Value → Value
rank_of (str s) = int_or_null (lookup s severity_rank)
rank_of _ = null

abbrev pub context_of : Fields → Fields → Context
context_of signal src =
    ("provider", get_field "provider" signal)
    ∷ ("signal_type", get_field "signal_type" signal)
    ∷ ("calling_number", get_field "ani" src)
    ∷ ("called_number", get_field "dnis" src)
    ∷ ("cti_route_point", get_field "cti_route_point" src)
    ∷ ("technical_endpoint_id", get_field "technical_endpoint_id" src)
    ∷ ("external_source_id", get_field "external_source_id" src)
    ∷ ("site", get_field "site" src)
    ∷ ("call_direction", get_field "direction" src)
    ∷ ("call_state", get_field "call_state" src)
    ∷ ("alarm_subtype", get_field "alarm_subtype" src)
    ∷ ("severity", rank_of (get_field "severity" src))
    ∷ []

abbrev pub context_of_source : Fields → Result SignalError Fields → Result RuleError Context
context_of_source signal (ok src) = ok (context_of signal src)
context_of_source signal (err _) = err signal_error

abbrev pub signal_to_context : Fields → Result RuleError Context
signal_to_context signal = context_of_source signal (fields_of (get_field "source" signal))

abbrev pub from_dsl : Result DslError Bool → Result RuleError Bool
from_dsl (ok b) = ok b
from_dsl (err e) = err (dsl_error e)

unfoldable pub evaluate_in : Expr → Result RuleError Context → Result RuleError Bool
unfolding evaluate
evaluate_in expr (ok ctx) = from_dsl (evaluate expr ctx)
evaluate_in expr (err e) = err e

-- the expression is parsed before the signal is read
unfoldable pub match_tree : Fields → Fields → Result RuleError Bool
unfolding parse evaluate_in
match_tree conditions signal = elim (parse (object conditions)) [
  | err e ↦ err (dsl_error e)
  | ok expr ↦ evaluate_in expr (signal_to_context signal)
]

unfoldable pub rule_matches : Option Fields → Fields → Result RuleError Bool
unfolding match_tree
rule_matches conditions signal =
    if no_conditions conditions then ok true else match_tree (fields_or_end conditions) signal

-- `rule_id` is the text of the id
pub record CandidateRule : Type 0 where
  pub rule_id : String
  pub priority : ℤ
  pub conditions : Option Fields

abbrev int_lt : ℤ → ℤ → Bool
int_lt a b = elim (compare_ℤ a b) [ Ordering.lt ↦ true | _ ↦ false ]

-- `<` on the keys `(r.priority, str(r.rule_id))`
abbrev pub rule_lt : CandidateRule → CandidateRule → Bool
rule_lt r s =
    int_lt r.priority s.priority || (int_eq r.priority s.priority && str_lt r.rule_id s.rule_id)

-- `[r for r in rules if rule_matches(r.conditions, signal)]`
unfoldable pub matching : List CandidateRule → Fields → Result RuleError (List CandidateRule)
unfolding rule_matches
matching [] signal = ok []
matching (r ∷ rules) signal =
    let rest = matching rules signal in
    elim (rule_matches r.conditions signal) [
      | err e ↦ err e
      | ok b ↦ if b then (rest >>= λ rs. ok (r ∷ rs)) else rest
    ]

unfoldable pub select_matching_rules :
    List CandidateRule → Fields → Result RuleError (List CandidateRule)
unfolding matching sorted
select_matching_rules rules signal = matching rules signal >>= λ rs. ok (sorted rule_lt rs)
