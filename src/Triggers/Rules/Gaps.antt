-- ===== src/Triggers/Rules/Gaps.antt =====
-- Rules that the publish gate lets through and that no signal of a kind can meet.
use bbz_platform.Prelude.{
  String, Bool, true, Option, some, List, ◌∷◌, Result, ok, err, >>=-eq-ok, ok_injective,
  guard-eq-ok, is_ok, Result-cases, Option-cases, inl, inr, ◌≡◌, refl, sym, ap, subst, ◌∙◌, ℤ,
  arith,
}
use bbz_platform.RuleDsl.Value.{null, int, str, list, object, cons, nil, Fields, end, field}
use bbz_platform.RuleDsl.Parse.{
  rule_error, parse, Expr, node, op_gte, arg, done, field_ref, literal,
}
use bbz_platform.RuleDsl.Eval.{Context, get}
use bbz_platform.RuleDsl.Context.{check, field_type, trigger_context}
use bbz_platform.Triggers.Signals.{
  SignalError, get_field, field_at, fields_of, telephony_type, from_telephony_event, validated,
}
use bbz_platform.Triggers.Rules.{
  RuleError, CandidateRule, dsl_error, context_of_source, evaluate_in, validate_conditions,
  context_of, signal_to_context, rule_matches, select_matching_rules,
}

-- `severity >= n`
abbrev pub severity_gte : ℤ → Fields
severity_gte n = field "op" (str "gte") (
    field "args" (list (cons (object (field "field" (str "severity") end)) (cons (int n) nil))) end)

gate_lets_through : (n : ℤ) → validate_conditions (some (severity_gte n)) ≡ ok tt
unfolding validate_conditions parse check
gate_lets_through n = refl

abbrev severity_expr : ℤ → Expr
severity_expr n = node op_gte (arg (field_ref "severity") (arg (literal (int n)) done))

-- `rule_matches` behind the parsing
abbrev answer_of : ℤ → Fields → Result SignalError Fields → Result RuleError Bool
answer_of n signal r = evaluate_in (severity_expr n) (context_of_source signal r)

matches_by_answer :
    (n : ℤ) (signal : Fields)
    → rule_matches (some (severity_gte n)) signal
      ≡ answer_of n signal (fields_of (get_field "source" signal))
unfolding rule_matches parse
matches_by_answer n signal = refl

unranked_answer :
    (n : ℤ) (signal src : Fields)
    → get_field "severity" src ≡ null
    → answer_of n signal (ok src) ≡ err (dsl_error rule_error)
unfolding evaluate_in
unranked_answer n signal src h = rw h refl

raises_without_severity :
    (n : ℤ) (signal src : Fields)
    → fields_of (get_field "source" signal) ≡ ok src
    → get_field "severity" src ≡ null
    → rule_matches (some (severity_gte n)) signal ≡ err (dsl_error rule_error)
raises_without_severity n signal src source_is none_there =
    matches_by_answer n signal
    ∙ (ap (answer_of n signal) source_is ∙ unranked_answer n signal src none_there)

some_injective : {a b : Fields} → ◌≡◌ {A = Option Fields} (some a) (some b) → a ≡ b
some_injective p = cc

-- the signal of a call has no severity
abbrev IsUnranked : Fields → Type 0
IsUnranked signal =
    (src : Fields) × (fields_of (get_field "source" signal) ≡ ok src)
    × (get_field "severity" src ≡ null)

unranked :
    (meets_schema : Fields → Bool) (event signal : Fields)
    → from_telephony_event meets_schema event ≡ ok (some signal)
    → IsUnranked signal
unfolding from_telephony_event
unranked meets_schema event signal h =
    elim (Option-cases (telephony_type (get_field "event_type" event))) [
      | inl e ↦ absurd (cc (rw (e, from_telephony_event) at h))
      | inr (signal_type, e) ↦
          let (meta, p0, h0) =
            >>=-eq-ok (fields_of (get_field "metadata" event)) _
              (rw (e, from_telephony_event) at h) in
          let (provider, p1, h1) = >>=-eq-ok (field_at "provider" event) _ h0 in
          let (occurred_at, p2, h2) = >>=-eq-ok (field_at "occurred_at" event) _ h1 in
          let (received_at, p3, h3) = >>=-eq-ok (field_at "received_at" event) _ h2 in
          let (gateway_node, p4, h4) = >>=-eq-ok (field_at "gateway_node" event) _ h3 in
          let (built, p5, h5) = >>=-eq-ok (validated meets_schema _) _ h4 in
          let (met, p6) = guard-eq-ok (meets_schema _) _ _ p5 in
          subst IsUnranked (ok_injective p6 ∙ some_injective (ok_injective h5)) (_, refl, refl)
    ]

selection_raises :
    (r : CandidateRule) (rules : List CandidateRule) (signal : Fields) (e : RuleError)
    → rule_matches r.conditions signal ≡ err e
    → select_matching_rules (r ∷ rules) signal ≡ err e
unfolding select_matching_rules
selection_raises r rules signal e h = ground (arith, h)

-- A rule on a threshold of the severity passes the publish gate, and a selection that holds it
-- raises on every signal that a telephony event is mapped to.
pub severity_rule_raises :
    (meets_schema : Fields → Bool) (event signal : Fields) (n priority : ℤ) (id : String)
    (rules : List CandidateRule)
    → from_telephony_event meets_schema event ≡ ok (some signal)
    → (validate_conditions (some (severity_gte n)) ≡ ok tt)
      × (select_matching_rules
            (record { rule_id = id; priority = priority; conditions = some (severity_gte n) }
              ∷ rules)
            signal
          ≡ err (dsl_error rule_error))
unfolding select_matching_rules
severity_rule_raises meets_schema event signal n priority id rules h =
    let (src, source_is, none_there) = unranked meets_schema event signal h in
    (
      gate_lets_through n,
      selection_raises
          (record { rule_id = id; priority = priority; conditions = some (severity_gte n) }) rules
          signal (dsl_error rule_error) (raises_without_severity n signal src source_is none_there),
    )

-- The context of a signal has nothing for the alarm type, the station and the workplace, which the
-- schema of the triggers has as fields.
pub signal_to_context_unset :
    (signal : Fields) (ctx : Context)
    → signal_to_context signal ≡ ok ctx
    → (get ctx "alarm_type" ≡ null)
      × (get ctx "station" ≡ null)
      × (get ctx "workplace" ≡ null)
      × (is_ok (field_type trigger_context "alarm_type") ≡ true)
      × (is_ok (field_type trigger_context "station") ≡ true)
      × (is_ok (field_type trigger_context "workplace") ≡ true)
unfolding field_type
signal_to_context_unset signal ctx h = elim (Result-cases (fields_of (get_field "source" signal))) [
  | inr (e, raised) ↦ absurd (cc (rw raised at h))
  | inl (src, source_is) ↦
      let built : context_of signal src ≡ ctx =
        ok_injective (ap (context_of_source signal) (sym source_is) ∙ h) in
      (
        subst (λ (c : Context). get c "alarm_type" ≡ null) built refl,
        subst (λ (c : Context). get c "station" ≡ null) built refl,
        subst (λ (c : Context). get c "workplace" ≡ null) built refl,
        refl,
        refl,
        refl,
      )
]
