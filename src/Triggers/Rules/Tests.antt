-- ===== src/Triggers/Rules/Tests.antt =====
-- Signals and rules, and the theorems at them.
use bbz_platform.Prelude.{
  Bool, true, some, none, [], ◌∷◌, ◌≡◌, refl, ok, pos, length, filter, sorted,
}
use bbz_platform.RuleDsl.Value.{null, str, object, Fields, field, end}
use bbz_platform.RuleDsl.Parse.{parse}
use bbz_platform.RuleDsl.Eval.{evaluate}
use bbz_platform.Triggers.Signals.{from_telephony_event, from_incoming_alarm}
use bbz_platform.Triggers.Rules.{CandidateRule, select_matching_rules}
use bbz_platform.Triggers.Rules.Selected.{IsByKey, matches, select_matching_rules_sound}
use bbz_platform.Triggers.Rules.Gaps.{severity_gte}

abbrev meets_schema : Fields → Bool
meets_schema fs = true

abbrev times : Fields → Fields
times rest =
    field "occurred_at" (str "2026-01-05T12:00:00Z")
      (field "received_at" (str "2026-01-05T12:00:01Z") rest)

abbrev ringing : Fields
ringing = field "event_type" (str "CALL_OFFERED") (
    field "provider" (str "cisco") (
      times (field "gateway_node" (str "gw-1") (field "calling_number" (str "+492111234567") end))))

abbrev ringing_source : Fields
ringing_source = field "ani" (str "+492111234567") (
    field "dnis" null (
      field "source_call_id" null (
        field "cti_route_point" null
          (field "technical_endpoint_id" null (field "direction" null end)))))

abbrev ringing_signal : Fields
ringing_signal = field "signal_type" (str "CALL_RINGING") (
    field "provider" (str "cisco") (
      times (
        field "gateway_node" (str "gw-1")
          (field "correlation_id" null (field "source" (object ringing_source) end)))))

mapped : from_telephony_event meets_schema ringing ≡ ok (some ringing_signal)
unfolding from_telephony_event
mapped = refl

-- an alarm of high severity
abbrev alarm : Fields
alarm = field "provider" (str "coda") (
    field "received_at" (str "2026-01-05T12:00:01Z") (
      field "provider_instance_id" (str "coda-1")
        (field "alarm_subtype" (str "panic_button") (field "severity_external" (str "HIGH") end))))

abbrev alarm_signal : Fields
alarm_signal = field "signal_type" (str "PANIC_ALARM_RAISED") (
    field "provider" (str "coda") (
      field "occurred_at" (str "2026-01-05T12:00:01Z") (
        field "received_at" (str "2026-01-05T12:00:01Z") (
          field "gateway_node" (str "coda-1") (
            field "correlation_id" null (
              field "source"
                (object (
                  field "external_source_id" null (
                    field "site" null (
                      field "alarm_subtype" (str "panic_button")
                        (field "severity" (str "high") end)))))
                end))))))

alarm_mapped : from_incoming_alarm meets_schema alarm ≡ ok alarm_signal
unfolding from_incoming_alarm
alarm_mapped = refl

abbrev always : CandidateRule
always = record { rule_id = "b"; priority = pos 5; conditions = none }

abbrev on_high : CandidateRule
on_high = record { rule_id = "a"; priority = pos 5; conditions = some (severity_gte (pos 3)) }

abbrev on_critical : CandidateRule
on_critical = record { rule_id = "c"; priority = pos 1; conditions = some (severity_gte (pos 4)) }

selected :
    select_matching_rules (always ∷ on_high ∷ on_critical ∷ []) alarm_signal
    ≡ ok (on_high ∷ always ∷ [])
unfolding select_matching_rules parse evaluate sorted
selected = refl

select_matching_rules_sound_example :
    IsByKey (on_high ∷ always ∷ [])
    × ((kind : CandidateRule → Bool)
        → length (filter kind (on_high ∷ always ∷ []))
          ≡ length
              (filter kind (filter (matches alarm_signal) (always ∷ on_high ∷ on_critical ∷ []))))
select_matching_rules_sound_example =
    select_matching_rules_sound (always ∷ on_high ∷ on_critical ∷ []) (on_high ∷ always ∷ [])
      alarm_signal selected
