-- ===== src/Triggers/Signals.antt =====
-- server/bbz_core/domain/triggers/signals.py: the mappers from a provider's events to the inbound
-- signal. Whether a signal meets `inbound_signal.v1.json` is asked of a parameter, since `jsonschema`
-- is not the program's own.
use bbz_platform.Prelude.{
  lowers_to, find, ◌∷◌, [], String, Bool, false, ◌||◌, Option, none, some, List, Dict, lookup,
  Result, ok, err, ◌>>=◌, ◌>>◌, guard, if◌then◌else◌, ◌==◌,
}
use bbz_platform.RuleDsl.Value.{Value, null, str, object, Fields, end, field, lookup_field, truth}

-- `KeyError`, `AttributeError` and `InboundSignalRejected`
pub data SignalError : Type 0 where
  key_error : String → SignalError
  attribute_error : SignalError
  rejected : SignalError

-- `d.get(k)`
abbrev pub value_or_null : Option Value → Value
value_or_null none = null
value_or_null (some v) = v

abbrev pub get_field : String → Fields → Value
get_field k fs = value_or_null (lookup_field k fs)

-- `d[k]`
abbrev pub field_at : String → Fields → Result SignalError Value
field_at k fs = elim (lookup_field k fs) [ none ↦ err (key_error k) | some v ↦ ok v ]

-- `v or {}`, of which `get` is asked next
abbrev pub fields_of : Value → Result SignalError Fields
fields_of (object fs) = ok fs
fields_of v = if truth v then err attribute_error else ok end

-- `str(v)` for a look-up of words: what is no text prints as none of them
abbrev pub text_of : Value → Option String
text_of (str s) = some s
text_of _ = none

-- `_FROM_TELEPHONY`
abbrev pub telephony_types : Dict String
telephony_types =
    ("CALL_OFFERED", "CALL_RINGING")
    ∷ ("CALL_RINGING", "CALL_RINGING")
    ∷ ("CALL_ANSWERED", "CALL_ANSWERED")
    ∷ ("CALL_CONNECTED", "CALL_ANSWERED")
    ∷ ("CALL_DISCONNECTED", "CALL_ENDED")
    ∷ ("CALL_FAILED", "CALL_ENDED")
    ∷ []

abbrev pub telephony_type : Value → Option String
telephony_type (str s) = lookup s telephony_types
telephony_type _ = none

abbrev pub direction_of : Value → Value
direction_of (str s) = if s == "inbound" || s == "outbound" then str s else null
direction_of _ = null

-- `_SIGNAL_SEVERITIES`
abbrev pub severity_words : List String
severity_words = "critical" ∷ "high" ∷ "medium" ∷ "low" ∷ []

-- `severity if severity in _SIGNAL_SEVERITIES else None`
abbrev pub severity_of : Value → Value
severity_of (str s) = elim (find (λ word. lowers_to word s) severity_words) [
  | none ↦ null
  | some word ↦ str word
]
severity_of _ = null

-- `v or w`
abbrev pub or_value : Value → Value → Value
or_value v w = if truth v then v else w

abbrev pub is_panic : Value → Bool
is_panic (str s) = s == "panic_button"
is_panic _ = false

module _ (meets_schema : Fields → Bool) where
  abbrev pub validated : Fields → Result SignalError Fields
  validated signal = guard (meets_schema signal) rejected >> ok signal

  unfoldable pub from_telephony_event : Fields → Result SignalError (Option Fields)
  from_telephony_event event = elim (telephony_type (get_field "event_type" event)) [
    | none ↦ ok none
    | some signal_type ↦ do
      meta ← fields_of (get_field "metadata" event)
      provider ← field_at "provider" event
      occurred_at ← field_at "occurred_at" event
      received_at ← field_at "received_at" event
      gateway_node ← field_at "gateway_node" event
      signal ← validated (
          field "signal_type" (str signal_type) (
            field "provider" provider (
              field "occurred_at" occurred_at (
                field "received_at" received_at (
                  field "gateway_node" gateway_node (
                    field "correlation_id" (get_field "correlation_id" event) (
                      field "source"
                        (object (
                          field "ani" (get_field "calling_number" event) (
                            field "dnis" (get_field "called_number" event) (
                              field "source_call_id" (get_field "source_call_id" event) (
                                field "cti_route_point" (get_field "cti_route_point" meta) (
                                  field "technical_endpoint_id"
                                    (get_field "technical_endpoint_id" meta)
                                    (field "direction" (direction_of (get_field "direction" meta))
                                      end)))))))
                        end)))))))
      ok (some signal)
  ]

  unfoldable pub from_incoming_alarm : Fields → Result SignalError Fields
  from_incoming_alarm event = do
    provider ← field_at "provider" event
    received_at ← field_at "received_at" event
    provider_instance_id ← field_at "provider_instance_id" event
    validated (
        field "signal_type"
          (str (
            if is_panic (get_field "alarm_subtype" event)
            then "PANIC_ALARM_RAISED"
            else "TECHNICAL_ALARM_RAISED"))
          (field "provider" provider (
            field "occurred_at" (or_value (get_field "occurred_at" event) received_at) (
              field "received_at" received_at (
                field "gateway_node" provider_instance_id (
                  field "correlation_id" null (
                    field "source"
                      (object (
                        field "external_source_id" (get_field "source_external_id" event) (
                          field "site" (get_field "site_external_id" event) (
                            field "alarm_subtype" (get_field "alarm_subtype" event) (
                              field "severity" (severity_of (get_field "severity_external" event))
                                end)))))
                      end)))))))
