-- ===== src/Triggers/Alarms.antt =====
-- server/bbz_core/domain/triggers/alarms.py: the normal form of an inbound alarm. SHA-256, `json.dumps`,
-- `str` of what is no text, `sorted` (none where two values cannot be compared) and the JSON schema are
-- parameters. The fields that a derived id joins are texts, as the SDK has them.
pub mod Shape
mod Tests
use Prim.Native.Char.{Char}
use Prim.Native.String
use bbz_platform.Prelude.{
  ℕ, String, Bool, true, false, not, ◌&&◌, ◌||◌, List, [], ◌∷◌, ◌++◌, Option, none, some, ◌==◌, any,
  contains, strip, is_empty, chars, Result, ok, err, guard, ◌>>◌, ◌>>=◌, if◌then◌else◌,
}
use bbz_platform.RuleDsl.Value.{
  Value, null, str, list, object, Values, nil, cons, Fields, end, field, lookup_field, truth,
  value_eq,
}
use bbz_platform.Triggers.Signals.{get_field, or_value, value_or_null}

-- `AlarmEventRejected`, and `TypeError`
pub data AlarmError : Type 0 where
  rejected : AlarmError
  type_error : AlarmError

abbrev pub derived_id_prefix : String
derived_id_prefix = "derived:"

-- `_COPY_OPTIONAL`
abbrev pub copy_optional : List String
copy_optional =
    "provider_alarm_id" ∷ "alarm_subtype" ∷ "source_name" ∷ "site_external_id" ∷ "occurred_at"
    ∷ "severity_external" ∷ "state_external" ∷ []

abbrev pub join_bars : List String → String
join_bars [] = ""
join_bars (s ∷ []) = s
join_bars (s ∷ t ∷ ts) = String.◌++◌ s (String.◌++◌ "|" (join_bars (t ∷ ts)))

abbrev pub is_null : Value → Bool
is_null null = true
is_null _ = false

-- `if incoming.get(key) is not None: event[key] = incoming[key]`, for each key
abbrev pub copied : List String → Fields → Fields → Fields
copied [] incoming rest = rest
copied (key ∷ keys) incoming rest =
    let more = copied keys incoming rest in
    let v = get_field key incoming in if is_null v then more else field key v more

-- `set(…)`, in the order of the first occurrences
abbrev pub among : Value → Values → Bool
among v nil = false
among v (cons w ws) = value_eq v w || among v ws

abbrev pub distinct : Values → Values
distinct nil = nil
distinct (cons v vs) = let rest = distinct vs in if among v rest then rest else cons v rest

abbrev pub text_values : List Char → Values
text_values [] = nil
text_values (c ∷ cs) = cons (str (String.◌∷◌ c String.[])) (text_values cs)

abbrev pub key_values : Fields → Values
key_values end = nil
key_values (field k v fs) = cons (str k) (key_values fs)

-- what `set(v)` runs through: a list, the characters of a text, the keys of an object
abbrev pub iterated : Value → Result AlarmError Values
iterated (list vs) = ok vs
iterated (str s) = ok (text_values (chars s))
iterated (object fs) = ok (key_values fs)
iterated _ = err type_error

-- `incoming.get(key) or []`
abbrev pub values_of : Value → Result AlarmError Values
values_of v = if truth v then iterated v else ok nil

-- a list or an object has no hash
abbrev pub is_hashable : Value → Bool
is_hashable (list vs) = false
is_hashable (object fs) = false
is_hashable _ = true

abbrev pub all_hashable : Values → Bool
all_hashable nil = true
all_hashable (cons v vs) = is_hashable v && all_hashable vs

abbrev pub or_type_error : Option Values → Result AlarmError Values
or_type_error none = err type_error
or_type_error (some vs) = ok vs

module _ (sha256 : String → String) (dumps : Value → String) (prints : Value → String)
    (sorted_values : Values → Option Values) where
  -- `str(v)`
  abbrev pub text_of : Value → String
  text_of (str s) = s
  text_of v = prints v

  -- `str(incoming.get(key) or "").strip()`
  abbrev pub stripped_at : String → Fields → String
  stripped_at key incoming = strip (text_of (or_value (get_field key incoming) (str "")))

  abbrev pub canonical_hash : Value → String
  canonical_hash payload = sha256 (dumps payload)

  -- `incoming.get("raw", {})`
  abbrev pub raw_of : Option Value → Value
  raw_of none = object end
  raw_of (some v) = v

  -- `event.get(key) or ""`, of the texts that the event has
  abbrev pub part : String → Fields → String
  part key event = text_of (or_value (get_field key event) (str ""))

  abbrev pub derived_parts : Fields → List String
  derived_parts event =
      part "source_external_id" event
      ∷ part "alarm_type" event
      ∷ part "alarm_subtype" event
      ∷ part "occurred_at" event
      ∷ []

  abbrev pub derived_event_id : Fields → String
  derived_event_id event = String.◌++◌ derived_id_prefix (sha256 (join_bars (derived_parts event)))

  -- `sorted(set(incoming.get(key) or []))`
  abbrev pub cameras_of : Value → Result AlarmError Values
  cameras_of v = values_of v >>= λ vs.
      guard (all_hashable vs) type_error >> or_type_error (sorted_values (distinct vs))

  abbrev pub mandatory : Values → Fields → Fields → Fields
  mandatory cameras incoming rest = field "provider" (str (stripped_at "provider" incoming)) (
      field "provider_instance_id" (str (stripped_at "provider_instance_id" incoming)) (
        field "alarm_type" (str (stripped_at "alarm_type" incoming)) (
          field "source_external_id" (str (stripped_at "source_external_id" incoming)) (
            field "received_at" (get_field "received_at" incoming) (
              field "raw_hash" (str (canonical_hash (raw_of (lookup_field "raw" incoming))))
                (field "associated_camera_ids" (list cameras) rest))))))

  abbrev pub event_id_of : Value → Fields → String
  event_id_of stable event = if truth stable then text_of stable else derived_event_id event

  -- the event before it is validated
  abbrev pub event_with : Values → Fields → Fields
  event_with cameras incoming =
      let stable = get_field "provider_event_id" incoming in
      mandatory cameras incoming (
        copied copy_optional incoming (
          field "provider_event_id"
            (str
              (event_id_of stable (mandatory cameras incoming (copied copy_optional incoming end))))
            end))

  unfoldable pub event_of : Fields → Result AlarmError Fields
  event_of incoming = cameras_of (get_field "associated_camera_ids" incoming) >>= λ cameras.
      ok (event_with cameras incoming)

  abbrev pub normalize_alarm_event : (Fields → Bool) → Fields → Result AlarmError Fields
  normalize_alarm_event meets_schema incoming =
      event_of incoming >>= λ event. guard (meets_schema event) rejected >> ok event

  abbrev pub alarm_event_dedupe_key : Fields → String
  alarm_event_dedupe_key event =
      String.◌++◌ (part "provider" event) (String.◌++◌ ":" (part "provider_event_id" event))
