-- ===== src/Triggers/Alarms/Tests.antt =====
-- server/bbz_core/domain/triggers/alarms.py: two alarms.
use bbz_platform.Prelude.{String, Bool, true, Option, some, Result, ok, err, pos, ◌≡◌, refl, strip}
use bbz_platform.RuleDsl.Value.{
  Value, value_eq, str, int, object, Values, cons, nil, Fields, field, end,
}
use bbz_platform.Triggers.Alarms.{
  AlarmError, type_error, event_of, cameras_of, normalize_alarm_event, derived_event_id,
  alarm_event_dedupe_key,
}
use bbz_platform.Triggers.Alarms.Shape.{normalize_alarm_event-AgreeOn}

abbrev itself : String → String
itself s = s

abbrev nothing : Value → String
nothing v = ""

abbrev as_is : Values → Option Values
as_is vs = some vs

abbrev map_ok : (Fields → String) → Result AlarmError Fields → Result AlarmError String
map_ok f (ok event) = ok (f event)
map_ok f (err e) = err e

abbrev passes : Fields → Bool
passes event = true

abbrev alarm : String → String → Fields
alarm source kind = field "provider" (str " coda ") (
    field "source_external_id" (str source)
      (field "alarm_type" (str kind) (field "vendor_blob" (str "x") end)))

-- Two different alarms without an id of their own have one derived id: the bar is not escaped.
same_id :
    derived_event_id itself nothing nothing as_is (alarm "gate|1" "intrusion")
    ≡ derived_event_id itself nothing nothing as_is (alarm "gate" "1|intrusion")
same_id = refl

key_of :
    map_ok
      (alarm_event_dedupe_key itself nothing nothing as_is)
      (event_of itself nothing nothing as_is (alarm "gate" "intrusion"))
    ≡ ok "coda:derived:gate|intrusion||"
unfolding event_of strip
key_of = refl

-- A number is no list of cameras; a text is taken for its characters.
no_list :
    event_of itself nothing nothing as_is (field "associated_camera_ids" (int (pos 3)) end)
    ≡ err type_error
unfolding event_of
no_list = refl

by_character :
    cameras_of itself nothing nothing as_is (str "ab") ≡ ok (cons (str "a") (cons (str "b") nil))
unfolding value_eq
by_character = refl

abbrev with_raw : String → Fields → Fields
with_raw vendor rest = field "raw" (object (field "vendor_blob" (str vendor) end)) rest

normalize_alarm_event-AgreeOn_example :
    normalize_alarm_event itself nothing nothing as_is passes
      (with_raw "x" (alarm "gate" "intrusion"))
    ≡ normalize_alarm_event itself nothing nothing as_is passes (alarm "gate" "intrusion")
normalize_alarm_event-AgreeOn_example =
    normalize_alarm_event-AgreeOn itself nothing nothing as_is passes
      (with_raw "x" (alarm "gate" "intrusion")) (alarm "gate" "intrusion")
      (
        refl,
        (
          refl,
          (
            refl,
            (
              refl,
              (refl, (refl, (refl, (refl, (refl, (refl, (refl, (refl, (refl, (refl, tt)))))))))),
            ),
          ),
        ),
      )
      refl
