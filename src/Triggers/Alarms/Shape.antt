-- ===== src/Triggers/Alarms/Shape.antt =====
-- server/bbz_core/domain/triggers/alarms.py: what a normalized alarm holds.

use bbz_platform.Prelude.{
  String, Bool, true, List, [], ◌∷◌, ◌≡◌, refl, subst, inl, inr, contains, ok, Bool-cases,
  guard-eq-ok, ok_injective, >>=-eq-ok, Option,
}
use bbz_platform.RuleDsl.Value.{Value, str, Values, Fields, end, field, lookup_field}
use bbz_platform.Triggers.Signals.{get_field}
use bbz_platform.Triggers.Alarms.{
  rejected, copy_optional, is_null, copied, raw_of, cameras_of, mandatory, event_id_of, event_of,
  normalize_alarm_event,
}

-- The keys that an event may have.
abbrev pub allowed_keys : List String
allowed_keys =
    "provider" ∷ "provider_instance_id" ∷ "alarm_type" ∷ "source_external_id" ∷ "received_at"
    ∷ "raw_hash" ∷ "associated_camera_ids" ∷ "provider_alarm_id" ∷ "alarm_subtype" ∷ "source_name"
    ∷ "site_external_id" ∷ "occurred_at" ∷ "severity_external" ∷ "state_external"
    ∷ "provider_event_id" ∷ []

-- The fields that are read, but for the raw payload.
abbrev pub read_keys : List String
read_keys =
    "provider" ∷ "provider_instance_id" ∷ "alarm_type" ∷ "source_external_id" ∷ "received_at"
    ∷ "associated_camera_ids" ∷ "provider_event_id" ∷ copy_optional

abbrev pub AllKeys : (String → Bool) → Fields → Type 0
AllKeys allowed end = Unit
AllKeys allowed (field k v fs) = (allowed k ≡ true) × AllKeys allowed fs

abbrev AllTexts : (String → Bool) → List String → Type 0
AllTexts allowed [] = Unit
AllTexts allowed (k ∷ ks) = (allowed k ≡ true) × AllTexts allowed ks

copied-AllKeys :
    (allowed : String → Bool) (keys : List String) (incoming rest : Fields)
    → AllTexts allowed keys
    → AllKeys allowed rest
    → AllKeys allowed (copied keys incoming rest)
copied-AllKeys allowed [] incoming rest keys_fit fits = fits
copied-AllKeys allowed (key ∷ keys) incoming rest keys_fit fits =
    let more = copied-AllKeys allowed keys incoming rest keys_fit.1 fits in
    elim (Bool-cases (is_null (get_field key incoming))) [
      | inl missing ↦ rw missing more
      | inr there ↦ rw there (keys_fit.0, more)
    ]

-- Two alarms have the same value, or none, at each of these keys.
abbrev pub AgreeOn : List String → Fields → Fields → Type 0
AgreeOn [] a b = Unit
AgreeOn (key ∷ keys) a b = (get_field key a ≡ get_field key b) × AgreeOn keys a b

module _ (sha256 : String → String) (dumps : Value → String) (prints : Value → String)
    (sorted_values : Values → Option Values) where
  -- A normalized alarm has only the allowed keys, whatever the provider sent beside them, and meets the
  -- schema.
  pub normalize_alarm_event-AllKeys :
      (meets_schema : Fields → Bool) (incoming : Fields) {event : Fields}
      → normalize_alarm_event sha256 dumps prints sorted_values meets_schema incoming ≡ ok event
      → AllKeys (λ k. contains k allowed_keys) event × (meets_schema event ≡ true)
  unfolding event_of
  normalize_alarm_event-AllKeys meets_schema incoming {event} normal =
      let (built, made, checked) =
        >>=-eq-ok (event_of sha256 dumps prints sorted_values incoming) _ normal in
      let (cameras, _, with_cameras) =
        >>=-eq-ok
          (cameras_of sha256 dumps prints sorted_values
            (get_field "associated_camera_ids" incoming))
          _ made in
      let (valid, same) = guard-eq-ok (meets_schema built) rejected _ checked in
      let last : Fields =
        field "provider_event_id"
          (str (
            event_id_of sha256 dumps prints sorted_values (get_field "provider_event_id" incoming) (
              mandatory sha256 dumps prints sorted_values cameras incoming
                (copied copy_optional incoming end))))
          end in
      let optional =
        copied-AllKeys (λ k. contains k allowed_keys) copy_optional incoming last
          (refl, (refl, (refl, (refl, (refl, (refl, (refl, tt))))))) (refl, tt) in
      subst (λ (e : Fields). AllKeys (λ k. contains k allowed_keys) e × (meets_schema e ≡ true))
        (ok_injective same)
        (
          subst (λ (e : Fields). AllKeys (λ k. contains k allowed_keys) e)
              (ok_injective with_cameras)
              (refl, (refl, (refl, (refl, (refl, (refl, (refl, optional))))))),
          valid,
        )

  -- Two inbound alarms that agree on the fields of the allow list, and whose raw payloads have one hash,
  -- are normalized to the same event, or both refused, whatever else a provider sent in them.
  pub normalize_alarm_event-AgreeOn :
      (meets_schema : Fields → Bool) (a b : Fields)
      → AgreeOn read_keys a b
      → sha256 (dumps (raw_of sha256 dumps prints sorted_values (lookup_field "raw" a)))
        ≡ sha256 (dumps (raw_of sha256 dumps prints sorted_values (lookup_field "raw" b)))
      → normalize_alarm_event sha256 dumps prints sorted_values meets_schema a
        ≡ normalize_alarm_event sha256 dumps prints sorted_values meets_schema b
  unfolding event_of
  normalize_alarm_event-AgreeOn meets_schema a b
        (provider, (instance_id, (type, (source, (received, (cameras, (stable, optional)))))))
        hashed =
      let (alarm_id, (subtype, (name, (site, (occurred, (severity, (state, _))))))) = optional in
      rw cameras (
        rw provider (
          rw instance_id (
            rw type (
              rw source (
                rw received (
                  rw stable (
                    rw hashed (
                      rw alarm_id (
                        rw subtype (
                          rw name (
                            rw site (
                              rw occurred (
                                rw severity (
                                  rw state (
                                    refl
                                      {a = normalize_alarm_event sha256 dumps prints sorted_values
                                        meets_schema b})))))))))))))))
