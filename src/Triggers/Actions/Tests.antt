-- ===== src/Triggers/Actions/Tests.antt =====
-- server/bbz_core/domain/triggers/actions.py and rules.py: actions at the gate.
use bbz_platform.Prelude.{Bool, false, [], ◌∷◌, none, ◌≡◌, refl, ok, err, All, is_empty, strip}
use bbz_platform.RuleDsl.Value.{Value, null, str, list, object, cons, nil, Fields, field, end}
use bbz_platform.Triggers.Rules.{validate_conditions}
use bbz_platform.Triggers.Actions.{
  code_in_rule, no_template_key, not_in_outbox, action_type, outbox_action_type, validate_actions,
}
use bbz_platform.Triggers.Actions.Publishable.{IsPublishable, publish_blockers-IsPublishable}

abbrev no_uuid : Value → Bool
no_uuid v = false

abbrev with_template : Value → Value
with_template key = object (field "type" (str "attach_workflow") (field "template_key" key end))

abbrev dtmf : Fields → Value
dtmf more =
    object (field "type" (str "send_dtmf_profile") (field "dtmf_profile_id" (str "door-1") more))

code_refused :
    validate_actions no_uuid (dtmf end ∷ dtmf (field "code" (str "42#") end) ∷ [])
    ≡ (1, code_in_rule) ∷ []
unfolding validate_actions action_type strip
code_refused = refl

blank_refused : validate_actions no_uuid (with_template (str "  ") ∷ []) ≡ (0, no_template_key) ∷ []
unfolding validate_actions action_type strip
blank_refused = refl

-- `str(None)` is "None": a key that is null passes for a key.
null_passes : validate_actions no_uuid (with_template null ∷ []) ≡ []
unfolding validate_actions action_type strip
null_passes = refl

null_ref_passes :
    validate_actions no_uuid (
      object
        (field "type" (str "open_camera_group") (field "camera_refs" (list (cons null nil)) end))
      ∷ [])
    ≡ []
unfolding validate_actions action_type strip
null_ref_passes = refl

in_transaction : outbox_action_type "create_event" ≡ err (not_in_outbox "create_event")
unfolding action_type
in_transaction = refl

publish_blockers-IsPublishable_example :
    (validate_conditions none ≡ ok tt)
    × (is_empty (with_template (str "fire") ∷ dtmf end ∷ []) ≡ false)
    × All (IsPublishable no_uuid) (with_template (str "fire") ∷ dtmf end ∷ [])
unfolding validate_actions action_type strip validate_conditions
publish_blockers-IsPublishable_example =
    publish_blockers-IsPublishable no_uuid none (with_template (str "fire") ∷ dtmf end ∷ []) refl
