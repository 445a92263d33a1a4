-- ===== src/Triggers/Actions.antt =====
-- server/bbz_core/domain/triggers/actions.py, and the publish gate for actions of
-- server/bbz_core/domain/triggers/rules.py. Whether `uuid.UUID(str(v))` accepts a value is asked of a
-- parameter.
pub mod Publishable
mod Tests
use bbz_platform.Prelude.{
  ℕ, suc, String, Bool, true, false, not, ◌&&◌, ◌||◌, List, [], ◌∷◌, ◌++◌, map, Option, none, some,
  ◌==◌, is_empty, is_some, is_blank, strip, lookup, Dict, Result, ok, err, ◌>>=◌, if◌then◌else◌,
}
use bbz_platform.RuleDsl.Value.{
  Value, null, str, list, object, Values, nil, cons, Fields, lookup_field, truth,
}
use bbz_platform.Triggers.Signals.{get_field, or_value}
use bbz_platform.Triggers.Rules.{RuleError, condition_error, validate_conditions}

pub data TriggerActionType : Type 0 where
  create_event attach_workflow show_client_popup notify integration_action : TriggerActionType
  open_camera open_camera_group answer_call send_dtmf_profile hangup_call : TriggerActionType
  launch_catalog_app : TriggerActionType

abbrev pub action_value : TriggerActionType → String
action_value create_event = "create_event"
action_value attach_workflow = "attach_workflow"
action_value show_client_popup = "show_client_popup"
action_value notify = "notify"
action_value integration_action = "integration_action"
action_value open_camera = "open_camera"
action_value open_camera_group = "open_camera_group"
action_value answer_call = "answer_call"
action_value send_dtmf_profile = "send_dtmf_profile"
action_value hangup_call = "hangup_call"
action_value launch_catalog_app = "launch_catalog_app"

abbrev pub action_types : List TriggerActionType
action_types =
    create_event ∷ attach_workflow ∷ show_client_popup ∷ notify ∷ integration_action ∷ open_camera
    ∷ open_camera_group ∷ answer_call ∷ send_dtmf_profile ∷ hangup_call ∷ launch_catalog_app ∷ []

abbrev pub find_action : String → List TriggerActionType → Option TriggerActionType
find_action raw [] = none
find_action raw (t ∷ ts) =
    let rest = find_action raw ts in if action_value t == raw then some t else rest

-- `TriggerActionType(raw)`
unfoldable pub action_type : String → Option TriggerActionType
action_type raw = find_action raw action_types

abbrev pub is_transactional : TriggerActionType → Bool
is_transactional create_event = true
is_transactional attach_workflow = true
is_transactional _ = false

abbrev pub is_supported : TriggerActionType → Bool
is_supported launch_catalog_app = false
is_supported _ = true

-- `UnknownActionTypeError`
pub data UnknownActionTypeError : Type 0 where
  unknown_action : String → UnknownActionTypeError
  not_in_outbox : String → UnknownActionTypeError

abbrev pub outbox_checked : String → Option TriggerActionType → Result UnknownActionTypeError String
outbox_checked raw none = err (unknown_action raw)
outbox_checked raw (some t) =
    if is_transactional t then err (not_in_outbox raw) else ok (action_value t)

abbrev pub outbox_action_type : String → Result UnknownActionTypeError String
outbox_action_type raw = outbox_checked raw (action_type raw)

pub data ActionProblem : Type 0 where
  not_an_object : ActionProblem
  unknown_type : ActionProblem
  not_available : ActionProblem
  no_template_key : ActionProblem
  no_workplace_id : ActionProblem
  invalid_priority : ActionProblem
  no_dtmf_profile : ActionProblem
  code_in_rule : ActionProblem
  no_camera_ref : ActionProblem
  no_camera_refs : ActionProblem
  no_capability : ActionProblem

abbrev pub problem_if : Bool → ActionProblem → List ActionProblem
problem_if b problem = if b then problem ∷ [] else []

-- `not str(v).strip()`: only a text prints as a blank
abbrev pub prints_blank : Value → Bool
prints_blank (str s) = is_blank (strip s)
prints_blank _ = false

abbrev pub is_blank_value : Option Value → Bool
is_blank_value none = true
is_blank_value (some v) = prints_blank v

-- `not str(d.get(k, "")).strip()`
abbrev pub blank_at : String → Fields → Bool
blank_at k fs = is_blank_value (lookup_field k fs)

-- `str(v or "")`
abbrev pub blank_or_false : Value → Bool
blank_or_false v = not (truth v) || prints_blank v

abbrev pub any_printed : Values → Bool
any_printed nil = false
any_printed (cons v vs) = not (prints_blank v) || any_printed vs

-- `isinstance(refs, list) and any(str(r).strip() for r in refs)`
abbrev pub has_list : Value → Bool
has_list (list vs) = any_printed vs
has_list _ = false

-- `EventPriority(str(v))`
abbrev pub is_priority : Value → Bool
is_priority (str s) = s == "critical" || s == "high" || s == "medium" || s == "low"
is_priority _ = false

abbrev pub bad_priority : Option Value → Bool
bad_priority none = false
bad_priority (some v) = not (is_priority v)

-- `str(raw.get("type", ""))`, for the look-up among the types
abbrev pub type_of : Fields → String
type_of fs = elim (lookup_field "type" fs) [ some (str s) ↦ s | _ ↦ "" ]

module _ (is_uuid : Value → Bool) where
  abbrev pub config_problems : TriggerActionType → Fields → List ActionProblem
  config_problems attach_workflow fs = problem_if (blank_at "template_key" fs) no_template_key
  config_problems show_client_popup fs =
      problem_if (not (is_uuid (get_field "workplace_id" fs))) no_workplace_id
  config_problems create_event fs =
      problem_if (bad_priority (lookup_field "priority" fs)) invalid_priority
  config_problems send_dtmf_profile fs =
      problem_if (blank_at "dtmf_profile_id" fs) no_dtmf_profile
      ++ problem_if (is_some (lookup_field "code" fs) || is_some (lookup_field "dtmf" fs))
          code_in_rule
  config_problems open_camera fs =
      problem_if (blank_or_false (or_value (get_field "camera_ref" fs) (get_field "camera_id" fs)))
        no_camera_ref
  config_problems open_camera_group fs =
      problem_if
        (not (has_list (get_field "camera_refs" fs))
          && blank_or_false (get_field "camera_group_ref" fs))
        no_camera_refs
  config_problems integration_action fs =
      problem_if (blank_or_false (get_field "capability" fs)) no_capability
  config_problems _ fs = []

  abbrev pub typed_problems : Option TriggerActionType → Fields → List ActionProblem
  typed_problems none fs = unknown_type ∷ []
  typed_problems (some t) fs = if is_supported t then config_problems t fs else not_available ∷ []

  abbrev pub action_problems : Value → List ActionProblem
  action_problems (object fs) = typed_problems (action_type (type_of fs)) fs
  action_problems _ = not_an_object ∷ []

  -- each problem with the index of its action
  abbrev pub numbered : ℕ → List ActionProblem → List (ℕ × ActionProblem)
  numbered index problems = map (λ problem. (index, problem)) problems

  abbrev pub problems_from : ℕ → List Value → List (ℕ × ActionProblem)
  problems_from index [] = []
  problems_from index (raw ∷ actions) =
      numbered index (action_problems raw) ++ problems_from (suc index) actions

  unfoldable pub validate_actions : List Value → List (ℕ × ActionProblem)
  validate_actions actions = problems_from 0 actions

pub data Blocker : Type 0 where
  conditions_refused : Blocker
  no_action : Blocker
  action_refused : ℕ × ActionProblem → Blocker

-- only `RuleConditionError` is caught
abbrev pub condition_blockers : Result RuleError (Unit {0}) → Result RuleError (List Blocker)
condition_blockers (ok u) = ok []
condition_blockers (err condition_error) = ok (conditions_refused ∷ [])
condition_blockers (err e) = err e

abbrev pub publish_blockers :
    (Value → Bool) → Option Fields → List Value → Result RuleError (List Blocker)
publish_blockers is_uuid conditions actions =
    condition_blockers (validate_conditions conditions) >>= λ blockers. ok (
      blockers
      ++ ((if is_empty actions then no_action ∷ [] else [])
          ++ map action_refused (validate_actions is_uuid actions)))
