-- ===== src/Triggers/Actions/Publishable.antt =====
-- server/bbz_core/domain/triggers/rules.py: what a rule version that the gate lets through holds.
use bbz_platform.Prelude.{
  ℕ, suc, String, Bool, true, false, ◌||◌, List, [], ◌∷◌, ◌++◌, map, Option, none, some, ◌≡◌, ◌⊎◌,
  refl, inl, inr, is_blank, strip, is_some, is_empty, Result, ok, err, All, Bool-cases,
  Option-cases, ap, ◌∙◌, if◌then◌else◌, ok_injective, >>=-eq-ok,
}
use bbz_platform.RuleDsl.Value.{
  Value, null, bool, int, str, list, object, Values, nil, cons, Fields, lookup_field, truth,
}
use bbz_platform.Triggers.Signals.{get_field, or_value}
use bbz_platform.Triggers.Rules.{
  RuleError, condition_error, dsl_error, signal_error, validate_conditions,
}
use bbz_platform.Triggers.Actions.{
  TriggerActionType, ActionProblem, Blocker, no_dtmf_profile, no_action, create_event,
  attach_workflow, show_client_popup, notify, integration_action, open_camera, open_camera_group,
  answer_call, send_dtmf_profile, hangup_call, launch_catalog_app, action_type, type_of,
  is_supported, problem_if, prints_blank, any_printed, is_blank_value, blank_at, blank_or_false,
  has_list, is_priority, config_problems, typed_problems, action_problems, problems_from, numbered,
  validate_actions, publish_blockers, condition_blockers,
}

-- Not a blank text. What is no text passes, null too: the gate asks how it prints, and null prints as
-- None.
abbrev pub IsNotBlank : Value → Type 0
IsNotBlank (str s) = is_blank (strip s) ≡ false
IsNotBlank _ = Unit

abbrev pub HasField : String → Fields → Type 0
HasField k fs = (v : Value) × (lookup_field k fs ≡ some v) × IsNotBlank v

-- The value counts as true, which null does not, and is no blank text.
abbrev pub IsShown : Value → Type 0
IsShown v = (truth v ≡ true) × IsNotBlank v

abbrev pub HasItem : Values → Type 0
HasItem nil = ⊥
HasItem (cons v vs) = IsNotBlank v ⊎ HasItem vs

abbrev pub IsListed : Value → Type 0
IsListed v = (vs : Values) × (v ≡ list vs) × HasItem vs

prints_blank-IsNotBlank : (v : Value) → prints_blank v ≡ false → IsNotBlank v
prints_blank-IsNotBlank null shown = tt
prints_blank-IsNotBlank (bool b) shown = tt
prints_blank-IsNotBlank (int i) shown = tt
prints_blank-IsNotBlank (str s) shown = shown
prints_blank-IsNotBlank (list vs) shown = tt
prints_blank-IsNotBlank (object fs) shown = tt

any_printed-HasItem : (vs : Values) → any_printed vs ≡ true → HasItem vs
any_printed-HasItem nil shown = absurd (cc shown)
any_printed-HasItem (cons v vs) shown = elim (Bool-cases (prints_blank v)) [
  | inl blank ↦ inr (any_printed-HasItem vs (rw blank at shown))
  | inr printed ↦ inl (prints_blank-IsNotBlank v printed)
]

has_list-IsListed : (v : Value) → has_list v ≡ true → IsListed v
has_list-IsListed null shown = absurd (cc shown)
has_list-IsListed (bool b) shown = absurd (cc shown)
has_list-IsListed (int i) shown = absurd (cc shown)
has_list-IsListed (str s) shown = absurd (cc shown)
has_list-IsListed (list vs) shown = (vs, refl, any_printed-HasItem vs shown)
has_list-IsListed (object fs) shown = absurd (cc shown)

nonempty :
    (actions : List Value)
    → (if is_empty actions then no_action ∷ [] else []) ≡ []
    → is_empty actions ≡ false
nonempty [] none_there = absurd (cc none_there)
nonempty (action ∷ actions) none_there = refl

problem_if-nil : (b : Bool) (p : ActionProblem) → problem_if b p ≡ [] → b ≡ false
problem_if-nil true p empty = absurd (cc empty)
problem_if-nil false p empty = refl

append-nil_both : {A : Type 0} (xs ys : List A) → xs ++ ys ≡ [] → (xs ≡ []) × (ys ≡ [])
append-nil_both [] ys empty = (refl, empty)
append-nil_both (x ∷ xs) ys empty = absurd (cc empty)

map-nil : {A B : Type 0} (f : A → B) (xs : List A) → map f xs ≡ [] → xs ≡ []
map-nil f [] empty = refl
map-nil f (x ∷ xs) empty = absurd (cc empty)

shown_value :
    (found : Option Value)
    → is_blank_value found ≡ false
    → (v : Value) × (found ≡ some v) × IsNotBlank v
shown_value none shown = absurd (cc shown)
shown_value (some v) shown = (v, refl, prints_blank-IsNotBlank v shown)

blank_at-HasField : (k : String) (fs : Fields) → blank_at k fs ≡ false → HasField k fs
blank_at-HasField k fs shown = shown_value (lookup_field k fs) shown

blank_or_false-IsShown : (v : Value) → blank_or_false v ≡ false → IsShown v
blank_or_false-IsShown v shown = elim (Bool-cases (truth v)) [
  | inl holds ↦ (holds, prints_blank-IsNotBlank v (rw holds at shown))
  | inr fails ↦ absurd (cc (rw fails at shown))
]

is_some-none : (o : Option Value) → is_some o ≡ false → o ≡ none
is_some-none none missing = refl
is_some-none (some v) missing = absurd (cc missing)

module _ (is_uuid : Value → Bool) where
  -- What an action of this kind has to carry, and what it must not.
  abbrev pub IsConfigured : TriggerActionType → Fields → Type 0
  IsConfigured attach_workflow fs = HasField "template_key" fs
  IsConfigured show_client_popup fs = is_uuid (get_field "workplace_id" fs) ≡ true
  IsConfigured create_event fs =
      (lookup_field "priority" fs ≡ none)
      ⊎ ((v : Value) × (lookup_field "priority" fs ≡ some v) × (is_priority v ≡ true))
  IsConfigured send_dtmf_profile fs =
      HasField "dtmf_profile_id" fs
      × (lookup_field "code" fs ≡ none)
      × (lookup_field "dtmf" fs ≡ none)
  IsConfigured open_camera fs =
      IsShown (or_value (get_field "camera_ref" fs) (get_field "camera_id" fs))
  IsConfigured open_camera_group fs =
      IsListed (get_field "camera_refs" fs) ⊎ IsShown (get_field "camera_group_ref" fs)
  IsConfigured integration_action fs = IsShown (get_field "capability" fs)
  IsConfigured _ fs = Unit

  -- An object of a known kind that the engine can run, with what the kind needs.
  abbrev pub IsPublishable : Value → Type 0
  IsPublishable action =
      (fs : Fields) × (action ≡ object fs)
      × (t : TriggerActionType) × (action_type (type_of fs) ≡ some t)
      × (is_supported t ≡ true)
      × IsConfigured t fs

  config_problems-IsConfigured :
      (t : TriggerActionType) (fs : Fields) → config_problems is_uuid t fs ≡ [] → IsConfigured t fs
  config_problems-IsConfigured attach_workflow fs sound =
      blank_at-HasField "template_key" fs (problem_if-nil _ _ sound)
  config_problems-IsConfigured show_client_popup fs sound =
      elim (Bool-cases (is_uuid (get_field "workplace_id" fs))) [
        | inl known ↦ known
        | inr other ↦ absurd (cc (rw other at sound))
      ]
  config_problems-IsConfigured create_event fs sound =
      elim (Option-cases (lookup_field "priority" fs)) [
        | inl missing ↦ inl missing
        | inr (v, found) ↦ elim (Bool-cases (is_priority v)) [
          | inl known ↦ inr (v, found, known)
          | inr other ↦ absurd (cc (rw other at (rw found at sound)))
        ]
      ]
  config_problems-IsConfigured send_dtmf_profile fs sound =
      let (profile, codes) =
        append-nil_both (problem_if (blank_at "dtmf_profile_id" fs) no_dtmf_profile) _ sound in
      let absent =
        problem_if-nil (is_some (lookup_field "code" fs) || is_some (lookup_field "dtmf" fs)) _
          codes in
      elim (Bool-cases (is_some (lookup_field "code" fs))) [
        | inl there ↦ absurd (cc (rw there at absent))
        | inr missing ↦ (
          blank_at-HasField "dtmf_profile_id" fs (problem_if-nil _ _ profile),
          is_some-none (lookup_field "code" fs) missing,
          is_some-none (lookup_field "dtmf" fs) (rw missing at absent),
        )
      ]
  config_problems-IsConfigured open_camera fs sound =
      blank_or_false-IsShown _ (problem_if-nil _ _ sound)
  config_problems-IsConfigured open_camera_group fs sound =
      elim (Bool-cases (has_list (get_field "camera_refs" fs))) [
        | inl listed ↦ inl (has_list-IsListed (get_field "camera_refs" fs) listed)
        | inr other ↦ inr (blank_or_false-IsShown _ (rw other at (problem_if-nil _ _ sound)))
      ]
  config_problems-IsConfigured integration_action fs sound =
      blank_or_false-IsShown _ (problem_if-nil _ _ sound)
  config_problems-IsConfigured notify fs sound = tt
  config_problems-IsConfigured answer_call fs sound = tt
  config_problems-IsConfigured hangup_call fs sound = tt
  config_problems-IsConfigured launch_catalog_app fs sound = tt

  typed-IsPublishable :
      (found : Option TriggerActionType) (fs : Fields)
      → typed_problems is_uuid found fs ≡ []
      → (t : TriggerActionType) × (found ≡ some t) × (is_supported t ≡ true) × IsConfigured t fs
  typed-IsPublishable none fs sound = absurd (cc sound)
  typed-IsPublishable (some t) fs sound = elim (Bool-cases (is_supported t)) [
    | inl known ↦ (t, refl, known, config_problems-IsConfigured t fs (rw known at sound))
    | inr other ↦ absurd (cc (rw other at sound))
  ]

  action_problems-IsPublishable :
      (action : Value) → action_problems is_uuid action ≡ [] → IsPublishable action
  action_problems-IsPublishable (object fs) sound =
      let (t, kind, known, configured) = typed-IsPublishable (action_type (type_of fs)) fs sound in
      (fs, refl, t, kind, known, configured)
  action_problems-IsPublishable null sound = absurd (cc sound)
  action_problems-IsPublishable (bool b) sound = absurd (cc sound)
  action_problems-IsPublishable (int n) sound = absurd (cc sound)
  action_problems-IsPublishable (str s) sound = absurd (cc sound)
  action_problems-IsPublishable (list vs) sound = absurd (cc sound)

  problems_from-IsPublishable :
      (index : ℕ) (actions : List Value)
      → problems_from is_uuid index actions ≡ []
      → All IsPublishable actions
  problems_from-IsPublishable index [] sound = tt
  problems_from-IsPublishable index (action ∷ actions) sound =
      let (here, rest) =
        append-nil_both (numbered is_uuid index (action_problems is_uuid action)) _ sound in
      (
        action_problems-IsPublishable action (map-nil _ _ here),
        problems_from-IsPublishable (suc index) actions rest,
      )

  conditions_passed :
      (gate : Result RuleError (Unit {0})) → condition_blockers gate ≡ ok [] → gate ≡ ok tt
  conditions_passed (ok u) passed = refl
  conditions_passed (err condition_error) passed = absurd (cc (ok_injective passed))
  conditions_passed (err (dsl_error e)) passed = absurd (cc passed)
  conditions_passed (err signal_error) passed = absurd (cc passed)

  -- A rule version without a blocker has conditions that pass the gate, and at least one action, each an
  -- object of a known kind that the engine can run. An action that attaches a workflow has a template key,
  -- and one that sends a DTMF profile a profile id and no code, where the key and the id are no blank
  -- texts, but may be null; a popup has a workplace id that is a UUID; the priority of a new event is left
  -- out or one of the four; a camera, or the capability of an integration, is a value that counts as true
  -- and no blank text; and a camera group is such a value, or a list with an item that is no blank text,
  -- but may be null.
  pub publish_blockers-IsPublishable :
      (conditions : Option Fields) (actions : List Value)
      → publish_blockers is_uuid conditions actions ≡ ok []
      → (validate_conditions conditions ≡ ok tt)
        × (is_empty actions ≡ false)
        × All IsPublishable actions
  unfolding validate_actions
  publish_blockers-IsPublishable conditions actions sound =
      let (blockers, gated, rest) =
        >>=-eq-ok (condition_blockers (validate_conditions conditions)) _ sound in
      let (no_condition, others) = append-nil_both blockers _ (ok_injective rest) in
      let (some_action, problems) =
        append-nil_both (if is_empty actions then no_action ∷ [] else []) _ others in
      (
        conditions_passed (validate_conditions conditions)
            (gated ∙ ap (λ (bs : List Blocker). ok bs) no_condition),
        nonempty actions some_action,
        problems_from-IsPublishable 0 actions (map-nil _ _ problems),
      )
