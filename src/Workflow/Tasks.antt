-- ===== src/Workflow/Tasks.antt =====
-- server/bbz_core/domain/workflow/tasks.py: what the runtime does at a function node. The parser that
-- `int` has for texts is a parameter.
use Prim.Native.String
use bbz_platform.Prelude.{
  ℕ, String, List, [], ◌∷◌, Option, none, some, lookup, Dict, Result, ok, err, ◌>>=◌, ℤ, pos,
  negsuc,
}
use bbz_platform.RuleDsl.Value.{Value, int, str, Fields, lookup_field, as_int}

pub data TaskKindError : Type 0 where
  not_auto : String → TaskKindError
  not_a_number : TaskKindError
  negative : TaskKindError

abbrev pub operator_kinds : List String
operator_kinds = "manual" ∷ "confirmation" ∷ "documentation" ∷ []

abbrev pub timer_kinds : List String
timer_kinds = "timer" ∷ []

abbrev pub auto_kinds : List String
auto_kinds = "integration_action" ∷ "notification" ∷ "event_update" ∷ []

-- `_OUTBOX_ACTION`
abbrev pub outbox_actions : Dict String
outbox_actions =
    ("integration_action", "integration")
    ∷ ("notification", "notify")
    ∷ ("event_update", "event_update")
    ∷ []

abbrev pub found_action : String → Option String → Result TaskKindError String
found_action kind none = err (not_auto kind)
found_action kind (some action) = ok action

unfoldable pub outbox_action : String → Result TaskKindError String
outbox_action kind = found_action kind (lookup kind outbox_actions)

abbrev pub number_or_error : Option ℤ → Result TaskKindError ℤ
number_or_error none = err not_a_number
number_or_error (some n) = ok n

abbrev pub not_negative : ℤ → Result TaskKindError ℕ
not_negative (pos n) = ok n
not_negative (negsuc n) = err negative

module _ (int_of_text : String → Option ℤ) where
  -- `int(raw)`
  abbrev pub int_of : Value → Result TaskKindError ℤ
  int_of (str s) = number_or_error (int_of_text s)
  int_of v = number_or_error (as_int v)

  -- `props.get("duration_seconds", _DEFAULT_TIMER_SECONDS)`
  abbrev pub duration_of : Option Value → Value
  duration_of none = int (pos 60)
  duration_of (some v) = v

  unfoldable pub timer_seconds : Fields → Result TaskKindError ℕ
  timer_seconds props =
      int_of (duration_of (lookup_field "duration_seconds" props)) >>= not_negative

abbrev pub step_dedupe_key : String → String → String
step_dedupe_key instance_id node_key =
    String.◌++◌ "workflow-step:"
      (String.◌++◌ instance_id (String.◌++◌ ":" (String.◌++◌ node_key ":attempt-0")))
