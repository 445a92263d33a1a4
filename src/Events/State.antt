-- ===== src/Events/State.antt =====
-- server/bbz_core/domain/events/state.py: the vocabulary of status and priority, and the table of
-- allowed transitions.
use bbz_platform.Prelude.{String, Bool, true, false, ◌||◌, List, [], ◌∷◌}

pub data EventPriority : Type 0 where
  critical high medium low : EventPriority

pub data EventStatus : Type 0 where
  fresh accepted acknowledged opened archived : EventStatus

-- the values of the two enumerations
abbrev pub priority_value : EventPriority → String
priority_value critical = "critical"
priority_value high = "high"
priority_value medium = "medium"
priority_value low = "low"

abbrev pub status_value : EventStatus → String
status_value fresh = "new"
status_value accepted = "accepted"
status_value acknowledged = "acknowledged"
status_value opened = "opened"
status_value archived = "archived"

abbrev pub priority_eq : EventPriority → EventPriority → Bool
priority_eq critical critical = true
priority_eq high high = true
priority_eq medium medium = true
priority_eq low low = true
priority_eq _ _ = false

abbrev pub status_eq : EventStatus → EventStatus → Bool
status_eq fresh fresh = true
status_eq accepted accepted = true
status_eq acknowledged acknowledged = true
status_eq opened opened = true
status_eq archived archived = true
status_eq _ _ = false

-- `ALLOWED_TRANSITIONS`
abbrev pub allowed_transitions : EventStatus → List EventStatus
allowed_transitions fresh = accepted ∷ []
allowed_transitions accepted = acknowledged ∷ []
allowed_transitions acknowledged = opened ∷ []
allowed_transitions opened = archived ∷ []
allowed_transitions archived = opened ∷ []

abbrev pub member : EventStatus → List EventStatus → Bool
member s [] = false
member s (t ∷ ts) = status_eq t s || member s ts

unfoldable pub can_transition : EventStatus → EventStatus → Bool
can_transition src dst = member dst (allowed_transitions src)
