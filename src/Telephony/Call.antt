-- ===== src/Telephony/Call.antt =====
-- server/bbz_core/domain/telephony/call.py: the call aggregate.
mod Lifecycle
mod Tests
use bbz_platform.Prelude.{
  String, Bool, true, false, Option, none, some, List, [], ◌∷◌, ◌++◌, if◌then◌else◌,
}
use bbz_platform.Telephony.State.{
  CallDirection, CallState, offered, direction_value, state_value, state_eq, terminal,
  provider_target_state, business_event_for,
}

pub record CallDomainEvent : Type 0 where
  pub type : String
  pub payload : List (String × Option String)

pub record CallAggregate : Type 0 where
  pub bbz_call_id : String
  pub direction : CallDirection
  pub state : CallState
  pub source_call_id : Option String
  pub line_id : Option String
  pub pending : List CallDomainEvent

pub start : String → CallDirection → Option String → Option String → CallAggregate
start bbz_call_id direction source_call_id line_id = record {
  bbz_call_id = bbz_call_id;
  direction = direction;
  state = offered;
  source_call_id = source_call_id;
  line_id = line_id;
  pending = [];
}

emit : String → List (String × Option String) → CallAggregate → CallAggregate
emit event_type extra c = record c {
  pending =
      c.pending
      ++ record {
        type = event_type;
        payload =
            ("bbz_call_id", some c.bbz_call_id)
            ∷ ("source_call_id", c.source_call_id)
            ∷ ("direction", some (direction_value c.direction))
            ∷ ("line_id", c.line_id)
            ∷ extra;
      }
        ∷ [];
}

-- the part of `apply_provider_event` behind its three early returns
move_to : CallState → CallAggregate → CallAggregate
unfolding emit
move_to target c =
    let moved = record c { state = target } in
    elim (business_event_for c.state target) [
      | none ↦ moved
      | some be ↦
          emit be (("from", some (state_value c.state)) ∷ ("to", some (state_value target)) ∷ [])
            moved
    ]

pub apply_provider_event : CallAggregate → String → CallAggregate
unfolding move_to
apply_provider_event c normalized_event_type = elim (provider_target_state normalized_event_type) [
  | none ↦ c
  | some target ↦
      if terminal c.state then c else if state_eq target c.state then c else move_to target c
]

pub collect_events : CallAggregate → List CallDomainEvent × CallAggregate
collect_events c = (c.pending, record c { pending = [] })

-- the provider events of a call, in the order of their arrival
pub apply_all : CallAggregate → List String → CallAggregate
apply_all c [] = c
apply_all c (e ∷ es) = apply_all (apply_provider_event c e) es
