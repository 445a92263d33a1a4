-- ===== src/Telephony/State.antt =====
-- server/bbz_core/domain/telephony/state.py: the call states, what a normalized provider event
-- drives a call to, and the business event of a change.
use bbz_platform.Prelude.{
  String, Bool, true, false, not, ◌&&◌, ◌||◌, Option, none, some, ◌∷◌, [], Dict, lookup,
  if◌then◌else◌,
}

pub data CallDirection : Type 0 where
  inbound outbound : CallDirection

pub data CallState : Type 0 where
  offered ringing connected held transferring disconnected failed : CallState
  ended_pending_documentation : CallState

abbrev pub direction_value : CallDirection → String
direction_value inbound = "inbound"
direction_value outbound = "outbound"

abbrev pub state_value : CallState → String
state_value offered = "offered"
state_value ringing = "ringing"
state_value connected = "connected"
state_value held = "held"
state_value transferring = "transferring"
state_value disconnected = "disconnected"
state_value failed = "failed"
state_value ended_pending_documentation = "ended_pending_documentation"

abbrev pub state_eq : CallState → CallState → Bool
state_eq offered offered = true
state_eq ringing ringing = true
state_eq connected connected = true
state_eq held held = true
state_eq transferring transferring = true
state_eq disconnected disconnected = true
state_eq failed failed = true
state_eq ended_pending_documentation ended_pending_documentation = true
state_eq _ _ = false

-- membership in `TERMINAL`
abbrev pub terminal : CallState → Bool
terminal disconnected = true
terminal failed = true
terminal ended_pending_documentation = true
terminal _ = false

-- `_PROVIDER_TARGET`
abbrev pub provider_target : Dict CallState
provider_target =
    ("CALL_OFFERED", offered)
    ∷ ("CALL_RINGING", ringing)
    ∷ ("CALL_ANSWERED", connected)
    ∷ ("CALL_CONNECTED", connected)
    ∷ ("CALL_HELD", held)
    ∷ ("CALL_RESUMED", connected)
    ∷ ("CALL_TRANSFER_INITIATED", transferring)
    ∷ ("CALL_TRANSFERRED", connected)
    ∷ ("CALL_CONFERENCED", connected)
    ∷ ("CALL_DISCONNECTED", disconnected)
    ∷ ("CALL_FAILED", failed)
    ∷ []

unfoldable pub provider_target_state : String → Option CallState
provider_target_state normalized_event_type = lookup normalized_event_type provider_target

unfoldable pub business_event_for : CallState → CallState → Option String
business_event_for old new =
    if state_eq old new
    then none
    else if state_eq new ringing && state_eq old offered
    then some "CALL_RINGING"
    else if state_eq new connected && (state_eq old offered || state_eq old ringing)
    then some "CALL_ANSWERED"
    else if terminal new && not (terminal old)
    then some "CALL_ENDED"
    else none
