-- ===== src/Telephony/Call/Tests.antt =====
-- Runs of a call, and the theorems at them.
use bbz_platform.Prelude.{String, none, List, [], ◌∷◌, ◌≡◌, refl, if◌then◌else◌}
use bbz_platform.Telephony.State.{
  inbound, connected, disconnected, terminal, provider_target_state, business_event_for,
}
use bbz_platform.Telephony.Call.{
  CallAggregate, start, apply_provider_event, apply_all, move_to, emit,
}
use bbz_platform.Telephony.Call.Lifecycle.{count_type, ended_once}

abbrev talk : List String
talk =
    "CALL_RINGING" ∷ "LINE_UP" ∷ "CALL_ANSWERED" ∷ "CALL_HELD" ∷ "CALL_RESUMED"
    ∷ "CALL_DISCONNECTED" ∷ "CALL_FAILED" ∷ []

abbrev talking : CallAggregate
talking = record {
  bbz_call_id = "c1";
  direction = inbound;
  state = connected;
  source_call_id = none;
  line_id = none;
  pending = [];
}

abbrev ended : CallAggregate
ended = record talking { state = disconnected }

talk_ends :
    ((apply_all (start "c1" inbound none none) talk).state ≡ disconnected)
    × (count_type "CALL_ANSWERED" (apply_all (start "c1" inbound none none) talk).pending ≡ 1)
unfolding start apply_all apply_provider_event provider_target_state move_to business_event_for emit
talk_ends = (refl, refl)

ended_once_example :
    count_type "CALL_ENDED" (apply_all (start "c1" inbound none none) talk).pending
    ≡ (if terminal (apply_all (start "c1" inbound none none) talk).state then 1 else 0)
ended_once_example = ended_once "c1" inbound none none talk
