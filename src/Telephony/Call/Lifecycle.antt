-- ===== src/Telephony/Call/Lifecycle.antt =====
-- The end of a call is reported once and is final; the ringing and the answer are not reported
-- once only.
use bbz_platform.Prelude.{
  ℕ, suc, ◌+◌, String, Bool, true, false, Option, none, some, List, [], ◌∷◌, ◌++◌, ◌≡◌, refl, arith,
  Option-cases, ◌==◌, if◌then◌else◌, ◌⊎◌, inl, inr,
}
use bbz_platform.Telephony.State.{
  CallDirection, CallState, connected, terminal, provider_target_state, business_event_for,
}
use bbz_platform.Telephony.Call.{
  CallAggregate, CallDomainEvent, start, apply_provider_event, apply_all, move_to, emit,
}

apply_provider_event_of_terminal :
    (c : CallAggregate) (e : String) → terminal c.state ≡ true → apply_provider_event c e ≡ c
unfolding apply_provider_event
apply_provider_event_of_terminal c e h = ground arith

-- A call that has ended takes no provider event in: nothing of it changes, whatever arrives.
pub apply_all_of_terminal :
    (c : CallAggregate) (es : List String) → terminal c.state ≡ true → apply_all c es ≡ c
unfolding apply_all
apply_all_of_terminal c [] h = refl
apply_all_of_terminal c (e ∷ es) h =
    rw (apply_provider_event_of_terminal c e h) (apply_all_of_terminal c es h)

abbrev pub count_type : String → List CallDomainEvent → ℕ
count_type t [] = 0
count_type t (e ∷ es) = let rest = count_type t es in if e.type == t then suc rest else rest

count_type-append :
    (t : String) (es : List CallDomainEvent) (e : CallDomainEvent)
    → count_type t (es ++ e ∷ []) ≡ count_type t es + (if e.type == t then 1 else 0)
count_type-append t [] e = ground arith
count_type-append t (f ∷ es) e = ground (arith, count_type-append t es e)

abbrev as_number : Bool → ℕ
as_number true = 1
as_number false = 0

-- one CALL_ENDED is queued when, and only when, the call has ended
abbrev HasCounted : CallAggregate → Type 0
HasCounted c = count_type "CALL_ENDED" c.pending ≡ as_number (terminal c.state)

count_type-emit :
    (t be : String) (extra : List (String × Option String)) (c : CallAggregate)
    → count_type t (emit be extra c).pending ≡ count_type t c.pending + (if be == t then 1 else 0)
unfolding emit
count_type-emit t be extra c = count_type-append t c.pending _

state-emit :
    (be : String) (extra : List (String × Option String)) (c : CallAggregate)
    → (emit be extra c).state ≡ c.state
unfolding emit
state-emit be extra c = refl

-- how many events of a type a change of state queues
abbrev reported : String → Option String → ℕ
reported t none = 0
reported t (some be) = if be == t then 1 else 0

count_type-move_to :
    (t : String) (target : CallState) (c : CallAggregate)
    → count_type t (move_to target c).pending
      ≡ count_type t c.pending + reported t (business_event_for c.state target)
unfolding move_to emit
count_type-move_to t target c = elim (Option-cases (business_event_for c.state target)) [
  | inl e ↦ rw (e, move_to) (omega arith)
  | inr (be, e) ↦ rw (e, move_to) (count_type-append t c.pending _)
]

state-move_to : (target : CallState) (c : CallAggregate) → (move_to target c).state ≡ target
unfolding move_to
state-move_to target c = ground arith

ended_reported :
    (old new : CallState)
    → terminal old ≡ false
    → reported "CALL_ENDED" (business_event_for old new) ≡ as_number (terminal new)
unfolding business_event_for
ended_reported old new h = ground arith

move_to-HasCounted :
    (t : CallState) (c : CallAggregate)
    → terminal c.state ≡ false
    → HasCounted c
    → HasCounted (move_to t c)
move_to-HasCounted t c live h =
    rw (count_type-move_to, state-move_to) (ground (arith, ended_reported c.state t live))

apply_provider_event-HasCounted :
    (c : CallAggregate) (e : String) → HasCounted c → HasCounted (apply_provider_event c e)
unfolding apply_provider_event
apply_provider_event-HasCounted c e h = elim (Option-cases (provider_target_state e)) [
  | inl n ↦ rw (n, apply_provider_event) h
  | inr (t, n) ↦ rw (n, apply_provider_event) (ground (arith, move_to-HasCounted t c))
]

apply_all-HasCounted :
    (c : CallAggregate) (es : List String) → HasCounted c → HasCounted (apply_all c es)
unfolding apply_all
apply_all-HasCounted c [] h = h
apply_all-HasCounted c (e ∷ es) h =
    apply_all-HasCounted (apply_provider_event c e) es (apply_provider_event-HasCounted c e h)

-- Whatever provider events follow the start of a call, in whatever order, one CALL_ENDED is queued
-- if the call has ended, and none if it has not.
pub ended_once :
    (id : String) (d : CallDirection) (source line : Option String) (es : List String)
    → let c = apply_all (start id d source line) es in
      count_type "CALL_ENDED" c.pending ≡ (if terminal c.state then 1 else 0)
unfolding start
ended_once id d source line es =
    ground (arith, apply_all-HasCounted (start id d source line) es refl)

-- an event that maps to no state, or to the present one, or comes after the end, does nothing
apply_settled :
    (c : CallAggregate) (e : String) (t : CallState)
    → provider_target_state e ≡ some t
    → (terminal c.state ≡ true) ⊎ (c.state ≡ t)
    → apply_provider_event c e ≡ c
unfolding apply_provider_event
apply_settled c e t n h = ground arith

apply_settles :
    (c : CallAggregate) (e : String) (t : CallState)
    → provider_target_state e ≡ some t
    → (terminal (apply_provider_event c e).state ≡ true) ⊎ ((apply_provider_event c e).state ≡ t)
unfolding apply_provider_event
apply_settles c e t n = rw (n, apply_provider_event) (ground (arith, state-move_to t c))

apply_ignored :
    (c : CallAggregate) (e : String) → provider_target_state e ≡ none → apply_provider_event c e ≡ c
unfolding apply_provider_event
apply_ignored c e n = ground arith

-- A provider event that is delivered twice in a row does what one delivery does.
pub apply_provider_event_idem :
    (c : CallAggregate) (e : String)
    → apply_provider_event (apply_provider_event c e) e ≡ apply_provider_event c e
apply_provider_event_idem c e = elim (Option-cases (provider_target_state e)) [
  | inl n ↦ apply_ignored (apply_provider_event c e) e n
  | inr (t, n) ↦ apply_settled (apply_provider_event c e) e t n (apply_settles c e t n)
]

-- The answer is not reported once only: a connected call that sees CALL_RINGING out of order and
-- then CALL_ANSWERED queues one more CALL_ANSWERED.
pub answered_again :
    (c : CallAggregate)
    → c.state ≡ connected
    → count_type "CALL_ANSWERED" (apply_all c ("CALL_RINGING" ∷ "CALL_ANSWERED" ∷ [])).pending
      ≡ count_type "CALL_ANSWERED" c.pending + 1
unfolding apply_all apply_provider_event provider_target_state move_to business_event_for
answered_again c h = ground (
  arith,
  count_type-emit "CALL_ANSWERED" "CALL_ANSWERED"
      (("from", some "ringing") ∷ ("to", some "connected") ∷ []) (record c { state = connected }),
)
