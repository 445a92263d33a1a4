-- ===== src/Events/Aggregate.antt =====
-- server/bbz_core/domain/events/aggregate.py. A method is an action that returns or raises; what
-- it wrote before a raise stays written, so the aggregate comes back beside the exception too.
-- A `uuid.UUID` is its number, and its `str` in a payload is the constructor `uuid`.
mod Keeps
mod Atomic
mod Wellformed
mod Journal
mod Tests
use bbz_platform.Prelude.{
  ℕ, String, Bool, true, false, not, Option, none, some, List, [], ◌∷◌, ◌++◌, strip, is_blank,
  str_len, ltb, nat_eq, is_empty, is_some, Result, ok, err, ◌==◌, if◌then◌else◌,
}
use bbz_platform.Events.State.{
  EventPriority, EventStatus, fresh, accepted, acknowledged, opened, archived, priority_value,
  status_value, priority_eq, status_eq, can_transition,
}

abbrev pub max_title : ℕ
max_title = 300

abbrev pub max_description : ℕ
max_description = 20000

-- `EventDomainError`; `invalid_transition` is its subclass `InvalidTransition`
pub data EventDomainError : Type 0 where
  empty_title title_too_long description_too_long no_change no_reason : EventDomainError
  already_assigned no_owner already_owned : EventDomainError
  invalid_transition : EventDomainError

-- one entry of the `changes` of an EVENT_UPDATED payload: a field, its old and its new value
pub record Change : Type 0 where
  pub key : String
  pub old : Option String
  pub updated : Option String

pub data PayloadValue : Type 0 where
  null : PayloadValue
  text : String → PayloadValue
  uuid : ℕ → PayloadValue
  changes : List Change → PayloadValue

pub record DomainEventData : Type 0 where
  pub type : String
  pub payload : List (String × PayloadValue)

pub record EventAggregate : Type 0 where
  pub id : ℕ
  pub title : String
  pub priority : EventPriority
  pub status : EventStatus
  pub description : Option String
  pub bbz_id : Option ℕ
  pub workplace_id : Option ℕ
  pub source : String
  pub assignee_id : Option ℕ
  pub version : ℕ
  pub pending : List DomainEventData

-- `_s`
abbrev pub id_value : Option ℕ → PayloadValue
id_value none = null
id_value (some u) = uuid u

abbrev pub text_value : Option String → PayloadValue
text_value none = null
text_value (some s) = text s

pub clean_title : String → Result EventDomainError String
clean_title title =
    let cleaned = strip title in
    if is_blank cleaned
    then err empty_title
    else if ltb max_title (str_len cleaned)
    then err title_too_long
    else ok cleaned

pub clean_description : Option String → Result EventDomainError (Option String)
clean_description none = ok none
clean_description (some description) =
    let cleaned = strip description in
    if is_blank cleaned
    then ok none
    else if ltb max_description (str_len cleaned)
    then err description_too_long
    else ok (some cleaned)

abbrev pub Action {ℓ} : Type ℓ → Type ℓ
Action A = EventAggregate → Result EventDomainError A × EventAggregate

abbrev pub pure {ℓ} : {A : Type ℓ} → A → Action A
pure x a = (ok x, a)

abbrev pub raise {ℓ} : {A : Type ℓ} → EventDomainError → Action A
raise e a = (err e, a)

abbrev pub then_run {ℓ κ} :
    {A : Type ℓ} {B : Type κ}
    → Result EventDomainError A × EventAggregate
    → (A → Action B)
    → Result EventDomainError B × EventAggregate
then_run (ok x, a) f = f x a
then_run (err e, a) f = (err e, a)

infixl 5 ◌>>=◌ ◌>>◌
abbrev pub ◌>>=◌ {ℓ κ} : {A : Type ℓ} {B : Type κ} → Action A → (A → Action B) → Action B
◌>>=◌ m f a = then_run (m a) f

abbrev pub ◌>>◌ {κ} : {B : Type κ} → Action (Unit {0}) → Action B → Action B
◌>>◌ m k a = then_run (m a) (λ _. k)

pub emit : String → List (String × PayloadValue) → Action (Unit {0})
emit type payload a =
    (ok tt, record a { pending = a.pending ++ record { type = type; payload = payload } ∷ [] })

-- `create` builds the fields in order: the title is cleaned before the description.
pub create :
    ℕ
    → String
    → EventPriority
    → Option ℕ
    → Option String
    → Option ℕ
    → Option ℕ
    → String
    → Result EventDomainError EventAggregate
unfolding clean_title clean_description emit
create event_id title priority actor_id description bbz_id workplace_id source =
    elim (clean_title title) [
      | err e ↦ err e
      | ok cleaned ↦ elim (clean_description description) [
        | err e ↦ err e
        | ok described ↦
            ok
              (emit "EVENT_CREATED"
                (("title", text cleaned)
                  ∷ ("description", text_value described)
                  ∷ ("priority", text (priority_value priority))
                  ∷ ("bbz_id", id_value bbz_id)
                  ∷ ("workplace_id", id_value workplace_id)
                  ∷ ("source", text source)
                  ∷ ("actor_id", id_value actor_id)
                  ∷ [])
                (record {
                  id = event_id;
                  title = cleaned;
                  priority = priority;
                  status = fresh;
                  description = described;
                  bbz_id = bbz_id;
                  workplace_id = workplace_id;
                  source = source;
                  assignee_id = none;
                  version = 1;
                  pending = [];
                })).1
      ]
    ]

abbrev option_eq : Option String → Option String → Bool
option_eq none none = true
option_eq (some s) (some t) = s == t
option_eq _ _ = false

-- The three `if not isinstance(…, _Unset)` blocks of `update`; `none` is `UNSET`. Each returns the
-- entries that it adds to `changes`.
edit_title : Option String → Action (List Change)
edit_title none a = pure [] a
edit_title (some title) a = elim (clean_title title) [
  | err e ↦ (err e, a)
  | ok cleaned ↦ if cleaned == a.title then (ok [], a) else (
    ok (record { key = "title"; old = some a.title; updated = some cleaned } ∷ []),
    record a { title = cleaned },
  )
]

edit_description : Option (Option String) → Action (List Change)
edit_description none a = pure [] a
edit_description (some description) a = elim (clean_description description) [
  | err e ↦ (err e, a)
  | ok cleaned ↦ if option_eq cleaned a.description then (ok [], a) else (
    ok (record { key = "description"; old = a.description; updated = cleaned } ∷ []),
    record a { description = cleaned },
  )
]

edit_priority : Option EventPriority → Action (List Change)
edit_priority none a = pure [] a
edit_priority (some p) a = if priority_eq p a.priority then (ok [], a) else (
  ok (
      record {
        key = "priority";
        old = some (priority_value a.priority);
        updated = some (priority_value p);
      }
      ∷ []),
  record a { priority = p },
)

finish_update : ℕ → List Change → Action (Unit {0})
finish_update actor_id made =
    if is_empty made
    then raise no_change
    else emit "EVENT_UPDATED" (("changes", changes made) ∷ ("actor_id", uuid actor_id) ∷ [])

apply_edits : ℕ → Option String → Option (Option String) → Option EventPriority → Action (Unit {0})
apply_edits actor_id title description priority = do
  titles ← edit_title title
  descriptions ← edit_description description
  priorities ← edit_priority priority
  finish_update actor_id (titles ++ descriptions ++ priorities)

pub update : ℕ → Option String → Option (Option String) → Option EventPriority → Action (Unit {0})
update actor_id title description priority a =
    if status_eq a.status archived
    then raise invalid_transition a
    else apply_edits actor_id title description priority a

abbrev transition_payload :
    EventStatus → EventStatus → ℕ → List (String × PayloadValue) → List (String × PayloadValue)
transition_payload source target actor_id extra =
    ("from", text (status_value source))
    ∷ ("to", text (status_value target))
    ∷ ("actor_id", uuid actor_id)
    ∷ extra

transition : EventStatus → String → ℕ → List (String × PayloadValue) → Action (Unit {0})
transition target event_type actor_id extra a =
    if can_transition a.status target
    then emit event_type (transition_payload a.status target actor_id extra)
        (record a { status = target })
    else raise invalid_transition a

accept : ℕ → Action (Unit {0})
accept actor_id = transition accepted "EVENT_ACCEPTED" actor_id []

acknowledge : ℕ → Action (Unit {0})
acknowledge actor_id = transition acknowledged "EVENT_ACKNOWLEDGED" actor_id []

open_event : ℕ → Action (Unit {0})
open_event actor_id a =
    if status_eq a.status acknowledged
    then transition opened "EVENT_OPENED" actor_id [] a
    else raise invalid_transition a

-- `(reason or "").strip() or None`, as the `extra` of the payload
abbrev cleaned_reason : Option String → List (String × PayloadValue)
cleaned_reason none = []
cleaned_reason (some reason) =
    let cleaned = strip reason in if is_blank cleaned then [] else ("reason", text cleaned) ∷ []

archive : ℕ → Option String → Action (Unit {0})
archive actor_id reason = transition archived "EVENT_ARCHIVED" actor_id (cleaned_reason reason)

reactivate : ℕ → String → Action (Unit {0})
reactivate actor_id reason a =
    if status_eq a.status archived
    then (let cleaned = strip reason in
        if is_blank cleaned
        then raise no_reason a
        else transition opened "EVENT_REACTIVATED" actor_id (("reason", text cleaned) ∷ []) a)
    else raise invalid_transition a

abbrev owner_eq : Option ℕ → ℕ → Bool
owner_eq none u = false
owner_eq (some v) u = nat_eq v u

-- the tail that `assign` and `take_over` share: the new owner, and the event
abbrev hand_over_payload : Option ℕ → ℕ → ℕ → List (String × PayloadValue)
hand_over_payload previous user_id actor_id =
    ("from_user_id", id_value previous)
    ∷ ("to_user_id", uuid user_id)
    ∷ ("actor_id", uuid actor_id)
    ∷ []

hand_over : String → ℕ → ℕ → Action (Unit {0})
hand_over event_type user_id actor_id a =
    emit event_type (hand_over_payload a.assignee_id user_id actor_id)
      (record a { assignee_id = some user_id })

assign : ℕ → ℕ → Action (Unit {0})
assign to_user_id actor_id a =
    if status_eq a.status archived
    then raise invalid_transition a
    else if owner_eq a.assignee_id to_user_id
    then raise already_assigned a
    else hand_over "EVENT_ASSIGNED" to_user_id actor_id a

take_over : ℕ → ℕ → Action (Unit {0})
take_over new_user_id actor_id a =
    if status_eq a.status archived
    then raise invalid_transition a
    else if is_some a.assignee_id
    then (if owner_eq a.assignee_id new_user_id
        then raise already_owned a
        else hand_over "EVENT_TAKEN_OVER" new_user_id actor_id a)
    else raise no_owner a

pub collect_events : EventAggregate → List DomainEventData × EventAggregate
collect_events a = (a.pending, record a { pending = [] })

-- A call of a method, with its arguments.
pub data Command : Type 0 where
  edit : ℕ → Option String → Option (Option String) → Option EventPriority → Command
  accepts acknowledges opens : ℕ → Command
  archives : ℕ → Option String → Command
  reactivates : ℕ → String → Command
  assigns takes_over : ℕ → ℕ → Command

pub run : Command → Action (Unit {0})
run (edit actor title description priority) = update actor title description priority
run (accepts actor) = accept actor
run (acknowledges actor) = acknowledge actor
run (opens actor) = open_event actor
run (archives actor reason) = archive actor reason
run (reactivates actor reason) = reactivate actor reason
run (assigns user actor) = assign user actor
run (takes_over user actor) = take_over user actor

-- A caller that goes on after an exception, with whatever the call left in the aggregate.
pub run_all : List Command → EventAggregate → EventAggregate
run_all [] a = a
run_all (c ∷ cs) a = run_all cs (run c a).1
