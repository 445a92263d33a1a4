-- ===== src/Events/Aggregate/Journal.antt =====
-- The queue of domain events as a journal: replaying it gives the status and the owner.
use bbz_platform.Prelude.{
  ℕ, String, Option, none, some, List, [], ◌∷◌, ◌++◌, ◌≡◌, refl, inl, inr, arith, strip, Bool-cases,
  ◌==◌, if◌then◌else◌, lookup,
}
use bbz_platform.Events.State.{
  EventPriority, EventStatus, accepted, acknowledged, opened, archived, can_transition,
}
use bbz_platform.Events.Aggregate.{
  EventAggregate, DomainEventData, PayloadValue, uuid, Change, Command, edit, run, update, emit,
  edit_title, edit_description, edit_priority, finish_update, apply_edits, collect_events, run_all,
  transition, hand_over, accept, acknowledge, open_event, archive, reactivate, assign, take_over,
  cleaned_reason, transition_payload, hand_over_payload, accepts, acknowledges, opens, archives,
  reactivates, assigns, takes_over, text,
}
use bbz_platform.Events.Aggregate.Keeps.{then_run-keeps}

-- What a reader of the journal keeps of an event: its status and its owner.
pub record View : Type 0 where
  pub status : EventStatus
  pub assignee_id : Option ℕ

abbrev pub view : EventAggregate → View
view a = record { status = a.status; assignee_id = a.assignee_id }

-- the owner that an EVENT_ASSIGNED or EVENT_TAKEN_OVER names
abbrev pub new_owner : Option PayloadValue → Option ℕ
new_owner (some (uuid u)) = some u
new_owner _ = none

-- how a reader takes one domain event in, by its type
abbrev pub take_in : View → DomainEventData → View
take_in v e =
    if e.type == "EVENT_ACCEPTED"
    then record v { status = accepted }
    else if e.type == "EVENT_ACKNOWLEDGED"
    then record v { status = acknowledged }
    else if e.type == "EVENT_OPENED"
    then record v { status = opened }
    else if e.type == "EVENT_REACTIVATED"
    then record v { status = opened }
    else if e.type == "EVENT_ARCHIVED"
    then record v { status = archived }
    else if e.type == "EVENT_ASSIGNED"
    then record v { assignee_id = new_owner (lookup "to_user_id" e.payload) }
    else if e.type == "EVENT_TAKEN_OVER"
    then record v { assignee_id = new_owner (lookup "to_user_id" e.payload) }
    else v

pub replay : View → List DomainEventData → View
replay v [] = v
replay v (e ∷ es) = replay (take_in v e) es

replay-append :
    (v : View) (es fs : List DomainEventData) → replay v (es ++ fs) ≡ replay (replay v es) fs
unfolding replay
replay-append v [] fs = refl
replay-append v (e ∷ es) fs = replay-append (take_in v e) es fs

-- `v` is the view of the aggregate before the first event of its queue
abbrev Follows : View → EventAggregate → Type 0
Follows v a = replay v a.pending ≡ view a

emit-Follows :
    (type : String) (payload : List (String × PayloadValue)) (v : View) (a b : EventAggregate)
    → b.pending ≡ a.pending
    → take_in (view a) (record { type = type; payload = payload }) ≡ view b
    → Follows v a
    → Follows v (emit type payload b).1
unfolding emit replay
emit-Follows type payload v a b same step h = rw (same, replay-append) (rw h step)

transition-Follows :
    (target : EventStatus) (type : String) (u : ℕ) (extra : List (String × PayloadValue)) (v : View)
    (a : EventAggregate)
    → ((payload : List (String × PayloadValue))
        → take_in (view a) (record { type = type; payload = payload })
          ≡ record { status = target; assignee_id = a.assignee_id })
    → Follows v a
    → Follows v (transition target type u extra a).1
unfolding transition
transition-Follows target type u extra v a step h =
    elim (Bool-cases (can_transition a.status target)) [
      | inl e ↦ rw e (
          emit-Follows type (transition_payload a.status target u extra) v a
            (record a { status = target }) refl (step (transition_payload a.status target u extra))
            h)
      | inr e ↦ rw e h
    ]

hand_over-Follows :
    (type : String) (to u : ℕ) (v : View) (a : EventAggregate)
    → ((payload : List (String × PayloadValue))
        → take_in (view a) (record { type = type; payload = payload })
          ≡ record { status = a.status; assignee_id = new_owner (lookup "to_user_id" payload) })
    → Follows v a
    → Follows v (hand_over type to u a).1
unfolding hand_over
hand_over-Follows type to u v a step h =
    emit-Follows type (hand_over_payload a.assignee_id to u) v a
      (record a { assignee_id = some to }) refl (step (hand_over_payload a.assignee_id to u)) h

edit_title-Follows :
    (t : Option String) (v : View) (a : EventAggregate) → Follows v a → Follows v (edit_title t a).1
unfolding edit_title
edit_title-Follows t v a h = ground arith

edit_description-Follows :
    (d : Option (Option String)) (v : View) (a : EventAggregate)
    → Follows v a
    → Follows v (edit_description d a).1
unfolding edit_description
edit_description-Follows d v a h = ground arith

edit_priority-Follows :
    (p : Option EventPriority) (v : View) (a : EventAggregate)
    → Follows v a
    → Follows v (edit_priority p a).1
unfolding edit_priority
edit_priority-Follows p v a h = ground arith

finish_update-Follows :
    (u : ℕ) (made : List Change) (v : View) (a : EventAggregate)
    → Follows v a
    → Follows v (finish_update u made a).1
unfolding finish_update
finish_update-Follows u [] v a h = h
finish_update-Follows u (c ∷ cs) v a h = emit-Follows "EVENT_UPDATED" _ v a a refl refl h

edits-Follows :
    (u : ℕ) (t : Option String) (d : Option (Option String)) (p : Option EventPriority) (v : View)
    (a : EventAggregate)
    → Follows v a
    → Follows v (apply_edits u t d p a).1
unfolding apply_edits
edits-Follows u t d p v a h =
    then_run-keeps (Follows v) (edit_title t a) _ (edit_title-Follows t v a h) λ ts b i.
      then_run-keeps (Follows v) (edit_description d b) _ (edit_description-Follows d v b i)
        λ ds c j.
          then_run-keeps (Follows v) (edit_priority p c) _ (edit_priority-Follows p v c j)
            λ ps e k. finish_update-Follows u (ts ++ ds ++ ps) v e k

run-Follows : (c : Command) (v : View) (a : EventAggregate) → Follows v a → Follows v (run c a).1
unfolding run update accept acknowledge open_event archive reactivate assign take_over
run-Follows (edit u t d p) v a h = ground (arith, edits-Follows u t d p v a h)
run-Follows (accepts u) v a h = transition-Follows accepted "EVENT_ACCEPTED" u [] v a (λ _. refl) h
run-Follows (acknowledges u) v a h =
    transition-Follows acknowledged "EVENT_ACKNOWLEDGED" u [] v a (λ _. refl) h
run-Follows (opens u) v a h =
    ground (arith, transition-Follows opened "EVENT_OPENED" u [] v a (λ _. refl) h)
run-Follows (archives u r) v a h =
    transition-Follows archived "EVENT_ARCHIVED" u (cleaned_reason r) v a (λ _. refl) h
run-Follows (reactivates u r) v a h = ground (
  arith,
  transition-Follows opened "EVENT_REACTIVATED" u (("reason", text (strip r)) ∷ []) v a (λ _. refl)
      h,
)
run-Follows (assigns to u) v a h =
    ground (arith, hand_over-Follows "EVENT_ASSIGNED" to u v a (λ _. refl) h)
run-Follows (takes_over to u) v a h =
    ground (arith, hand_over-Follows "EVENT_TAKEN_OVER" to u v a (λ _. refl) h)

run_all-Follows :
    (cs : List Command) (v : View) (a : EventAggregate) → Follows v a → Follows v (run_all cs a)
unfolding run_all
run_all-Follows [] v a h = h
run_all-Follows (c ∷ cs) v a h = run_all-Follows cs v (run c a).1 (run-Follows c v a h)

-- After a collect and any calls, whichever of them raise, replaying the events that the next
-- collect returns, from the status and owner at the first collect, gives the present status and
-- owner.
pub replay-collect_events :
    (cs : List Command) (a : EventAggregate)
    → let b = run_all cs (collect_events a).1 in
      replay (view a) (collect_events b).0 ≡ view (collect_events b).1
unfolding collect_events replay
replay-collect_events cs a = run_all-Follows cs (view a) (record a { pending = [] }) refl
