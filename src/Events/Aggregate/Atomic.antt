-- ===== src/Events/Aggregate/Atomic.antt =====
-- A raise leaves the aggregate alone (all methods but `update`), and what each call does to the
-- status: a table, and the agreement of the methods with it.
use bbz_platform.Prelude.{
  ℕ, String, false, Option, none, some, ◌≡◌, ◌≢◌, ◌↔◌, refl, ok, err, arith, strip, is_blank,
  eq_iff, if◌then◌else◌,
}
use bbz_platform.Events.State.{
  EventStatus, EventPriority, fresh, accepted, acknowledged, opened, archived, can_transition,
  status_eq,
}
use bbz_platform.Events.Aggregate.{
  EventDomainError, EventAggregate, Command, edit, reactivates, accepts, acknowledges, opens,
  archives, assigns, takes_over, run, update, accept, acknowledge, open_event, archive, reactivate,
  assign, take_over, hand_over, emit, transition, clean_title, clean_description, edit_title,
  edit_description, edit_priority, finish_update, apply_edits, description_too_long,
}

abbrev pub IsEdit : Command → Type 0
IsEdit (edit _ _ _ _) = Unit
IsEdit _ = ⊥

-- Every method but `update` that raises has changed nothing, its queue of events included.
pub run_error_unchanged :
    (c : Command) (a : EventAggregate) (e : EventDomainError)
    → ¬ IsEdit c
    → (run c a).0 ≡ err e
    → (run c a).1 ≡ a
unfolding run update accept acknowledge open_event archive reactivate assign take_over transition
    hand_over emit can_transition
run_error_unchanged (edit _ _ _ _) a e h r = absurd (h tt)
run_error_unchanged c a e h r = ground arith

-- The lifecycle as a table: the status after a call that returns, `none` where it must raise.
abbrev pub next_status : Command → EventStatus → Option EventStatus
next_status (accepts _) fresh = some accepted
next_status (acknowledges _) accepted = some acknowledged
next_status (opens _) acknowledged = some opened
next_status (archives _ _) opened = some archived
next_status (reactivates _ reason) archived = if is_blank (strip reason) then none else some opened
next_status (edit _ _ _ _) s = if status_eq s archived then none else some s
next_status (assigns _ _) s = if status_eq s archived then none else some s
next_status (takes_over _ _) s = if status_eq s archived then none else some s
next_status _ _ = none

status-edit_title : (t : Option String) (a : EventAggregate) → (edit_title t a).1.status ≡ a.status
unfolding edit_title
status-edit_title t a = ground arith

status-edit_description :
    (d : Option (Option String)) (a : EventAggregate) → (edit_description d a).1.status ≡ a.status
unfolding edit_description
status-edit_description d a = ground arith

status-edit_priority :
    (p : Option EventPriority) (a : EventAggregate) → (edit_priority p a).1.status ≡ a.status
unfolding edit_priority
status-edit_priority p a = ground arith

status-apply_edits :
    (u : ℕ) (t : Option String) (d : Option (Option String)) (p : Option EventPriority)
    (a : EventAggregate)
    → (apply_edits u t d p a).1.status ≡ a.status
unfolding apply_edits finish_update emit
status-apply_edits u t d p a = ground (
  arith,
  status-edit_title t a,
  status-edit_description d (edit_title t a).1,
  status-edit_priority p (edit_description d (edit_title t a).1).1,
)

-- A call that returns leaves the status that the table gives.
pub run-next_status :
    (c : Command) (a : EventAggregate)
    → (run c a).0 ≡ ok tt
    → next_status c a.status ≡ some (run c a).1.status
unfolding run update accept acknowledge open_event archive reactivate assign take_over transition
    hand_over emit can_transition
run-next_status (edit u t d p) a r = ground (arith, status-apply_edits u t d p a)
run-next_status (accepts u) a r = ground arith
run-next_status c a r = ground arith

abbrev IsLifecycle : Command → Type 0
IsLifecycle (edit _ _ _ _) = ⊥
IsLifecycle (assigns _ _) = ⊥
IsLifecycle (takes_over _ _) = ⊥
IsLifecycle _ = Unit

-- A lifecycle call (accept, acknowledge, open, archive, reactivate) returns exactly when the table
-- has a status for it, and then leaves that status.
pub run-lifecycle_iff :
    (c : Command) (a : EventAggregate) (s : EventStatus)
    → IsLifecycle c
    → (next_status c a.status ≡ some s) ↔ (((run c a).0 ≡ ok tt) × ((run c a).1.status ≡ s))
unfolding run update accept acknowledge open_event archive reactivate assign take_over transition
    hand_over emit can_transition
run-lifecycle_iff (edit _ _ _ _) a s h = absurd h
run-lifecycle_iff (assigns _ _) a s h = absurd h
run-lifecycle_iff (takes_over _ _) a s h = absurd h
run-lifecycle_iff c a s h = (ground arith, ground arith)

-- An archived event is left by `reactivate` with a reason that is not blank, and by no other call.
pub archived_only_reactivated :
    (c : Command) (a : EventAggregate)
    → a.status ≡ archived
    → (run c a).0 ≡ ok tt
    → (u : ℕ) × (reason : String) × (c ≡ reactivates u reason)
      × (is_blank (strip reason) ≡ false)
      × ((run c a).1.status ≡ opened)
unfolding run update accept acknowledge open_event archive reactivate assign take_over transition
    hand_over emit can_transition
archived_only_reactivated (reactivates u reason) a s r =
    (u, reason, refl, ground arith, ground arith)
archived_only_reactivated (edit u t d p) a s r = absurd (ground arith)
archived_only_reactivated c a s r = absurd (ground arith)

-- `update` is not atomic: given a new title and, in the same call, a description that is too long,
-- it raises with the title replaced and no event queued.
pub update_raises_changed :
    (u : ℕ) (title new description : String) (p : Option EventPriority) (a : EventAggregate)
    → (a.status ≡ archived → ⊥)
    → clean_title title ≡ ok new
    → new ≢ a.title
    → clean_description (some description) ≡ err description_too_long
    → let r = run (edit u (some title) (some (some description)) p) a in
      (r.0 ≡ err description_too_long) × (r.1.title ≡ new) × (r.1.pending ≡ a.pending)
unfolding run update apply_edits edit_title edit_description
update_raises_changed u title new description p a live t ne d = ground (arith, eq_iff new a.title)
