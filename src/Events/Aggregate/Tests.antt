-- ===== src/Events/Aggregate/Tests.antt =====
-- Runs of the aggregate, and the theorems at them.
use Prim.Native.String.{◌++◌}
use bbz_platform.Prelude.{
  err, sym, eq_iff, ◌≢◌, String, none, some, List, [], ◌∷◌, ◌≡◌, ◌↔◌, refl, ok, strip,
}
use bbz_platform.Events.State.{low, high, fresh, accepted, archived, opened, can_transition}
use bbz_platform.Events.Aggregate.{
  EventAggregate, Command, edit, accepts, acknowledges, opens, archives, reactivates, assigns,
  takes_over, run, run_all, create, clean_title, clean_description, collect_events,
  invalid_transition, description_too_long, update, accept, acknowledge, open_event, archive,
  reactivate, assign, take_over, transition, hand_over, emit, apply_edits, edit_title,
}
use bbz_platform.Events.Aggregate.Atomic.{next_status, run_error_unchanged, run-lifecycle_iff}
use bbz_platform.Events.Aggregate.Wellformed.{IsWellformed, run_all-create-IsWellformed}
use bbz_platform.Events.Aggregate.Journal.{view, replay, replay-collect_events}

abbrev alarm : EventAggregate
alarm = record {
  id = 7;
  title = "Rauch";
  priority = high;
  status = fresh;
  description = none;
  bbz_id = none;
  workplace_id = none;
  source = "manual";
  assignee_id = none;
  version = 1;
  pending = [];
}

abbrev closed : EventAggregate
closed = record alarm { status = archived }

created : (a : EventAggregate) × (create 7 " Rauch " high none none none none "manual" ≡ ok a)
unfolding create clean_title strip clean_description emit
created = (_, refl)

run_error_unchanged_example : (run (opens 1) alarm).1 ≡ alarm
unfolding run open_event
run_error_unchanged_example =
    run_error_unchanged (opens 1) alarm invalid_transition (λ h. absurd h) refl

run-lifecycle_iff_example :
    (next_status (accepts 1) fresh ≡ some accepted)
    ↔ (((run (accepts 1) alarm).0 ≡ ok tt) × ((run (accepts 1) alarm).1.status ≡ accepted))
run-lifecycle_iff_example = run-lifecycle_iff (accepts 1) alarm accepted tt

abbrev life : List Command
life =
    accepts 1
    ∷ edit 1 (some "  ") none (some low)
    ∷ acknowledges 1
    ∷ takes_over 2 1
    ∷ assigns 2 1
    ∷ opens 1
    ∷ archives 1 none
    ∷ reactivates 1 " neu "
    ∷ []

life_status : (run_all life alarm).status ≡ opened
unfolding run_all run update accept acknowledge open_event archive reactivate assign take_over
    transition hand_over emit can_transition strip apply_edits edit_title clean_title
life_status = refl

run_all-create-IsWellformed_example : IsWellformed (run_all life created.0)
run_all-create-IsWellformed_example =
    run_all-create-IsWellformed life 7 " Rauch " high none none none none "manual" created.0
      created.1

replay-collect_events_example :
    replay (view alarm) (collect_events (run_all life (collect_events alarm).1)).0
    ≡ view (collect_events (run_all life (collect_events alarm).1)).1
replay-collect_events_example = replay-collect_events life alarm

abbrev doubled : String → String
doubled s = s ++ s

abbrev doubled_five_times : String → String
doubled_five_times s = doubled (doubled (doubled (doubled (doubled s))))

-- 32768 characters
abbrev long : String
long = doubled_five_times (doubled_five_times (doubled_five_times "x"))

refused : clean_description (some long) ≡ err description_too_long
unfolding clean_description strip
refused = refl

cleaned : clean_title "Brand" ≡ ok "Brand"
unfolding clean_title strip
cleaned = refl

other_title : "Brand" ≢ alarm.title
other_title h = cc (sym ((eq_iff "Brand" alarm.title).1 h))
