-- ===== src/Delivery/Dispatcher/Tests.antt =====
-- server/bbz_core/workers/outbox_dispatcher.py and server/bbz_core/infra/outbox.py: the dispatcher on a
-- concrete table. The world counts the calls of the handlers.
use bbz_platform.Prelude.{
  sorted, insert_sorted, ℕ, zero, suc, String, true, false, List, [], ◌∷◌, none, some, ◌≡◌, refl,
  Dict, ok, err, arith, map,
}
use bbz_platform.RuleDsl.Value.{Fields, end, field, str}
use bbz_platform.Delivery.Outbox.{
  ExternalActionOutbox, dispatched, is_pending, new_row, delay, enqueue,
}
use bbz_platform.Delivery.Dispatcher.{
  Note, State, Handler, process_one, process_all, run_once, row_by_id, register,
}
use bbz_platform.Delivery.Dispatcher.Settled.{
  Reach, here, processed, AllAccounted, Reach-AllAccounted,
}
use bbz_platform.Delivery.Dispatcher.Live.{settles, settled_stays}

abbrev same_fields : Fields → Fields
same_fields fs = fs

abbrev same_text : String → String
same_text s = s

abbrev ignore : Note → ℕ → ℕ
ignore note world = world

abbrev broken : Handler ℕ
broken payload world = (err "camera offline", suc world)

abbrev noop : Handler ℕ
noop payload world = (ok none, suc world)

abbrev handlers : Dict (Handler ℕ)
handlers = register "open_camera" broken (register "noop" noop [])

abbrev row_of : ℕ → String → ExternalActionOutbox
row_of id action_type =
    new_row same_fields same_text 0 id none "rule:1:0" action_type (field "event_id" (str "e1") end)

abbrev start : State ℕ
start = record { rows = row_of 1 "open_camera" ∷ row_of 2 "noop" ∷ []; audit = []; world = 0 }

abbrev ids_of : ℕ → List ℕ
ids_of zero = []
ids_of (suc n) = 1 ∷ ids_of n

abbrev after_rounds : ℕ → State ℕ
after_rounds zero = start
after_rounds (suc n) = process_one same_fields same_text ignore handlers n 1 (after_rounds n)

reach_rounds : (n : ℕ) → Reach same_fields same_text ignore start (ids_of n) (after_rounds n)
reach_rounds zero = here
reach_rounds (suc n) = processed (reach_rounds n) handlers n 1

-- The broken handler was called eight times, and the failure is audited once.
eight_calls :
    ((after_rounds 9).world ∷ map (λ entry. entry.attempts) (after_rounds 9).audit) ≡ 8 ∷ 8 ∷ []
unfolding process_one
eight_calls = refl

batch : (run_once same_fields same_text ignore handlers 0 20 start).0.world ≡ 2
unfolding process_one process_all sorted insert_sorted
batch = refl

known_key : enqueue same_fields same_text true (row_of 3 "noop") start.rows ≡ ok (start.rows, false)
known_key = refl

delays : map delay (1 ∷ 2 ∷ 8 ∷ 9 ∷ []) ≡ 10 ∷ 20 ∷ 1280 ∷ 1800 ∷ []
unfolding delay
delays = refl

Reach-AllAccounted_example : AllAccounted (after_rounds 8)
Reach-AllAccounted_example =
    Reach-AllAccounted same_fields same_text ignore (reach_rounds 8)
      ((omega arith, refl), ((omega arith, refl), tt))

settles_example :
    (now : ExternalActionOutbox) × (row_by_id 1 (after_rounds 8).rows ≡ some now)
    × (is_pending now.status ≡ false)
settles_example =
    settles same_fields same_text ignore 1 (row_of 1 "open_camera") (reach_rounds 8) refl
      (omega arith) (omega arith)

abbrev delivered : ExternalActionOutbox
delivered = record (row_of 1 "noop") { status = dispatched; attempts = 1 }

settled_stays_example :
    (row_by_id 1
        (process_one same_fields same_text ignore handlers 0 2
          (record start { rows = delivered ∷ row_of 2 "noop" ∷ [] })).rows
      ≡ some delivered)
    × ((others : Dict (Handler ℕ)) (now : ℕ)
        → process_one same_fields same_text ignore others now 1 (
            process_one same_fields same_text ignore handlers 0 2
              (record start { rows = delivered ∷ row_of 2 "noop" ∷ [] }))
          ≡ process_one same_fields same_text ignore handlers 0 2
              (record start { rows = delivered ∷ row_of 2 "noop" ∷ [] }))
settled_stays_example =
    settled_stays same_fields same_text ignore 1 delivered (processed here handlers 0 2) refl refl
