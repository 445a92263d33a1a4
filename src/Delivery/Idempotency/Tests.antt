-- ===== src/Delivery/Idempotency/Tests.antt =====
-- server/bbz_core/infra/idempotency.py: guarded calls of one command. The world counts the runs of the
-- body.
use bbz_platform.Prelude.{
  ℕ, occurrences, suc, ◌+◌, ◌≤◌, String, [], ◌∷◌, none, some, ◌≡◌, refl, ok, err, arith, rows_under,
  true,
}
use bbz_platform.Delivery.Idempotency.{
  Command, StoredResult, Body, command_conflict, no_result_set, ran, new_command, idempotent, claim,
  command_key, purge_stale, purge_completed,
}
use bbz_platform.Delivery.Idempotency.Replay.{quiet, claimed_by, idempotent-idempotent}
use bbz_platform.Delivery.Idempotency.Interleaved.{
  System, Reach, start, later, started, acted, raised, empty, effects_accounted,
}

abbrev created : StoredResult
created = record { status = 201; body = none }

abbrev create : Body ℕ
create world = (ok (some created), suc world)

abbrev broken : Body ℕ
broken world = (err "database is gone", world)

abbrev command_of : String → Command
command_of hash = new_command 0 7 none "POST /events" hash

unset : (idempotent 0 (command_of "h") (λ (world : ℕ). (ok none, world)) [] 0).0 ≡ err no_result_set
unset = refl

-- A crash leaves the row pending until it is purged.
stale_purged : (purge_stale 100 (command_of "h" ∷ [])).1 ≡ 1
stale_purged = refl

fresh_kept : (purge_completed 100 (command_of "h" ∷ [])).1 ≡ 0
fresh_kept = refl

-- a day later the client sends another request under the same id; in between another client was served
abbrev elsewhere : Command
elsewhere = new_command 1 8 none "POST /events" "g"

idempotent-idempotent_example :
    (let (answer, left, reached) = idempotent 1 (command_of "h") create [] 0 in
      (answer ≡ ok (ran created))
      × (reached ≡ 1)
      × (idempotent 2 (command_of "other") create (claim elsewhere left).1 5
          ≡ (err command_conflict, (claim elsewhere left).1, 5)))
idempotent-idempotent_example =
    idempotent-idempotent 1 2 (command_of "h") (command_of "other") create create [] _ 0 1 5 created
      refl refl refl (claimed_by quiet elsewhere)

abbrev one_running : System
one_running = record empty { rows = command_of "h" ∷ []; running = 7 ∷ []; begun = 7 ∷ [] }

-- The body commits and then raises, its row is dropped, and the command runs again.
abbrev commits_and_raises : System
commits_and_raises = record {
  rows = command_of "h" ∷ [];
  running = 7 ∷ [];
  committed = [];
  effects = 7 ∷ [];
  begun = 7 ∷ 7 ∷ [];
  deleted = 7 ∷ [];
}

runs_again : Reach commits_and_raises
runs_again =
    later
      (later
        (later (later start (started empty (command_of "h") refl refl))
          (acted one_running 7 (omega arith)))
        (raised (record one_running { running = []; committed = 7 ∷ []; effects = 7 ∷ [] }) true 7
          (omega arith)))
      (started (record empty { effects = 7 ∷ []; begun = 7 ∷ []; deleted = 7 ∷ [] })
        (command_of "h") refl refl)

effects_accounted_example :
    (occurrences 7 commits_and_raises.running + occurrences 7 commits_and_raises.effects
      ≤ occurrences 7 commits_and_raises.begun)
    × (occurrences 7 commits_and_raises.running + occurrences 7 commits_and_raises.committed
        ≤ occurrences 7 commits_and_raises.begun)
    × (occurrences 7 commits_and_raises.begun
        ≡ occurrences 7 commits_and_raises.deleted
          + rows_under command_key 7 commits_and_raises.rows)
    × (rows_under command_key 7 commits_and_raises.rows ≤ 1)
effects_accounted_example = effects_accounted 7 runs_again
