-- ===== src/Monitor/Routing.antt =====
-- server/bbz_core/infra/repositories/monitor_routing.py: `apply_assignments` and its callers, as
-- steps on the table of routes, the audit log and what was sent to the provider. The provider is not
-- the program's own: whether it takes a route, after what it was sent, is asked of a parameter. Times,
-- actors, profiles the replay of a command id and a
-- provider that is not there are left out, and no other write comes between.
pub mod Fixed
pub mod Applied
mod Tests
use bbz_platform.Prelude.{
  is_text, String, Bool, true, false, not, ◌||◌, Option, none, some, List, [], ◌∷◌, ◌++◌, map,
  Result, ok, err, ◌>>=◌, ◌>>◌, filter, Dict, lookup, ◌==◌, if◌then◌else◌,
}
use bbz_platform.Monitor.Layout.{MonitorError, provider_rejected, validate_items, standard_layout}

-- an audit record `MONITOR_ROUTE_CHANGED`
pub record RouteChanged : Type 0 where
  pub target_id : String
  pub before : Option String
  pub after : String

-- the routes are the rows of `monitor_routes`: the key of an output with the key of its input
pub record World : Type 0 where
  pub routes : Dict String
  pub audit : List RouteChanged
  pub sent : Dict String

-- `{o: i for o, i in assignments.items() if current.get(o) != i}`
abbrev pub changes_of : Dict String → Dict String → Dict String
changes_of current assignments = filter (λ (o, i). not (is_text (lookup o current) i)) assignments

-- an insert that replaces the row of the same output
abbrev pub upsert : String → String → Dict String → Dict String
upsert o i [] = (o, i) ∷ []
upsert o i ((p, j) ∷ rows) =
    let rest = upsert o i rows in if p == o then (p, i) ∷ rows else (p, j) ∷ rest

abbrev pub upsert_all : Dict String → Dict String → Dict String
upsert_all [] rows = rows
upsert_all ((o, i) ∷ changes) rows = upsert_all changes (upsert o i rows)

abbrev pub records_of : Dict String → Dict String → List RouteChanged
records_of current changes =
    map (λ (o, i). record { target_id = o; before = lookup o current; after = i }) changes

module _ (takes : Dict String → String → String → Bool) where
  -- the calls of `provider.set_route`, up to the first that raises: what was sent, and the error
  pub drive : Dict String → Dict String → Dict String × Result MonitorError (Unit {0})
  drive [] sent = (sent, ok tt)
  drive ((o, i) ∷ changes) sent =
      let rest = drive changes (sent ++ (o, i) ∷ []) in
      if takes sent o i then rest else (sent, err (provider_rejected o))

  -- the transaction behind the calls
  abbrev pub persist : Dict String → World → World
  persist changes w = record w {
    routes = upsert_all changes w.routes;
    audit = w.audit ++ records_of w.routes changes;
  }

  -- behind the calls: the transaction, or the error of the provider
  abbrev pub after_calls :
      Dict String
      → World
      → Dict String × Result MonitorError (Unit {0})
      → World × Result MonitorError (Unit {0})
  after_calls changes w (sent, err e) = (record w { sent = sent }, err e)
  after_calls changes w (sent, ok _) = (persist changes (record w { sent = sent }), ok tt)

  -- behind the validation
  pub after_validation :
      Dict String → World → Result MonitorError (Unit {0}) → World × Result MonitorError (Unit {0})
  unfolding drive
  after_validation assignments w (err e) = (w, err e)
  after_validation assignments w (ok _) =
      let changes = changes_of w.routes assignments in after_calls changes w (drive changes w.sent)

  pub apply_assignments : Dict String → World → World × Result MonitorError (Unit {0})
  unfolding after_validation
  apply_assignments assignments w = after_validation assignments w (validate_items assignments)

  -- `set_routes`, for a command that was not seen before
  pub set_routes : Dict String → World → World × Result MonitorError (Unit {0})
  unfolding apply_assignments
  set_routes assignments w = elim (validate_items assignments) [
    | err e ↦ (w, err e)
    | ok _ ↦ apply_assignments assignments w
  ]

  unfoldable pub reset_to_standard : World → World × Result MonitorError (Unit {0})
  unfolding apply_assignments
  reset_to_standard w = apply_assignments standard_layout w
