-- ===== src/Monitor/Routing/Tests.antt =====
-- Routes, a provider that takes no route of one output, and the theorems at them.
use bbz_platform.Prelude.{
  String, Bool, true, not, List, ◌≡◌, refl, [], ◌∷◌, ◌++◌, some, ok, err, Dict, lookup, ◌==◌,
}
use bbz_platform.Monitor.Layout.{bottom_left, standard_layout, validate_items, provider_rejected}
use bbz_platform.Monitor.Layout.Fixed.{valid_item, standard_items}
use bbz_platform.Monitor.Routing.{World, RouteChanged, apply_assignments}
use bbz_platform.Monitor.Routing.Fixed.{IsSound, apply_assignments-IsSound}
use bbz_platform.Monitor.Routing.Applied.{
  or_else, records_for, change_records, apply_assignments_ok, apply_assignments_err,
}

abbrev world : World
world = record { routes = standard_layout; audit = []; sent = [] }

world_IsSound : IsSound world.routes
world_IsSound o i l = valid_item standard_layout o i standard_items l

abbrev large_is_bku1 : Dict String
large_is_bku1 = ("large-display", "bku1") ∷ (bottom_left, "bbz-os") ∷ []

abbrev takes_all : Dict String → String → String → Bool
takes_all sent o i = true

abbrev breaks_large : Dict String → String → String → Bool
breaks_large sent o i = not (o == "large-display")

apply_assignments-IsSound_example :
    IsSound (apply_assignments takes_all large_is_bku1 world).0.routes
    × ((i : String)
        → lookup bottom_left (apply_assignments takes_all large_is_bku1 world).0.routes ≡ some i
        → i ≡ "bbz-os")
apply_assignments-IsSound_example =
    apply_assignments-IsSound takes_all large_is_bku1 world world_IsSound

applied : (apply_assignments takes_all large_is_bku1 world).1 ≡ ok tt
unfolding apply_assignments validate_items
applied = refl

apply_assignments_ok_example :
    ((o : String)
      → lookup o (apply_assignments takes_all large_is_bku1 world).0.routes
        ≡ or_else (lookup o large_is_bku1) (lookup o standard_layout))
    × (added : List RouteChanged) × ((apply_assignments takes_all large_is_bku1 world).0.audit
        ≡ [] ++ added)
    × ((o : String)
        → records_for o added
          ≡ change_records o
              (lookup o standard_layout)
              (lookup o (apply_assignments takes_all large_is_bku1 world).0.routes))
apply_assignments_ok_example = apply_assignments_ok takes_all large_is_bku1 world refl applied

rejected :
    (apply_assignments breaks_large large_is_bku1 world).1 ≡ err (provider_rejected "large-display")
unfolding apply_assignments validate_items
rejected = refl

apply_assignments_err_example :
    ((apply_assignments breaks_large large_is_bku1 world).0.routes ≡ standard_layout)
    × ((apply_assignments breaks_large large_is_bku1 world).0.audit ≡ [])
apply_assignments_err_example =
    apply_assignments_err breaks_large large_is_bku1 world (provider_rejected "large-display")
      rejected
