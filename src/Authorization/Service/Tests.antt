-- ===== src/Authorization/Service/Tests.antt =====
-- A user with two roles, and the theorems at that user.
use bbz_platform.Prelude.{
  String, true, ◌&&◌, none, some, List, [], ◌∷◌, ◌++◌, ok, err, any, ◌≡◌, refl, ◌==◌, if◌then◌else◌,
  nat_eq,
}
use bbz_platform.RuleDsl.Value.{Fields, field, str, list, object, cons, nil, end}
use bbz_platform.Authorization.Keys.{is_known, unknown_key}
use bbz_platform.Authorization.Grants.{Grant}
use bbz_platform.Authorization.Resolve.{ScopeContext, Clock, scope_covers, condition_allows}
use bbz_platform.Authorization.Service.{Store, authorize, authorize_scoped}
use bbz_platform.Authorization.Service.Laws.{answer, authorize_cold, authorize_scoped_narrows}

abbrev plain_grant : String → String → Grant
plain_grant key scope = record { permission_key = key; scope = scope; condition = none }

-- only on the global scope
abbrev scope_is_global : Fields
scope_is_global = field "op" (str "eq") (
    field "args" (list (cons (object (field "field" (str "scope") end)) (cons (str "global") nil)))
      end)

abbrev grants : List Grant
grants =
    plain_grant "events.view" "global"
    ∷ plain_grant "events.accept" "own_events"
    ∷ record { permission_key = "events.accept"; scope = "bbz"; condition = some scope_is_global }
    ∷ []

abbrev store : Store
store u = if nat_eq u 1 then grants else []

abbrev empty_store : Store
empty_store u = []

abbrev more_store : Store
more_store u = if nat_eq u 1 then grants ++ plain_grant "events.open" "global" ∷ [] else []

abbrev noon : Clock
noon = record { hour = 12; weekday = 0; iso = "2026-01-05T12:00:00+00:00" }

abbrev own_event : ScopeContext
own_event = record {
  acting_user_id = 1;
  user_region_id = none;
  user_bbz_id = none;
  user_workplace_id = none;
  target_region_id = none;
  target_bbz_id = none;
  target_workplace_id = none;
  target_owner_id = some 1;
  target_assignee_id = none;
}

accepts : answer (authorize_scoped true noon store [] 1 "events.accept" own_event) ≡ ok true
unfolding authorize_scoped is_known
accepts = refl

views : answer (authorize true noon store [] 1 "events.view") ≡ ok true
unfolding authorize is_known
views = refl

authorize_cold_example :
    (answer (authorize true noon store [] 1 "events.accept") ≡ (
      if is_known "events.accept"
      then ok
          (any (λ g. g.permission_key == "events.accept" && condition_allows true noon g) (store 1))
      else err (unknown_key "events.accept")))
    × (answer (authorize_scoped true noon store [] 1 "events.accept" own_event) ≡ (
        if is_known "events.accept"
        then ok (
            any
              (λ g.
                g.permission_key == "events.accept"
                && (scope_covers g.scope own_event && condition_allows true noon g))
              (store 1))
        else err (unknown_key "events.accept")))
authorize_cold_example = authorize_cold true noon store [] 1 "events.accept" own_event refl

authorize_scoped_narrows_example : answer (authorize true noon store [] 1 "events.accept") ≡ ok true
authorize_scoped_narrows_example =
    authorize_scoped_narrows true noon store [] 1 "events.accept" own_event accepts
