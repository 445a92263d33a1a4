-- ===== src/Authorization/Resolve.antt =====
-- server/bbz_core/authorization/resolver.py and scopes.py: does a grant cover an action? The clock and
-- the switch `BBZ_RBAC_CONDITIONS_ENABLED` are arguments. A scope is the text of its enum member.
use bbz_platform.Prelude.{
  ℕ, String, Bool, true, false, Option, none, some, [], ◌∷◌, ok, err, ◌>>=◌, nat_eq, ◌==◌, pos,
  ◌&&◌, if◌then◌else◌,
}
use bbz_platform.RuleDsl.Value.{Fields, object, int, str}
use bbz_platform.RuleDsl.Parse.{parse}
use bbz_platform.RuleDsl.Eval.{Context, evaluate}
use bbz_platform.Authorization.Grants.{Grant}

-- identifiers are numbers
pub record ScopeContext : Type 0 where
  pub acting_user_id : ℕ
  pub user_region_id : Option ℕ
  pub user_bbz_id : Option ℕ
  pub user_workplace_id : Option ℕ
  pub target_region_id : Option ℕ
  pub target_bbz_id : Option ℕ
  pub target_workplace_id : Option ℕ
  pub target_owner_id : Option ℕ
  pub target_assignee_id : Option ℕ

-- what is read of `datetime.now`
pub record Clock : Type 0 where
  pub hour : ℕ
  pub weekday : ℕ
  pub iso : String

abbrev pub both : Option ℕ → Option ℕ → Bool
both (some a) (some b) = nat_eq a b
both _ _ = false

abbrev pub scope_covers : String → ScopeContext → Bool
scope_covers scope ctx =
    if scope == "global"
    then true
    else if scope == "region"
    then both ctx.user_region_id ctx.target_region_id
    else if scope == "bbz"
    then both ctx.user_bbz_id ctx.target_bbz_id
    else if scope == "workplace"
    then both ctx.user_workplace_id ctx.target_workplace_id
    else if scope == "own_events"
    then both (some ctx.acting_user_id) ctx.target_owner_id
    else if scope == "assigned_events"
    then both (some ctx.acting_user_id) ctx.target_assignee_id
    else false

abbrev pub rbac_values : Clock → String → Context
rbac_values now scope =
    ("now.hour", int (pos now.hour))
    ∷ ("now.weekday", int (pos now.weekday))
    ∷ ("now.iso", str now.iso)
    ∷ ("scope", str scope)
    ∷ []

-- the `try` of `condition_allows`: whatever is raised is a deny
unfoldable pub condition_holds : Clock → String → Fields → Bool
unfolding parse evaluate
condition_holds now scope condition =
    elim (parse (object condition) >>= λ e. evaluate e (rbac_values now scope)) [
      | ok b ↦ b
      | err _ ↦ false
    ]

unfoldable pub condition_allows : Bool → Clock → Grant → Bool
unfolding condition_holds
condition_allows enabled now grant = elim grant.condition [
  | none ↦ true
  | some condition ↦ enabled && condition_holds now grant.scope condition
]

unfoldable pub grant_resolves : Bool → Clock → ScopeContext → Grant → Bool
unfolding condition_allows
grant_resolves enabled now ctx grant =
    scope_covers grant.scope ctx && condition_allows enabled now grant
