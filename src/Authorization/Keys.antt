-- ===== src/Authorization/Keys.antt =====
-- server/bbz_core/authorization/keys.py: the catalogue of permission keys.
use bbz_platform.Prelude.{String, Bool, List, [], ◌∷◌, ◌++◌, Dict, Result, guard, contains}

abbrev pub catalog : Dict (List String)
catalog =
    (
      "events",
      "events.view" ∷ "events.create" ∷ "events.accept" ∷ "events.acknowledge" ∷ "events.open"
          ∷ "events.edit" ∷ "events.assign" ∷ "events.takeover" ∷ "events.close" ∷ "events.archive"
          ∷ "events.reactivate" ∷ "events.postprocess" ∷ "events.export" ∷ [],
    )
    ∷ (
      "workflows",
      "workflows.view" ∷ "workflows.execute" ∷ "workflows.override" ∷ "workflows.manage_templates"
          ∷ [],
    )
    ∷ (
      "calls",
      "calls.view" ∷ "calls.answer" ∷ "calls.dial" ∷ "calls.hangup" ∷ "calls.hold"
          ∷ "calls.transfer" ∷ "calls.document" ∷ "calls.view_history"
          ∷ "calls.ingest_provider_events" ∷ "calls.simulate_mock_scenario" ∷ [],
    )
    ∷ (
      "contacts",
      "contacts.view" ∷ "contacts.create" ∷ "contacts.edit" ∷ "contacts.delete"
          ∷ "contacts.assign_priority" ∷ [],
    )
    ∷ (
      "monitor",
      "monitor.view" ∷ "monitor.route" ∷ "monitor.reset_standard" ∷ "monitor.manage_profiles" ∷ [],
    )
    ∷ ("weather", "weather.view" ∷ "weather.create_event" ∷ [])
    ∷ (
      "users_roles",
      "users.view" ∷ "users.manage" ∷ "roles.view" ∷ "roles.manage" ∷ "permissions.manage" ∷ [],
    )
    ∷ (
      "integrations",
      "integrations.view" ∷ "integrations.configure" ∷ "integrations.enable_disable"
          ∷ "integrations.diagnostics" ∷ [],
    )
    ∷ (
      "system",
      "system.audit.view" ∷ "system.cluster.view" ∷ "system.cluster.manage"
          ∷ "system.settings.manage" ∷ [],
    )
    ∷ (
      "bku",
      "bku.status.view" ∷ "bku.apps.launch" ∷ "bku.apps.close" ∷ "bku.session.logout"
          ∷ "bku.device.restart" ∷ "bku.catalog.view" ∷ "bku.catalog.manage" ∷ "bku.agent.manage"
          ∷ [],
    )
    ∷ ("agents", "agents.manage" ∷ [])
    ∷ (
      "door_technical",
      "door.view" ∷ "door.answer" ∷ "door.open" ∷ "door.configure" ∷ "technical_endpoints.view"
          ∷ "technical_endpoints.manage" ∷ [],
    )
    ∷ []

abbrev all_values : Dict (List String) → List String
all_values [] = []
all_values ((area, ks) ∷ rest) = ks ++ all_values rest

abbrev pub permission_keys : List String
permission_keys = all_values catalog

abbrev pub machine_keys : List String
machine_keys = "calls.ingest_provider_events" ∷ "calls.simulate_mock_scenario" ∷ []

-- `PermissionKeyError`
pub data PermissionKeyError : Type 0 where
  unknown_key : String → PermissionKeyError

-- `key in PERMISSION_KEYS`
unfoldable pub is_known : String → Bool
is_known key = contains key permission_keys

unfoldable pub assert_known : String → Result PermissionKeyError (Unit {0})
assert_known key = guard (is_known key) (unknown_key key)
