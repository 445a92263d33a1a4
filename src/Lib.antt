-- ===== src/Lib.antt =====
-- The BBZ platform: the rules of its domain, modelled and verified.
--
-- The core server (server/bbz_core) is a modular monolith: an HTTP API and workers over a pure
-- domain, with SQL repositories behind it. What is modelled is that domain, which the rest calls, and
-- the infrastructure that makes its effects happen once:
--
--   * Events: server/bbz_core/domain/events. `EventAggregate` is a record; each of its methods is a
--     function from the aggregate to a result and the aggregate left behind, so that an error keeps
--     its side effects. `_emit` appends to the field `pending`, which `collect_events` drains.
--   * Telephony: server/bbz_core/domain/telephony. `CallAggregate`, fed by provider events in any
--     order.
--   * RuleDsl: packages/rule-dsl/bbz_rule_dsl, the expression language that workflows, triggers and
--     conditional grants share. RuleDsl/Parse and RuleDsl/Eval are model.py, RuleDsl/Context is
--     context.py. A value is what `json.loads` returns, without floats.
--   * Workflow: server/bbz_core/domain/workflow. Workflow/Graph is graph.py, Workflow/Reach the index
--     of engine.py, Workflow/Engine the token engine itself, Workflow/Publish is publish.py,
--     Workflow/Simulate and Workflow/Tasks are simulate.py and tasks.py. The
--     engine evaluates the guards of a split by RuleDsl and runs on the graph that Graph derives.
--   * Triggers: server/bbz_core/domain/triggers. Triggers/Signals is signals.py, Triggers/Rules is
--     rules.py, whose conditions are those of RuleDsl, Triggers/Actions is actions.py with the gate of
--     rules.py for actions, Triggers/Alarms is alarms.py.
--   * Authorization: server/bbz_core/authorization, a module for each of keys.py, model.py,
--     resolver.py and service.py.
--   * Monitor: server/bbz_core/domain/monitor, and the writes of
--     server/bbz_core/infra/repositories/monitor_routing.py.
--   * Audit: server/bbz_core/infra/repositories/audit_chain.py, the hash chain over the audit log. The
--     sealer and the verifier are functions of the two tables.
--   * Delivery: Delivery/Outbox and Delivery/Dispatcher are server/bbz_core/infra/outbox.py and
--     server/bbz_core/workers/outbox_dispatcher.py, Delivery/Inbox, Delivery/Idempotency and
--     Delivery/RateLimit the modules inbox.py, idempotency.py and rate_limit.py of
--     server/bbz_core/infra. A transaction is a function of the table; what several workers or clients
--     do is a relation (`Reach`) whose steps are such transactions in any order.
--   * Login: Login/Local and Login/Policy are local.py and policy.py of server/bbz_core/auth, with their
--     store; Login/Totp is mfa.py and the check of totp.py, with theirs;
--     Login/Sessions is sessions.py with its store.
--   * Contacts: Contacts/PhoneNumbers is phone_numbers.py of server/bbz_core/domain/contacts.
--   * Prelude: what the parts share: results of calls that may raise, lists, texts, dictionaries,
--     integers.
--
-- Conventions. Identifiers are numbers, or texts where the code compares or prints them. A Python
-- exception is a constructor of the component's error type. A dict is the list of its items. The
-- clock, the JSON schemas, the hash function, the keys that the database gives, and the handlers
-- and providers outside are parameters. A table is the list of its rows, and a transaction is
-- atomic. A sign-in (Login/Local) and a challenge of the second factor (Login/Totp) read and write
-- in different transactions: `authenticate` and `challenge` are the calls with nothing in between,
-- and `authenticate_found` and `challenge_found` the calls behind their read, for a table that has
-- changed since.
--
-- Fuel. `run_loop` counts down the budget of steps that the code computes itself, and raises what
-- the code raises when it is spent, in the engine and in the dry run of Simulate. `explore`
-- (`_descendants` and `_reachable`) has the number of edges as fuel, with the length of its first
-- stack, and `visit` (`_has_cycle`) the number of nodes as the depth of its recursion;
-- Workflow/Reach/Search and Workflow/Publish/Cycle show that this is enough.
--
-- Not modelled: the HTTP API, settings and telemetry (input and output); the repositories (SQL) but
-- for those named above; the integrations and their SDK (adapters of external systems); the
-- difference of two workflow definitions, directory sign-in, leader election; the front ends.
pub mod Prelude
pub mod Events
pub mod Telephony
pub mod RuleDsl
pub mod Workflow
pub mod Triggers
pub mod Authorization
pub mod Monitor
pub mod Audit
pub mod Delivery
pub mod Login
pub mod Contacts
