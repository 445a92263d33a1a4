-- ===== src/RuleDsl.antt =====
-- The rule DSL: packages/rule-dsl/bbz_rule_dsl.
pub mod Value
pub mod Parse
pub mod Eval
pub mod Context
pub mod Depth
pub mod Guarantee
mod Tests
