-- ===== src/Engine.antt =====
-- packages/core/src/engine.ts: the evaluation engine.
pub mod State
pub mod Operations
pub mod Program
pub mod Context
pub mod Apply
pub mod Progress
pub mod Verdict
pub mod Contract
pub mod Guard
pub mod Runs
pub mod Fragment
pub mod Reuse
pub mod Fuel
pub mod Core
pub mod Selection
