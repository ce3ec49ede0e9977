-- ===== src/Schemas.antt =====
-- packages/core/src/registry.ts, uri.ts and walk.ts: schemas by their URIs.
pub mod Entries
pub mod Fallible
pub mod Tolerant
pub mod Uri
pub mod State
pub mod Facts
pub mod Stage
pub mod Walk
pub mod Commit
pub mod Locate
pub mod Register
pub mod Resolve
pub mod Calls
pub mod Served
