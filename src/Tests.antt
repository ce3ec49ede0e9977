-- ===== src/Tests.antt =====
-- Runs of the model on concrete schemas, and the theorems at concrete arguments.
mod Fixtures
mod Engine
mod Keywords
mod Output
mod Messages
mod Sweeps
mod Patterns
mod Values
mod Walks
mod Registry
mod Schemas
mod Settings
mod Document
mod Listed
mod Applied
mod Oracles
mod Coverage
