-- ===== src/Keywords.antt =====
-- packages/core/src/keywords: the standard keyword behaviors.
pub mod Schema
pub mod InPlace
pub mod Object
pub mod Array
pub mod Unevaluated
pub mod Validation
pub mod Required
pub mod Lowered
pub mod Yields
