-- ===== src/Messages.antt =====
-- packages/core/src/messages.ts: the texts that describe errors.
pub mod Texts
pub mod Preview
pub mod Listed
