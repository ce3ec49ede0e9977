-- ===== src/Keywords/Yields/Conditional.antt =====
-- packages/core/src/keywords/applicator.ts: the verdicts of `then` and `else`.
use json_schema_engine.Json.{Json}
use json_schema_engine.Cursor.{Cursor}
use json_schema_engine.Engine.Context.{Context}
use json_schema_engine.Keywords.Yields.{Yields}
