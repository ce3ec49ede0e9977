-- ===== src/Schemas/Calls.antt =====
-- packages/core/src/registry.ts: any calls of a registry, one after another.
pub mod Current
pub mod Consistent
use json_schema_engine.Base.{ℕ, Option, none, some, List, [], ◌∷◌, String}
use json_schema_engine.Schemas.Fallible.{Fallible, returns, throws}
use json_schema_engine.Schemas.State.{Node, Setting, Dialects, RangeLookup}
use json_schema_engine.Schemas.Register.{
  SchemaRegistry, DialectView, ResourceCheck, register, unregister, next_unresolved,
  take_unresolved, snapshot, sync_dialects,
}
use json_schema_engine.Schemas.Resolve.{resolve_ref, dynamic_reference, recursive_reference}

-- A dialect registry counts its changes: its dialects are those of its generation.
abbrev pub view_at : (ℕ → Dialects) → ℕ → DialectView
view_at history g = record { gen = g; dialects = history g }

pub data Call : Type 0 where
  registers : Node → String → Option String → Option RangeLookup → Option ResourceCheck → Call
  unregisters : String → Call
  resolves : String → String → Call
  resolves_dynamic : String → String → Call
  resolves_recursive : String → String → Call
  takes_snapshot : Call
  takes_next : Call
  takes_all : Call

-- A caller that catches an exception has the registry as it was.
abbrev pub registered : SchemaRegistry → Fallible (String × SchemaRegistry) → SchemaRegistry
registered r (returns (uri, s)) = s
registered r (throws e) = r

abbrev pub or_before : SchemaRegistry → Fallible SchemaRegistry → SchemaRegistry
or_before r (returns s) = s
or_before r (throws e) = r

module _ (setting : Setting) (history : ℕ → Dialects) where
  -- The registry after a call at a generation of the dialect registry.
  unfoldable pub after_call : ℕ × Call → SchemaRegistry → SchemaRegistry
  unfolding register unregister resolve_ref dynamic_reference recursive_reference snapshot
      next_unresolved take_unresolved
  after_call (g, registers schema uri dialect range check) r =
      registered r (register setting (view_at history g) schema uri dialect range check r)
  after_call (g, unregisters uri) r = or_before r (unregister setting (view_at history g) uri r)
  after_call (g, resolves ref base) r = (resolve_ref setting (view_at history g) ref base r).1
  after_call (g, resolves_dynamic ref base) r =
      (dynamic_reference setting (view_at history g) ref base r).1
  after_call (g, resolves_recursive ref base) r =
      (recursive_reference setting (view_at history g) ref base r).1
  after_call (g, takes_snapshot) r = (snapshot (view_at history g) r).1
  after_call (g, takes_next) r = (next_unresolved r).1
  after_call (g, takes_all) r = (take_unresolved r).1

  unfoldable pub after_calls : List (ℕ × Call) → SchemaRegistry → SchemaRegistry
  unfolding after_call
  after_calls [] r = r
  after_calls (c ∷ cs) r = after_calls cs (after_call c r)
