-- ===== src/Schemas/Served.antt =====
-- packages/core/src/registry.ts as packages/core/src/engine.ts uses it: the lookups of a registry, at
-- a moment, as what the engine asks. No lookup of the engine compares nodes, so that a reference comes
-- back to the registry without the identity of its node. An undefined node is null: the engine takes
-- both for no schema.
use json_schema_engine.Base.{
  EngineError, invalid_schema, max_depth_exceeded, unresolvable_ref, foreign, out_of_fuel, Result,
  ok, err, Bool, Option, none, some, String,
}
use json_schema_engine.Json.{null}
use json_schema_engine.Cursor.{SchemaRef}
use json_schema_engine.Engine.Program.{Dialect, Registry}
use json_schema_engine.Dialects.{RegisteredDialect}
use json_schema_engine.Schemas.Fallible.{Fallible, returns, throws, SchemaError}
use json_schema_engine.Schemas.State.{Ref, Setting, Indexes}
use json_schema_engine.Schemas.Locate.{
  child, dynamic_anchor, has_recursive_root, root_ref, dialect_for, resolution, dynamic_resolution,
  recursive_resolution,
}
use json_schema_engine.Schemas.Register.{SchemaRegistry, DialectView}
use json_schema_engine.Schemas.Resolve.{resolve_ref, dynamic_reference, recursive_reference}

abbrev pub exception_of : SchemaError → EngineError
exception_of (SchemaError.invalid_schema m) = invalid_schema m
exception_of SchemaError.max_depth_exceeded = max_depth_exceeded
exception_of (SchemaError.unresolvable_ref m) = unresolvable_ref m
exception_of (SchemaError.foreign m) = foreign m
exception_of SchemaError.out_of_fuel = out_of_fuel
exception_of (SchemaError.unknown_dialect uri) = foreign "UnknownDialectError"
exception_of _ = foreign "Error"

abbrev pub answered_by : {A B : Type 0} → (A → B) → Fallible A → Result B
answered_by f (returns a) = ok (f a)
answered_by f (throws e) = err (exception_of e)

abbrev pub given : Ref → SchemaRef
given r = record { node = r.node.json; base_uri = r.base_uri; pointer = r.pointer }

abbrev pub taken : SchemaRef → Ref
taken r = record {
  node = record { object_number = 0; place = ""; json = r.node };
  base_uri = r.base_uri;
  pointer = r.pointer;
}

abbrev pub given_part : SchemaRef → Option Ref → SchemaRef
given_part r none = record r { node = null }
given_part r (some part) = given part

abbrev pub given_anchor : Option Ref → Option SchemaRef
given_anchor none = none
given_anchor (some r) = some (given r)

abbrev pub engine_dialect : RegisteredDialect → Dialect
engine_dialect d = record {
  uri = d.uri;
  keywords = d.keywords;
  ordered = d.ordered;
  allow_unknown_keywords = d.allow_unknown_keywords;
  ref_ignores_siblings = d.ref_ignores_siblings;
}

module _ (setting : Setting) (view : DialectView) where
  -- The lookups without a memo are those of the indexes.
  unfoldable pub serving :
      (String → String → Fallible Ref)
      → (String → String → Fallible (Ref × Option String))
      → (String → String → Fallible (Ref × Bool))
      → Indexes
      → Registry
  unfolding child dynamic_anchor has_recursive_root root_ref dialect_for
  serving resolve dynamic recursive i = record {
    child = λ r segs. answered_by (given_part r) (child setting view.dialects i (taken r) segs);
    resolve_ref = λ ref base. answered_by given (resolve ref base);
    dynamic_reference = λ ref base. answered_by (λ p. (given p.0, p.1)) (dynamic ref base);
    dynamic_anchor = λ uri name. given_anchor (dynamic_anchor uri name i);
    recursive_reference = λ ref base. answered_by (λ p. (given p.0, p.1)) (recursive ref base);
    has_recursive_root = λ uri. has_recursive_root uri i;
    root_ref = λ uri. answered_by given (root_ref setting view.dialects i uri);
    dialect_for = λ uri. answered_by engine_dialect (dialect_for view.dialects uri i);
    produced_ids = i.produced;
    consumed_ids = i.consumed;
  }

  -- A registry, which answers references from its memos where it can.
  unfoldable pub served : SchemaRegistry → Registry
  unfolding serving resolve_ref dynamic_reference recursive_reference
  served r =
      serving (λ ref base. (resolve_ref setting view ref base r).0)
        (λ ref base. (dynamic_reference setting view ref base r).0)
        (λ ref base. (recursive_reference setting view ref base r).0) r.indexes

  -- The indexes alone.
  unfoldable pub plain : Indexes → Registry
  unfolding serving resolution dynamic_resolution recursive_resolution
  plain i =
      serving (resolution setting view.dialects i) (dynamic_resolution setting view.dialects i)
        (recursive_resolution setting view.dialects i) i
