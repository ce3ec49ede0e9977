-- ===== src/Schemas/Register/Inversion.antt =====
-- packages/core/src/registry.ts: what a registration or a removal that returns has done.
use json_schema_engine.Base.{◌≡◌, not, Option, some, String, str_eq}
use json_schema_engine.Json.{lookup}
use json_schema_engine.Schemas.Fallible.{
  returns, read_only_registry, unresolvable_ref, throw_if, found_or, >>=-eq-returns, found_or-eq,
}
use json_schema_engine.Schemas.Uri.{SplitUri, split_fragment}
use json_schema_engine.Schemas.State.{Node, Setting, DocumentLocation, Staging, RangeLookup}
use json_schema_engine.Schemas.Stage.{RootIdentity, identify}
use json_schema_engine.Schemas.Commit.{evict}
use json_schema_engine.Schemas.Locate.{canonical}
use json_schema_engine.Schemas.Register.{
  SchemaRegistry, DialectView, ResourceCheck, staged, apply, register, unregister, no_memos,
}

module _ (setting : Setting) (view : DialectView) where
  -- The identity and the staging of a registration that returns.
  pub record Registration (schema : Node) (retrieval_uri : String) (dialect_uri : Option String)
      (range : Option RangeLookup) (check : Option ResourceCheck) (r : SchemaRegistry)
      (uri : String) (s : SchemaRegistry) : Type 0 where
    pub id : RootIdentity
    pub stage : Staging
    pub writable : throw_if r.read_only read_only_registry ≡ returns tt
    pub identified :
        identify setting.parser setting.default_dialect_uri view.dialects schema.json retrieval_uri
          dialect_uri
        ≡ returns id
    pub walked : staged setting view schema id check r.indexes ≡ returns stage
    pub named : id.base_uri ≡ uri
    pub applied : apply setting view stage range r ≡ s

  pub register-Registration :
      {schema : Node} {retrieval_uri : String} {dialect_uri : Option String}
      {range : Option RangeLookup} {check : Option ResourceCheck} {r : SchemaRegistry}
      {uri : String} {s : SchemaRegistry}
      → register setting view schema retrieval_uri dialect_uri range check r ≡ returns (uri, s)
      → Registration schema retrieval_uri dialect_uri range check r uri s
  unfolding register
  register-Registration h =
      let (u, a, k) = >>=-eq-returns _ _ h in
      let (id, b, l) = >>=-eq-returns _ _ k in
      let (stage, c, e) = >>=-eq-returns _ _ l in
      record {
        id = id;
        stage = stage;
        writable = a;
        identified = b;
        walked = c;
        named = cc e;
        applied = cc e;
      }

  -- The document that a removal that returns has dropped.
  pub record Removal (uri : String) (r s : SchemaRegistry) : Type 0 where
    pub split : SplitUri
    pub location : DocumentLocation
    pub parsed : split_fragment setting.parser uri ≡ returns split
    pub held :
        lookup (canonical split.resource r.indexes) r.indexes.resource_locations ≡ some location
    pub dropped :
        record r {
          indexes = evict (canonical split.resource r.indexes) r.indexes;
          memos = no_memos;
        }
        ≡ s

  pub unregister-Removal :
      {uri : String} {r s : SchemaRegistry}
      → unregister setting view uri r ≡ returns s
      → Removal uri r s
  unfolding unregister
  unregister-Removal {uri} {r} h =
      let (u, a, k) = >>=-eq-returns (throw_if r.read_only read_only_registry) _ h in
      let (split, b, l) = >>=-eq-returns (split_fragment setting.parser uri) _ k in
      let doc = canonical split.resource r.indexes in
      let (location, c, n) =
        >>=-eq-returns (found_or (lookup doc r.indexes.resource_locations) (unresolvable_ref doc)) _
          l in
      let (v, d, e) =
        >>=-eq-returns (throw_if (not (str_eq location.document_uri doc)) (unresolvable_ref doc)) _
          n in
      record {
        split = split;
        location = location;
        parsed = b;
        held = found_or-eq _ _ c;
        dropped = cc e;
      }
