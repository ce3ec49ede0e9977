-- ===== src/Schemas/Stage.antt =====
-- packages/core/src/registry.ts: the identity of a document, and what a walk may claim.
pub mod Claims
use Prim.Native.String.{◌++◌ as str_append}
use json_schema_engine.Base.{
  ℕ, Bool, true, false, ◌||◌, ◌&&◌, not, Option, none, some, List, [], ◌∷◌, String, str_eq,
  if◌then◌else◌,
}
use json_schema_engine.Json.{Json, string, object, Members, entries, lookup, is_some}
use json_schema_engine.Json.Equal.{json_equal}
use json_schema_engine.Dialects.{RegisteredDialect, set_entry, or_default}
use json_schema_engine.Dialects.Identifiers.{IdentifierFacts}
use json_schema_engine.Schemas.Fallible.{
  Fallible, returns, throws, SchemaError, unknown_dialect, invalid_identifier, duplicate_resource,
  duplicate_anchor, foreign, ◌>>=◌, ◌>>◌, throw_if, found_or,
}
use json_schema_engine.Schemas.Uri.{
  UriParser, split_hash, is_empty, split_fragment, resolved_resource, SplitUri,
}
use json_schema_engine.Schemas.State.{
  Node, same_node, Dialects, extract, DocumentLocation, StagedAnchor, StagedResource, Staging,
  Indexes,
}

-- A base identifier is empty, or a fragment alone, or carries a fragment that is not empty.
abbrev names_nothing : String × Option String → Bool
names_nothing (resource, none) = is_empty resource
names_nothing (resource, some raw) = is_empty resource || not (is_empty raw)

unfoldable pub check_base_id : String → String → Fallible (Unit {0})
unfolding split_hash
check_base_id base_id place =
    throw_if (names_nothing (split_hash base_id)) (invalid_identifier base_id place)

-- `isObject(node) && typeof node.$schema === "string"`
abbrev schema_text : Option Json → Option String
schema_text (some (string s)) = some s
schema_text _ = none

abbrev pub declared_schema : Json → Option String
declared_schema (object ms) = schema_text (lookup "$schema" (entries ms))
declared_schema _ = none

abbrev resource_of : UriParser → String → Fallible String
resource_of p uri = do split ← split_fragment p uri; returns split.resource

unfoldable pub dialect_uri_of : UriParser → String → Json → String → Option String → Fallible String
unfolding split_fragment
dialect_uri_of p default_uri schema retrieval_uri dialect_uri = elim (declared_schema schema) [
  | some declared ↦ resolved_resource p declared retrieval_uri
  | none ↦ resource_of p (or_default dialect_uri default_uri)
]

pub record RootIdentity : Type 0 where
  pub base_uri : String
  pub retrieval_resource : String
  pub dialect_uri : String

abbrev pub base_id_of : RegisteredDialect → Json → Option String
base_id_of dialect (object ms) = (extract dialect.identifiers (entries ms)).base_id
base_id_of dialect _ = none

abbrev root_base : UriParser → String → Option String → Fallible String
unfolding check_base_id
root_base p retrieval none = returns retrieval
root_base p retrieval (some base_id) = do
  check_base_id base_id (str_append retrieval "#")
  resolved_resource p base_id retrieval

unfoldable pub identify :
    UriParser → String → Dialects → Json → String → Option String → Fallible RootIdentity
unfolding dialect_uri_of root_base
identify p default_uri dialects schema retrieval_uri dialect_uri = do
  effective ← dialect_uri_of p default_uri schema retrieval_uri dialect_uri
  dialect ← found_or (lookup effective dialects) (unknown_dialect effective)
  retrieval ← resource_of p retrieval_uri
  base ← root_base p retrieval (base_id_of dialect schema)
  returns (record { base_uri = base; retrieval_resource = retrieval; dialect_uri = effective })

abbrev known_dialect : Dialects → RegisteredDialect → String → Fallible RegisteredDialect
known_dialect dialects inherited uri =
    if str_eq uri inherited.uri
    then returns inherited
    else found_or (lookup uri dialects) (unknown_dialect uri)

unfoldable pub resource_dialect :
    UriParser → Dialects → Json → String → RegisteredDialect → Fallible RegisteredDialect
resource_dialect p dialects node base_uri inherited = elim (declared_schema node) [
  | none ↦ returns inherited
  | some declared ↦ resolved_resource p declared base_uri >>= known_dialect dialects inherited
]

abbrev pub differs : Option Node → Node → Bool
differs none node = false
differs (some existing) node = not (json_equal existing.json node.json)

-- A resource is claimed, or refused: twice in this document, under a retrieval URI, or where a
-- document holds another schema.
unfoldable pub stage_resource : Indexes → String → StagedResource → Staging → Fallible Staging
unfolding set_entry
stage_resource i uri res stage = do
  throw_if (is_some (lookup uri stage.resources)) (duplicate_resource uri)
  throw_if (is_some (lookup uri i.aliases)) (duplicate_resource uri)
  throw_if (differs (lookup uri i.documents) res.node) (duplicate_resource uri)
  returns (record stage { resources = set_entry uri res stage.resources })

abbrev pub other_node : Option StagedAnchor → Node → Bool
unfolding same_node
other_node none node = false
other_node (some prior) node = not (same_node prior.node node)

abbrev pub was_dynamic : Option StagedAnchor → Bool
was_dynamic none = false
was_dynamic (some prior) = prior.dynamic

abbrev pub with_anchor : String → StagedAnchor → StagedResource → StagedResource
unfolding set_entry
with_anchor name a res = record res { anchors = set_entry name a res.anchors }

-- The resource is the one staged under its URI.
unfoldable pub stage_anchor : String → String → Node → String → Bool → Staging → Fallible Staging
unfolding set_entry other_node with_anchor
stage_anchor resource_uri name node pointer dynamic stage = do
  res ← found_or (lookup resource_uri stage.resources) (foreign "TypeError")
  let prior = lookup name res.anchors
  throw_if (other_node prior node) (duplicate_anchor resource_uri name)
  returns (record stage {
    resources =
        set_entry resource_uri
          (with_anchor name
            (record { node = node; pointer = pointer; dynamic = dynamic || was_dynamic prior }) res)
          stage.resources;
  })
