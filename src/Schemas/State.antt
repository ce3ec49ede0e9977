-- ===== src/Schemas/State.antt =====
-- packages/core/src/registry.ts and dialect.ts: what a registry holds, and what a registration stages.
-- A schema node is a value with its identity as an object: the document object that it is part of,
-- by a number, and its place there. Refs are values; the caches that only keep the identity of a ref
-- (`interned`, `children`) or of a dialect (`dialectCache`) are left out. Values do not change, so a
-- snapshot copies nothing.
use json_schema_engine.Base.{
  ℕ, ◌==◌, Bool, true, false, ◌||◌, ◌&&◌, if◌then◌else◌, Option, List, [], String, str_eq,
}
use json_schema_engine.Json.{Json, object, array, Members}
use json_schema_engine.Json.Equal.{json_equal}
use json_schema_engine.Cursor.{Segment}
use json_schema_engine.Engine.Program.{KeywordBehavior}
use json_schema_engine.Dialects.{
  RegisteredDialect, IdentifierSyntax, syntax2020, syntax2019, legacy_syntax,
}
use json_schema_engine.Dialects.Identifiers.{
  IdentifierFacts, identifiers2020, identifiers2019, identifiers_legacy,
}
use json_schema_engine.Schemas.Fallible.{Fallible, SchemaError}
use json_schema_engine.Schemas.Uri.{UriParser}

pub record Node : Type 0 where
  pub object_number : ℕ
  pub place : String
  pub json : Json

abbrev pub is_container : Json → Bool
is_container (object ms) = true
is_container (array xs) = true
is_container _ = false

-- `a === b`
unfoldable pub same_node : Node → Node → Bool
same_node a b =
    if is_container a.json || is_container b.json
    then a.object_number == b.object_number && str_eq a.place b.place
    else json_equal a.json b.json

-- `NameCoverage` and `IndexCoverage` of dialect.ts
pub data NameCoverage : Type 0 where
  names : List String → NameCoverage
  patterns : List String → NameCoverage
  all_names : NameCoverage
  dynamic_names : NameCoverage

pub data IndexCoverage : Type 0 where
  prefix : ℕ → IndexCoverage
  all_from : ℕ → IndexCoverage
  all_indexes : IndexCoverage
  dynamic_indexes : IndexCoverage

-- The facts that a registration reads; a list that is absent is empty.
pub record StaticFacts : Type 0 where
  pub subschemas : List (List Segment)
  pub references : List String
  pub produces : List String
  pub consumes : List String
  pub regexes : List String
  pub evaluates_names : Option NameCoverage
  pub evaluates_indexes : Option IndexCoverage

-- What a registry is made with, and the functions of the language that it calls: `index_text` is
-- `String` of an index, and `number_index` the element that `Number` of a text names. `analyze` is the
-- optional method of a behavior, `screen` the callback `onRegex`.
pub record Setting : Type 0 where
  pub parser : UriParser
  pub index_text : ℕ → String
  pub number_index : String → Option ℕ
  pub analyze : KeywordBehavior → Option (Json → Members → Fallible StaticFacts)
  pub screen : Option (String → String → Option SchemaError)
  pub max_depth : ℕ
  pub default_dialect_uri : String

-- `DialectRegistry.getDialect`, with the dialects that are registered at the time.
abbrev pub Dialects : Type 0
Dialects = List (String × RegisteredDialect)

abbrev pub extract : IdentifierSyntax → List (String × Json) → IdentifierFacts
extract syntax2020 node = identifiers2020 node
extract syntax2019 node = identifiers2019 node
extract legacy_syntax node = identifiers_legacy node

pub record DocumentLocation : Type 0 where
  pub document_uri : String
  pub pointer : String

-- A schema position with the identity of its node (`SchemaRef` of ref.ts).
pub record Ref : Type 0 where
  pub node : Node
  pub base_uri : String
  pub pointer : String

pub record StagedAnchor : Type 0 where
  pub node : Node
  pub pointer : String
  pub dynamic : Bool

pub record StagedResource : Type 0 where
  pub node : Node
  pub dialect_uri : String
  pub location : DocumentLocation
  pub parent : Option String
  pub pointer_in_parent : String
  pub anchors : List (String × StagedAnchor)
  pub recursive_root : Bool

pub record Staging : Type 0 where
  pub document_uri : String
  pub retrieval_resource : String
  pub rebinding : Bool
  pub resources : List (String × StagedResource)
  pub produced : List String
  pub consumed : List String
  pub coverage_producers : List String
  pub pending : List String

-- loader.ts
pub record SourcePosition : Type 0 where
  pub line : ℕ
  pub column : ℕ
  pub offset : Option ℕ

pub record SourceSpan : Type 0 where
  pub start : SourcePosition
  pub finish : SourcePosition

pub record SourceRange : Type 0 where
  pub key : Option SourceSpan
  pub value : SourceSpan

abbrev pub RangeLookup : Type 0
RangeLookup = String → Option SourceRange

-- The indexes of `SchemaRegistry`.
pub record Indexes : Type 0 where
  pub documents : List (String × Node)
  pub anchors : List (String × List (String × Ref))
  pub dynamic_anchors : List (String × List (String × Ref))
  pub recursive_roots : List String
  pub produced : List String
  pub consumed : List String
  pub coverage_producers : List String
  pub coverage_consumed : List String
  pub document_dialects : List (String × String)
  pub resource_locations : List (String × DocumentLocation)
  pub owned_resources : List (String × List String)
  pub aliases : List (String × String)
  pub document_ranges : List (String × RangeLookup)

abbrev pub empty_indexes : Indexes
empty_indexes = record {
  documents = [];
  anchors = [];
  dynamic_anchors = [];
  recursive_roots = [];
  produced = [];
  consumed = [];
  coverage_producers = [];
  coverage_consumed = [];
  document_dialects = [];
  resource_locations = [];
  owned_resources = [];
  aliases = [];
  document_ranges = [];
}
