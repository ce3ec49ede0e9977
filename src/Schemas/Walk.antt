-- ===== src/Schemas/Walk.antt =====
-- packages/core/src/registry.ts: the walk of a document, `SchemaRegistry.walk`. It recurses on fuel
-- beside the depth that it counts as the source does.
pub mod Keeps
pub mod Fuel
use Prim.Native.String.{◌++◌ as str_append}
use json_schema_engine.Base.{
  ℕ, zero, suc, ◌+◌, ◌==◌, ltb, Bool, true, false, ◌||◌, ◌&&◌, not, Option, none, some, List, [],
  ◌∷◌, String, str_eq, if◌then◌else◌, get_elem?,
}
use json_schema_engine.Json.{
  Json, boolean, string, object, array, Members, elements, entries, lookup, is_some,
}
use json_schema_engine.Json.Pointer.{escape_segment}
use json_schema_engine.Cursor.{Segment, key, index, segment_text}
use json_schema_engine.Engine.Program.{DialectKeyword}
use json_schema_engine.Dialects.{RegisteredDialect, or_default}
use json_schema_engine.Dialects.Identifiers.{IdentifierFacts}
use json_schema_engine.Schemas.Entries.{with_name, with_names}
use json_schema_engine.Schemas.Fallible.{
  Fallible, returns, throws, SchemaError, invalid_schema, max_depth_exceeded, foreign, out_of_fuel,
  ◌>>=◌, ◌>>◌, throw_if,
}
use json_schema_engine.Schemas.Uri.{is_empty, resolved_resource}
use json_schema_engine.Schemas.State.{
  Node, StaticFacts, Setting, Dialects, extract, DocumentLocation, StagedResource, Staging, Indexes,
}
use json_schema_engine.Schemas.Stage.{check_base_id, resource_dialect, stage_resource, stage_anchor}

-- Where the walk is: the parameters that a call hands on.
pub record Place : Type 0 where
  pub base_uri : String
  pub pointer : String
  pub document_uri : String
  pub document_pointer : String
  pub dialect : RegisteredDialect

abbrev pub location_text : Place → String
location_text at = str_append at.base_uri (str_append "#" at.pointer)

-- `"/" + escapeSegment(name)`
unfoldable pub hop : String → String
unfolding escape_segment
hop name = str_append "/" (escape_segment name)

abbrev part : Node → String → Json → Node
part n name json = record {
  object_number = n.object_number;
  place = str_append n.place (hop name);
  json = json;
}

abbrev element_at : List Json → ℕ → Option Json
element_at xs i = get_elem? xs i

abbrev pub part_of : Node → String → Option Json → Option Node
part_of n name none = none
part_of n name (some json) = some (part n name json)

-- `ids.anchors ?? []`
unfoldable pub claim_anchors : Node → Place → List String → Staging → Fallible Staging
claim_anchors node at [] stage = returns stage
claim_anchors node at (name ∷ rest) stage = do
  stage' ← stage_anchor at.base_uri name node at.pointer false stage
  claim_anchors node at rest stage'

abbrev pub claim_dynamic : Node → Place → Option String → Staging → Fallible Staging
claim_dynamic node at none stage = returns stage
claim_dynamic node at (some name) stage = stage_anchor at.base_uri name node at.pointer true stage

abbrev pub mark_root : List (String × StagedResource) → String → List (String × StagedResource)
mark_root [] uri = []
mark_root ((k, res) ∷ rest) uri =
    (k, if str_eq k uri then record res { recursive_root = true } else res) ∷ mark_root rest uri

-- `$recursiveAnchor` counts at the root of a resource.
unfoldable pub claim_recursive : Place → Bool → Staging → Staging
claim_recursive at flag stage =
    if flag && is_empty at.pointer
    then record stage { resources = mark_root stage.resources at.base_uri }
    else stage

unfoldable pub claim : Node → Place → IdentifierFacts → Staging → Fallible Staging
claim node at ids stage = do
  s ← claim_anchors node at (or_default ids.anchors []) stage
  t ← claim_dynamic node at ids.dynamic_anchor s
  returns (claim_recursive at ids.recursive_anchor t)

-- `stage.pending.add(…)`, in a `try` that lets every failure go.
unfoldable pub add_pending : Fallible String → Staging → Staging
unfolding with_name
add_pending (returns resource) stage = record stage { pending = with_name resource stage.pending }
add_pending (throws e) stage = stage

abbrev pub screened :
    Option (String → String → Option SchemaError) → String → List String → Fallible (Unit {0})
screened none location patterns = returns tt
screened (some screen) location [] = returns tt
screened (some screen) location (rx ∷ rest) = elim (screen rx location) [
  | some e ↦ throws e
  | none ↦ screened (some screen) location rest
]

module _ (setting : Setting) (dialects : Dialects) (indexes : Indexes) where
  -- A nested `$id` starts a resource: the walk goes on in it, under its own dialect.
  unfoldable pub enter_resource :
      Node → Members → Place → String → Staging → Fallible (IdentifierFacts × Place × Staging)
  enter_resource node ms at base_id stage = do
    check_base_id base_id (location_text at)
    base ← resolved_resource setting.parser base_id at.base_uri
    dialect ← resource_dialect setting.parser dialects node.json base at.dialect
    let res : StagedResource = record {
      node = node;
      dialect_uri = dialect.uri;
      location = record { document_uri = at.document_uri; pointer = at.document_pointer };
      parent = some at.base_uri;
      pointer_in_parent = at.pointer;
      anchors = [];
      recursive_root = false;
    }
    stage' ← stage_resource indexes base res stage
    returns (
      record (extract dialect.identifiers (entries ms)) { base_id = some base_id },
      record at { base_uri = base; pointer = ""; dialect = dialect },
      stage',
    )

  -- At the root the identifier is the document's own.
  unfoldable pub entered_by :
      Option String
      → Node
      → Members
      → Place
      → IdentifierFacts
      → Staging
      → Fallible (IdentifierFacts × Place × Staging)
  unfolding enter_resource
  entered_by none node ms at ids stage = returns (ids, at, stage)
  entered_by (some base_id) node ms at ids stage =
      if is_empty at.pointer
      then returns (ids, at, stage)
      else enter_resource node ms at base_id stage

  unfoldable pub entered :
      Node
      → Members
      → Place
      → IdentifierFacts
      → Staging
      → Fallible (IdentifierFacts × Place × Staging)
  unfolding entered_by
  entered node ms at ids stage = entered_by ids.base_id node ms at ids stage

  unfoldable pub add_references : String → List String → Staging → Staging
  unfolding resolved_resource
  add_references base [] stage = stage
  add_references base (ref ∷ rest) stage =
      add_references base rest (add_pending (resolved_resource setting.parser ref base) stage)

  unfoldable pub record_facts : String → StaticFacts → Staging → Staging
  unfolding with_name with_names
  record_facts id facts stage = record stage {
    produced = with_names facts.produces stage.produced;
    consumed = with_names facts.consumes stage.consumed;
    coverage_producers =
        if is_some facts.evaluates_names || is_some facts.evaluates_indexes
        then with_name id stage.coverage_producers
        else stage.coverage_producers;
  }

  -- `child[seg]`, in a keyword's value; a name of an array, which no keyword of the 2020-12
  -- vocabularies gives, leads nowhere here; what has no such part is undefined, and undefined has no parts.
  abbrev select : Node → Segment → Fallible (Option Node)
  select n seg = elim n.json [
    | array xs ↦ elim seg [
      | index i ↦ returns (part_of n (setting.index_text i) (element_at (elements xs) i))
      | key k ↦ returns none
    ]
    | object ms ↦
        let k = segment_text setting.index_text seg in returns (part_of n k (lookup k (entries ms)))
    | Json.null ↦ throws (foreign "TypeError")
    | _ ↦ returns none
  ]

  unfoldable pub follow_path : List Segment → Option Node → String → Fallible (Option Node × String)
  unfolding segment_text
  follow_path [] child suffix = returns (child, suffix)
  follow_path (seg ∷ rest) none suffix = throws (foreign "TypeError")
  follow_path (seg ∷ rest) (some n) suffix = select n seg >>= λ child.
      follow_path rest child (str_append suffix (hop (segment_text setting.index_text seg)))

  abbrev pub place_below : Place → String → Place
  place_below at suffix = record at {
    pointer = str_append at.pointer suffix;
    document_pointer = str_append at.document_pointer suffix;
  }

  -- The loops of a schema object, with the recursive call of the walk as `descend`.
  module _ (descend : Option Node → Place → Staging → Fallible Staging) where
    unfoldable pub walk_positions :
        Node → String → Place → List (List Segment) → Staging → Fallible Staging
    walk_positions value name at [] stage = returns stage
    walk_positions value name at (path ∷ rest) stage = do
      reached ← follow_path path (some value) (hop name)
      stage' ← descend reached.0 (place_below at reached.1) stage
      walk_positions value name at rest stage'

    unfoldable pub walk_facts :
        Node → String → Place → String → StaticFacts → Staging → Fallible Staging
    unfolding add_references
    walk_facts value name at id facts stage = do
      screened setting.screen (str_append (location_text at) (hop name)) facts.regexes
      walk_positions value name at facts.subschemas
          (add_references at.base_uri facts.references (record_facts id facts stage))

    unfoldable pub walk_analyzed :
        Option (Json → Members → Fallible StaticFacts)
        → String
        → Node
        → Members
        → Place
        → String × Json
        → Staging
        → Fallible Staging
    unfolding walk_facts
    walk_analyzed none id node ms at entry stage = returns stage
    walk_analyzed (some analyze) id node ms at (name, value) stage =
        analyze value ms >>= λ facts. walk_facts (part node name value) name at id facts stage

    unfoldable pub walk_found :
        Option DialectKeyword → Node → Members → Place → String × Json → Staging → Fallible Staging
    unfolding walk_analyzed
    walk_found none node ms at entry stage = returns stage
    walk_found (some k) node ms at entry stage =
        walk_analyzed (setting.analyze k.behavior) k.behavior.id node ms at entry stage

    unfoldable pub walk_keyword :
        Bool → Node → Members → Place → String × Json → Staging → Fallible Staging
    unfolding walk_found
    walk_keyword ref_only node ms at entry stage =
        if ref_only && not (str_eq entry.0 "$ref")
        then returns stage
        else walk_found (lookup entry.0 at.dialect.keywords) node ms at entry stage

    -- Beside a `$ref` the siblings are passed over, where the dialect says so.
    unfoldable pub walk_keywords :
        Bool → Node → Members → Place → List (String × Json) → Staging → Fallible Staging
    walk_keywords ref_only node ms at [] stage = returns stage
    walk_keywords ref_only node ms at (entry ∷ rest) stage =
        walk_keyword ref_only node ms at entry stage >>= walk_keywords ref_only node ms at rest

    unfoldable pub walk_object : Node → Members → Place → Staging → Fallible Staging
    unfolding entered
    walk_object node ms at stage = do
      found ← entered node ms at (extract at.dialect.identifiers (entries ms)) stage
      let (ids, at', stage') = found
      claimed ← claim node at' ids stage'
      walk_keywords (at'.dialect.ref_ignores_siblings && is_some (lookup "$ref" (entries ms))) node
          ms at' (entries ms) claimed

    -- A boolean has no parts, and what is no schema is refused.
    unfoldable pub walk_value : Json → Node → Place → Staging → Fallible Staging
    unfolding walk_object
    walk_value (boolean b) node at stage = returns stage
    walk_value (object ms) node at stage = walk_object node ms at stage
    walk_value _ node at stage = throws (invalid_schema (location_text at))

    unfoldable pub walk_node : Option Node → Place → Staging → Fallible Staging
    unfolding walk_value
    walk_node none at stage = throws (invalid_schema (location_text at))
    walk_node (some node) at stage = walk_value node.json node at stage

  unfoldable pub walk : ℕ → ℕ → Option Node → Place → Staging → Fallible Staging
  unfolding walk_node
  walk zero depth target at stage = throws out_of_fuel
  walk (suc fuel) depth target at stage =
      throw_if (ltb setting.max_depth depth) max_depth_exceeded >>= λ _.
      walk_node (walk fuel (depth + 1)) target at stage
