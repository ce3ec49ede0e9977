-- ===== src/Tests/Schemas.antt =====
-- Documents registered, found and removed, on a small dialect.
use json_schema_engine.Base.{
  ℕ, ltb, ◌≡◌, ◌≢◌, refl, true, false, ◌&&◌, none, some, List, [], ◌∷◌, String, if◌then◌else◌,
  arith,
}
use json_schema_engine.Json.{Json, boolean, string, object, array, nil, cons, end, member, lookup}
use json_schema_engine.Engine.Program.{Program, DialectKeyword}
use json_schema_engine.Keywords.Schema.{core_id}
use json_schema_engine.Keywords.InPlace.{applicator_id}
use json_schema_engine.Dialects.{RegisteredDialect, syntax2020, or_default}
use json_schema_engine.Schemas.Fallible.{Fallible, returns, ◌>>=◌, throw_if, max_depth_exceeded}
use json_schema_engine.Schemas.State.{empty_indexes, Staging, Node, Dialects}
use json_schema_engine.Schemas.Facts.{analyses, array_analysis}
use json_schema_engine.Schemas.Entries.{has_name}
use json_schema_engine.Schemas.Uri.{SplitUri, split_fragment}
use json_schema_engine.Schemas.Stage.{RootIdentity, identify}
use json_schema_engine.Schemas.Walk.{Place, walk_node, walk}
use json_schema_engine.Schemas.Commit.{owned_by}
use json_schema_engine.Schemas.Locate.{
  and_then, canonical, root_node, resolution, dynamic_resolution, recursive_resolution,
}
use json_schema_engine.Schemas.Register.{register, unregister, SchemaRegistry, new_registry}
use json_schema_engine.Schemas.Register.Found.{Finds, register_found}
use json_schema_engine.Schemas.Resolve.{resolve_ref, dynamic_reference, recursive_reference}
use json_schema_engine.Schemas.Calls.Current.{lookups_current}
use json_schema_engine.Schemas.Calls.Consistent.{after_calls-IsConsistent}
use json_schema_engine.Schemas.Commit.Consistent.{IsConsistent}
use json_schema_engine.Schemas.Commit.Lookups.{entry, no_entry}
use json_schema_engine.Schemas.Walk.Fuel.{walk-recursion}
use json_schema_engine.Schemas.Facts.Positions.{AllThere, analyses_there}
use json_schema_engine.Schemas.Register.Removed.{unregister_removes}
use json_schema_engine.Tests.Settings.{setting, registering}
use json_schema_engine.Schemas.Calls.{
  Call, registers, unregisters, resolves, view_at, registered, or_before, after_calls,
}

abbrev keyword : String → String → String × DialectKeyword
keyword name id = (
  name,
  record {
    name = name;
    behavior = record {
      id = id;
      phase = 0;
      structural = false;
      evaluate = λ v c ms. Program.done true;
    };
    vocabulary_uri = "urn:v";
  },
)

abbrev small_dialect : RegisteredDialect
small_dialect = record {
  uri = "urn:d";
  keywords =
      keyword "$defs" (core_id "$defs")
      ∷ keyword "$ref" (core_id "$ref")
      ∷ keyword "allOf" (applicator_id "allOf")
      ∷ [];
  ordered = [];
  vocabulary_uris = "urn:v" ∷ [];
  allow_unknown_keywords = true;
  identifiers = syntax2020;
  ref_ignores_siblings = false;
}

abbrev history : ℕ → Dialects
history g = ("urn:d", small_dialect) ∷ []

abbrev one : String → Json → Json
one name v = object (member name v end)

-- `{"$id": "urn:b", "$defs": {"q": {"$id": "urn:r", "$anchor": "x"}}}`
abbrev embedding : Json
embedding = object (
    member "$id" (string "urn:b") (
      member "$defs"
        (one "q" (object (member "$id" (string "urn:r") (member "$anchor" (string "x") end)))) end))

abbrev root : Node
root = record { object_number = 0; place = ""; json = embedding }

abbrev empty : SchemaRegistry
empty = new_registry (view_at history 0)

abbrev done_from : String → Fallible (String × SchemaRegistry)
unfolding registering
done_from uri = registering (view_at history 0) root uri empty

abbrev after : SchemaRegistry
unfolding done_from
after = registered empty (done_from "urn:a")

done_returns :
    register setting (view_at history 0) root "urn:a" none none none empty
    ≡ returns ("urn:b", after)
unfolding after done_from
done_returns = refl

-- The document is found under both its names.
found : root_node "urn:a" after.indexes ≡ some root
unfolding after root_node canonical
found = refl

embedded_found : (and_then (root_node "urn:r" after.indexes) (λ n. some n.place)) ≡ some "/$defs/q"
unfolding after root_node canonical
embedded_found = refl

register_found_example :
    (id : RootIdentity) × (identify setting.parser setting.default_dialect_uri
        (history 0)
        embedding
        "urn:a"
        none
      ≡ returns id)
    × (id.base_uri ≡ "urn:b")
    × Finds root id "urn:b" after.indexes
    × Finds root id id.retrieval_resource after.indexes
register_found_example =
    register_found setting (view_at history 0) root "urn:a" none none none empty after "urn:b"
      done_returns

-- A retrieval URI that the document's own part claims leads to the root, and the part is out of reach.
abbrev shadowing : SchemaRegistry
unfolding done_from
shadowing = registered empty (done_from "urn:r")

part_written :
    and_then (lookup "urn:r" shadowing.indexes.documents) (λ n. some n.place) ≡ some "/$defs/q"
unfolding shadowing
part_written = refl

part_shadowed : root_node "urn:r" shadowing.indexes ≡ some root
unfolding shadowing root_node canonical
part_shadowed = refl

-- A document, a reference to its part that is asked for twice, one that fails, and a removal.
abbrev calls : List (ℕ × Call)
calls =
    (0, registers root "urn:a" none none none)
    ∷ (0, resolves "#x" "urn:r")
    ∷ (0, resolves "urn:c" "urn:b")
    ∷ (1, resolves "#x" "urn:r")
    ∷ (1, unregisters "urn:b")
    ∷ []

lookups_current_example :
    let r = after_calls setting history calls (new_registry (view_at history 0)) in
    ((resolve_ref setting (view_at history 1) "#x" "urn:r" r).0
      ≡ resolution setting (history 1) r.indexes "#x" "urn:r")
    × ((dynamic_reference setting (view_at history 1) "#x" "urn:r" r).0
        ≡ dynamic_resolution setting (history 1) r.indexes "#x" "urn:r")
    × ((recursive_reference setting (view_at history 1) "#x" "urn:r" r).0
        ≡ recursive_resolution setting (history 1) r.indexes "#x" "urn:r")
lookups_current_example = lookups_current setting history calls 0 1 "#x" "urn:r"

after_calls-IsConsistent_example :
    IsConsistent (after_calls setting history calls (new_registry (view_at history 0))).indexes
after_calls-IsConsistent_example = after_calls-IsConsistent setting history calls 0

abbrev root_place : Place
root_place = record {
  base_uri = "urn:b";
  pointer = "";
  document_uri = "urn:b";
  document_pointer = "";
  dialect = small_dialect;
}

abbrev new_stage : Staging
new_stage = record {
  document_uri = "urn:b";
  retrieval_resource = "urn:b";
  rebinding = false;
  resources = [];
  produced = [];
  consumed = [];
  coverage_producers = [];
  pending = [];
}

walk-recursion_example :
    walk setting (history 0) empty_indexes 10 7 (some root) root_place new_stage ≡ (
      throw_if (ltb setting.max_depth 7) max_depth_exceeded >>= λ u.
      walk_node setting
        (history 0)
        empty_indexes
        (walk setting (history 0) empty_indexes 2 8)
        (some root)
        root_place
        new_stage)
unfolding setting
walk-recursion_example =
    walk-recursion setting (history 0) empty_indexes 10 2 7 (some root) root_place new_stage
      (omega arith) (omega arith) (omega arith)

-- Two branches of an `allOf`.
abbrev branches : Node
branches = record {
  object_number = 0;
  place = "/allOf";
  json = array (cons (boolean true) (cons (boolean false) nil));
}

all_of_listed : lookup (applicator_id "allOf") analyses ≡ some array_analysis
unfolding analyses lookup
all_of_listed = refl

analyses_there_example :
    AllThere setting
      (history 0)
      empty_indexes
      branches
      "/allOf"
      (array_analysis branches.json end).subschemas
unfolding analyses array_analysis
analyses_there_example =
    analyses_there setting (history 0) empty_indexes (applicator_id "allOf") array_analysis branches
      end "/allOf" all_of_listed

abbrev removed : SchemaRegistry
unfolding after unregister canonical
removed = or_before after (unregister setting (view_at history 0) "urn:a" after)

removed_returns : unregister setting (view_at history 0) "urn:a" after ≡ returns removed
unfolding removed
removed_returns = refl

unregister_removes_example :
    (doc : String) × ((split : SplitUri) × (split_fragment setting.parser "urn:a" ≡ returns split)
      × (canonical split.resource after.indexes ≡ doc))
    × ((k : String)
        → entry k removed.indexes ≡ (
            if has_name k (or_default (lookup doc after.indexes.owned_resources) [])
              && owned_by k doc after.indexes
            then no_entry
            else entry k after.indexes))
    × ((alias t : String) → lookup alias removed.indexes.aliases ≡ some t → t ≢ doc)
unregister_removes_example =
    unregister_removes setting (view_at history 0) "urn:a" after removed removed_returns

part_gone : lookup "urn:r" removed.indexes.documents ≡ none
unfolding removed
part_gone = refl
