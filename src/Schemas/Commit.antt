-- ===== src/Schemas/Commit.antt =====
-- packages/core/src/registry.ts: a successful walk is applied, and a document is dropped.
pub mod Lookups
pub mod Consistent
use json_schema_engine.Base.{
  Bool, true, false, ◌||◌, ◌&&◌, not, Option, none, some, List, [], ◌∷◌, String, str_eq,
  if◌then◌else◌, any, ◌++◌,
}
use json_schema_engine.Json.{Json, lookup, keys, is_some}
use json_schema_engine.Dialects.{set_entry, or_default}
use json_schema_engine.Schemas.Entries.{has_name, with_name, with_names, without_name, delete_entry}
use json_schema_engine.Schemas.State.{
  Node, same_node, Ref, DocumentLocation, StagedAnchor, StagedResource, Staging, Indexes,
  RangeLookup,
}

-- `this.resourceLocations.get(r)?.documentUri === doc`
abbrev pub located_in : String → Option DocumentLocation → Bool
located_in doc none = false
located_in doc (some l) = str_eq l.document_uri doc

unfoldable pub owned_by : String → String → Indexes → Bool
owned_by r doc i = located_in doc (lookup r i.resource_locations)

-- The entries of one resource.
unfoldable pub drop_resource : String → Indexes → Indexes
unfolding delete_entry without_name
drop_resource r i = record i {
  documents = delete_entry r i.documents;
  document_dialects = delete_entry r i.document_dialects;
  resource_locations = delete_entry r i.resource_locations;
  anchors = delete_entry r i.anchors;
  dynamic_anchors = delete_entry r i.dynamic_anchors;
  recursive_roots = without_name r i.recursive_roots;
}

unfoldable pub drop_owned : String → List String → Indexes → Indexes
unfolding owned_by drop_resource
drop_owned doc [] i = i
drop_owned doc (r ∷ rest) i =
    drop_owned doc rest (if owned_by r doc i then drop_resource r i else i)

unfoldable pub without_target : String → List (String × String) → List (String × String)
without_target doc [] = []
without_target doc ((alias, target) ∷ rest) =
    let later = without_target doc rest in
    if str_eq target doc then later else (alias, target) ∷ later

unfoldable pub evict : String → Indexes → Indexes
unfolding drop_owned delete_entry without_target
evict doc i =
    let j = drop_owned doc (or_default (lookup doc i.owned_resources) []) i in
    record j {
      owned_resources = delete_entry doc j.owned_resources;
      document_ranges = delete_entry doc j.document_ranges;
      aliases = without_target doc j.aliases;
    }

-- The first loop of a commit: the entries of a staged resource.
unfoldable pub write_resource : String → StagedResource → Indexes → Indexes
unfolding set_entry with_name without_name
write_resource uri res i = record i {
  documents = set_entry uri res.node i.documents;
  document_dialects = set_entry uri res.dialect_uri i.document_dialects;
  resource_locations = set_entry uri res.location i.resource_locations;
  recursive_roots =
      if res.recursive_root
      then with_name uri i.recursive_roots
      else without_name uri i.recursive_roots;
}

unfoldable pub write_resources : List (String × StagedResource) → Indexes → Indexes
unfolding write_resource
write_resources [] i = i
write_resources ((uri, res) ∷ rest) i = write_resources rest (write_resource uri res i)

-- The roots of other documents that this one embeds, by the locations before the loop.
unfoldable pub absorbed : String → List (String × StagedResource) → Indexes → List String
unfolding owned_by
absorbed document_uri [] i = []
absorbed document_uri ((uri, res) ∷ rest) i =
    let later = absorbed document_uri rest i in
    if owned_by uri uri i && not (str_eq uri document_uri) then uri ∷ later else later

unfoldable pub drop_absorbed : List String → Indexes → Indexes
unfolding delete_entry
drop_absorbed [] i = i
drop_absorbed (doc ∷ rest) i = drop_absorbed rest (record i {
  owned_resources = delete_entry doc i.owned_resources;
  document_ranges = delete_entry doc i.document_ranges;
})

abbrev pub ref_to : String → StagedAnchor → Ref
ref_to uri a = record { node = a.node; base_uri = uri; pointer = a.pointer }

unfoldable pub plain_refs : String → List (String × StagedAnchor) → List (String × Ref)
plain_refs uri [] = []
plain_refs uri ((name, a) ∷ rest) = (name, ref_to uri a) ∷ plain_refs uri rest

unfoldable pub dynamic_refs : String → List (String × StagedAnchor) → List (String × Ref)
dynamic_refs uri [] = []
dynamic_refs uri ((name, a) ∷ rest) =
    let later = dynamic_refs uri rest in if a.dynamic then (name, ref_to uri a) ∷ later else later

-- `if (refs.size > 0) map.set(uri, refs)`, where the entry was dropped before.
unfoldable pub put_refs :
    String
    → List (String × Ref)
    → List (String × List (String × Ref))
    → List (String × List (String × Ref))
unfolding set_entry delete_entry
put_refs uri [] m = delete_entry uri m
put_refs uri (ref ∷ refs) m = set_entry uri (ref ∷ refs) (delete_entry uri m)

unfoldable pub write_anchors : List (String × StagedResource) → Indexes → Indexes
unfolding put_refs plain_refs dynamic_refs
write_anchors [] i = i
write_anchors ((uri, res) ∷ rest) i = write_anchors rest (record i {
  anchors = put_refs uri (plain_refs uri res.anchors) i.anchors;
  dynamic_anchors = put_refs uri (dynamic_refs uri res.anchors) i.dynamic_anchors;
})

-- The names of the first list that the second has.
unfoldable pub both_have : List String → List String → List String
both_have [] other = []
both_have (k ∷ ks) other =
    let rest = both_have ks other in if has_name k other then k ∷ rest else rest

unfoldable pub write_ids : Staging → Indexes → Indexes
unfolding with_names both_have
write_ids stage i =
    let produced = with_names stage.produced i.produced in
    let consumed = with_names stage.consumed i.consumed in
    let producers = with_names stage.coverage_producers i.coverage_producers in
    record i {
      produced = produced;
      consumed = consumed;
      coverage_producers = producers;
      coverage_consumed =
          with_names (both_have stage.coverage_producers consumed)
            (with_names (both_have stage.consumed producers) i.coverage_consumed);
    }

abbrev pub put_range :
    String → Option RangeLookup → List (String × RangeLookup) → List (String × RangeLookup)
unfolding set_entry
put_range doc none m = m
put_range doc (some range) m = set_entry doc range m

unfoldable pub write_document : Staging → Option RangeLookup → Indexes → Indexes
unfolding set_entry put_range
write_document stage range i = record i {
  owned_resources = set_entry stage.document_uri (keys stage.resources) i.owned_resources;
  aliases =
      if str_eq stage.retrieval_resource stage.document_uri
      then i.aliases
      else set_entry stage.retrieval_resource stage.document_uri i.aliases;
  document_ranges = put_range stage.document_uri range i.document_ranges;
}

-- `commit`, but for the pending references and the memos.
unfoldable pub commit : Staging → Option RangeLookup → Indexes → Indexes
unfolding evict write_resources absorbed drop_absorbed write_document write_anchors write_ids
commit stage range i =
    let start = if stage.rebinding then evict stage.document_uri i else i in
    write_ids stage (
      write_anchors stage.resources (
        write_document stage range (
          drop_absorbed (absorbed stage.document_uri stage.resources start)
            (write_resources stage.resources start))))
