-- ===== src/Schemas/Commit/Consistent.antt =====
-- packages/core/src/registry.ts: the indexes agree on what is registered.
use json_schema_engine.Base.{
  ◌≡◌, refl, subst, Bool, true, ◌||◌, not, Option, List, [], ◌∷◌, String, str_eq, str_eq_iff, arith,
  if_holds, Bool-cases, inl, inr,
}
use json_schema_engine.Json.{lookup, is_some}
use json_schema_engine.Dialects.{or_default}
use json_schema_engine.Schemas.Entries.{
  has_name, delete_entry, lookup-set_entry, lookup-delete_entry, has_name-with_name,
  has_name-without_name, str_eq_refl,
}
use json_schema_engine.Schemas.State.{Node, Ref, StagedResource, Staging, Indexes, RangeLookup}
use json_schema_engine.Schemas.Commit.{
  drop_resource, drop_owned, owned_by, evict, write_resource, write_resources, drop_absorbed,
  put_refs, plain_refs, dynamic_refs, write_anchors, write_ids, write_document, commit,
}
use json_schema_engine.Schemas.Commit.Lookups.{commit_start, before_anchors, embedded}

-- `a` only where `b`
abbrev only_where : Bool → Bool → Bool
only_where a b = not a || b

-- What the indexes say of one URI: its node, dialect and location stand or fall together, and it has
-- anchors or a recursive root only where it has a node.
pub record IsConsistentAt (uri : String) (i : Indexes) : Type 0 where
  pub dialects : is_some (lookup uri i.document_dialects) ≡ is_some (lookup uri i.documents)
  pub locations : is_some (lookup uri i.resource_locations) ≡ is_some (lookup uri i.documents)
  pub anchors : (not (is_some (lookup uri i.anchors)) || is_some (lookup uri i.documents)) ≡ true
  pub dynamic :
      (not (is_some (lookup uri i.dynamic_anchors)) || is_some (lookup uri i.documents)) ≡ true
  pub roots : (not (has_name uri i.recursive_roots) || is_some (lookup uri i.documents)) ≡ true

abbrev pub IsConsistent : Indexes → Type 0
IsConsistent i = (uri : String) → IsConsistentAt uri i

drop_resource-IsConsistentAt :
    (r uri : String) (i : Indexes) → IsConsistentAt uri i → IsConsistentAt uri (drop_resource r i)
unfolding drop_resource
drop_resource-IsConsistentAt r uri i h = record {
  dialects =
      rw (lookup-delete_entry r uri i.document_dialects, lookup-delete_entry r uri i.documents)
        (ground (arith, h.dialects));
  locations =
      rw (lookup-delete_entry r uri i.resource_locations, lookup-delete_entry r uri i.documents)
        (ground (arith, h.locations));
  anchors =
      rw (lookup-delete_entry r uri i.anchors, lookup-delete_entry r uri i.documents)
        (ground (arith, h.anchors));
  dynamic =
      rw (lookup-delete_entry r uri i.dynamic_anchors, lookup-delete_entry r uri i.documents)
        (ground (arith, h.dynamic));
  roots =
      rw (has_name-without_name r uri i.recursive_roots, lookup-delete_entry r uri i.documents)
        (ground (arith, h.roots));
}

write_resource-IsConsistentAt :
    (k uri : String) (res : StagedResource) (i : Indexes)
    → IsConsistentAt uri i
    → IsConsistentAt uri (write_resource k res i)
unfolding write_resource
write_resource-IsConsistentAt k uri res i h = record {
  dialects =
      rw
        (
          lookup-set_entry k uri res.dialect_uri i.document_dialects,
          lookup-set_entry k uri res.node i.documents,
        )
        (ground (arith, h.dialects));
  locations =
      rw
        (
          lookup-set_entry k uri res.location i.resource_locations,
          lookup-set_entry k uri res.node i.documents,
        )
        (ground (arith, h.locations));
  anchors = rw (lookup-set_entry k uri res.node i.documents) (ground (arith, h.anchors));
  dynamic = rw (lookup-set_entry k uri res.node i.documents) (ground (arith, h.dynamic));
  roots = rw (lookup-set_entry k uri res.node i.documents) (
      ground (
        arith,
        h.roots,
        has_name-with_name k uri i.recursive_roots,
        has_name-without_name k uri i.recursive_roots,
      ));
}

-- A resource whose anchors are written has a node.
abbrev AllPresent : List (String × StagedResource) → Indexes → Type 0
AllPresent [] i = Unit {0}
AllPresent ((k, res) ∷ rest) i = (is_some (lookup k i.documents) ≡ true) × AllPresent rest i

lookup-put_refs_none :
    (k uri : String) (refs : List (String × Ref)) (m : List (String × List (String × Ref)))
    → (is_some (lookup uri (put_refs k refs m)) || str_eq k uri)
      ≡ (is_some (lookup uri m) || str_eq k uri)
unfolding put_refs
lookup-put_refs_none k uri [] m = rw (lookup-delete_entry k uri m) (ground arith)
lookup-put_refs_none k uri (r ∷ refs) m =
    rw (lookup-set_entry k uri (r ∷ refs) (delete_entry k m), lookup-delete_entry k uri m)
      (ground arith)

-- Anchors put under a resource that is there, by what was under the URI before.
put_refs_present :
    (k uri : String) (refs : List (String × Ref)) (m : List (String × List (String × Ref)))
    (docs : List (String × Node))
    → is_some (lookup k docs) ≡ true
    → (not (is_some (lookup uri m)) || is_some (lookup uri docs)) ≡ true
    → (not (is_some (lookup uri (put_refs k refs m))) || is_some (lookup uri docs)) ≡ true
put_refs_present k uri refs m docs h p = elim (Bool-cases (str_eq k uri)) [
  | inl e ↦
      let there : is_some (lookup uri docs) ≡ true =
        subst (λ j. is_some (lookup j docs) ≡ true) ((str_eq_iff k uri).0 e) h in
      ground (arith, there)
  | inr e ↦ ground (arith, e, p, lookup-put_refs_none k uri refs m)
]

drop_owned-IsConsistentAt :
    (doc uri : String) (rs : List String) (i : Indexes)
    → IsConsistentAt uri i
    → IsConsistentAt uri (drop_owned doc rs i)
unfolding drop_owned
drop_owned-IsConsistentAt doc uri [] i h = h
drop_owned-IsConsistentAt doc uri (r ∷ rs) i h =
    drop_owned-IsConsistentAt doc uri rs _
      (if_holds (IsConsistentAt uri) (owned_by r doc i) (drop_resource-IsConsistentAt r uri i h) h)

pub evict-IsConsistentAt :
    (doc uri : String) (i : Indexes) → IsConsistentAt uri i → IsConsistentAt uri (evict doc i)
unfolding evict
evict-IsConsistentAt doc uri i h =
    let kept =
      drop_owned-IsConsistentAt doc uri (or_default (lookup doc i.owned_resources) []) i h in
    record {
      dialects = kept.dialects;
      locations = kept.locations;
      anchors = kept.anchors;
      dynamic = kept.dynamic;
      roots = kept.roots;
    }

write_resources-IsConsistentAt :
    (uri : String) (rs : List (String × StagedResource)) (i : Indexes)
    → IsConsistentAt uri i
    → IsConsistentAt uri (write_resources rs i)
unfolding write_resources
write_resources-IsConsistentAt uri [] i h = h
write_resources-IsConsistentAt uri ((k, res) ∷ rest) i h =
    write_resources-IsConsistentAt uri rest _ (write_resource-IsConsistentAt k uri res i h)

-- What is written first stays written.
stays_present :
    (uri : String) (rs : List (String × StagedResource)) (i : Indexes)
    → is_some (lookup uri i.documents) ≡ true
    → is_some (lookup uri (write_resources rs i).documents) ≡ true
unfolding write_resources write_resource
stays_present uri [] i h = h
stays_present uri ((k, res) ∷ rest) i h =
    stays_present uri rest (write_resource k res i)
      (rw (lookup-set_entry k uri res.node i.documents) (ground (arith, h)))

written :
    (k : String) (res : StagedResource) (i : Indexes)
    → is_some (lookup k (write_resource k res i).documents) ≡ true
unfolding write_resource
written k res i = rw (lookup-set_entry k k res.node i.documents, str_eq_refl k) refl

-- The same documents have the same resources.
same_documents :
    (rs : List (String × StagedResource)) (i j : Indexes)
    → i.documents ≡ j.documents
    → AllPresent rs i
    → AllPresent rs j
same_documents [] i j e h = tt
same_documents ((k, res) ∷ rest) i j e (p, h) =
    (subst (λ d. is_some (lookup k d) ≡ true) e p, same_documents rest i j e h)

write_resources-AllPresent :
    (rs : List (String × StagedResource)) (i : Indexes) → AllPresent rs (write_resources rs i)
unfolding write_resources
write_resources-AllPresent [] i = tt
write_resources-AllPresent ((k, res) ∷ rest) i = (
  stays_present k rest (write_resource k res i) (written k res i),
  write_resources-AllPresent rest (write_resource k res i),
)

write_anchors-IsConsistentAt :
    (uri : String) (rs : List (String × StagedResource)) (i : Indexes)
    → AllPresent rs i
    → IsConsistentAt uri i
    → IsConsistentAt uri (write_anchors rs i)
unfolding write_anchors
write_anchors-IsConsistentAt uri [] i p h = h
write_anchors-IsConsistentAt uri ((k, res) ∷ rest) i (p, ps) h =
    write_anchors-IsConsistentAt uri rest _ (same_documents rest i _ refl ps) (record {
      dialects = h.dialects;
      locations = h.locations;
      anchors = put_refs_present k uri (plain_refs k res.anchors) i.anchors i.documents p h.anchors;
      dynamic =
          put_refs_present k uri (dynamic_refs k res.anchors) i.dynamic_anchors i.documents p
            h.dynamic;
      roots = h.roots;
    })

drop_absorbed-IsConsistentAt :
    (uri : String) (docs : List String) (i : Indexes)
    → IsConsistentAt uri i
    → IsConsistentAt uri (drop_absorbed docs i)
unfolding drop_absorbed
drop_absorbed-IsConsistentAt uri [] i h = h
drop_absorbed-IsConsistentAt uri (doc ∷ docs) i h =
    drop_absorbed-IsConsistentAt uri docs _ (record {
      dialects = h.dialects;
      locations = h.locations;
      anchors = h.anchors;
      dynamic = h.dynamic;
      roots = h.roots;
    })

documents-drop_absorbed :
    (docs : List String) (i : Indexes) → i.documents ≡ (drop_absorbed docs i).documents
unfolding drop_absorbed
documents-drop_absorbed [] i = refl
documents-drop_absorbed (doc ∷ docs) i = documents-drop_absorbed docs _

pub commit-IsConsistentAt :
    (uri : String) (stage : Staging) (range : Option RangeLookup) (i : Indexes)
    → IsConsistentAt uri i
    → IsConsistentAt uri (commit stage range i)
unfolding commit write_ids write_document before_anchors embedded
commit-IsConsistentAt uri stage range i h =
    let start = commit_start stage i in
    let docs = embedded stage i in
    let began =
      if_holds (IsConsistentAt uri) stage.rebinding
        (evict-IsConsistentAt stage.document_uri uri i h) h in
    let wrote =
      drop_absorbed-IsConsistentAt uri docs _
        (write_resources-IsConsistentAt uri stage.resources start began) in
    let there =
      same_documents stage.resources (write_resources stage.resources start)
        (before_anchors stage range i)
        (documents-drop_absorbed docs (write_resources stage.resources start))
        (write_resources-AllPresent stage.resources start) in
    let done =
      write_anchors-IsConsistentAt uri stage.resources (before_anchors stage range i) there
        (record {
          dialects = wrote.dialects;
          locations = wrote.locations;
          anchors = wrote.anchors;
          dynamic = wrote.dynamic;
          roots = wrote.roots;
        }) in
    record {
      dialects = done.dialects;
      locations = done.locations;
      anchors = done.anchors;
      dynamic = done.dynamic;
      roots = done.roots;
    }
