-- ===== src/Schemas/Commit/Lookups.antt =====
-- packages/core/src/registry.ts: what a commit and an eviction leave under each URI.
use json_schema_engine.Base.{
  ◌≡◌, refl, ap, ◌∙◌, Bool, true, false, Option, none, some, List, [], ◌∷◌, String, str_eq,
  if◌then◌else◌, arith, if_holds,
}
use json_schema_engine.Json.{lookup, is_some}
use json_schema_engine.Dialects.{set_entry, or_default}
use json_schema_engine.Schemas.Entries.{lookup-set_entry, lookup-delete_entry}
use json_schema_engine.Schemas.State.{
  Node, DocumentLocation, StagedResource, Staging, Indexes, RangeLookup,
}
use json_schema_engine.Schemas.Commit.{
  owned_by, drop_resource, drop_owned, evict, write_resource, write_resources, absorbed,
  drop_absorbed, write_anchors, write_ids, write_document, commit, without_target,
}

-- The entries of a resource in the three indexes that a commit writes together.
pub record Entry : Type 0 where
  pub node : Option Node
  pub dialect_uri : Option String
  pub location : Option DocumentLocation

abbrev pub entry : String → Indexes → Entry
entry uri i = record {
  node = lookup uri i.documents;
  dialect_uri = lookup uri i.document_dialects;
  location = lookup uri i.resource_locations;
}

abbrev pub no_entry : Entry
no_entry = record { node = none; dialect_uri = none; location = none }

abbrev pub staged_entry : StagedResource → Entry
staged_entry res = record {
  node = some res.node;
  dialect_uri = some res.dialect_uri;
  location = some res.location;
}

pub entry-drop_resource :
    (r uri : String) (i : Indexes)
    → entry uri (drop_resource r i) ≡ (if str_eq r uri then no_entry else entry uri i)
unfolding drop_resource
entry-drop_resource r uri i =
    by_test (str_eq r uri) (lookup-delete_entry r uri i.documents)
      (lookup-delete_entry r uri i.document_dialects)
      (lookup-delete_entry r uri i.resource_locations)
  where
    by_test :
        (b : Bool) {n : Option Node} {d : Option String} {l : Option DocumentLocation}
        → n ≡ (if b then none else lookup uri i.documents)
        → d ≡ (if b then none else lookup uri i.document_dialects)
        → l ≡ (if b then none else lookup uri i.resource_locations)
        → (record { node = n; dialect_uri = d; location = l })
          ≡ (if b then no_entry else entry uri i)
    by_test true p q r = ground (arith, p, q, r)
    by_test false p q r = ground (arith, p, q, r)

entry-write_resource :
    (k uri : String) (res : StagedResource) (i : Indexes)
    → entry uri (write_resource k res i) ≡ (if str_eq k uri then staged_entry res else entry uri i)
unfolding write_resource
entry-write_resource k uri res i =
    by_test (str_eq k uri) (lookup-set_entry k uri res.node i.documents)
      (lookup-set_entry k uri res.dialect_uri i.document_dialects)
      (lookup-set_entry k uri res.location i.resource_locations)
  where
    by_test :
        (b : Bool) {n : Option Node} {d : Option String} {l : Option DocumentLocation}
        → n ≡ (if b then some res.node else lookup uri i.documents)
        → d ≡ (if b then some res.dialect_uri else lookup uri i.document_dialects)
        → l ≡ (if b then some res.location else lookup uri i.resource_locations)
        → (record { node = n; dialect_uri = d; location = l })
          ≡ (if b then staged_entry res else entry uri i)
    by_test true p q r = ground (arith, p, q, r)
    by_test false p q r = ground (arith, p, q, r)

-- Every resource that is staged under the URI has these entries.
abbrev pub AllAt : String → Entry → List (String × StagedResource) → Type 0
AllAt uri e [] = Unit {0}
AllAt uri e ((k, res) ∷ rest) = (str_eq k uri ≡ true → staged_entry res ≡ e) × AllAt uri e rest

pub entry-write_resources :
    (uri : String) (e : Entry) (rs : List (String × StagedResource)) (i : Indexes)
    → AllAt uri e rs
    → entry uri (write_resources rs i) ≡ (if is_some (lookup uri rs) then e else entry uri i)
unfolding write_resources lookup
entry-write_resources uri e [] i h = refl
entry-write_resources uri e ((k, res) ∷ rest) i (p, h) =
    entry-write_resources uri e rest (write_resource k res i) h
    ∙ (ap (λ x. if is_some (lookup uri rest) then e else x) (entry-write_resource k uri res i)
        ∙ by_test (str_eq k uri) (lookup uri rest) p)
  where
    by_test :
        (b : Bool) (o : Option StagedResource)
        → (b ≡ true → staged_entry res ≡ e)
        → (if is_some o then e else if b then staged_entry res else entry uri i)
          ≡ (if is_some (if b then some res else o) then e else entry uri i)
    by_test true (some r) q = refl
    by_test true none q = q refl
    by_test false o q = refl

entry-write_anchors :
    (uri : String) (rs : List (String × StagedResource)) (i : Indexes)
    → entry uri (write_anchors rs i) ≡ entry uri i
unfolding write_anchors
entry-write_anchors uri [] i = refl
entry-write_anchors uri ((k, res) ∷ rest) i = entry-write_anchors uri rest _

entry-drop_absorbed :
    (uri : String) (docs : List String) (i : Indexes)
    → entry uri (drop_absorbed docs i) ≡ entry uri i
unfolding drop_absorbed
entry-drop_absorbed uri [] i = refl
entry-drop_absorbed uri (doc ∷ docs) i = entry-drop_absorbed uri docs _

-- What is evicted first, where a document is registered again.
abbrev pub commit_start : Staging → Indexes → Indexes
commit_start stage i = if stage.rebinding then evict stage.document_uri i else i

-- The steps of a commit up to its anchors.
unfoldable pub embedded : Staging → Indexes → List String
unfolding absorbed
embedded stage i = absorbed stage.document_uri stage.resources (commit_start stage i)

unfoldable pub before_anchors : Staging → Option RangeLookup → Indexes → Indexes
unfolding write_document drop_absorbed embedded write_resources
before_anchors stage range i =
    write_document stage range
      (drop_absorbed (embedded stage i) (write_resources stage.resources (commit_start stage i)))

pub entry-commit :
    (uri : String) (e : Entry) (stage : Staging) (range : Option RangeLookup) (i : Indexes)
    → AllAt uri e stage.resources
    → entry uri (commit stage range i)
      ≡ (if is_some (lookup uri stage.resources) then e else entry uri (commit_start stage i))
unfolding commit write_ids write_document before_anchors embedded
entry-commit uri e stage range i h =
    entry-write_anchors uri stage.resources (before_anchors stage range i)
    ∙ (entry-drop_absorbed uri (embedded stage i)
          (write_resources stage.resources (commit_start stage i))
        ∙ entry-write_resources uri e stage.resources (commit_start stage i) h)

aliases-write_resources :
    (rs : List (String × StagedResource)) (i : Indexes) → (write_resources rs i).aliases ≡ i.aliases
unfolding write_resources write_resource
aliases-write_resources [] i = refl
aliases-write_resources ((k, res) ∷ rest) i = aliases-write_resources rest _

aliases-write_anchors :
    (rs : List (String × StagedResource)) (i : Indexes) → (write_anchors rs i).aliases ≡ i.aliases
unfolding write_anchors
aliases-write_anchors [] i = refl
aliases-write_anchors ((k, res) ∷ rest) i = aliases-write_anchors rest _

aliases-drop_absorbed :
    (docs : List String) (i : Indexes) → (drop_absorbed docs i).aliases ≡ i.aliases
unfolding drop_absorbed
aliases-drop_absorbed [] i = refl
aliases-drop_absorbed (doc ∷ docs) i = aliases-drop_absorbed docs _

pub aliases-commit :
    (stage : Staging) (range : Option RangeLookup) (i : Indexes)
    → (commit stage range i).aliases ≡ (
        if str_eq stage.retrieval_resource stage.document_uri
        then (commit_start stage i).aliases
        else set_entry stage.retrieval_resource stage.document_uri (commit_start stage i).aliases)
unfolding commit write_ids write_document before_anchors embedded
aliases-commit stage range i =
    aliases-write_anchors stage.resources (before_anchors stage range i)
    ∙ ap
        (λ m.
          if str_eq stage.retrieval_resource stage.document_uri
          then m
          else set_entry stage.retrieval_resource stage.document_uri m)
        (aliases-drop_absorbed (embedded stage i)
            (write_resources stage.resources (commit_start stage i))
          ∙ aliases-write_resources stage.resources (commit_start stage i))

without_target-none :
    (uri doc : String) (m : List (String × String))
    → lookup uri m ≡ none
    → lookup uri (without_target doc m) ≡ none
unfolding lookup without_target
without_target-none uri doc [] h = refl
without_target-none uri doc ((a, t) ∷ m) h = ground (arith, without_target-none uri doc m)

aliases-drop_owned :
    (doc : String) (rs : List String) (i : Indexes) → (drop_owned doc rs i).aliases ≡ i.aliases
unfolding drop_owned drop_resource
aliases-drop_owned doc [] i = refl
aliases-drop_owned doc (r ∷ rs) i =
    aliases-drop_owned doc rs _
    ∙ if_holds (λ (j : Indexes). j.aliases ≡ i.aliases) (owned_by r doc i) refl refl

-- An eviction makes no alias.
pub commit_start_alias :
    (uri : String) (stage : Staging) (i : Indexes)
    → lookup uri i.aliases ≡ none
    → lookup uri (commit_start stage i).aliases ≡ none
unfolding evict
commit_start_alias uri stage i h =
    if_holds (λ (j : Indexes). lookup uri j.aliases ≡ none) stage.rebinding
      (rw
        (aliases-drop_owned stage.document_uri
          (or_default (lookup stage.document_uri i.owned_resources) []) i)
        (without_target-none uri stage.document_uri i.aliases h))
      h
