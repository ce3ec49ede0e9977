-- ===== src/Schemas/Register/Found.antt =====
-- packages/core/src/registry.ts: a document is found under its base and under its retrieval URI.
use json_schema_engine.Base.{
  suc, ◌≡◌, refl, sym, ap, subst, ◌∙◌, Bool, true, false, Option, none, some, List, [], String,
  str_eq, str_eq_iff, if◌then◌else◌,
}
use json_schema_engine.Json.{lookup, is_some}
use json_schema_engine.Dialects.{set_entry, or_default}
use json_schema_engine.Schemas.Entries.{lookup-set_entry, str_eq_refl}
use json_schema_engine.Schemas.Fallible.{
  returns, unknown_dialect, unresolvable_ref, >>=-eq-returns, found_or, returns_injective,
}
use json_schema_engine.Schemas.State.{Node, Setting, StagedResource, Staging, Indexes, RangeLookup}
use json_schema_engine.Schemas.Stage.{RootIdentity, identify, stage_resource}
use json_schema_engine.Schemas.Stage.Claims.{stage_resource-Granted}
use json_schema_engine.Schemas.Walk.{walk}
use json_schema_engine.Schemas.Walk.Keeps.{walk-Keeps}
use json_schema_engine.Schemas.Commit.{commit}
use json_schema_engine.Schemas.Commit.Lookups.{
  Entry, entry, staged_entry, entry-commit, aliases-commit, commit_start, commit_start_alias,
}
use json_schema_engine.Schemas.Locate.{canonical, root_node, document_location, dialect_uri_for}
use json_schema_engine.Schemas.Register.{
  SchemaRegistry, DialectView, ResourceCheck, root_resource, new_staging, check_retrieval,
  run_checks, staged, apply, register,
}
use json_schema_engine.Schemas.Register.Inversion.{register-Registration}
use json_schema_engine.Schemas.Register.Root.{HasRoot, Rooted-IsKept}

-- The root as it is claimed, and that no alias has its name.
record IsClaimed (i : Indexes) (id : RootIdentity) (e : Entry) (start : Staging) : Type 0 where
  rooted : HasRoot i id.base_uri id.retrieval_resource id.base_uri e start
  free : lookup id.base_uri i.aliases ≡ none

none_of_is_some : {A : Type 0} (o : Option A) → is_some o ≡ false → o ≡ none
none_of_is_some none h = refl
none_of_is_some (some a) h = cc h

module _ (i : Indexes) (id : RootIdentity) (res : StagedResource) where
  root-IsClaimed :
      (start : Staging)
      → stage_resource i id.base_uri res (new_staging id i) ≡ returns start
      → IsClaimed i id (staged_entry res) start
  unfolding new_staging set_entry lookup
  root-IsClaimed start p =
      let granted = stage_resource-Granted i id.base_uri res (new_staging id i) p in
      let claimed : IsClaimed i id (staged_entry res)
          (record (new_staging id i) { resources = set_entry id.base_uri res [] }) =
        record {
          rooted = record {
            named = refl;
            retrieved = refl;
            alike = (λ t. refl, tt);
            present = rw (str_eq_refl id.base_uri) refl;
          };
          free = none_of_is_some _ granted.unaliased;
        } in
      subst (IsClaimed i id (staged_entry res)) granted.staged claimed

module _ (setting : Setting) (view : DialectView) where
  staged-IsClaimed :
      (schema : Node) (id : RootIdentity) (check : Option ResourceCheck) (i : Indexes)
      (stage : Staging)
      → staged setting view schema id check i ≡ returns stage
      → IsClaimed i id (staged_entry (root_resource schema id)) stage
  unfolding staged
  staged-IsClaimed schema id check i stage p =
      let (dialect, a, b) =
        >>=-eq-returns
          (found_or (lookup id.dialect_uri view.dialects) (unknown_dialect id.dialect_uri)) _ p in
      let (u, c, d) = >>=-eq-returns (check_retrieval id i) _ b in
      let (start, e, f) =
        >>=-eq-returns (stage_resource i id.base_uri (root_resource schema id) (new_staging id i)) _
          d in
      let (walked, g, h) =
        >>=-eq-returns
          (walk setting view.dialects i (suc (suc setting.max_depth)) 0 (some schema) _ start) _
          f in
      let (v, k, l) =
        >>=-eq-returns (run_checks setting.number_index check walked.resources walked.resources) _
          h in
      let claimed = root-IsClaimed i id (root_resource schema id) start e in
      record {
        rooted =
            subst
              (HasRoot i id.base_uri id.retrieval_resource id.base_uri
                (staged_entry (root_resource schema id)))
              (returns_injective l)
              (walk-Keeps i id.base_uri _
                (Rooted-IsKept i id.base_uri id.retrieval_resource id.base_uri
                  (staged_entry (root_resource schema id)))
                setting view.dialects _ 0 (some schema) _ start refl claimed.rooted walked g);
        free = claimed.free;
      }

-- The aliases after a commit send both names of the document to its base.
module _ (retrieval doc : String) (start m : List (String × String))
    (free : lookup doc start ≡ none) where
  base_kept :
      (b : Bool)
      → str_eq retrieval doc ≡ b
      → m ≡ (if b then start else set_entry retrieval doc start)
      → or_default (lookup doc m) doc ≡ doc
  base_kept true t e = rw (e, free) refl
  base_kept false t e = rw (e, lookup-set_entry retrieval doc doc start, t, free) refl

  retrieval_sent :
      (b : Bool)
      → str_eq retrieval doc ≡ b
      → m ≡ (if b then start else set_entry retrieval doc start)
      → or_default (lookup retrieval m) retrieval ≡ doc
  retrieval_sent true t e =
      let same : retrieval ≡ doc = (str_eq_iff retrieval doc).0 t in
      subst (λ k. or_default (lookup k m) k ≡ doc) (sym same) (base_kept true t e)
  retrieval_sent false t e =
      rw (e, lookup-set_entry retrieval retrieval doc start, str_eq_refl retrieval) refl

module _ (id : RootIdentity) (e : Entry) (stage : Staging) (range : Option RangeLookup)
    (i : Indexes) (h : IsClaimed i id e stage) where
  entry_after : entry id.base_uri (commit stage range i) ≡ e
  entry_after = entry-commit id.base_uri e stage range i h.rooted.alike ∙ rw h.rooted.present refl

  start_free : lookup stage.document_uri (commit_start stage i).aliases ≡ none
  start_free =
      commit_start_alias stage.document_uri stage i
        (subst (λ k. lookup k i.aliases ≡ none) (sym h.rooted.named) h.free)

  canonical_base : canonical id.base_uri (commit stage range i) ≡ id.base_uri
  unfolding canonical
  canonical_base =
      subst (λ k. or_default (lookup k (commit stage range i).aliases) k ≡ k) h.rooted.named
        (base_kept stage.retrieval_resource stage.document_uri (commit_start stage i).aliases
          (commit stage range i).aliases start_free _ refl (aliases-commit stage range i))

  canonical_retrieval : canonical id.retrieval_resource (commit stage range i) ≡ id.base_uri
  unfolding canonical
  canonical_retrieval =
      subst (λ k. or_default (lookup k (commit stage range i).aliases) k ≡ id.base_uri)
        h.rooted.retrieved
        (retrieval_sent stage.retrieval_resource stage.document_uri (commit_start stage i).aliases
            (commit stage range i).aliases start_free _ refl (aliases-commit stage range i)
          ∙ h.rooted.named)

  -- A URI that stands for the base.
  found_under :
      (uri : String)
      → canonical uri (commit stage range i) ≡ id.base_uri
      → (root_node uri (commit stage range i) ≡ e.node)
        × (document_location uri (commit stage range i) ≡ e.location)
        × (lookup (canonical uri (commit stage range i)) (commit stage range i).document_dialects
            ≡ e.dialect_uri)
  unfolding root_node document_location
  found_under uri c = rw c (
    ap (λ (x : Entry). x.node) entry_after,
    ap (λ (x : Entry). x.location) entry_after,
    ap (λ (x : Entry). x.dialect_uri) entry_after,
  )

-- Each of the two names of a registered document leads to it.
abbrev pub Finds : Node → RootIdentity → String → Indexes → Type 0
Finds schema id uri i =
    (root_node uri i ≡ some schema)
    × (document_location uri i ≡ some (record { document_uri = id.base_uri; pointer = "" }))
    × (dialect_uri_for uri i ≡ returns id.dialect_uri)

module _ (setting : Setting) (view : DialectView) where
  found_after :
      (schema : Node) (id : RootIdentity) (check : Option ResourceCheck) (stage : Staging)
      (range : Option RangeLookup) (i : Indexes)
      → staged setting view schema id check i ≡ returns stage
      → Finds schema id id.base_uri (commit stage range i)
        × Finds schema id id.retrieval_resource (commit stage range i)
  unfolding dialect_uri_for
  found_after schema id check stage range i p =
      let claimed = staged-IsClaimed setting view schema id check i stage p in
      let e = staged_entry (root_resource schema id) in
      (
        finds id.base_uri (canonical_base id e stage range i claimed),
        finds id.retrieval_resource (canonical_retrieval id e stage range i claimed),
      )
    where
      finds :
          (uri : String)
          → canonical uri (commit stage range i) ≡ id.base_uri
          → Finds schema id uri (commit stage range i)
      finds uri c =
          let (n, l, d) =
            found_under id (staged_entry (root_resource schema id)) stage range i
              (staged-IsClaimed setting view schema id check i stage p) uri c in
          (n, l, ap (λ o. found_or o (unresolvable_ref uri)) d)

  -- After a registration that returns, both the base URI that it returned and the retrieval URI lead to
  -- the document: to the schema that was given, the location at the root of its own document, and the
  -- dialect that `identify` named for it.
  pub register_found :
      (schema : Node) (retrieval_uri : String) (dialect_uri : Option String)
      (range : Option RangeLookup) (check : Option ResourceCheck) (r s : SchemaRegistry)
      (uri : String)
      → register setting view schema retrieval_uri dialect_uri range check r ≡ returns (uri, s)
      → (id : RootIdentity) × (identify setting.parser setting.default_dialect_uri view.dialects
            schema.json retrieval_uri dialect_uri
          ≡ returns id)
        × (id.base_uri ≡ uri)
        × Finds schema id uri s.indexes
        × Finds schema id id.retrieval_resource s.indexes
  unfolding apply
  register_found schema retrieval_uri dialect_uri range check r s uri p =
      let done = register-Registration setting view p in
      let both = found_after schema done.id check done.stage range r.indexes done.walked in
      let at_base =
        subst (λ (k : SchemaRegistry). Finds schema done.id done.id.base_uri k.indexes) done.applied
          both.0 in
      (
        done.id,
        done.identified,
        done.named,
        subst (λ u. Finds schema done.id u s.indexes) done.named at_base,
        subst (λ (k : SchemaRegistry). Finds schema done.id done.id.retrieval_resource k.indexes)
            done.applied both.1,
      )
