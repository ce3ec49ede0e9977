-- ===== src/Schemas/Register.antt =====
-- packages/core/src/registry.ts: `SchemaRegistry`, what changes it, and the memos of its lookups.
pub mod Inversion
pub mod Root
pub mod Found
pub mod Removed
use Prim.Native.String.{◌++◌ as str_append}
use json_schema_engine.Base.{
  ℕ, zero, suc, ◌+◌, ◌==◌, ltb, Bool, true, false, not, ◌&&◌, Option, none, some, List, [], ◌∷◌,
  String, str_eq, if◌then◌else◌, map,
}
use json_schema_engine.Json.{
  Json, object, array, Items, nil, cons, Members, end, member, lookup, is_some, keys,
}
use json_schema_engine.Json.Pointer.{unescape_segment}
use json_schema_engine.Dialects.{RegisteredDialect, set_entry, or_default}
use json_schema_engine.Schemas.Entries.{with_names, without_name}
use json_schema_engine.Schemas.Fallible.{
  Fallible, returns, throws, SchemaError, read_only_registry, unknown_dialect, duplicate_resource,
  unresolvable_ref, ◌>>=◌, ◌>>◌, throw_if, found_or,
}
use json_schema_engine.Schemas.Uri.{SplitUri, split_fragment, resolve_split}
use json_schema_engine.Schemas.State.{
  Node, Ref, Setting, Dialects, DocumentLocation, StagedResource, Staging, Indexes, empty_indexes,
  RangeLookup,
}
use json_schema_engine.Schemas.Stage.{RootIdentity, identify, stage_resource}
use json_schema_engine.Schemas.Walk.{walk}
use json_schema_engine.Schemas.Commit.{commit, evict, owned_by}
use json_schema_engine.Schemas.Locate.{
  and_then, canonical, is_registered, locate, dynamic_part, recursive_part, split_slash, tail_text,
}

-- A memoized resolution, or the message of one that failed (`RefMiss`).
pub data RefEntry : Type 0 where
  hit : Ref → RefEntry
  miss : String → RefEntry

abbrev pub Memo {ℓ} : Type ℓ → Type ℓ
Memo V = List (String × List (String × V))

pub record Memos : Type 0 where
  pub refs : Memo RefEntry
  pub dynamics : Memo (Ref × Option String)
  pub recursives : Memo (Ref × Bool)
  pub misses : ℕ

abbrev pub no_memos : Memos
no_memos = record { refs = []; dynamics = []; recursives = []; misses = 0 }

-- The dialect registry as the schema registry meets it: its generation, and its dialects.
pub record DialectView : Type 0 where
  pub gen : ℕ
  pub dialects : Dialects

pub record SchemaRegistry : Type 0 where
  pub indexes : Indexes
  pub pending : List String
  pub memos : Memos
  pub dialect_generation : ℕ
  pub read_only : Bool

abbrev pub new_registry : DialectView → SchemaRegistry
new_registry view = record {
  indexes = empty_indexes;
  pending = [];
  memos = no_memos;
  dialect_generation = view.gen;
  read_only = false;
}

unfoldable pub memo_get {ℓ} : {V : Type ℓ} → String → String → Memo V → Option V
memo_get base ref m = and_then (lookup base m) (λ by_ref. lookup ref by_ref)

unfoldable pub memo_set {ℓ} : {V : Type ℓ} → String → String → V → Memo V → Memo V
unfolding set_entry
memo_set base ref v m = set_entry base (set_entry ref v (or_default (lookup base m) [])) m

unfoldable pub sync_dialects : DialectView → SchemaRegistry → SchemaRegistry
sync_dialects view r =
    if r.dialect_generation == view.gen
    then r
    else record r { dialect_generation = view.gen; memos = no_memos }

-- `snapshot`: what the view holds, and what the source goes on with.
unfoldable pub snapshot : DialectView → SchemaRegistry → SchemaRegistry × SchemaRegistry
unfolding sync_dialects
snapshot view r = let source = sync_dialects view r in (record source { read_only = true }, source)

-- `replaceAt`, and the resources that stand in another as an empty schema there.
unfoldable pub change_item : Items → ℕ → (Json → Json) → Items
change_item nil i f = nil
change_item (cons x xs) zero f = cons (f x) xs
change_item (cons x xs) (suc i) f = cons x (change_item xs i f)

unfoldable pub change_member : Members → String → (Json → Json) → Members
change_member end k f = end
change_member (member j v ms) k f =
    let rest = change_member ms k f in if str_eq j k then member j (f v) ms else member j v rest

abbrev change_numbered : Items → Option ℕ → (Json → Json) → Items
unfolding change_item
change_numbered xs none f = xs
change_numbered xs (some i) f = change_item xs i f

unfoldable pub replace_at : (String → Option ℕ) → List String → Json → Json
unfolding change_numbered change_member
replace_at number [] node = object end
replace_at number (seg ∷ path) (array xs) =
    array (change_numbered xs (number seg) (replace_at number path))
replace_at number (seg ∷ path) (object ms) = object (change_member ms seg (replace_at number path))
replace_at number (seg ∷ path) node = node

abbrev is_parent : Option String → String → Bool
is_parent none uri = false
is_parent (some p) uri = str_eq p uri

unfoldable pub masked : (String → Option ℕ) → String → List (String × StagedResource) → Json → Json
unfolding replace_at split_slash unescape_segment
masked number uri [] node = node
masked number uri ((k, child) ∷ rest) node = masked number uri rest (
    if is_parent child.parent uri
    then replace_at number (map unescape_segment (split_slash (tail_text child.pointer_in_parent)))
        node
    else node)

abbrev pub ResourceCheck : Type 0
ResourceCheck = String → String → Json → Option SchemaError

abbrev thrown_by : Option SchemaError → Fallible (Unit {0})
thrown_by none = returns tt
thrown_by (some e) = throws e

unfoldable pub run_checks :
    (String → Option ℕ)
    → Option ResourceCheck
    → List (String × StagedResource)
    → List (String × StagedResource)
    → Fallible (Unit {0})
unfolding masked
run_checks number none all resources = returns tt
run_checks number (some check) all [] = returns tt
run_checks number (some check) all ((uri, res) ∷ rest) = do
  thrown_by (check uri res.dialect_uri (masked number uri all res.node.json))
  run_checks number (some check) all rest

-- The retrieval URI of a document that declares another base is to be its alias alone.
abbrev bound_elsewhere : Option String → String → Bool
bound_elsewhere none base = false
bound_elsewhere (some bound) base = not (str_eq bound base)

unfoldable pub check_retrieval : RootIdentity → Indexes → Fallible (Unit {0})
check_retrieval id i =
    if str_eq id.retrieval_resource id.base_uri
    then returns tt
    else throw_if (is_some (lookup id.retrieval_resource i.documents))
        (duplicate_resource id.retrieval_resource)
      >> throw_if (bound_elsewhere (lookup id.retrieval_resource i.aliases) id.base_uri)
          (duplicate_resource id.retrieval_resource)

abbrev pub new_staging : RootIdentity → Indexes → Staging
unfolding owned_by
new_staging id i = record {
  document_uri = id.base_uri;
  retrieval_resource = id.retrieval_resource;
  rebinding = owned_by id.base_uri id.base_uri i;
  resources = [];
  produced = [];
  consumed = [];
  coverage_producers = [];
  pending = [];
}

abbrev pub root_resource : Node → RootIdentity → StagedResource
root_resource schema id = record {
  node = schema;
  dialect_uri = id.dialect_uri;
  location = record { document_uri = id.base_uri; pointer = "" };
  parent = none;
  pointer_in_parent = "";
  anchors = [];
  recursive_root = false;
}

module _ (setting : Setting) (view : DialectView) where
  -- What a registration stages: the walk of the document, and the checks.
  unfoldable pub staged : Node → RootIdentity → Option ResourceCheck → Indexes → Fallible Staging
  unfolding check_retrieval new_staging run_checks
  staged schema id check i = do
    dialect ← found_or (lookup id.dialect_uri view.dialects) (unknown_dialect id.dialect_uri)
    check_retrieval id i
    start ← stage_resource i id.base_uri (root_resource schema id) (new_staging id i)
    stage ←
        walk setting view.dialects i (suc (suc setting.max_depth)) 0 (some schema)
          (record {
            base_uri = id.base_uri;
            pointer = "";
            document_uri = id.base_uri;
            document_pointer = "";
            dialect = dialect;
          })
          start
    run_checks setting.number_index check stage.resources stage.resources
    returns stage

  unfoldable pub apply : Staging → Option RangeLookup → SchemaRegistry → SchemaRegistry
  unfolding with_names
  apply stage range r = record r {
    indexes = commit stage range r.indexes;
    pending = with_names stage.pending r.pending;
    memos = no_memos;
  }

  -- A throw comes before anything is written: the registry after it is the one before it.
  unfoldable pub register :
      Node
      → String
      → Option String
      → Option RangeLookup
      → Option ResourceCheck
      → SchemaRegistry
      → Fallible (String × SchemaRegistry)
  unfolding staged apply
  register schema retrieval_uri dialect_uri range check r = do
    throw_if r.read_only read_only_registry
    id ←
        identify setting.parser setting.default_dialect_uri view.dialects schema.json retrieval_uri
          dialect_uri
    stage ← staged schema id check r.indexes
    returns (id.base_uri, apply stage range r)

  unfoldable pub unregister : String → SchemaRegistry → Fallible SchemaRegistry
  unregister uri r = do
    throw_if r.read_only read_only_registry
    split ← split_fragment setting.parser uri
    let doc = canonical split.resource r.indexes
    location ← found_or (lookup doc r.indexes.resource_locations) (unresolvable_ref doc)
    throw_if (not (str_eq location.document_uri doc)) (unresolvable_ref doc)
    returns (record r { indexes = evict doc r.indexes; memos = no_memos })

-- `takeUnresolved` and `nextUnresolved`
unfoldable pub missing : Indexes → List String → List String
unfolding is_registered
missing i [] = []
missing i (r ∷ rest) = let later = missing i rest in if is_registered r i then later else r ∷ later

unfoldable pub take_unresolved : SchemaRegistry → List String × SchemaRegistry
unfolding missing
take_unresolved r = (missing r.indexes r.pending, record r { pending = [] })

unfoldable pub next_missing : Indexes → List String → Option String × List String
unfolding is_registered
next_missing i [] = (none, [])
next_missing i (r ∷ rest) =
    let later = next_missing i rest in if is_registered r i then later else (some r, rest)

unfoldable pub next_unresolved : SchemaRegistry → Option String × SchemaRegistry
unfolding next_missing
next_unresolved r =
    let result = next_missing r.indexes r.pending in (result.0, record r { pending = result.1 })
