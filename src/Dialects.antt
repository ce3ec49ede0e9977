-- ===== src/Dialects.antt =====
-- packages/core/src/dialect.ts: `DialectRegistry`, its dialects and snapshots. A registry holds the
-- address of its two maps in a store, so that a snapshot and its source can hold the same ones.
pub mod Identifiers
pub mod Snapshots
pub mod Phases
use json_schema_engine.Base.{
  ℕ, zero, suc, ◌+◌, ◌==◌, Bool, true, false, not, Option, none, some, List, [], ◌∷◌, ◌++◌, map,
  String, str_eq, if◌then◌else◌, length, get_elem?,
}
use json_schema_engine.Json.{lookup}
use json_schema_engine.Engine.Program.{KeywordBehavior, DialectKeyword}

abbrev pub Vocabulary : Type 0
Vocabulary = List (String × KeywordBehavior)

-- `Map.prototype.set`: a known name keeps its place.
unfoldable pub set_entry {ℓ} : {V : Type ℓ} → String → V → List (String × V) → List (String × V)
set_entry k v [] = (k, v) ∷ []
set_entry k v ((j, w) ∷ rest) =
    let later = set_entry k v rest in if str_eq j k then (j, v) ∷ rest else (j, w) ∷ later

-- A registered dialect; the identifier syntax is named by its draft. The extractor of draft 04 and
-- those of a caller are outside of the model.
pub data IdentifierSyntax : Type 0 where
  syntax2020 syntax2019 legacy_syntax : IdentifierSyntax

pub record RegisteredDialect : Type 0 where
  pub uri : String
  pub keywords : List (String × DialectKeyword)
  pub ordered : List DialectKeyword
  pub vocabulary_uris : List String
  pub allow_unknown_keywords : Bool
  pub identifiers : IdentifierSyntax
  pub ref_ignores_siblings : Bool

pub record DialectOptions : Type 0 where
  pub allow_unknown_keywords : Option Bool
  pub identifiers : Option IdentifierSyntax
  pub ref_ignores_siblings : Option Bool

abbrev pub or_default {ℓ} : {A : Type ℓ} → Option A → A → A
or_default none d = d
or_default (some a) d = a

-- The two maps of a registry, which are copied together.
pub record Maps : Type 0 where
  pub vocabularies : List (String × Vocabulary)
  pub dialects : List (String × RegisteredDialect)

pub record DialectRegistry : Type 0 where
  pub maps : ℕ
  pub shared : Bool
  pub read_only : Bool
  pub gen : ℕ

pub data RegistryError : Type 0 where
  read_only_registry : RegistryError
  unknown_vocabulary : String → String → RegistryError

-- The store and the registry after a call, with what the call threw, if it threw.
pub record Outcome : Type 0 where
  pub thrown : Option RegistryError
  pub store : List Maps
  pub registry : DialectRegistry

abbrev pub no_maps : Maps
no_maps = record { vocabularies = []; dialects = [] }

abbrev pub maps_at : ℕ → List Maps → Maps
maps_at a store = or_default (get_elem? store a) no_maps

unfoldable pub write : ℕ → Maps → List Maps → List Maps
write a m [] = []
write zero m (n ∷ store) = m ∷ store
write (suc a) m (n ∷ store) = n ∷ write a m store

-- `snapshot`: the view, and the source that now shares its maps.
unfoldable pub snapshot : DialectRegistry → DialectRegistry × DialectRegistry
snapshot r = (
  record { maps = r.maps; shared = false; read_only = true; gen = r.gen },
  record r { shared = true },
)

-- `mutable`: the maps of a sharing registry are copied to a new address.
unfoldable pub mutable : List Maps → DialectRegistry → Outcome
mutable store r =
    if r.read_only
    then record { thrown = some read_only_registry; store = store; registry = r }
    else if not r.shared
    then record { thrown = none; store = store; registry = r }
    else record {
      thrown = none;
      store = store ++ maps_at r.maps store ∷ [];
      registry = record r { maps = length store; shared = false };
    }

-- `gen++`, and the change of the maps that the rest of the call makes.
abbrev pub proceed_with : Outcome → (Maps → Option RegistryError × Maps) → Outcome
proceed_with w f = elim w.thrown [
  | some e ↦ w
  | none ↦
      let result = f (maps_at w.registry.maps w.store) in
      record {
        thrown = result.0;
        store = write w.registry.maps result.1 w.store;
        registry = record w.registry { gen = w.registry.gen + 1 };
      }
]

unfoldable pub set_vocabulary : String → Vocabulary → Maps → Option RegistryError × Maps
unfolding set_entry
set_vocabulary uri keywords m =
    (none, record m { vocabularies = set_entry uri keywords m.vocabularies })

unfoldable pub register_vocabulary : String → Vocabulary → List Maps → DialectRegistry → Outcome
unfolding mutable set_vocabulary write
register_vocabulary uri keywords store r =
    proceed_with (mutable store r) (set_vocabulary uri keywords)

abbrev keep_behavior :
    String
    → String × KeywordBehavior
    → List (String × DialectKeyword)
    → List (String × DialectKeyword)
keep_behavior uri (name, b) keywords =
    set_entry name (record { name = name; behavior = b; vocabulary_uri = uri }) keywords

unfoldable pub add_vocabulary :
    String → Vocabulary → List (String × DialectKeyword) → List (String × DialectKeyword)
unfolding set_entry
add_vocabulary uri [] keywords = keywords
add_vocabulary uri (entry ∷ rest) keywords =
    add_vocabulary uri rest (keep_behavior uri entry keywords)

-- The keywords of the vocabularies in order, or the first vocabulary that is not registered.
unfoldable pub assemble :
    List (String × Vocabulary)
    → List String
    → List (String × DialectKeyword)
    → Option String × List (String × DialectKeyword)
unfolding add_vocabulary
assemble vocabularies [] keywords = (none, keywords)
assemble vocabularies (uri ∷ uris) keywords = elim (lookup uri vocabularies) [
  | none ↦ (some uri, keywords)
  | some vocab ↦ assemble vocabularies uris (add_vocabulary uri vocab keywords)
]

-- A phase is a number here, with the default `phase ?? 0` put in.
unfoldable pub in_phase : ℕ → List DialectKeyword → List DialectKeyword
in_phase n [] = []
in_phase n (k ∷ ks) = let rest = in_phase n ks in if k.behavior.phase == n then k ∷ rest else rest

-- The order of evaluation.
unfoldable pub by_phase : List DialectKeyword → List DialectKeyword
unfolding in_phase
by_phase entries = in_phase 0 entries ++ in_phase 1 entries

abbrev second : String × DialectKeyword → DialectKeyword
second (name, k) = k

unfoldable pub dialect_of :
    String → List String → DialectOptions → List (String × DialectKeyword) → RegisteredDialect
unfolding by_phase
dialect_of uri uris options keywords = record {
  uri = uri;
  keywords = keywords;
  ordered = by_phase (map second keywords);
  vocabulary_uris = uris;
  allow_unknown_keywords = or_default options.allow_unknown_keywords true;
  identifiers = or_default options.identifiers syntax2020;
  ref_ignores_siblings = or_default options.ref_ignores_siblings false;
}

abbrev finish_dialect :
    String
    → List String
    → DialectOptions
    → Maps
    → Option String × List (String × DialectKeyword)
    → Option RegistryError × Maps
unfolding dialect_of
finish_dialect uri uris options m (some missing, keywords) =
    (some (unknown_vocabulary uri missing), m)
finish_dialect uri uris options m (none, keywords) =
    (none, record m { dialects = set_entry uri (dialect_of uri uris options keywords) m.dialects })

unfoldable pub set_dialect :
    String → List String → DialectOptions → Maps → Option RegistryError × Maps
unfolding set_entry assemble finish_dialect
set_dialect uri uris options m = finish_dialect uri uris options m (assemble m.vocabularies uris [])

unfoldable pub register_dialect :
    String → List String → DialectOptions → List Maps → DialectRegistry → Outcome
unfolding mutable set_dialect write
register_dialect uri uris options store r =
    proceed_with (mutable store r) (set_dialect uri uris options)

-- `getDialect` and `hasDialect`; `none` is the exception.
unfoldable pub get_dialect : String → List Maps → DialectRegistry → Option RegisteredDialect
get_dialect uri store r = lookup uri (maps_at r.maps store).dialects
