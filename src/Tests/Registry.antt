-- ===== src/Tests/Registry.antt =====
-- Registrations, a snapshot, and the order of evaluation.
use json_schema_engine.Base.{◌≡◌, refl, true, false, none, some, List, [], ◌∷◌, arith, String}
use json_schema_engine.Json.{string, lookup}
use json_schema_engine.Engine.Program.{Program, KeywordBehavior, DialectKeyword}
use json_schema_engine.Dialects.{
  DialectRegistry, DialectOptions, no_maps, snapshot, get_dialect, register_vocabulary,
  read_only_registry,
}
use json_schema_engine.Dialects.Snapshots.{
  Registration, vocabulary, dialect, register_all, snapshot_isolated,
}
use json_schema_engine.Dialects.Identifiers.{identifiers_legacy, no_facts}

abbrev late : KeywordBehavior
late = record {
  id = "id:late";
  phase = 1;
  structural = false;
  evaluate = λ v c ms. Program.done true;
}

abbrev early : KeywordBehavior
early = record {
  id = "id:early";
  phase = 0;
  structural = false;
  evaluate = λ v c ms. Program.done true;
}

abbrev plain : DialectOptions
plain = record { allow_unknown_keywords = none; identifiers = none; ref_ignores_siblings = none }

abbrev source : DialectRegistry
source = record { maps = 0; shared = false; read_only = false; gen = 0 }

-- A vocabulary, a dialect of it, and one of a vocabulary that is missing.
abbrev calls : List Registration
calls =
    vocabulary "urn:v" (("late", late) ∷ ("early", early) ∷ [])
    ∷ dialect "urn:d" ("urn:v" ∷ []) plain
    ∷ dialect "urn:e" ("urn:w" ∷ []) plain
    ∷ []

snapshot_isolated_example :
    get_dialect "urn:d"
      (register_all calls (no_maps ∷ []) (snapshot source).1).0
      (snapshot source).0
    ≡ get_dialect "urn:d" (no_maps ∷ []) source
snapshot_isolated_example = snapshot_isolated calls (no_maps ∷ []) source "urn:d" (omega arith)

abbrev gathered : List (String × DialectKeyword)
gathered =
    ("late", record { name = "late"; behavior = late; vocabulary_uri = "urn:v" })
    ∷ ("early", record { name = "early"; behavior = early; vocabulary_uri = "urn:v" })
    ∷ []

view_refuses :
    (register_vocabulary "urn:v" [] (no_maps ∷ []) (snapshot source).0).thrown
    ≡ some read_only_registry
unfolding register_vocabulary snapshot
view_refuses = refl

fragment_id :
    identifiers_legacy (("$id", string "#a") ∷ []) ≡ record no_facts { anchors = some ("a" ∷ []) }
unfolding identifiers_legacy lookup
fragment_id = refl
