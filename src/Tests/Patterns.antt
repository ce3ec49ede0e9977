-- ===== src/Tests/Patterns.antt =====
-- The cache of compiled patterns, on an engine that throws on an open group.
use json_schema_engine.Base.{
  ◌≡◌, refl, List, [], ◌∷◌, map, Option, none, some, String, str_eq, if◌then◌else◌,
}
use json_schema_engine.Json.{lookup}
use json_schema_engine.Regex.{compile, compile_each}
use json_schema_engine.Regex.Cached.{compile_each-map}

abbrev engine : String → Option String
engine pattern = if str_eq pattern "(" then none else some pattern

abbrev patterns : List String
patterns = "a+" ∷ "(" ∷ "b" ∷ "a+" ∷ []

-- A pattern that throws is not kept, and one that is kept is not compiled again.
thrown : compile engine [] "(" ≡ (none, [])
unfolding compile lookup
thrown = refl

kept : compile engine (("b", "b") ∷ []) "b" ≡ (some "b", ("b", "b") ∷ [])
unfolding compile lookup
kept = refl

compile_each-map_example : compile_each engine [] patterns ≡ map engine patterns
compile_each-map_example = compile_each-map engine patterns
