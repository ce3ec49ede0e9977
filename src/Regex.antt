-- ===== src/Regex.antt =====
-- packages/core/src/regex.ts: the cache of compiled patterns.
-- The engine that compiles is a parameter, none where it throws; a map's insertion order is not
-- observed here, so a new entry stands first.
pub mod Cached
use json_schema_engine.Base.{List, [], ◌∷◌, Option, none, some, String}
use json_schema_engine.Json.{lookup}

-- `this.cache.set(pattern, compiled)`, which an engine that throws does not reach.
abbrev pub store {ℓ} :
    {V : Type ℓ} → List (String × V) → String → Option V → Option V × List (String × V)
store cache pattern none = (none, cache)
store cache pattern (some compiled) = (some compiled, (pattern, compiled) ∷ cache)

abbrev pub cached_or {ℓ} :
    {V : Type ℓ}
    → (String → Option V)
    → List (String × V)
    → String
    → Option V
    → Option V × List (String × V)
cached_or engine cache pattern none = store cache pattern (engine pattern)
cached_or engine cache pattern (some compiled) = (some compiled, cache)

-- `RegexCache.compile`: what it returns, none where it throws, and the cache after it.
unfoldable pub compile {ℓ} :
    {V : Type ℓ} → (String → Option V) → List (String × V) → String → Option V × List (String × V)
compile engine cache pattern = cached_or engine cache pattern (lookup pattern cache)

-- The calls of `compile` on the patterns in turn, each on the cache the last one left.
unfoldable pub compile_each {ℓ} :
    {V : Type ℓ} → (String → Option V) → List (String × V) → List String → List (Option V)
compile_each engine cache [] = []
compile_each engine cache (pattern ∷ patterns) =
    (compile engine cache pattern).0 ∷ compile_each engine (compile engine cache pattern).1 patterns
