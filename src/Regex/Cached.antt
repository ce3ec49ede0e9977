-- ===== src/Regex/Cached.antt =====
-- packages/core/src/regex.ts: the cache is not seen in what it compiles.
use json_schema_engine.Base.{
  if◌then◌else◌, ◌≡◌, refl, ◌∙◌, ap, sym, Bool, true, false, List, [], ◌∷◌, map, Option, none, some,
  String, str_eq, str_eq_iff,
}
use json_schema_engine.Json.{lookup}
use json_schema_engine.Regex.{store, cached_or, compile, compile_each}

-- Each entry is what the engine compiles its pattern to.
abbrev Sound {ℓ} : {V : Type ℓ} → (String → Option V) → List (String × V) → Type ℓ
Sound engine [] = Unit {ℓ}
Sound engine ((p, v) ∷ cache) = (engine p ≡ some v) × Sound engine cache

-- A call's answer, and the cache it leaves.
abbrev Faithful {ℓ} :
    {V : Type ℓ} → (String → Option V) → String → Option V × List (String × V) → Type ℓ
Faithful engine p r = (r.0 ≡ engine p) × Sound engine r.1

store-Faithful {ℓ} :
    {V : Type ℓ} (engine : String → Option V) (cache : List (String × V)) (p : String)
    (q : Option V)
    → engine p ≡ q
    → Sound engine cache
    → Faithful engine p (store cache p q)
store-Faithful engine cache p none e s = (sym e, s)
store-Faithful engine cache p (some v) e s = (sym e, (e, s))

cached_or-Faithful {ℓ} :
    {V : Type ℓ} (engine : String → Option V) (cache : List (String × V)) (p : String)
    (q : Option V)
    → lookup p cache ≡ q
    → ((v : V) → q ≡ some v → engine p ≡ some v)
    → Sound engine cache
    → Faithful engine p (cached_or engine cache p q)
cached_or-Faithful engine cache p none e h s = store-Faithful engine cache p (engine p) refl s
cached_or-Faithful engine cache p (some v) e h s = (sym (h v refl), s)

found_at {ℓ} :
    {V : Type ℓ} (engine : String → Option V) (j p : String) (w : V) (cache : List (String × V))
    (b : Bool)
    → str_eq j p ≡ b
    → engine j ≡ some w
    → ((v : V) → lookup p cache ≡ some v → engine p ≡ some v)
    → (v : V) → (if b then some w else lookup p cache) ≡ some v
    → engine p ≡ some v
found_at engine j p w cache true e s rest v h = ap engine (sym ((str_eq_iff j p).0 e)) ∙ (s ∙ h)
found_at engine j p w cache false e s rest v h = rest v h

found {ℓ} :
    {V : Type ℓ} (engine : String → Option V) (cache : List (String × V)) (p : String)
    → Sound engine cache
    → (v : V) → lookup p cache ≡ some v
    → engine p ≡ some v
unfolding lookup
found engine [] p s v h = cc
found engine ((j, w) ∷ cache) p (e, s) v h =
    found_at engine j p w cache (str_eq j p) refl e (found engine cache p s) v h

compile-Faithful {ℓ} :
    {V : Type ℓ} (engine : String → Option V) (cache : List (String × V)) (p : String)
    → Sound engine cache
    → Faithful engine p (compile engine cache p)
unfolding compile
compile-Faithful engine cache p s =
    cached_or-Faithful engine cache p (lookup p cache) refl (found engine cache p s) s

compile_each-from {ℓ} :
    {V : Type ℓ} (engine : String → Option V) (cache : List (String × V)) (patterns : List String)
    → Sound engine cache
    → compile_each engine cache patterns ≡ map engine patterns
unfolding compile_each
compile_each-from engine cache [] s = refl
compile_each-from engine cache (p ∷ ps) s =
    let call = compile-Faithful engine cache p s in
    ap (λ r. r ∷ compile_each engine (compile engine cache p).1 ps) call.0
    ∙ ap (λ rs. engine p ∷ rs) (compile_each-from engine (compile engine cache p).1 ps call.1)

-- From an empty cache, and for each sequence of patterns, each call of `RegexCache.compile` answers
-- what the engine itself answers for that pattern: a cached entry is never another pattern's, and a
-- pattern the engine throws on throws each time.
pub compile_each-map {ℓ} :
    {V : Type ℓ} (engine : String → Option V) (patterns : List String)
    → compile_each engine [] patterns ≡ map engine patterns
compile_each-map engine patterns = compile_each-from engine [] patterns tt
