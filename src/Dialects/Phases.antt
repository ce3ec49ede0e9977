-- ===== src/Dialects/Phases.antt =====
-- packages/core/src/dialect.ts: the order of evaluation that `registerDialect` gives its keywords.
use json_schema_engine.Base.{ℕ, leb, Bool, true, ◌&&◌, List, [], ◌∷◌}
use json_schema_engine.Engine.Program.{DialectKeyword}

-- From a phase on, no keyword has a lower phase than the one before it.
unfoldable pub ascending : ℕ → List DialectKeyword → Bool
ascending p [] = true
ascending p (k ∷ ks) = leb p k.behavior.phase && ascending k.behavior.phase ks
