-- ===== src/Schemas/Stage/Claims.antt =====
-- packages/core/src/registry.ts: what a claim that is granted has found.
use json_schema_engine.Base.{◌≡◌, false, String}
use json_schema_engine.Json.{lookup, is_some}
use json_schema_engine.Dialects.{set_entry}
use json_schema_engine.Schemas.Fallible.{
  returns, throw_if, duplicate_resource, >>=-eq-returns, returns_injective, not_thrown,
}
use json_schema_engine.Schemas.State.{StagedResource, Staging, Indexes}
use json_schema_engine.Schemas.Stage.{stage_resource, differs}

-- The resource is new to the document, no retrieval URI, and no other schema's.
pub record Granted (i : Indexes) (uri : String) (res : StagedResource) (stage s : Staging)
    : Type 0 where
  pub unstaged : is_some (lookup uri stage.resources) ≡ false
  pub unaliased : is_some (lookup uri i.aliases) ≡ false
  pub alike : differs (lookup uri i.documents) res.node ≡ false
  pub staged : record stage { resources = set_entry uri res stage.resources } ≡ s

pub stage_resource-Granted :
    (i : Indexes) (uri : String) (res : StagedResource) (stage : Staging) {s : Staging}
    → stage_resource i uri res stage ≡ returns s
    → Granted i uri res stage s
unfolding stage_resource
stage_resource-Granted i uri res stage p =
    let (u, a, b) =
      >>=-eq-returns (throw_if (is_some (lookup uri stage.resources)) (duplicate_resource uri)) _
        p in
    let (v, c, d) =
      >>=-eq-returns (throw_if (is_some (lookup uri i.aliases)) (duplicate_resource uri)) _ b in
    let (w, x, y) =
      >>=-eq-returns (throw_if (differs (lookup uri i.documents) res.node) (duplicate_resource uri))
        _ d in
    record {
      unstaged = not_thrown _ _ a;
      unaliased = not_thrown _ _ c;
      alike = not_thrown _ _ x;
      staged = returns_injective y;
    }
