-- ===== src/Coverage.antt =====
-- packages/core/src/coverage.ts: the compiled tier's folds over raw dependency data.
pub mod Agreement
use json_schema_engine.Base.{
  ℕ, ◌+◌, Bool, true, false, ◌&&◌, List, [], ◌∷◌, ◌++◌, String, if◌then◌else◌,
}
use json_schema_engine.Json.{Json, array, elements}
use json_schema_engine.Cursor.{Cursor, same_cursor}
use json_schema_engine.Engine.State.{Datum, verdict, names, indexes, amount, DependencyRecord}
use json_schema_engine.Keywords.Schema.{member_of}
use json_schema_engine.Keywords.Unevaluated.{Covered, larger, text_elements}

-- `foldNameCoverage`, with the names so far; what is no array adds nothing.
unfoldable pub fold_name_coverage : List Datum → List String → List String
fold_name_coverage [] seen = seen
fold_name_coverage (names l ∷ rest) seen = fold_name_coverage rest (seen ++ l)
fold_name_coverage (Datum.custom (array xs) ∷ rest) seen =
    fold_name_coverage rest (seen ++ text_elements (elements xs))
fold_name_coverage (_ ∷ rest) seen = fold_name_coverage rest seen

-- `foldIndexCoverage`, with the coverage so far; names add no index.
unfoldable pub fold_index_coverage : ℕ → List Datum → Covered → Covered
fold_index_coverage size [] w = w
fold_index_coverage size (verdict true ∷ rest) w =
    fold_index_coverage size rest (record w { prefix = size })
fold_index_coverage size (amount n ∷ rest) w =
    fold_index_coverage size rest (record w { prefix = larger w.prefix (n + 1) })
fold_index_coverage size (indexes l ∷ rest) w =
    fold_index_coverage size rest (record w { indexes = w.indexes ++ l })
fold_index_coverage size (_ ∷ rest) w = fold_index_coverage size rest w

-- `harvestCoverage`
unfoldable pub harvest_coverage : List DependencyRecord → Cursor → List String → List Datum
harvest_coverage [] c ids = []
harvest_coverage (d ∷ ds) c ids =
    let rest = harvest_coverage ds c ids in
    if same_cursor d.cursor c && member_of d.behavior_id ids then d.datum ∷ rest else rest
