-- ===== src/Schemas/Tolerant.antt =====
-- packages/core/src/walk.ts: the walk of an unvalidated schema, for tools.
-- `visit` is called with the visits of the list, in its order. The facts of the dialect's keywords are
-- a parameter: for a keyword that has an `analyze`, what that returns or throws. `text` writes an
-- index in decimal. The walk recurses on fuel beside the depth that it counts.
pub mod Complete
pub mod Visits
use Prim.Native.String.{◌++◌ as str_append}
use json_schema_engine.Base.{
  ℕ, zero, suc, ◌+◌, ltb, Bool, true, false, Option, none, some, List, [], ◌∷◌, ◌++◌, String,
  get_elem?,
}
use json_schema_engine.Json.{Json, boolean, array, object, Members, elements, entries, lookup}
use json_schema_engine.Cursor.{Segment, key, index, segment_text}
use json_schema_engine.Schemas.Fallible.{
  Fallible, returns, throws, SchemaError, max_depth_exceeded, out_of_fuel,
}
use json_schema_engine.Schemas.Walk.{hop}

-- `SchemaWalkVisit`
pub record Visit : Type 0 where
  pub node : Json
  pub pointer : String
  pub keyword : Option String

-- The visits made, and what was thrown after them.
abbrev pub Walked : Type 0
Walked = List Visit × Option SchemaError

abbrev pub no_walk : Walked
no_walk = ([], none)

abbrev pub and_walk : Walked → Walked → Walked
and_walk (vs, none) w = (vs ++ w.0, w.1)
and_walk (vs, some e) w = (vs, some e)

-- What `analyze` gives: the positions below a keyword's value, where it tells any.
abbrev pub Analyzer : Type 0
Analyzer = String → Option (Json → Members → Fallible (Option (List (List Segment))))

-- `child[seg]`; an index of an object and a name of an array, which no keyword of the 2020-12
-- vocabularies gives, lead nowhere here.
abbrev pub part_at : Segment → Option Json → Option Json
part_at (index i) (some (array xs)) = get_elem? (elements xs) i
part_at (key k) (some (object ms)) = lookup k (entries ms)
part_at _ _ = none

abbrev pub told : Fallible (Option (List (List Segment))) → List (List Segment)
told (returns (some paths)) = paths
told _ = []

module _ (text : ℕ → String) (analyze : Analyzer) (max_depth : ℕ) where
  unfoldable pub follow_segments : List Segment → Option Json → String → Option Json × String
  unfolding hop segment_text
  follow_segments [] child suffix = (child, suffix)
  follow_segments (seg ∷ rest) child suffix =
      follow_segments rest (part_at seg child) (str_append suffix (hop (segment_text text seg)))

  unfoldable pub positions_of : String → Json → Members → List (List Segment)
  positions_of name value ms = elim (analyze name) [ none ↦ [] | some f ↦ told (f value ms) ]

  -- The loops of `step`, with its recursive call as `descend`.
  module _ (descend : Json → String → Option String → Walked) where
    abbrev pub visit_child : String → String → Option Json × String → Walked
    visit_child name pointer (none, suffix) = no_walk
    visit_child name pointer (some child, suffix) =
        descend child (str_append pointer suffix) (some name)

    unfoldable pub walk_paths : String → Json → String → List (List Segment) → Walked
    unfolding follow_segments
    walk_paths name value pointer [] = no_walk
    walk_paths name value pointer (path ∷ paths) =
        and_walk (visit_child name pointer (follow_segments path (some value) (hop name)))
          (walk_paths name value pointer paths)

    unfoldable pub walk_members : Members → String → List (String × Json) → Walked
    unfolding walk_paths positions_of
    walk_members ms pointer [] = no_walk
    walk_members ms pointer ((name, value) ∷ rest) =
        and_walk (walk_paths name value pointer (positions_of name value ms))
          (walk_members ms pointer rest)

    unfoldable pub visit_node : Json → String → Option String → Walked
    unfolding walk_members
    visit_node (boolean b) pointer keyword =
        (record { node = boolean b; pointer = pointer; keyword = keyword } ∷ [], none)
    visit_node (object ms) pointer keyword =
        and_walk (record { node = object ms; pointer = pointer; keyword = keyword } ∷ [], none)
          (walk_members ms pointer (entries ms))
    visit_node _ pointer keyword = no_walk

  unfoldable pub step : ℕ → ℕ → Json → String → Option String → Walked
  unfolding visit_node
  step zero depth node pointer keyword = ([], some out_of_fuel)
  step (suc fuel) depth node pointer keyword = elim (ltb max_depth depth) [
    | true ↦ ([], some max_depth_exceeded)
    | false ↦ visit_node (step fuel (depth + 1)) node pointer keyword
  ]

  unfoldable pub walk_schema : Json → Walked
  unfolding step
  walk_schema schema = step (suc (suc max_depth)) 0 schema "" none
