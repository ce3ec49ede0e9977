-- ===== src/Tests/Walks.antt =====
-- The walk of packages/core/src/walk.ts over a small schema.
use mathlib.Core.List.{Memᴰ}
use json_schema_engine.Base.{
  ℕ, ◌≡◌, ◌≤◌, refl, true, false, none, some, [], ◌∷◌, String, str_eq, if◌then◌else◌,
}
use json_schema_engine.Json.{boolean, object, null, member, end, lookup, Members}
use json_schema_engine.Json.Pointer.{escape_segment}
use json_schema_engine.Cursor.{key}
use json_schema_engine.Schemas.Fallible.{returns, throws, foreign, max_depth_exceeded}
use json_schema_engine.Schemas.Tolerant.{Analyzer, walk_schema, follow_segments, positions_of}
use json_schema_engine.Schemas.Tolerant.Visits.{
  AllReached, IsBounded, walk_schema-Sound, Reached, start, below,
}
use json_schema_engine.Schemas.Tolerant.Complete.{walk_schema_complete}

abbrev decimal : ℕ → String
decimal i = "0"

-- `not` claims its value, `properties` the members of its value, and `if` cannot be analyzed.
abbrev analyze : Analyzer
analyze name =
    if str_eq name "not"
    then some (λ v ms. returns (some ([] ∷ [])))
    else if str_eq name "properties"
    then some (λ v ms. returns (some ((key "a" ∷ []) ∷ [])))
    else if str_eq name "if"
    then some (λ v ms. throws (foreign "TypeError"))
    else none

abbrev inner : Members
inner = member "a" (object (member "not" (boolean false) end)) end

-- `{"if": null, "title": true, "properties": {"a": {"not": false}}}`
abbrev small : Members
small = member "if" null (member "title" (boolean true) (member "properties" (object inner) end))

three_visits : walk_schema decimal analyze 5 (object small) ≡ (
  record { node = object small; pointer = ""; keyword = none }
      ∷ record {
        node = object (member "not" (boolean false) end);
        pointer = "/properties/a";
        keyword = some "properties";
      }
      ∷ record { node = boolean false; pointer = "/properties/a/not"; keyword = some "not" }
      ∷ [],
  none,
)
unfolding walk_schema escape_segment lookup
three_visits = refl

too_deep : (walk_schema decimal analyze 1 (object small)).1 ≡ some max_depth_exceeded
unfolding walk_schema escape_segment lookup
too_deep = refl

walk_schema-Sound_example :
    AllReached decimal analyze 1 (object small) (walk_schema decimal analyze 1 (object small)).0
    × IsBounded decimal analyze 1 (object small) (walk_schema decimal analyze 1 (object small)).1
walk_schema-Sound_example = walk_schema-Sound decimal analyze 1 (object small)

nothing_thrown : (walk_schema decimal analyze 5 (object small)).1 ≡ none
unfolding walk_schema escape_segment lookup
nothing_thrown = refl

member_reached :
    Reached decimal analyze 5
      (object small)
      (object (member "not" (boolean false) end))
      "/properties/a"
      (some "properties")
      1
unfolding follow_segments positions_of escape_segment lookup
member_reached =
    below {path = key "a" ∷ []} {suffix = "/properties/a"} start
      (Memᴰ.tail (Memᴰ.tail (Memᴰ.head refl))) (Memᴰ.head refl) refl

walk_schema_complete_example :
    Memᴰ
      (record {
        node = object (member "not" (boolean false) end);
        pointer = "/properties/a";
        keyword = some "properties";
      })
      (walk_schema decimal analyze 5 (object small)).0
    × (1 ≤ 5)
walk_schema_complete_example =
    walk_schema_complete decimal analyze 5 (object small)
      (object (member "not" (boolean false) end)) "/properties/a" (some "properties") 1
      nothing_thrown member_reached refl
