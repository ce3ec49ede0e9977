-- ===== src/Messages/Listed.antt =====
-- packages/core/src/messages.ts: names, types and indexes as texts. `decimal` writes a number of the
-- language; `escape` and `number_text` are as in `preview`.
pub mod Runs
use json_schema_engine.Base.{
  ℕ, zero, suc, ◌+◌, ◌-◌, ltb, leb, ◌==◌, Bool, true, false, List, [], ◌∷◌, ◌++◌, map, String,
  if◌then◌else◌, length, take,
}
use json_schema_engine.Json.{
  Double, Json, null, boolean, number, string, array, object, json_type_of,
}
use json_schema_engine.Json.Number.{is_integer}
use json_schema_engine.Json.Length.{codes}
use json_schema_engine.Keywords.Validation.{type_name}
use json_schema_engine.Messages.Texts.{Text, join}
use json_schema_engine.Messages.Preview.{preview}

-- `[...new Set(indexes)].sort((a, b) => a - b)`
unfoldable pub insert_index : ℕ → List ℕ → List ℕ
insert_index i [] = i ∷ []
insert_index i (j ∷ rest) =
    let further = insert_index i rest in
    if i == j then j ∷ rest else if ltb i j then i ∷ j ∷ rest else j ∷ further

unfoldable pub sorted_unique : List ℕ → List ℕ
unfolding insert_index
sorted_unique [] = []
sorted_unique (i ∷ indexes) = insert_index i (sorted_unique indexes)

-- The loop, with the last run as `first` and `last`.
unfoldable pub runs_from : ℕ → ℕ → List ℕ → List (ℕ × ℕ)
runs_from first last [] = (first, last) ∷ []
runs_from first last (i ∷ indexes) =
    let longer = runs_from first i indexes in
    let other = runs_from i i indexes in if i == last + 1 then longer else (first, last) ∷ other

unfoldable pub runs : List ℕ → List (ℕ × ℕ)
unfolding runs_from
runs [] = []
runs (i ∷ indexes) = runs_from i i indexes

unfoldable pub ranges : List ℕ → List (ℕ × ℕ)
unfolding runs sorted_unique
ranges indexes = runs (sorted_unique indexes)

-- `for (let i = a; i <= b; i++)`, by how many rounds there are
unfoldable pub count_up : ℕ → ℕ → List ℕ
count_up zero i = []
count_up (suc n) i = i ∷ count_up n (suc i)

abbrev pub or_none_text : Text → List Text → Text
or_none_text separator [] = codes "none"
or_none_text separator (t ∷ parts) = join separator (t ∷ parts)

unfoldable pub apparent_type : Json → Text
unfolding json_type_of is_integer
apparent_type (number d) = if is_integer d then codes "integer" else codes "number"
apparent_type value = codes (type_name (json_type_of value))

module _ (decimal : ℕ → Text) where
  unfoldable pub range_parts : List (ℕ × ℕ) → List Text
  unfolding count_up
  range_parts [] = []
  range_parts ((a, b) ∷ rest) =
      (if leb 2 (b - a)
        then (decimal a ++ (codes "-" ++ decimal b)) ∷ []
        else map decimal (count_up (suc b - a) a))
      ++ range_parts rest

  unfoldable pub index_ranges : List ℕ → Text
  unfolding ranges range_parts join
  index_ranges indexes = or_none_text (codes ", ") (range_parts (ranges indexes))

  unfoldable pub counted_indexes : List ℕ → Text → Text → Text
  unfolding index_ranges
  counted_indexes [] singular plural = codes "none"
  counted_indexes (i ∷ indexes) singular plural =
      decimal (length (i ∷ indexes))
      ++ (codes " "
          ++ ((if length (i ∷ indexes) == 1 then singular else plural)
              ++ (codes " (" ++ (index_ranges (i ∷ indexes) ++ codes ")"))))

  unfoldable pub group_text : List ℕ → Text
  unfolding join
  group_text g = codes "[" ++ (join (codes ", ") (map decimal g) ++ codes "] are equal")

  unfoldable pub index_groups : List (List ℕ) → Text
  unfolding join group_text
  index_groups groups = join (codes "; ") (map group_text groups)

  module _ (escape : ℕ → Text) (number_text : Double → Text) where
    unfoldable pub typed_preview : Json → Text
    unfolding preview apparent_type
    typed_preview (array xs) = apparent_type (array xs)
    typed_preview (object ms) = apparent_type (object ms)
    typed_preview value =
        preview escape number_text value ++ (codes " (" ++ (apparent_type value ++ codes ")"))

    -- `names.map(preview)`
    unfoldable pub name_text : String → Text
    unfolding preview
    name_text name = preview escape number_text (string name)

    unfoldable pub name_list : List String → Text
    unfolding name_text join
    name_list names =
        let shown = join (codes ", ") (map name_text (take 10 names)) in
        let rest = length names - 10 in
        if ltb 0 rest then shown ++ (codes " and " ++ (decimal rest ++ codes " more")) else shown

    unfoldable pub labeled_names : List String → Text → Text → Text
    unfolding name_list
    labeled_names names singular plural =
        (if length names == 1 then singular else plural) ++ (codes " " ++ name_list names)

    unfoldable pub dependency_text : String × List String → Text
    unfolding name_text name_list
    dependency_text (name, deps) = name_text name ++ (codes " requires " ++ name_list deps)

    unfoldable pub dependency_list : List (String × List String) → Text
    unfolding join dependency_text
    dependency_list missing = join (codes "; ") (map dependency_text missing)
