-- ===== src/Json/Equal.antt =====
-- packages/core/src/json.ts: `jsonEqual`. The shortcut `a === b` compares scalars; on arrays and
-- objects it compares references, which no value can tell from comparing their parts, as JSON has no
-- NaN.
pub mod Reflexive
use json_schema_engine.Base.{
  ℕ, Bool, true, false, ◌&&◌, List, [], ◌∷◌, String, str_eq, ◌==◌, length, Option, none, some,
  if◌then◌else◌,
}
use json_schema_engine.Json.{
  Json, null, boolean, number, string, array, object, Items, nil, cons, Members, end, member,
  elements, entries, lookup,
}
use json_schema_engine.Json.Number.{number_eq}

abbrev pub same_bool : Bool → Bool → Bool
same_bool true b = b
same_bool false true = false
same_bool false false = true

-- The loops over the items, and over the names of the first object, end at the first difference.
unfoldable mutual
  unfolding number_eq

  pub json_equal : Json → Json → Bool
  json_equal null null = true
  json_equal (boolean a) (boolean b) = same_bool a b
  json_equal (number a) (number b) = number_eq a b
  json_equal (string a) (string b) = str_eq a b
  json_equal (array a) (array b) = items_equal a b
  json_equal (object a) (object b) =
      length (entries a) == length (entries b) && members_within a (entries b)
  json_equal _ _ = false

  -- arrays of the same length with equal items
  pub items_equal : Items → Items → Bool
  items_equal nil nil = true
  items_equal (cons x xs) (cons y ys) = json_equal x y && items_equal xs ys
  items_equal _ _ = false

  pub members_within : Members → List (String × Json) → Bool
  members_within end b = true
  members_within (member k v a) b = elim (lookup k b) [
    | none ↦ false
    | some w ↦ json_equal v w && members_within a b
  ]
