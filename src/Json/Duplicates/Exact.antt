-- ===== src/Json/Duplicates/Exact.antt =====
-- packages/core/src/json.ts, `firstDuplicatePair` of JSON values, by `canonicalKey` and `jsonEqual`.
use json_schema_engine.Base.{◌≡◌, true, List, [], String, all}
use json_schema_engine.Json.{Json, number, Double}
use json_schema_engine.Json.Number.{number_eq}
use json_schema_engine.Json.Equal.{json_equal}
use json_schema_engine.Json.Duplicates.{canonical_key, first_duplicate_pair}
use json_schema_engine.Json.Duplicates.Names.{has_unique_names, count}
use json_schema_engine.Json.Duplicates.Keys.{key_shared}
use json_schema_engine.Json.Duplicates.Search.{search_pairs, first_duplicate_pair-search_pairs}

-- Where no object of the items has a name twice, the order of `sort` depends only on how often each
-- text occurs, and equal numbers are written alike, `firstDuplicatePair` finds what a comparison of
-- each item with all the earlier ones by `jsonEqual` finds: the least second index for which an
-- earlier item is equal, with the least such first index, or no pair where there is none.
pub first_duplicate_pair_exact :
    (stringify : Json → String) (sort : List String → List String)
    → ((xs ys : List String) → ((n : String) → count n xs ≡ count n ys) → sort xs ≡ sort ys)
    → ((a b : Double) → number_eq a b ≡ true → stringify (number a) ≡ stringify (number b))
    → (items : List Json) → all has_unique_names items ≡ true
    → first_duplicate_pair (canonical_key stringify sort) json_equal items
      ≡ search_pairs json_equal 0 items []
first_duplicate_pair_exact stringify sort ordered numbers items unique =
    first_duplicate_pair-search_pairs (canonical_key stringify sort) json_equal has_unique_names
      (λ y x u same. key_shared stringify sort ordered numbers y x u same) items unique
