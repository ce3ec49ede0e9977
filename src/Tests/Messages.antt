-- ===== src/Tests/Messages.antt =====
-- Texts of errors, and equal items.
use json_schema_engine.Base.{
  zero, suc, ℕ, ◌≡◌, ◌≤◌, ◌==◌, refl, true, false, some, List, [], ◌∷◌, ◌++◌, String, any, length,
  take, leb, if◌then◌else◌, arith,
}
use json_schema_engine.Json.{
  Double, Json, null, boolean, number, string, array, object, nil, cons, member, end, lookup,
}
use json_schema_engine.Json.Equal.{json_equal}
use json_schema_engine.Json.Length.{codes}
use json_schema_engine.Json.Duplicates.{first_duplicate_pair, canonical_key}
use json_schema_engine.Json.Duplicates.Search.{find_twin, search_pairs}
use json_schema_engine.Json.Duplicates.Names.{count, has_unique_names}
use json_schema_engine.Json.Duplicates.Exact.{first_duplicate_pair_exact}
use mathlib.Core.Path.{ap₂}
use json_schema_engine.Dialects.{set_entry}
use json_schema_engine.Messages.Texts.{Text, code_units}
use json_schema_engine.Messages.Preview.{preview, put, ellipsis}
use json_schema_engine.Messages.Preview.Exact.{compact, preview_bounded, preview-compact}
use json_schema_engine.Messages.Listed.{ranges, index_ranges}
use json_schema_engine.Messages.Listed.Runs.{spread, Ascending, AreApart, ranges-AreApart}

-- No character needs an escape, and no number is shown.
abbrev plain_char : ℕ → Text
plain_char c = c ∷ []

abbrev number_text : Double → Text
number_text d = codes "0"

abbrev small : Json
small = object (member "a" (array (cons null (cons (string "b") nil))) end)

shown : preview plain_char number_text small ≡ codes "{\"a\": [null, \"b\"]}"
unfolding preview put
shown = refl

preview_bounded_example : length (preview plain_char number_text small) ≤ 64
preview_bounded_example = preview_bounded plain_char number_text small

small_plain :
    code_units (compact plain_char number_text small)
    ≡ length (compact plain_char number_text small)
unfolding code_units compact
small_plain = refl

preview-compact_example : preview plain_char number_text small ≡ (
    if leb (length (compact plain_char number_text small)) 64
    then compact plain_char number_text small
    else take 63 (compact plain_char number_text small) ++ ellipsis)
preview-compact_example =
    preview-compact plain_char number_text small (λ c. omega arith) small_plain

-- Thirty-two characters outside of the basic plane, in a list. The text has 36 code points and 68
-- units: the walk stops behind the text, and as the 35 code points that it wrote fit, they are shown
-- without the bracket and without an ellipsis.
abbrev faces : Json
faces = array (cons (string "😀😀😀😀😀😀😀😀😀😀😀😀😀😀😀😀😀😀😀😀😀😀😀😀😀😀😀😀😀😀😀😀") nil)

faces_whole : length (compact plain_char number_text faces) ≡ 36
unfolding compact
faces_whole = refl

faces_shown :
    preview plain_char number_text faces ++ codes "]" ≡ compact plain_char number_text faces
unfolding preview compact put
faces_shown = refl

runs_listed : ranges (5 ∷ 1 ∷ 2 ∷ 3 ∷ 2 ∷ []) ≡ (1, 3) ∷ (5, 5) ∷ []
unfolding ranges
runs_listed = refl

abbrev decimal : ℕ → Text
decimal i = codes (if i == 0 then "0" else if i == 1 then "1" else "4")

-- A pair of neighbors is no range.
pair_listed : index_ranges decimal (4 ∷ 0 ∷ 1 ∷ []) ≡ codes "0, 1, 4"
unfolding index_ranges
pair_listed = refl

ranges-AreApart_example :
    (any (λ i. 2 == i) (spread (ranges (5 ∷ 1 ∷ 2 ∷ 3 ∷ 2 ∷ [])))
      ≡ any (λ i. 2 == i) (5 ∷ 1 ∷ 2 ∷ 3 ∷ 2 ∷ []))
    × Ascending (spread (ranges (5 ∷ 1 ∷ 2 ∷ 3 ∷ 2 ∷ [])))
    × AreApart (ranges (5 ∷ 1 ∷ 2 ∷ 3 ∷ 2 ∷ []))
ranges-AreApart_example = ranges-AreApart (5 ∷ 1 ∷ 2 ∷ 3 ∷ 2 ∷ []) 2

-- The members of an object are sorted, here by a sort that swaps two names.
abbrev stringify : Json → String
stringify (string s) = s
stringify (boolean true) = "true"
stringify (boolean false) = "false"
stringify _ = "null"

abbrev swapped : List String → List String
swapped (a ∷ b ∷ []) = b ∷ a ∷ []
swapped l = l

key_sorted :
    canonical_key stringify swapped (object (member "b" null (member "a" (boolean true) end)))
    ≡ "{a:true,b:null}"
unfolding canonical_key lookup
key_sorted = refl

abbrev items : List Json
items = boolean true ∷ null ∷ boolean true ∷ null ∷ []

pair_found : first_duplicate_pair (canonical_key stringify swapped) json_equal items ≡ some (0, 2)
unfolding first_duplicate_pair canonical_key json_equal lookup set_entry
pair_found = refl

-- A sort of texts of which none is but "a" and "b".
abbrev repeated : ℕ → String → List String
repeated zero s = []
repeated (suc n) s = s ∷ repeated n s

abbrev two_names : List String → List String
two_names l = repeated (count "a" l) "a" ++ repeated (count "b" l) "b"

abbrev written : Json → String
written (number n) = "0"
written v = stringify v

-- `{"a": true, "b": "x"}` in both orders of its names, between other items
abbrev mixed : List Json
mixed =
    object (member "a" (boolean true) (member "b" (string "x") end))
    ∷ null
    ∷ object (member "b" (string "x") (member "a" (boolean true) end))
    ∷ null
    ∷ []

first_duplicate_pair_exact_example :
    first_duplicate_pair (canonical_key written two_names) json_equal mixed
    ≡ search_pairs json_equal 0 mixed []
unfolding has_unique_names
first_duplicate_pair_exact_example =
    first_duplicate_pair_exact written two_names
      (λ xs ys same. ap₂ (λ m n. repeated m "a" ++ repeated n "b") (same "a") (same "b"))
      (λ a b same. refl) mixed refl

-- The two objects are found equal.
mixed_found : search_pairs json_equal 0 mixed [] ≡ some (0, 2)
unfolding search_pairs find_twin json_equal lookup
mixed_found = refl
