-- ===== src/Messages/Preview.antt =====
-- packages/core/src/messages.ts, `preview`: a value as compact JSON, cut to a number of code points.
-- `escape` and `number_text` are what `JSON.stringify` writes for a character of a string and for a
-- number. A walk hands on the text so far and whether the budget lasts.
pub mod Outcome
pub mod Exact
use json_schema_engine.Base.{
  ℕ, leb, Bool, true, false, List, [], ◌∷◌, ◌++◌, String, if◌then◌else◌, length, take,
}
use json_schema_engine.Json.{
  Double, Json, null, boolean, number, string, array, object, Items, nil, cons, Members, end,
  member,
}
use json_schema_engine.Json.Length.{codes}
use json_schema_engine.Messages.Texts.{Text, code_units}

abbrev pub preview_limit : ℕ
preview_limit = 64

abbrev pub ellipsis : Text
ellipsis = 0x2026 ∷ []

unfoldable pub cut : Text → Text
unfolding code_units
cut text =
    if leb (code_units text) preview_limit
    then text
    else if leb (length text) preview_limit
    then text
    else take 63 text ++ ellipsis

-- `codePoints(s, count)`
abbrev pub code_points : Text → ℕ → Text
code_points s count = take count s

abbrev pub Writer : Type 0
Writer = Text → Text × Bool

-- What comes next, unless the budget is spent.
abbrev pub go_on : Text × Bool → Writer → Text × Bool
go_on (text, true) next = next text
go_on (text, false) next = (text, false)

abbrev pub and_put : Writer → Writer → Writer
and_put first next text = go_on (first text) next

unfoldable pub put : Text → Writer
unfolding code_units
put piece text = (text ++ piece, leb (code_units (text ++ piece)) preview_limit)

abbrev pub separator : Bool → Text
separator true = []
separator false = codes ", "

unfoldable pub put_separator : Bool → Writer
unfolding put
put_separator true text = (text, true)
put_separator false text = put (codes ", ") text

module _ (escape : ℕ → Text) (number_text : Double → Text) where
  abbrev pub escaped_text : Text → Text
  escaped_text [] = []
  escaped_text (c ∷ s) = escape c ++ escaped_text s

  -- `JSON.stringify` of a string, and of a value that is not a container
  abbrev pub quoted : Text → Text
  quoted s = codes "\"" ++ (escaped_text s ++ codes "\"")

  abbrev pub scalar_text : Json → Text
  scalar_text (boolean true) = codes "true"
  scalar_text (boolean false) = codes "false"
  scalar_text (number n) = number_text n
  scalar_text _ = codes "null"

  -- A string is shown as far as one code point past the limit.
  unfoldable mutual
    unfolding put put_separator

    pub preview_value : Json → Writer
    preview_value (string s) = put (quoted (code_points (codes s) 65))
    preview_value (array xs) = and_put (put (codes "[")) (walk_items true xs)
    preview_value (object ms) = and_put (put (codes "{")) (walk_entries true ms)
    preview_value null = put (scalar_text null)
    preview_value (boolean b) = put (scalar_text (boolean b))
    preview_value (number n) = put (scalar_text (number n))

    pub walk_items : Bool → Items → Writer
    walk_items first nil = put (codes "]")
    walk_items first (cons v vs) =
        and_put (put_separator first) (and_put (preview_value v) (walk_items false vs))

    pub walk_entries : Bool → Members → Writer
    walk_entries first end = put (codes "}")
    walk_entries first (member key v ms) = and_put (put_separator first) (
        and_put (put (quoted (code_points (codes key) 65) ++ codes ": "))
          (and_put (preview_value v) (walk_entries false ms)))

  unfoldable pub preview : Json → Text
  unfolding cut preview_value
  preview value = cut (preview_value value []).0
