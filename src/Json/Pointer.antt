-- ===== src/Json/Pointer.antt =====
-- packages/core/src/json.ts, `escapeSegment` and `unescapeSegment` (RFC 6901), over code points.
pub mod RoundTrip
use Prim.Native.Char.{Char, code}
use Prim.Native.String.{String, [], ◌∷◌}
use json_schema_engine.Base.{ℕ, Bool, false, true, ◌||◌, ◌&&◌, ◌==◌, if◌then◌else◌}

-- `s.replace(/c/g, "ab")`
unfoldable pub replace_char : Char → Char → Char → String → String
replace_char c a b [] = []
replace_char c a b (d ∷ s) =
    let rest = replace_char c a b s in if code d == code c then a ∷ b ∷ rest else d ∷ rest

-- `s.replace(/ab/g, "c")`
unfoldable pub replace_pair : Char → Char → Char → String → String
replace_pair a b c [] = []
replace_pair a b c (d ∷ []) = d ∷ []
replace_pair a b c (d ∷ e ∷ s) =
    let hit = c ∷ replace_pair a b c s in
    let miss = d ∷ replace_pair a b c (e ∷ s) in
    if code d == code a && code e == code b then hit else miss

-- `s.includes(c)` of one character
unfoldable pub includes_char : Char → String → Bool
includes_char c [] = false
includes_char c (d ∷ s) = code d == code c || includes_char c s

unfoldable pub escape_segment : String → String
unfolding replace_char includes_char
escape_segment s =
    if includes_char "~" s || includes_char "/" s
    then replace_char "/" "~" "1" (replace_char "~" "~" "0" s)
    else s

unfoldable pub unescape_segment : String → String
unfolding replace_pair
unescape_segment s = replace_pair "~" "0" "~" (replace_pair "~" "1" "/" s)
