-- ===== src/Output/Texts.antt =====
-- The strings of packages/core/src/output.ts: what `slice`, `split`, `indexOf` and `join` are used for.
use Prim.Native.Char.{code}
use Prim.Native.String.{String, [], ◌∷◌, ◌++◌ as concat}
use json_schema_engine.Base.{ℕ, zero, suc, ◌==◌, List, [], ◌∷◌, if◌then◌else◌}

unfoldable pub path_length : String → ℕ
path_length [] = 0
path_length (c ∷ s) = suc (path_length s)

-- `s.slice(n)`
unfoldable pub drop_text : ℕ → String → String
drop_text zero s = s
drop_text (suc n) [] = []
drop_text (suc n) (c ∷ s) = drop_text n s

-- `s.slice(0, s.indexOf("/"))`, all of `s` where it holds no slash
unfoldable pub before_slash : String → String
before_slash [] = []
before_slash (c ∷ s) = let rest = before_slash s in if code c == code "/" then [] else c ∷ rest

-- `s.split("/")`, with the part before the first slash kept apart from the others
unfoldable pub split_segments : String → String × List String
split_segments [] = ([], [])
split_segments (c ∷ s) =
    let rest = split_segments s in
    if code c == code "/" then ([], rest.0 ∷ rest.1) else (c ∷ rest.0, rest.1)

-- `parts.join("; ")`
unfoldable pub join_semicolon : List String → String
join_semicolon [] = ""
join_semicolon (s ∷ []) = s
join_semicolon (s ∷ t ∷ rest) = concat s (concat "; " (join_semicolon (t ∷ rest)))
