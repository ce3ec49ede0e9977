-- ===== src/Json/Length.antt =====
-- packages/core/src/json.ts, `codePointLength`: a string as its UTF-16 code units.
pub mod Bounds
use Prim.Native.Char.{code}
use Prim.Native.String
use json_schema_engine.Base.{
  ℕ, zero, suc, ◌+◌, ◌-◌, ◌*◌, ◌≤◌, ◌<◌, String, ◌≡◌, refl, Bool, true, false, ◌&&◌, ◌||◌, List, [],
  ◌∷◌, ◌++◌, arith, ltb, leb, if◌then◌else◌, length, Bool-cases, inl, inr, ap, not, ltb→lt, ◌↔◌,
}
use Prim.Native.Nat.{◌/◌, ◌%◌}

abbrev pub is_high_surrogate : ℕ → Bool
is_high_surrogate c = leb 0xd800 c && leb c 0xdbff

-- A high surrogate takes the unit after it along, whatever that is.
unfoldable pub code_point_length : List ℕ → ℕ
code_point_length [] = 0
code_point_length (c ∷ []) = 1
code_point_length (c ∷ d ∷ s) =
    let alone = code_point_length (d ∷ s) in
    let paired = code_point_length s in suc (if is_high_surrogate c then paired else alone)

-- `charCodeAt` reads these units: one for a code point of the basic plane, else a surrogate pair.
abbrev pub char_units : ℕ → List ℕ
char_units c =
    if ltb c 0x10000
    then c ∷ []
    else (0xd800 + (c - 0x10000) / 0x400) ∷ (0xdc00 + (c - 0x10000) % 0x400) ∷ []

unfoldable pub utf16 : List ℕ → List ℕ
utf16 [] = []
utf16 (c ∷ s) = char_units c ++ utf16 s

abbrev pub codes : String → List ℕ
codes String.[] = []
codes (String.◌∷◌ c s) = code c ∷ codes s
