-- ===== src/Json/Length/Bounds.antt =====
-- packages/core/src/json.ts, `codePointLength`, against the code points of a text and the number of
-- its units; packages/core/src/keywords/validation.ts, the lowered tests of `minLength`/`maxLength`.
use json_schema_engine.Base.{
  ℕ, suc, ◌*◌, ◌≤◌, ◌≡◌, Bool, true, false, ◌&&◌, ◌||◌, not, List, [], ◌∷◌, arith, ltb, leb,
  if◌then◌else◌, length,
}
use json_schema_engine.Json.Length.{is_high_surrogate, code_point_length}

one_or_pair : (b : Bool) (m n k : ℕ) → m ≤ suc k → n ≤ k → (if b then n else m) ≤ suc k
one_or_pair true m n k p q = omega arith
one_or_pair false m n k p q = omega arith

-- A text never has more code points than units, whatever the units are.
pub code_point_length-le : (s : List ℕ) → code_point_length s ≤ length s
unfolding code_point_length
code_point_length-le [] = omega arith
code_point_length-le (c ∷ []) = omega arith
code_point_length-le (c ∷ d ∷ s) = omega (
  arith,
  one_or_pair (is_high_surrogate c) (code_point_length (d ∷ s)) (code_point_length s) (length s)
      (code_point_length-le (d ∷ s)) (omega (arith, code_point_length-le s)),
)

half_or_pair :
    (b : Bool) (m n k : ℕ) → suc k ≤ 2 * m → k ≤ 2 * n → suc (suc k) ≤ 2 * suc (if b then n else m)
half_or_pair true m n k p q = omega arith
half_or_pair false m n k p q = omega arith

-- And never less than half as many.
pub length-le : (s : List ℕ) → length s ≤ 2 * code_point_length s
unfolding code_point_length
length-le [] = omega arith
length-le (c ∷ []) = omega arith
length-le (c ∷ d ∷ s) =
    half_or_pair (is_high_surrogate c) (code_point_length (d ∷ s)) (code_point_length s) (length s)
      (length-le (d ∷ s)) (length-le s)

-- The lowered test of `minLength`: the units decide outside of a window.
unfoldable pub below_least : ℕ → List ℕ → Bool
below_least n s = ltb (length s) n || (ltb (length s) (2 * n) && ltb (code_point_length s) n)

-- The lowered test of `maxLength`.
unfoldable pub above_most : ℕ → List ℕ → Bool
above_most n s = ltb n (length s) && ltb n (code_point_length s)

-- The compiled tests of `minLength` and `maxLength`, which count code points only where the number
-- of units does not decide, fail exactly where the interpreted comparisons do.
pub lowered_lengths_agree :
    (n : ℕ) (s : List ℕ)
    → (below_least n s ≡ not (leb n (code_point_length s)))
      × (above_most n s ≡ not (leb (code_point_length s) n))
unfolding below_least above_most
lowered_lengths_agree n s =
    (ground (arith, code_point_length-le s, length-le s), ground (arith, code_point_length-le s))
