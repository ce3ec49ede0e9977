-- ===== src/Json/Number.antt =====
-- packages/core/src/json.ts: the comparisons of numbers that the keywords use. A finite double is a
-- whole multiple of 2 ^ -1074; `scaled` is that multiple, without its sign.
pub mod Order
use json_schema_engine.Base.{
  ℕ, ◌+◌, ◌*◌, ◌-◌, ◌^◌, ◌%◌, Bool, true, false, ◌&&◌, ◌||◌, not, ◌==◌, ltb, leb, if◌then◌else◌,
}
use json_schema_engine.Json.{Double}

abbrev hidden_bit : ℕ
hidden_bit = 2 ^ 52

unfoldable pub scaled : Double → ℕ
scaled d = if d.exponent == 0 then d.fraction else (hidden_bit + d.fraction) * 2 ^ (d.exponent - 1)

unfoldable pub is_nan : Double → Bool
is_nan d = d.exponent == 2047 && not (d.fraction == 0)

unfoldable pub is_finite : Double → Bool
is_finite d = ltb d.exponent 2047

-- `x < y` of doubles; a NaN is below nothing.
unfoldable pub number_lt : Double → Double → Bool
unfolding scaled is_nan
number_lt x y =
    if is_nan x || is_nan y
    then false
    else if x.negative
    then (if y.negative then ltb (scaled y) (scaled x) else not (scaled x == 0 && scaled y == 0))
    else (if y.negative then false else ltb (scaled x) (scaled y))

-- `x === y` of doubles; the two zeros are equal.
unfoldable pub number_eq : Double → Double → Bool
unfolding scaled is_nan
number_eq x y =
    not (is_nan x)
    && not (is_nan y)
    && scaled x == scaled y
    && ((x.negative && y.negative) || (not x.negative && not y.negative) || scaled x == 0)

unfoldable pub number_le : Double → Double → Bool
unfolding number_lt number_eq
number_le x y = number_lt x y || number_eq x y

-- `Number.isInteger`
unfoldable pub is_integer : Double → Bool
unfolding is_finite scaled
is_integer d = is_finite d && scaled d % 2 ^ 1074 == 0

-- `n < y` and `y < n` of a length and a double, exact below 2 ^ 53.
unfoldable pub length_lt : ℕ → Double → Bool
unfolding scaled is_nan
length_lt n y = not (is_nan y) && not y.negative && ltb (n * 2 ^ 1074) (scaled y)

unfoldable pub lt_length : Double → ℕ → Bool
unfolding scaled is_nan
lt_length y n =
    not (is_nan y)
    && (if y.negative then not (scaled y == 0 && n == 0) else ltb (scaled y) (n * 2 ^ 1074))
