-- ===== src/Json/Number/Order.antt =====
-- packages/core/src/json.ts and keywords/validation.ts: how the comparisons of doubles that the
-- bounds use relate to each other.
use json_schema_engine.Base.{
  ℕ, Bool, true, false, ◌&&◌, ◌||◌, not, if◌then◌else◌, ◌≡◌, refl, arith, ◌==◌, ltb,
}
use mathlib.Core.Bool.{false≢true}
use json_schema_engine.Json.{Double}
use json_schema_engine.Json.Number.{number_lt, number_le, number_eq, is_nan, scaled}

-- The comparisons over the signs and the magnitudes.
abbrev lt_parts : Bool → Bool → ℕ → ℕ → Bool
lt_parts m n a b =
    if m then (if n then ltb b a else not (a == 0 && b == 0)) else (if n then false else ltb a b)

abbrev eq_parts : Bool → Bool → ℕ → ℕ → Bool
eq_parts m n a b = a == b && ((m && n) || (not m && not n) || a == 0)

le_parts_lem :
    (m n : Bool) (a b : ℕ) → (lt_parts m n a b || eq_parts m n a b) ≡ not (lt_parts n m b a)
le_parts_lem true true a b = ground arith
le_parts_lem true false a b = ground arith
le_parts_lem false true a b = ground arith
le_parts_lem false false a b = ground arith

with_nan :
    (p q m n : Bool) (a b : ℕ)
    → ((if p || q then false else lt_parts m n a b)
        || not p && not q && a == b && ((m && n) || (not m && not n) || a == 0))
      ≡ (not p && not q && not (if q || p then false else lt_parts n m b a))
with_nan true q m n a b = refl
with_nan false true m n a b = refl
with_nan false false m n a b = le_parts_lem m n a b

-- `x <= y` holds of two doubles exactly when neither is a NaN and `y < x` does not hold, with the
-- two zeros and numbers of either sign compared as the language does.
pub number_le_complement :
    (x y : Double) → number_le x y ≡ (not (is_nan x) && not (is_nan y) && not (number_lt y x))
unfolding number_le number_lt number_eq
number_le_complement x y =
    with_nan (is_nan x) (is_nan y) x.negative y.negative (scaled x) (scaled y)

lt_parts_trans :
    (m n o : Bool) (a b c : ℕ)
    → lt_parts m n a b ≡ true
    → lt_parts n o b c ≡ true
    → lt_parts m o a c ≡ true
lt_parts_trans true true true a b c h g = ground arith
lt_parts_trans true true false a b c h g = ground arith
lt_parts_trans true false false a b c h g = ground arith
lt_parts_trans false false false a b c h g = ground arith
lt_parts_trans true false true a b c h g = absurd (ground arith)
lt_parts_trans false false true a b c h g = absurd (ground arith)
lt_parts_trans false true o a b c h g = absurd (ground arith)

with_nans :
    (p q r m n o : Bool) (a b c : ℕ)
    → (if p || q then false else lt_parts m n a b) ≡ true
    → (if q || r then false else lt_parts n o b c) ≡ true
    → (if p || r then false else lt_parts m o a c) ≡ true
with_nans true q r m n o a b c h g = absurd (false≢true h)
with_nans false true r m n o a b c h g = absurd (false≢true h)
with_nans false false true m n o a b c h g = absurd (false≢true g)
with_nans false false false m n o a b c h g = lt_parts_trans m n o a b c h g

-- `<` of doubles is transitive: what is below a number that is below a limit is below the limit.
pub number_lt_trans :
    (x y z : Double) → number_lt x y ≡ true → number_lt y z ≡ true → number_lt x z ≡ true
unfolding number_lt
number_lt_trans x y z h g =
    with_nans (is_nan x) (is_nan y) (is_nan z) x.negative y.negative z.negative (scaled x)
      (scaled y) (scaled z) h g
