-- ===== src/Messages/Texts.antt =====
-- Texts as lists of code points, measured in UTF-16 code units as the language does.
use json_schema_engine.Base.{
  ℕ, zero, suc, ◌+◌, ◌≤◌, ltb, ◌≡◌, refl, ap, List, [], ◌∷◌, ◌++◌, if◌then◌else◌, length,
  length-append, take, drop, arith,
}

abbrev pub Text : Type 0
Text = List ℕ

-- `text.length`
unfoldable pub code_units : Text → ℕ
code_units [] = 0
code_units (c ∷ s) = (if ltb c 0x10000 then 1 else 2) + code_units s

-- `parts.join(separator)`
unfoldable pub join : Text → List Text → Text
join separator [] = []
join separator (t ∷ []) = t
join separator (t ∷ u ∷ rest) = t ++ (separator ++ join separator (u ∷ rest))

pub code_units-append : (s t : Text) → code_units (s ++ t) ≡ code_units s + code_units t
unfolding code_units
code_units-append [] t = omega arith
code_units-append (c ∷ s) t = omega (arith, code_units-append s t)

pub length_le-code_units : (s : Text) → length s ≤ code_units s
unfolding code_units
length_le-code_units [] = omega arith
length_le-code_units (c ∷ s) = ground (arith, length_le-code_units s)

-- No character outside of the basic plane.
abbrev pub IsPlain : Text → Type 0
IsPlain s = code_units s ≡ length s

pub IsPlain-append : (s t : Text) → IsPlain s → IsPlain t → IsPlain (s ++ t)
IsPlain-append s t p q = omega (arith, code_units-append s t, length-append s t, p, q)

pub IsPlain-split : (s t : Text) → IsPlain (s ++ t) → IsPlain s × IsPlain t
IsPlain-split s t h = (
  omega (
    arith,
    h,
    code_units-append s t,
    length-append s t,
    length_le-code_units s,
    length_le-code_units t,
  ),
  omega (
    arith,
    h,
    code_units-append s t,
    length-append s t,
    length_le-code_units s,
    length_le-code_units t,
  ),
)

pub take_short : {A : Type 0} (n : ℕ) (s t : List A) → n ≤ length s → take n (s ++ t) ≡ take n s
take_short zero s t h = refl
take_short (suc n) [] t h = absurd (omega (arith, h))
take_short (suc n) (c ∷ s) t h = ap (λ l. c ∷ l) (take_short n s t (omega (arith, h)))

pub take_long : {A : Type 0} (n : ℕ) (s : List A) → length s ≤ n → take n s ≡ s
take_long zero [] h = refl
take_long zero (c ∷ s) h = absurd (omega (arith, h))
take_long (suc n) [] h = refl
take_long (suc n) (c ∷ s) h = ap (λ l. c ∷ l) (take_long n s (omega (arith, h)))

pub take-take : {A : Type 0} (n m : ℕ) (s : List A) → n ≤ m → take n (take m s) ≡ take n s
take-take zero m s h = refl
take-take (suc n) zero s h = absurd (omega (arith, h))
take-take (suc n) (suc m) [] h = refl
take-take (suc n) (suc m) (c ∷ s) h = ap (λ l. c ∷ l) (take-take n m s (omega (arith, h)))

pub length-take : {A : Type 0} (n : ℕ) (s : List A) → length (take n s) ≤ n
length-take zero s = omega arith
length-take (suc n) [] = omega arith
length-take (suc n) (c ∷ s) = omega (arith, length-take n s)

pub length-take_full : {A : Type 0} (n : ℕ) (s : List A) → n ≤ length s → length (take n s) ≡ n
length-take_full zero s h = refl
length-take_full (suc n) [] h = absurd (omega (arith, h))
length-take_full (suc n) (c ∷ s) h = omega (arith, length-take_full n s (omega (arith, h)))

pub take-drop : {A : Type 0} (n : ℕ) (s : List A) → take n s ++ drop n s ≡ s
take-drop zero s = refl
take-drop (suc n) [] = refl
take-drop (suc n) (c ∷ s) = ap (λ l. c ∷ l) (take-drop n s)
