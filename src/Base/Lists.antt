-- ===== src/Base/Lists.antt =====
-- Lists measured and cut by native numbers, under the library's names.
use Prim.Native.Nat.{ℕ, zero, suc, ◌+◌, ◌≤◌}
use mathlib.Core.Path.{◌≡◌, refl, sym, ap, ◌∙◌}
use mathlib.Core.Bool.{Bool, true, false, ◌&&◌, ◌||◌}
use mathlib.Core.List.{List, [], ◌∷◌, ◌++◌, append_assoc, append-nil}
use mathlib.Core.Option.{Option, none, some}
use native.Mathlib.Omega.{arith}
use json_schema_engine.Base.Tests.{if◌then◌else◌}

module _ {ℓ} {A : Type ℓ} where
  abbrev pub length : List A → ℕ
  length [] = 0
  length (x ∷ xs) = suc (length xs)

  abbrev pub get_elem? : List A → ℕ → Option A
  get_elem? [] i = none
  get_elem? (x ∷ xs) zero = some x
  get_elem? (x ∷ xs) (suc i) = get_elem? xs i

  abbrev pub take : ℕ → List A → List A
  take zero xs = []
  take (suc n) [] = []
  take (suc n) (x ∷ xs) = x ∷ take n xs

  abbrev pub drop : ℕ → List A → List A
  drop zero xs = xs
  drop (suc n) [] = []
  drop (suc n) (x ∷ xs) = drop n xs

  abbrev pub any : (A → Bool) → List A → Bool
  any p [] = false
  any p (x ∷ xs) = p x || any p xs

  abbrev pub all : (A → Bool) → List A → Bool
  all p [] = true
  all p (x ∷ xs) = p x && all p xs

  abbrev pub filter : (A → Bool) → List A → List A
  filter p [] = []
  filter p (x ∷ xs) = if p x then x ∷ filter p xs else filter p xs

  pub filter-append :
      (p : A → Bool) (xs ys : List A) → filter p (xs ++ ys) ≡ filter p xs ++ filter p ys
  filter-append p [] ys = refl
  filter-append p (x ∷ xs) ys = ground (arith, filter-append p xs ys)

  pub length-append : (xs ys : List A) → length (xs ++ ys) ≡ length xs + length ys
  length-append [] ys = omega arith
  length-append (x ∷ xs) ys = omega (arith, length-append xs ys)

  -- Cutting a longer list at the length of its first part.
  pub take_prefix : (xs ys : List A) → take (length xs) (xs ++ ys) ≡ xs
  take_prefix [] ys = refl
  take_prefix (x ∷ xs) ys = ap (λ l. x ∷ l) (take_prefix xs ys)

  pub drop_prefix : (xs ys : List A) → drop (length xs) (xs ++ ys) ≡ ys
  drop_prefix [] ys = refl
  drop_prefix (x ∷ xs) ys = drop_prefix xs ys

-- `ys` begins with `xs`, with the rest kept.
pub record Extends {ℓ} {A : Type ℓ} (xs ys : List A) : Type ℓ where
  pub added : List A
  pub whole : ys ≡ xs ++ added

module _ {ℓ} {A : Type ℓ} where
  pub Extends-refl : (xs : List A) → Extends xs xs
  Extends-refl xs = record { added = []; whole = sym (append-nil xs) }

  pub Extends-trans : {xs ys zs : List A} → Extends xs ys → Extends ys zs → Extends xs zs
  Extends-trans {xs} p q = record {
    added = p.added ++ q.added;
    whole = q.whole ∙ ap (λ l. l ++ q.added) p.whole ∙ append_assoc xs p.added q.added;
  }

  pub Extends-append : (xs ys : List A) → Extends xs (xs ++ ys)
  Extends-append xs ys = record { added = ys; whole = refl }

  -- Cutting at the old length undoes the growth.
  pub take_of_Extends : {xs ys : List A} → Extends xs ys → take (length xs) ys ≡ xs
  take_of_Extends {xs} p = ap (take (length xs)) p.whole ∙ take_prefix xs p.added

  nil_of_length : (xs : List A) → length xs ≤ 0 → xs ≡ []
  nil_of_length [] h = refl
  nil_of_length (x ∷ xs) h = absurd (omega arith)

  -- A list that is no longer than its beginning is its beginning.
  pub eq_of_Extends : {xs ys : List A} → Extends xs ys → length ys ≤ length xs → ys ≡ xs
  eq_of_Extends {xs} p h =
      p.whole
      ∙ ap (λ l. xs ++ l)
          (nil_of_length p.added (omega (arith, ap length p.whole, length-append xs p.added)))
      ∙ append-nil xs
