-- ===== src/Json/Equal/Reflexive.antt =====
-- packages/core/src/json.ts: `jsonEqual` of a value and itself.
use json_schema_engine.Base.{
  ℕ, ◌≡◌, refl, ◌∙◌, ap, Bool, true, false, ◌&&◌, ◌||◌, not, List, [], ◌∷◌, String, str_eq,
  str_eq_iff, ◌==◌, length, Option, none, some, any, arith,
}
use mathlib.Core.Bool.{false≢true}
use json_schema_engine.Json.{
  Double, Json, null, boolean, number, string, array, object, Items, nil, cons, Members, end,
  member, entries, lookup, keys,
}
use json_schema_engine.Json.Number.{number_eq, is_nan, scaled}
use json_schema_engine.Json.Equal.{json_equal, items_equal, members_within, same_bool}

abbrev distinct : List String → Bool
distinct [] = true
distinct (k ∷ ks) = not (any (str_eq k) ks) && distinct ks

-- No number is a NaN, and the names of an object differ.
unfoldable mutual
  unfolding is_nan

  pub well_formed : Json → Bool
  well_formed (number d) = not (is_nan d)
  well_formed (array xs) = items_well_formed xs
  well_formed (object ms) = members_well_formed ms && distinct (keys (entries ms))
  well_formed _ = true

  pub items_well_formed : Items → Bool
  items_well_formed nil = true
  items_well_formed (cons x xs) = well_formed x && items_well_formed xs

  pub members_well_formed : Members → Bool
  members_well_formed end = true
  members_well_formed (member k v ms) = well_formed v && members_well_formed ms

-- Looking up each name of the first list in the second gives its value.
abbrev Included : List (String × Json) → List (String × Json) → Type 0
Included [] b = Unit {0}
Included ((k, v) ∷ a) b = (lookup k b ≡ some v) × Included a b

str_eq_refl : (k : String) → str_eq k k ≡ true
str_eq_refl k = (str_eq_iff k k).1 refl

lookup_here : (k : String) (v : Json) (b : List (String × Json)) → lookup k ((k, v) ∷ b) ≡ some v
unfolding lookup
lookup_here k v b = rw (str_eq_refl k) refl

lookup_further :
    (k j : String) (v : Json) (b : List (String × Json))
    → str_eq k j ≡ false
    → lookup j ((k, v) ∷ b) ≡ lookup j b
unfolding lookup
lookup_further k j v b h = rw h refl

Included-further :
    (k : String) (v : Json) (a b : List (String × Json))
    → any (str_eq k) (keys a) ≡ false
    → Included a b
    → Included a ((k, v) ∷ b)
Included-further k v [] b h q = tt
Included-further k v ((j, w) ∷ a) b h (e, q) =
    (lookup_further k j v b (ground (arith, h)) ∙ e, Included-further k v a b (ground (arith, h)) q)

Included-refl : (a : List (String × Json)) → distinct (keys a) ≡ true → Included a a
Included-refl [] h = tt
Included-refl ((k, v) ∷ a) h = (
  lookup_here k v a,
  Included-further k v a a (ground (arith, h)) (Included-refl a (ground (arith, h))),
)

both : (a b : Bool) → a ≡ true → b ≡ true → (a && b) ≡ true
both true b p q = q
both false b p q = absurd (false≢true p)

left : (a b : Bool) → (a && b) ≡ true → a ≡ true
left a b h = ground arith

right : (a b : Bool) → (a && b) ≡ true → b ≡ true
right a b h = ground arith

members_within_step :
    (k : String) (v : Json) (a : Members) (b : List (String × Json))
    → lookup k b ≡ some v
    → members_within (member k v a) b ≡ (json_equal v v && members_within a b)
unfolding json_equal
members_within_step k v a b e =
    ap {A = Option Json}
      (λ q. elim q [ none ↦ false | some w ↦ json_equal v w && members_within a b ]) e

same_length : (n : ℕ) → (n == n) ≡ true
same_length n = ground arith

signs_agree :
    (n p z : Bool)
    → n ≡ false
    → (not n && not n && true && ((p && p) || (not p && not p) || z)) ≡ true
signs_agree n true z h = ground (arith, h)
signs_agree n false z h = ground (arith, h)

number_eq_refl : (d : Double) → not (is_nan d) ≡ true → number_eq d d ≡ true
unfolding number_eq
number_eq_refl d h =
    rw (same_length (scaled d))
      (signs_agree (is_nan d) d.negative (scaled d == 0) (ground (arith, h)))

same_bool_refl : (b : Bool) → same_bool b b ≡ true
same_bool_refl true = refl
same_bool_refl false = refl

mutual
  unfolding json_equal well_formed

  equal_to_itself : (v : Json) → well_formed v ≡ true → json_equal v v ≡ true
  equal_to_itself null h = refl
  equal_to_itself (boolean b) h = same_bool_refl b
  equal_to_itself (number d) h = number_eq_refl d h
  equal_to_itself (string s) h = str_eq_refl s
  equal_to_itself (array xs) h = items_equal_refl xs h
  equal_to_itself (object ms) h = both _ _ (same_length (length (entries ms))) (
      members_within_refl ms (entries ms) (left _ _ h)
        (Included-refl (entries ms) (right (members_well_formed ms) _ h)))

  items_equal_refl : (xs : Items) → items_well_formed xs ≡ true → items_equal xs xs ≡ true
  items_equal_refl nil h = refl
  items_equal_refl (cons x xs) h =
      both _ _ (equal_to_itself x (left _ _ h)) (items_equal_refl xs (right (well_formed x) _ h))

  members_within_refl :
      (ms : Members) (b : List (String × Json))
      → members_well_formed ms ≡ true
      → Included (entries ms) b
      → members_within ms b ≡ true
  members_within_refl end b h q = refl
  members_within_refl (member k v ms) b h (e, q) =
      members_within_step k v ms b e
      ∙ (both _ _ (equal_to_itself v (left _ _ h))
          (members_within_refl ms b (right (well_formed v) _ h) q))

-- `jsonEqual` of a value and itself is true, where the value is JSON: no number is a NaN and no
-- object has a name twice.
pub json_equal_refl : (v : Json) → well_formed v ≡ true → json_equal v v ≡ true
json_equal_refl v h = equal_to_itself v h
