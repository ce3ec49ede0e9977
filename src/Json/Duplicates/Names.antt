-- ===== src/Json/Duplicates/Names.antt =====
-- packages/core/src/json.ts, `jsonEqual` of objects: the names of objects that are equal, and how often
-- a text occurs.
use json_schema_engine.Base.{
  ℕ, suc, ◌≡◌, refl, sym, ◌∙◌, ap, Bool, true, false, ◌&&◌, ◌||◌, not, List, [], ◌∷◌, String,
  str_eq, str_eq_iff, arith, Option, some, none, Bool-cases, inl, inr, length, if◌then◌else◌,
}
use json_schema_engine.Json.{
  Json, null, boolean, number, string, array, object, Items, nil, cons, Members, end, member,
  lookup,
}
use json_schema_engine.Json.Equal.{json_equal, members_within, same_bool}

abbrev pub named : String → Members → Bool
named k end = false
named k (member j v ms) = str_eq j k || named k ms

-- No object in the value has a name twice, as in every value that JSON text gives.
unfoldable mutual
  pub has_unique_names : Json → Bool
  has_unique_names (array xs) = items_unique xs
  has_unique_names (object ms) = members_unique ms
  has_unique_names null = true
  has_unique_names (boolean b) = true
  has_unique_names (number n) = true
  has_unique_names (string s) = true

  pub items_unique : Items → Bool
  items_unique nil = true
  items_unique (cons x xs) = has_unique_names x && items_unique xs

  pub members_unique : Members → Bool
  members_unique end = true
  members_unique (member k v ms) = not (named k ms) && (has_unique_names v && members_unique ms)

-- How often a text is in a list.
unfoldable pub count : String → List String → ℕ
count n [] = 0
count n (s ∷ l) = if str_eq s n then suc (count n l) else count n l

pub some_injective : {a b : Json} → some a ≡ some b → a ≡ b
some_injective h = cc h

pub same_bool_iff : (a b : Bool) → same_bool a b ≡ true → a ≡ b
same_bool_iff true b h = sym h
same_bool_iff false true h = cc h
same_bool_iff false false h = refl

pub both : (a b : Bool) → (a && b) ≡ true → (a ≡ true) × (b ≡ true)
both true b h = (refl, h)
both false b h = cc h

pub not-false : (b : Bool) → not b ≡ true → b ≡ false
not-false true h = cc h
not-false false h = refl

-- The list without the first entry of a name.
unfoldable pub without_first : String → List (String × Json) → List (String × Json)
without_first k [] = []
without_first k ((j, v) ∷ rest) = if str_eq j k then rest else (j, v) ∷ without_first k rest

pub other_name : (j k : String) → str_eq j k ≡ false → str_eq k j ≡ false
other_name j k h = elim (Bool-cases (str_eq k j)) [
  | inl e ↦ absurd (
      let same : k ≡ j = (str_eq_iff k j).0 e in
      let again : str_eq j k ≡ true = (str_eq_iff j k).1 (sym same) in ground (arith, again, h))
  | inr e ↦ e
]

pub length-without_first :
    (k : String) (bs : List (String × Json)) (w : Json)
    → lookup k bs ≡ some w
    → length bs ≡ suc (length (without_first k bs))
unfolding without_first lookup
length-without_first k [] w h = cc h
length-without_first k ((j, v) ∷ rest) w h = elim (Bool-cases (str_eq j k)) [
  | inl e ↦ rw e refl
  | inr e ↦ rw e (ap suc (length-without_first k rest w (ground (arith, e, h))))
]

pub lookup-without_first :
    (k j : String) (bs : List (String × Json))
    → str_eq k j ≡ false
    → lookup j (without_first k bs) ≡ lookup j bs
unfolding without_first lookup
lookup-without_first k j [] h = refl
lookup-without_first k j ((i, v) ∷ rest) h = elim (Bool-cases (str_eq i k)) [
  | inl e ↦
      let same : i ≡ k = (str_eq_iff i k).0 e in
      let apart : str_eq i j ≡ false = ap (λ s. str_eq s j) same ∙ h in rw e (rw apart refl)
  | inr e ↦ rw e (ap (λ l. if str_eq i j then some v else l) (lookup-without_first k j rest h))
]

-- One step of the loop over names, apart from its lookup.
abbrev pub step : Json → Members → List (String × Json) → Option Json → Bool
unfolding json_equal members_within
step v a bs none = false
step v a bs (some w) = json_equal v w && members_within a bs

pub step_found :
    (v : Json) (a : Members) (bs : List (String × Json)) (o : Option Json)
    → step v a bs o ≡ true
    → (w : Json) × (o ≡ some w) × (json_equal v w ≡ true) × (members_within a bs ≡ true)
unfolding step
step_found v a bs none h = cc h
step_found v a bs (some w) h = (w, refl, ground (arith, h), ground (arith, h))

pub within_found :
    (k : String) (v : Json) (a : Members) (bs : List (String × Json))
    → members_within (member k v a) bs ≡ true
    → (w : Json) × (lookup k bs ≡ some w) × (json_equal v w ≡ true) × (members_within a bs ≡ true)
unfolding members_within step
within_found k v a bs h = step_found v a bs (lookup k bs) h

pub within_step :
    (k : String) (v : Json) (a : Members) (bs : List (String × Json)) (w : Json)
    → lookup k bs ≡ some w
    → json_equal v w ≡ true
    → members_within a bs ≡ true
    → members_within (member k v a) bs ≡ true
unfolding members_within step
within_step k v a bs w found same rest = ap (step v a bs) found ∙ ground (arith, same, rest)

-- A loop over names that are not `k` does not see the entry of `k`.
pub within-without_first :
    (k : String) (a : Members) (bs : List (String × Json))
    → named k a ≡ false
    → members_within a bs ≡ true
    → members_within a (without_first k bs) ≡ true
unfolding members_within
within-without_first k end bs f h = refl
within-without_first k (member j v a) bs f h =
    let other : str_eq k j ≡ false = other_name j k (ground (arith, f)) in
    let at = within_found j v a bs h in
    within_step j v a (without_first k bs) at.0 (lookup-without_first k j bs other ∙ at.1) at.2
      (within-without_first k a bs (ground (arith, f)) at.3)

unfoldable pub names_of_entries : List (String × Json) → List String
names_of_entries [] = []
names_of_entries ((k, v) ∷ rest) = k ∷ names_of_entries rest

pub count-without_first :
    (n k : String) (bs : List (String × Json)) (w : Json)
    → lookup k bs ≡ some w
    → count n (names_of_entries bs) ≡ count n (k ∷ names_of_entries (without_first k bs))
unfolding count without_first lookup names_of_entries
count-without_first n k [] w h = cc h
count-without_first n k ((j, v) ∷ rest) w h = elim (Bool-cases (str_eq j k)) [
  | inl e ↦
      let same : j ≡ k = (str_eq_iff j k).0 e in
      rw e (ap (λ s. count n (s ∷ names_of_entries rest)) same)
  | inr e ↦ rw e (ground (arith, count-without_first n k rest w (ground (arith, e, h))))
]
