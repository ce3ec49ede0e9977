-- ===== src/Json/Duplicates/Keys.antt =====
-- packages/core/src/json.ts: equal values share their canonical key.
use Prim.Native.String.{◌++◌ as concat}
use mathlib.Core.Path.{ap₂, subst}
use json_schema_engine.Base.{
  zero, suc, ◌==◌, ◌≡◌, refl, sym, ◌∙◌, ap, true, false, ◌&&◌, not, List, [], ◌∷◌, String, str_eq,
  str_eq_iff, ==_iff, arith, some, none, Bool-cases, inl, inr, length, if◌then◌else◌,
}
use json_schema_engine.Json.{
  Json, null, boolean, number, string, array, object, Items, nil, cons, Members, end, member,
  entries, lookup, Double,
}
use json_schema_engine.Json.Number.{number_eq}
use json_schema_engine.Json.Equal.{json_equal, items_equal, members_within}
use json_schema_engine.Json.Duplicates.{
  join_comma, member_texts, names_of, canonical_key, item_keys, member_keys,
}
use json_schema_engine.Json.Duplicates.Names.{
  both, count, count-without_first, has_unique_names, items_unique, length-without_first,
  members_unique, named, names_of_entries, not-false, same_bool_iff, some_injective,
  within-without_first, within_found, without_first,
}

module _ (stringify : Json → String) (sort : List String → List String) where
  -- The names with the canonical keys of their values.
  unfoldable pub texts : List (String × Json) → List (String × String)
  unfolding canonical_key
  texts [] = []
  texts ((k, v) ∷ rest) = (k, canonical_key stringify sort v) ∷ texts rest

  lookup-texts :
      (j : String) (bs : List (String × Json)) (w : Json)
      → lookup j bs ≡ some w
      → lookup j (texts bs) ≡ some (canonical_key stringify sort w)
  unfolding lookup texts
  lookup-texts j [] w h = cc h
  lookup-texts j ((k, v) ∷ rest) w h = elim (Bool-cases (str_eq k j)) [
    | inl e ↦ rw e (
        ap (λ x. some (canonical_key stringify sort x))
          (some_injective (ap (λ c. if c then some v else lookup j rest) (sym e) ∙ h)))
    | inr e ↦
        rw e (lookup-texts j rest w (ap (λ c. if c then some v else lookup j rest) (sym e) ∙ h))
  ]

  texts-without_first :
      (k j : String) (bs : List (String × Json))
      → str_eq k j ≡ false
      → lookup j (texts (without_first k bs)) ≡ lookup j (texts bs)
  unfolding lookup texts without_first
  texts-without_first k j [] h = refl
  texts-without_first k j ((i, v) ∷ rest) h = elim (Bool-cases (str_eq i k)) [
    | inl e ↦
        let same : i ≡ k = (str_eq_iff i k).0 e in
        let apart : str_eq i j ≡ false = ap (λ s. str_eq s j) same ∙ h in rw e (rw apart refl)
    | inr e ↦ rw e (
        ap (λ l. if str_eq i j then some (canonical_key stringify sort v) else l)
          (texts-without_first k j rest h))
  ]

  names_of-texts :
      (bs : List (String × Json)) → names_of stringify sort (texts bs) ≡ names_of_entries bs
  unfolding texts names_of_entries
  names_of-texts [] = refl
  names_of-texts ((k, v) ∷ rest) = ap (λ l. k ∷ l) (names_of-texts rest)

  texts-entries : (a : Members) → member_keys stringify sort a ≡ texts (entries a)
  unfolding texts member_keys canonical_key
  texts-entries end = refl
  texts-entries (member k v a) = ap (λ l. (k, canonical_key stringify sort v) ∷ l) (texts-entries a)

  member_texts_same :
      (l : List String) (ta tb : List (String × String))
      → ((j : String) → lookup j ta ≡ lookup j tb)
      → member_texts stringify sort l ta ≡ member_texts stringify sort l tb
  unfolding member_texts
  member_texts_same [] ta tb h = refl
  member_texts_same (k ∷ l) ta tb h =
      ap₂
        (λ o rest. elim o [
          | none ↦ rest
          | some text ↦ concat (stringify (string k)) (concat ":" text) ∷ rest
        ])
        (h k) (member_texts_same l ta tb h)

  -- The keys of an object's members, as a multiset of names and as a map.
  abbrev Alike : Members → List (String × Json) → Type 0
  Alike a bs =
      ((n : String) → count n (names_of_entries (entries a)) ≡ count n (names_of_entries bs))
      × ((j : String) → lookup j (texts (entries a)) ≡ lookup j (texts bs))

  Alike-step :
      (k : String) (v w : Json) (a : Members) (bs : List (String × Json))
      → lookup k bs ≡ some w
      → canonical_key stringify sort v ≡ canonical_key stringify sort w
      → Alike a (without_first k bs)
      → Alike (member k v a) bs
  unfolding count texts lookup names_of_entries
  Alike-step k v w a bs found same rest = (
    λ n.
        ap (λ c. if str_eq k n then suc c else c) (rest.0 n)
        ∙ sym (count-without_first n k bs w found),
    λ j. elim (Bool-cases (str_eq k j)) [
      | inl e ↦ rw e (
          ap some same
          ∙ sym (lookup-texts j bs w (ap (λ i. lookup i bs) (sym ((str_eq_iff k j).0 e)) ∙ found)))
      | inr e ↦ rw e (rest.1 j ∙ texts-without_first k j bs e)
    ],
  )

  empty_of_length : (bs : List (String × Json)) → zero ≡ length bs → bs ≡ []
  empty_of_length [] h = refl
  empty_of_length (b ∷ bs) h = absurd (ground (arith, h))

  module _
      (ordered : (xs ys : List String)
        → ((n : String) → count n xs ≡ count n ys)
        → sort xs ≡ sort ys)
      (numbers : (a b : Double)
        → number_eq a b ≡ true
        → stringify (number a) ≡ stringify (number b)) where
    object_texts :
        (a b : Members)
        → Alike a (entries b)
        → canonical_key stringify sort (object a) ≡ canonical_key stringify sort (object b)
    unfolding canonical_key
    object_texts a b h =
        let ta = member_keys stringify sort a in
        let tb = member_keys stringify sort b in
        let na : names_of stringify sort ta ≡ names_of_entries (entries a) =
          ap (names_of stringify sort) (texts-entries a) ∙ names_of-texts (entries a) in
        let nb : names_of stringify sort tb ≡ names_of_entries (entries b) =
          ap (names_of stringify sort) (texts-entries b) ∙ names_of-texts (entries b) in
        let sorted : sort (names_of stringify sort ta) ≡ sort (names_of stringify sort tb) =
          ordered _ _ (λ n. ap (count n) na ∙ h.0 n ∙ sym (ap (count n) nb)) in
        let same : (j : String) → lookup j ta ≡ lookup j tb =
          λ j. ap (lookup j) (texts-entries a) ∙ h.1 j ∙ sym (ap (lookup j) (texts-entries b)) in
        ap (λ l. concat "{" (concat (join_comma l) "}"))
          (ap (λ l. member_texts stringify sort l ta) sorted
            ∙ member_texts_same (sort (names_of stringify sort tb)) ta tb same)

    mutual
      unfolding canonical_key json_equal has_unique_names

      -- Values that are equal share their key, where no object in the first one has a name twice.
      pub key_shared :
          (x y : Json)
          → has_unique_names x ≡ true
          → json_equal x y ≡ true
          → canonical_key stringify sort x ≡ canonical_key stringify sort y
      key_shared null null u h = refl
      key_shared null (boolean b) u h = cc h
      key_shared null (number b) u h = cc h
      key_shared null (string b) u h = cc h
      key_shared null (array b) u h = cc h
      key_shared null (object b) u h = cc h
      key_shared (boolean a) null u h = cc h
      key_shared (boolean a) (boolean b) u h = ap (λ c. stringify (boolean c)) (same_bool_iff a b h)
      key_shared (boolean a) (number b) u h = cc h
      key_shared (boolean a) (string b) u h = cc h
      key_shared (boolean a) (array b) u h = cc h
      key_shared (boolean a) (object b) u h = cc h
      key_shared (number a) null u h = cc h
      key_shared (number a) (boolean b) u h = cc h
      key_shared (number a) (number b) u h = numbers a b h
      key_shared (number a) (string b) u h = cc h
      key_shared (number a) (array b) u h = cc h
      key_shared (number a) (object b) u h = cc h
      key_shared (string a) null u h = cc h
      key_shared (string a) (boolean b) u h = cc h
      key_shared (string a) (number b) u h = cc h
      key_shared (string a) (string b) u h = ap (λ s. stringify (string s)) ((str_eq_iff a b).0 h)
      key_shared (string a) (array b) u h = cc h
      key_shared (string a) (object b) u h = cc h
      key_shared (array a) null u h = cc h
      key_shared (array a) (boolean b) u h = cc h
      key_shared (array a) (number b) u h = cc h
      key_shared (array a) (string b) u h = cc h
      key_shared (array a) (array b) u h =
          ap (λ l. concat "[" (concat (join_comma l) "]")) (items_shared a b u h)
      key_shared (array a) (object b) u h = cc h
      key_shared (object a) null u h = cc h
      key_shared (object a) (boolean b) u h = cc h
      key_shared (object a) (number b) u h = cc h
      key_shared (object a) (string b) u h = cc h
      key_shared (object a) (array b) u h = cc h
      key_shared (object a) (object b) u h =
          let parts =
            both (length (entries a) == length (entries b)) (members_within a (entries b)) h in
          object_texts a b (
            members_shared a (entries b) u
              ((==_iff (length (entries a)) (length (entries b))).0 parts.0) parts.1)

      items_shared :
          (a b : Items)
          → items_unique a ≡ true
          → items_equal a b ≡ true
          → item_keys stringify sort a ≡ item_keys stringify sort b
      items_shared nil nil u h = refl
      items_shared (cons x xs) (cons y ys) u h =
          let us = both (has_unique_names x) (items_unique xs) u in
          let hs = both (json_equal x y) (items_equal xs ys) h in
          ap₂ (λ k l. k ∷ l) (key_shared x y us.0 hs.0) (items_shared xs ys us.1 hs.1)
      items_shared nil (cons y ys) u h = cc h
      items_shared (cons x xs) nil u h = cc h

      members_shared :
          (a : Members) (bs : List (String × Json))
          → members_unique a ≡ true
          → length (entries a) ≡ length bs
          → members_within a bs ≡ true
          → Alike a bs
      members_shared end bs u size h =
          let empty = empty_of_length bs size in
          subst (λ l. Alike end l) (sym empty) ((λ n. refl), (λ j. refl))
      members_shared (member k v a) bs u size h =
          let at = within_found k v a bs h in
          let us = both (not (named k a)) (has_unique_names v && members_unique a) u in
          let vs = both (has_unique_names v) (members_unique a) us.1 in
          let shorter = length-without_first k bs at.0 at.1 in
          Alike-step k v at.0 a bs at.1 (key_shared v at.0 vs.0 at.2) (
            members_shared a (without_first k bs) vs.1 (omega (arith, size, shorter))
              (within-without_first k a bs (not-false (named k a) us.0) at.3))
