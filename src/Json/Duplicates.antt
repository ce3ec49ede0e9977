-- ===== src/Json/Duplicates.antt =====
-- packages/core/src/json.ts: `canonicalKey` and the search for equal items. `stringify` is the
-- language's `JSON.stringify` of a value that is no container, `sort` its sort of an array of texts.
pub mod Names
pub mod Keys
pub mod Search
pub mod Exact
use Prim.Native.String.{◌++◌ as concat}
use json_schema_engine.Base.{
  ℕ, suc, Bool, true, false, Option, none, some, List, [], ◌∷◌, ◌++◌, String, str_eq, if◌then◌else◌,
}
use json_schema_engine.Json.{
  Json, null, boolean, number, string, array, object, Items, nil, cons, Members, end, member,
  lookup, is_some,
}
use json_schema_engine.Json.Equal.{json_equal}
use json_schema_engine.Dialects.{set_entry}

-- `parts.join(",")`
unfoldable pub join_comma : List String → String
join_comma [] = ""
join_comma (s ∷ []) = s
join_comma (s ∷ t ∷ rest) = concat s (concat "," (join_comma (t ∷ rest)))

module _ (stringify : Json → String) (sort : List String → List String) where
  -- `${JSON.stringify(k)}:${canonicalKey(value[k]!)}` of each key, with the members' keys at hand
  unfoldable pub member_texts : List String → List (String × String) → List String
  member_texts [] texts = []
  member_texts (k ∷ ks) texts =
      let rest = member_texts ks texts in
      elim (lookup k texts) [
        | none ↦ rest
        | some text ↦ concat (stringify (string k)) (concat ":" text) ∷ rest
      ]

  abbrev pub names_of : List (String × String) → List String
  names_of [] = []
  names_of ((k, text) ∷ rest) = k ∷ names_of rest

  unfoldable mutual
    unfolding join_comma member_texts

    pub canonical_key : Json → String
    canonical_key (array xs) = concat "[" (concat (join_comma (item_keys xs)) "]")
    canonical_key (object ms) =
        let texts = member_keys ms in
        concat "{" (concat (join_comma (member_texts (sort (names_of texts)) texts)) "}")
    canonical_key null = stringify null
    canonical_key (boolean b) = stringify (boolean b)
    canonical_key (number n) = stringify (number n)
    canonical_key (string s) = stringify (string s)

    pub item_keys : Items → List String
    item_keys nil = []
    item_keys (cons x xs) = canonical_key x ∷ item_keys xs

    pub member_keys : Members → List (String × String)
    member_keys end = []
    member_keys (member k v ms) = (k, canonical_key v) ∷ member_keys ms

-- A bucket keeps each item beside its index.
abbrev pub Bucket : Type 0 → Type 0
Bucket A = List (ℕ × A)

module _ {A : Type 0} (key : A → String) (equal : A → A → Bool) where
  -- `for (const j of bucket) if (jsonEqual(items[j], items[i])) …`
  unfoldable pub find_equal : A → Bucket A → Option ℕ
  find_equal x [] = none
  find_equal x ((j, y) ∷ bucket) =
      let later = find_equal x bucket in if equal y x then some j else later

  abbrev pub or_new : Option (Bucket A) → Bucket A
  or_new none = []
  or_new (some bucket) = bucket

  abbrev pub bucket_of : String → List (String × Bucket A) → Bucket A
  bucket_of k seen = or_new (lookup k seen)

  abbrev pub pair_or : ℕ → Option ℕ → Option (ℕ × ℕ) → Option (ℕ × ℕ)
  pair_or i (some j) later = some (j, i)
  pair_or i none later = later

  -- The loop from the index `i` on. A new bucket is one that was empty.
  unfoldable pub first_pair_from : ℕ → List A → List (String × Bucket A) → Option (ℕ × ℕ)
  unfolding find_equal
  first_pair_from i [] seen = none
  first_pair_from i (x ∷ xs) seen =
      let bucket = bucket_of (key x) seen in
      let later = first_pair_from (suc i) xs (set_entry (key x) (bucket ++ (i, x) ∷ []) seen) in
      pair_or i (find_equal x bucket) later

  unfoldable pub first_duplicate_pair : List A → Option (ℕ × ℕ)
  unfolding first_pair_from
  first_duplicate_pair items = first_pair_from 0 items []

  unfoldable pub has_duplicate_items : List A → Bool
  unfolding first_duplicate_pair
  has_duplicate_items items = is_some (first_duplicate_pair items)
