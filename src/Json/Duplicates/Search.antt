-- ===== src/Json/Duplicates/Search.antt =====
-- packages/core/src/json.ts, `firstDuplicatePair`: the buckets do not change which pair is found.
use mathlib.Core.Path.{ap₂}
use json_schema_engine.Base.{
  all, ℕ, suc, ◌≡◌, refl, sym, ap, ◌∙◌, Bool, true, Option, none, some, List, [], ◌∷◌, ◌++◌,
  append-nil, filter, filter-append, String, str_eq, str_eq_iff, if◌then◌else◌, arith, Bool-cases,
  inl, inr,
}
use json_schema_engine.Json.{lookup}
use json_schema_engine.Dialects.{set_entry}
use json_schema_engine.Schemas.Entries.{lookup-set_entry}
use json_schema_engine.Json.Duplicates.{
  Bucket, find_equal, or_new, bucket_of, pair_or, first_pair_from, first_duplicate_pair,
}

-- The pair of a twin that was found, and else what comes later.
abbrev pub first_or : ℕ → Option ℕ → Option (ℕ × ℕ) → Option (ℕ × ℕ)
first_or i (some j) later = some (j, i)
first_or i none later = later

module _ {A : Type 0} (equal : A → A → Bool) where
  -- The index of the first of the earlier items that equals `x`.
  unfoldable pub find_twin : A → Bucket A → Option ℕ
  find_twin x [] = none
  find_twin x ((j, y) ∷ earlier) = if equal y x then some j else find_twin x earlier

  -- Each item against all the earlier ones.
  unfoldable pub search_pairs : ℕ → List A → Bucket A → Option (ℕ × ℕ)
  unfolding find_twin
  search_pairs i [] earlier = none
  search_pairs i (x ∷ xs) earlier =
      let later = search_pairs (suc i) xs (earlier ++ (i, x) ∷ []) in
      first_or i (find_twin x earlier) later

module _ {A : Type 0} (key : A → String) (equal : A → A → Bool) (good : A → Bool) where
  abbrev of_key : String → Bucket A → Bucket A
  of_key k earlier = filter (λ p. str_eq (key p.1) k) earlier

  find_equal-of_key :
      ((y x : A) → good y ≡ true → equal y x ≡ true → key y ≡ key x)
      → (x : A) (earlier : Bucket A) → all (λ p. good p.1) earlier ≡ true
      → find_equal key equal x (of_key (key x) earlier) ≡ find_twin equal x earlier
  unfolding find_equal find_twin
  find_equal-of_key shared x [] fit = refl
  find_equal-of_key shared x ((j, y) ∷ earlier) fit = elim (Bool-cases (equal y x)) [
    | inl e ↦
        let same : str_eq (key y) (key x) ≡ true =
          (str_eq_iff (key y) (key x)).1 (shared y x (ground (arith, fit)) e) in
        ground (arith, same, e)
    | inr e ↦ ground (arith, e, find_equal-of_key shared x earlier (ground (arith, fit)))
  ]

  -- A bucket holds the earlier items of its key.
  abbrev Sorted : List (String × Bucket A) → Bucket A → Type 0
  Sorted seen earlier = (k : String) → bucket_of key equal k seen ≡ of_key k earlier

  bucket_of-set_entry :
      (k j : String) (b : Bucket A) (seen : List (String × Bucket A))
      → bucket_of key equal j (set_entry k b seen)
        ≡ (if str_eq k j then b else bucket_of key equal j seen)
  bucket_of-set_entry k j b seen =
      ap (or_new key equal) (lookup-set_entry k j b seen) ∙ ground arith

  of_key-append :
      (k : String) (i : ℕ) (x : A) (earlier : Bucket A)
      → of_key k (earlier ++ (i, x) ∷ [])
        ≡ of_key k earlier ++ (if str_eq (key x) k then (i, x) ∷ [] else [])
  of_key-append k i x earlier = filter-append (λ p. str_eq (key p.1) k) earlier ((i, x) ∷ [])

  Sorted-set_entry :
      (i : ℕ) (x : A) (seen : List (String × Bucket A)) (earlier : Bucket A)
      → Sorted seen earlier
      → Sorted
          (set_entry (key x) (bucket_of key equal (key x) seen ++ (i, x) ∷ []) seen)
          (earlier ++ (i, x) ∷ [])
  Sorted-set_entry i x seen earlier h k =
      bucket_of-set_entry (key x) k _ seen ∙ (elim (Bool-cases (str_eq (key x) k)) [
        | inl e ↦
            let same = (str_eq_iff (key x) k).0 e in
            rw e (
              ap (λ b. b ++ (i, x) ∷ []) (ap (λ j. bucket_of key equal j seen) same ∙ h k)
              ∙ sym (of_key-append k i x earlier ∙ rw e refl))
        | inr e ↦
            rw e (h k ∙ sym (of_key-append k i x earlier ∙ rw e (append-nil (of_key k earlier))))
      ])

  pair_or-eq-first_or :
      (i : ℕ) (o : Option ℕ) (later : Option (ℕ × ℕ))
      → pair_or key equal i o later ≡ first_or i o later
  pair_or-eq-first_or i none later = refl
  pair_or-eq-first_or i (some j) later = refl

  good-append :
      (earlier : Bucket A) (i : ℕ) (x : A)
      → all (λ p. good p.1) earlier ≡ true
      → good x ≡ true
      → all (λ p. good p.1) (earlier ++ (i, x) ∷ []) ≡ true
  good-append [] i x h g = ground (arith, g)
  good-append (p ∷ earlier) i x h g =
      ground (arith, h, good-append earlier i x (ground (arith, h)) g)

  first_pair-search :
      ((y x : A) → good y ≡ true → equal y x ≡ true → key y ≡ key x)
      → (i : ℕ) (xs : List A) (seen : List (String × Bucket A)) (earlier : Bucket A)
      → all good xs ≡ true
      → all (λ p. good p.1) earlier ≡ true
      → Sorted seen earlier
      → first_pair_from key equal i xs seen ≡ search_pairs equal i xs earlier
  unfolding first_pair_from search_pairs
  first_pair-search shared i [] seen earlier fits fit h = refl
  first_pair-search shared i (x ∷ xs) seen earlier fits fit h =
      ap₂ (pair_or key equal i)
        (ap (find_equal key equal x) (h (key x)) ∙ find_equal-of_key shared x earlier fit)
        (first_pair-search shared (suc i) xs _ (earlier ++ (i, x) ∷ []) (ground (arith, fits))
          (good-append earlier i x fit (ground (arith, fits)))
          (Sorted-set_entry i x seen earlier h))
      ∙ pair_or-eq-first_or i (find_twin equal x earlier) _

  -- Where items that are equal share their key, the buckets do not change which pair is found.
  pub first_duplicate_pair-search_pairs :
      ((y x : A) → good y ≡ true → equal y x ≡ true → key y ≡ key x)
      → (items : List A) → all good items ≡ true
      → first_duplicate_pair key equal items ≡ search_pairs equal 0 items []
  unfolding first_duplicate_pair lookup
  first_duplicate_pair-search_pairs shared items fits =
      first_pair-search shared 0 items [] [] fits refl (λ k. refl)
