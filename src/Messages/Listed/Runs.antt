-- ===== src/Messages/Listed/Runs.antt =====
-- packages/core/src/messages.ts, `ranges`: the runs are the indexes.
use json_schema_engine.Base.{
  ℕ, zero, suc, ◌+◌, ◌-◌, ◌≤◌, ◌<◌, ◌==◌, ◌≡◌, refl, sym, ap, ◌∙◌, List, [], ◌∷◌, ◌++◌,
  append_assoc, arith, Bool-cases, inl, inr, ==_iff, any, subst, ◌||◌, if_holds, ltb, ltb→lt,
}
use json_schema_engine.Messages.Listed.{
  sorted_unique, insert_index, runs_from, runs, ranges, count_up,
}

-- The indexes of the runs, one after the other.
unfoldable pub spread : List (ℕ × ℕ) → List ℕ
unfolding count_up
spread [] = []
spread ((a, b) ∷ rest) = count_up (suc b - a) a ++ spread rest

abbrev pub Above : ℕ → List ℕ → Type 0
Above k [] = Unit {0}
Above k (i ∷ l) = k < i

abbrev pub Ascending : List ℕ → Type 0
Ascending [] = Unit {0}
Ascending (i ∷ l) = Above i l × Ascending l

-- A gap before the first run.
abbrev pub Beyond : ℕ → List (ℕ × ℕ) → Type 0
Beyond k [] = Unit {0}
Beyond k ((a, b) ∷ rest) = suc k < a

-- No run is empty, and there is a gap between two.
abbrev pub AreApart : List (ℕ × ℕ) → Type 0
AreApart [] = Unit {0}
AreApart ((a, b) ∷ rest) = (a ≤ b) × Beyond b rest × AreApart rest

count_up_last : (n i : ℕ) → count_up (suc n) i ≡ count_up n i ++ (i + n) ∷ []
unfolding count_up
count_up_last zero i = ap (λ j. j ∷ []) (omega arith)
count_up_last (suc n) i =
    ap (λ l. i ∷ l) (count_up_last n (suc i) ∙ ap (λ j. count_up n (suc i) ++ j ∷ []) (omega arith))

spread-runs_from :
    (first last : ℕ) (rest : List ℕ)
    → first ≤ last
    → spread (runs_from first last rest) ≡ count_up (suc last - first) first ++ rest
unfolding runs_from spread
spread-runs_from first last [] h = refl
spread-runs_from first last (i ∷ rest) h = elim (Bool-cases (i == last + 1)) [
  | inl e ↦
      let next : i ≡ last + 1 = (==_iff i (last + 1)).0 e in
      let at : first + (suc last - first) ≡ i = omega (arith, h, next) in
      let more : suc i - first ≡ suc (suc last - first) = omega (arith, h, next) in
      rw e (
        spread-runs_from first i rest (omega (arith, h, next))
        ∙ (ap (λ n. count_up n first ++ rest) more
            ∙ (ap (λ l. l ++ rest) (count_up_last (suc last - first) first)
                ∙ (append_assoc (count_up (suc last - first) first)
                      ((first + (suc last - first)) ∷ []) rest
                    ∙ ap (λ k. count_up (suc last - first) first ++ k ∷ rest) at))))
  | inr e ↦
      let one : suc i - i ≡ 1 = omega arith in
      rw e (
        ap (λ l. count_up (suc last - first) first ++ l)
          (spread-runs_from i i rest (omega arith) ∙ ap (λ n. count_up n i ++ rest) one))
]

insert_index-Above : (k i : ℕ) (l : List ℕ) → k < i → Above k l → Above k (insert_index i l)
unfolding insert_index
insert_index-Above k i [] a h = a
insert_index-Above k i (j ∷ l) a h =
    if_holds (Above k) (i == j) h (if_holds (Above k) (ltb i j) a h)

insert_index-Ascending : (i : ℕ) (l : List ℕ) → Ascending l → Ascending (insert_index i l)
unfolding insert_index
insert_index-Ascending i [] h = (tt, tt)
insert_index-Ascending i (j ∷ l) (a, h) = elim (Bool-cases (i == j)) [
  | inl e ↦ rw e (a, h)
  | inr e ↦ elim (Bool-cases (ltb i j)) [
    | inl b ↦ rw (e, b) (ltb→lt i j b, (a, h))
    | inr b ↦
        rw (e, b) (insert_index-Above j i l (ground (arith, e, b)) a, insert_index-Ascending i l h)
  ]
]

sorted_unique-Ascending : (l : List ℕ) → Ascending (sorted_unique l)
unfolding sorted_unique
sorted_unique-Ascending [] = tt
sorted_unique-Ascending (i ∷ l) =
    insert_index-Ascending i (sorted_unique l) (sorted_unique-Ascending l)

runs_from-Beyond :
    (k first last : ℕ) (rest : List ℕ) → suc k < first → Beyond k (runs_from first last rest)
unfolding runs_from
runs_from-Beyond k first last [] h = h
runs_from-Beyond k first last (i ∷ rest) h =
    if_holds (Beyond k) (i == last + 1) (runs_from-Beyond k first i rest h) h

runs_from-AreApart :
    (first last : ℕ) (rest : List ℕ)
    → first ≤ last
    → Above last rest
    → Ascending rest
    → AreApart (runs_from first last rest)
unfolding runs_from
runs_from-AreApart first last [] h a s = (h, tt, tt)
runs_from-AreApart first last (i ∷ rest) h a (b, s) = elim (Bool-cases (i == last + 1)) [
  | inl e ↦ rw e (runs_from-AreApart first i rest (omega (arith, h, a)) b s)
  | inr e ↦ rw e (
    h,
    runs_from-Beyond last i i rest (ground (arith, e, a)),
    runs_from-AreApart i i rest (omega arith) b s,
  )
]

runs_lem : (l : List ℕ) → Ascending l → (spread (runs l) ≡ l) × AreApart (runs l)
unfolding runs spread
runs_lem [] h = (refl, tt)
runs_lem (i ∷ l) (a, h) =
    let one : suc i - i ≡ 1 = omega arith in
    (
      spread-runs_from i i l (omega arith) ∙ ap (λ n. count_up n i ++ l) one,
      runs_from-AreApart i i l (omega arith) a h,
    )

any-insert_index :
    (k i : ℕ) (l : List ℕ) → any (λ j. k == j) (insert_index i l) ≡ any (λ j. k == j) (i ∷ l)
unfolding insert_index
any-insert_index k i [] = refl
any-insert_index k i (j ∷ l) = ground (arith, any-insert_index k i l)

any-sorted_unique : (k : ℕ) (l : List ℕ) → any (λ j. k == j) (sorted_unique l) ≡ any (λ j. k == j) l
unfolding sorted_unique
any-sorted_unique k [] = refl
any-sorted_unique k (i ∷ l) =
    any-insert_index k i (sorted_unique l) ∙ ap (λ b. k == i || b) (any-sorted_unique k l)

-- The runs that an error lists, written out one after the other, are an ascending list of the
-- indexes: an index is in it exactly if it is one of them. No run is empty, and two of them never touch, so
-- that each is as long as can be.
pub ranges-AreApart :
    (indexes : List ℕ) (k : ℕ)
    → (any (λ i. k == i) (spread (ranges indexes)) ≡ any (λ i. k == i) indexes)
      × Ascending (spread (ranges indexes))
      × AreApart (ranges indexes)
unfolding ranges
ranges-AreApart indexes k =
    let sorted = sorted_unique-Ascending indexes in
    let (same, apart) = runs_lem (sorted_unique indexes) sorted in
    (
      ap (any (λ i. k == i)) same ∙ any-sorted_unique k indexes,
      subst Ascending (sym same) sorted,
      apart,
    )
