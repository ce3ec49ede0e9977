-- ===== src/Output/Detailed/Condensed.antt =====
-- packages/core/src/output.ts: what `condense` keeps.
use json_schema_engine.Base.{
  ◌≡◌, refl, ap, ◌∙◌, Bool, true, false, not, ◌&&◌, ◌||◌, Option, none, some, List, [], ◌∷◌, ◌++◌,
  append-nil, arith, if◌then◌else◌,
}
use mathlib.Core.Path.{ap₂}
use json_schema_engine.Output.Located.{RenderInput}
use json_schema_engine.Output.Detailed.{
  DetailedFields, DetailedUnit, detailed_unit, DetailedUnits, no_detailed, and_detailed, relevant,
  is_local, and_condensed, only_one, condense, condense_all, build_draft03_tree, render_detailed,
}

module _ {A : Type 0} where
  abbrev local_record : DetailedFields A → List (DetailedFields A)
  local_record f = if is_local f then f ∷ [] else []

  -- The units of a tree that hold an error or an annotation, in document order.
  unfoldable mutual
    pub records : DetailedUnit A → List (DetailedFields A)
    records (detailed_unit f us) = local_record f ++ records_in us

    pub records_in : DetailedUnits A → List (DetailedFields A)
    records_in no_detailed = []
    records_in (and_detailed u us) = records u ++ records_in us

  abbrev several : DetailedUnits A → Bool
  several (and_detailed u (and_detailed v us)) = true
  several _ = false

  -- Each unit holds a record or at least two nested units.
  unfoldable mutual
    pub tight : DetailedUnit A → Bool
    tight (detailed_unit f us) = (is_local f || several us) && all_tight us

    pub all_tight : DetailedUnits A → Bool
    all_tight no_detailed = true
    all_tight (and_detailed u us) = tight u && all_tight us

  abbrev pub tight_below : DetailedUnit A → Bool
  tight_below (detailed_unit f us) = all_tight us

  abbrev records_kept : Option (DetailedUnit A) → List (DetailedFields A)
  records_kept none = []
  records_kept (some u) = records u

  abbrev tight_kept : Option (DetailedUnit A) → Bool
  tight_kept none = true
  tight_kept (some u) = tight u

  records-and_condensed :
      (o : Option (DetailedUnit A)) (us : DetailedUnits A)
      → records_in (and_condensed o us) ≡ records_kept o ++ records_in us
  unfolding records
  records-and_condensed none us = refl
  records-and_condensed (some u) us = refl

  -- One unit of `condense`, after those nested in it.
  abbrev condensed : DetailedFields A → DetailedUnits A → Bool → Option (DetailedUnit A)
  condensed f us b = if not (is_local f) && not b then only_one f us else some (detailed_unit f us)

  records-condensed :
      (f : DetailedFields A) (us : DetailedUnits A) (b : Bool)
      → records_kept (condensed f us b) ≡ local_record f ++ records_in us
  unfolding records
  records-condensed f no_detailed b = ground arith
  records-condensed f (and_detailed u no_detailed) b = ground (arith, append-nil (records u))
  records-condensed f (and_detailed u (and_detailed v us)) b = ground arith

  tight-condensed :
      (f : DetailedFields A) (us : DetailedUnits A)
      → all_tight us ≡ true
      → tight_kept (condensed f us false) ≡ true
  unfolding tight
  tight-condensed f no_detailed h = ground arith
  tight-condensed f (and_detailed u no_detailed) h = ground (arith, h)
  tight-condensed f (and_detailed u (and_detailed v us)) h = ground (arith, h)

  tight-and_condensed :
      (o : Option (DetailedUnit A)) (us : DetailedUnits A)
      → tight_kept o ≡ true
      → all_tight us ≡ true
      → all_tight (and_condensed o us) ≡ true
  unfolding tight
  tight-and_condensed none us p q = q
  tight-and_condensed (some u) us p q = ground (arith, p, q)

  mutual
    unfolding condense records

    records-condense : (u : DetailedUnit A) (b : Bool) → records_kept (condense u b) ≡ records u
    records-condense (detailed_unit f us) b =
        records-condensed f (condense_all us) b
        ∙ ap (λ xs. local_record f ++ xs) (records-condense_all us)

    records-condense_all : (us : DetailedUnits A) → records_in (condense_all us) ≡ records_in us
    records-condense_all no_detailed = refl
    records-condense_all (and_detailed u us) =
        records-and_condensed (condense u false) (condense_all us)
        ∙ ap₂ (λ xs ys. xs ++ ys) (records-condense u false) (records-condense_all us)

  mutual
    unfolding condense tight

    tight-condense : (u : DetailedUnit A) → tight_kept (condense u false) ≡ true
    tight-condense (detailed_unit f us) =
        tight-condensed f (condense_all us) (tight-condense_all us)

    tight-condense_all : (us : DetailedUnits A) → all_tight (condense_all us) ≡ true
    tight-condense_all no_detailed = refl
    tight-condense_all (and_detailed u us) =
        tight-and_condensed (condense u false) (condense_all us) (tight-condense u)
          (tight-condense_all us)

  abbrev pub fields_in : DetailedUnit A → DetailedFields A
  fields_in (detailed_unit f us) = f

  -- The root always remains.
  abbrev pub IsCondensedRoot : DetailedUnit A → DetailedUnit A → Type 0
  IsCondensedRoot u d =
      (fields_in d ≡ fields_in u) × (records d ≡ records u) × (tight_below d ≡ true)

  condense_root :
      (u : DetailedUnit A) → (d : DetailedUnit A) × (condense u true ≡ some d) × IsCondensedRoot u d
  unfolding condense records
  condense_root (detailed_unit f us) = (
    detailed_unit f (condense_all us),
    ground arith,
    (refl, ap (λ xs. local_record f ++ xs) (records-condense_all us), tight-condense_all us),
  )

  -- The detailed document always exists. It is the keyword-level tree of the relevant results
  -- condensed: its root is that of the tree, it holds the same errors and annotations in the same
  -- order, each in a unit with the same locations, and each unit below the root holds an error or an
  -- annotation or has at least two units nested in it.
  pub render_detailed-condensed :
      (input : RenderInput A)
      → (d : DetailedUnit A) × (render_detailed input ≡ some d)
        × IsCondensedRoot (build_draft03_tree input relevant) d
  unfolding render_detailed
  render_detailed-condensed input = condense_root (build_draft03_tree input relevant)
