-- ===== src/Tests/Listed.antt =====
-- The parts of the document are where the registry finds them, and a property of each of a list of
-- paths.
use json_schema_engine.Base.{
  ◌≡◌, refl, sym, true, List, [], ◌∷◌, ok, arith, any, str_eq_iff, ==_iff, ap, Bool-cases, inl, inr,
}
use mathlib.Core.Path.{subst}
use json_schema_engine.Cursor.{Segment, key, index}
use json_schema_engine.Engine.Apply.{each}
use json_schema_engine.Keywords.InPlace.{
  all_of, any_of, one_of, not_keyword, then_keyword, dependent_schemas,
}
use json_schema_engine.Keywords.Object.{
  properties, pattern_properties, additional_properties, property_names,
}
use json_schema_engine.Keywords.Array.{prefix_items, items, contains}
use json_schema_engine.Keywords.Unevaluated.{unevaluated_properties, unevaluated_items}
use json_schema_engine.Keywords.Validation.{type_keyword}
use json_schema_engine.Tests.Document.{
  same_segment, same_segments, dialect, schema_ref, lookups, paths, part_of,
}

same_segment_iff : (s t : Segment) → same_segment s t ≡ true → s ≡ t
unfolding same_segment
same_segment_iff (key j) (key k) h = ap key ((str_eq_iff j k).0 h)
same_segment_iff (index i) (index j) h = ap index ((==_iff i j).0 h)
same_segment_iff (key j) (index i) h = cc h
same_segment_iff (index i) (key k) h = cc h

same_segments_iff : (s t : List Segment) → same_segments s t ≡ true → s ≡ t
unfolding same_segments
same_segments_iff [] [] h = refl
same_segments_iff (s ∷ ss) (t ∷ ts) h =
    let first : s ≡ t = same_segment_iff s t (ground (arith, h)) in
    let rest : ss ≡ ts = same_segments_iff ss ts (ground (arith, h)) in cc (first, rest)
same_segments_iff [] (t ∷ ts) h = cc h
same_segments_iff (s ∷ ss) [] h = cc h

unfoldable pub Each {ℓ} : (List Segment → Type ℓ) → List (List Segment) → Type ℓ
Each P [] = Unit
Each P (t ∷ ts) = P t × Each P ts

-- What holds of each path of a list holds of a path that is in it.
pub listed {ℓ} :
    (P : List Segment → Type ℓ) (segs : List Segment) (ts : List (List Segment))
    → Each P ts
    → any (same_segments segs) ts ≡ true
    → P segs
unfolding Each
listed P segs [] each h = cc h
listed P segs (t ∷ ts) each h = elim (Bool-cases (same_segments segs t)) [
  | inl e ↦ subst P (sym (same_segments_iff segs t e)) each.0
  | inr e ↦ listed P segs ts each.1 (ground (arith, e, h))
]

pub part_there :
    (segs : List Segment)
    → any (same_segments segs) paths ≡ true
    → lookups.child schema_ref segs ≡ ok (part_of segs)
unfolding part_of Each dialect all_of any_of one_of not_keyword then_keyword dependent_schemas
    properties pattern_properties additional_properties property_names prefix_items items contains
    unevaluated_properties unevaluated_items type_keyword
part_there segs =
    listed (λ s. lookups.child schema_ref s ≡ ok (part_of s)) segs paths
      (
        refl,
        (
          refl,
          (
            refl,
            (
              refl,
              (
                refl,
                (
                  refl,
                  (
                    refl,
                    (
                      refl,
                      (
                        refl,
                        (
                          refl,
                          (
                            refl,
                            (refl, (refl, (refl, (refl, (refl, (refl, (refl, (refl, tt)))))))),
                          ),
                        ),
                      ),
                    ),
                  ),
                ),
              ),
            ),
          ),
        ),
      )
