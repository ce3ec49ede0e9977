-- ===== src/Coverage/Agreement.antt =====
-- packages/core/src/coverage.ts against packages/core/src/keywords/unevaluated.ts: the folds of the two
-- tiers over the same dependency records.
use json_schema_engine.Base.{
  ℕ, ◌≡◌, refl, sym, ◌∙◌, ap, Bool, true, false, ◌&&◌, not, List, [], ◌∷◌, ◌++◌, map, String,
  str_eq, arith, append-nil, some, Bool-cases, inl, inr,
}
use mathlib.Core.Bool.{false≢true}
use mathlib.Core.Path.{subst}
use json_schema_engine.Cursor.{same_cursor}
use json_schema_engine.Engine.State.{Datum, verdict, names, indexes, amount, DependencyRecord}
use json_schema_engine.Engine.Program.{DependencyView, every}
use json_schema_engine.Engine.Context.{Context, select_views}
use json_schema_engine.Keywords.InPlace.{applicator_id}
use json_schema_engine.Keywords.Schema.{member_of}
use json_schema_engine.Keywords.Unevaluated.{
  Covered, nothing_covered, cover, cover_all, seen_names, datum_names,
}
use json_schema_engine.Coverage.{fold_name_coverage, fold_index_coverage, harvest_coverage}

-- The datum of a view is names, or the indexes of `contains`, which name nothing.
unfoldable pub all_named : List DependencyView → Bool
all_named [] = true
all_named (p ∷ ps) = elim p.datum [
  | names l ↦ all_named ps
  | indexes l ↦ all_named ps
  | verdict b ↦ false
  | amount n ↦ false
  | Datum.custom j ↦ false
]

-- The datum of a view is what its producer gives: `true` of any, the indexes of `contains`, the last
-- index of `prefixItems`.
unfoldable pub all_shaped : List DependencyView → Bool
all_shaped [] = true
all_shaped (p ∷ ps) = elim p.datum [
  | names l ↦ false
  | indexes l ↦ str_eq p.behavior_id (applicator_id "contains") && all_shaped ps
  | verdict b ↦ b && all_shaped ps
  | amount n ↦
      (not (str_eq p.behavior_id (applicator_id "contains"))
        && str_eq p.behavior_id (applicator_id "prefixItems"))
      && all_shaped ps
  | Datum.custom j ↦ false
]

abbrev data_of : List DependencyView → List Datum
data_of ps = map (λ p. p.datum) ps

harvested :
    (x : Context) (ids : List String) (ds : List DependencyRecord)
    → harvest_coverage ds x.cursor ids ≡ data_of (select_views x ids every ds)
unfolding harvest_coverage select_views
harvested x ids [] = refl
harvested x ids (d ∷ ds) =
    elim (Bool-cases (same_cursor d.cursor x.cursor && member_of d.behavior_id ids)) [
      | inl e ↦ rw e (ap (λ l. d.datum ∷ l) (harvested x ids ds))
      | inr e ↦ rw e (harvested x ids ds)
    ]

left : (a b : Bool) → (a && b) ≡ true → a ≡ true
left a b h = ground arith

right : (a b : Bool) → (a && b) ≡ true → b ≡ true
right a b h = ground arith

denied : (a : Bool) → not a ≡ true → a ≡ false
denied a h = ground arith

abbrev view : String → Datum → DependencyView
view id d = record { behavior_id = id; datum = d }

names_step :
    (id : String) (d : Datum) (ps : List DependencyView) (seen : List String)
    → ((l : List String)
        → all_named ps ≡ true
        → seen_names ps l ≡ some (fold_name_coverage (data_of ps) l))
    → all_named (view id d ∷ ps) ≡ true
    → seen_names (view id d ∷ ps) seen ≡ some (fold_name_coverage (d ∷ data_of ps) seen)
unfolding all_named seen_names fold_name_coverage datum_names
names_step id (names l) ps seen h e = h (seen ++ l) e
names_step id (indexes l) ps seen h e =
    subst (λ y. seen_names ps y ≡ some (fold_name_coverage (data_of ps) seen))
      (sym (append-nil seen)) (h seen e)
names_step id (verdict b) ps seen h e = absurd (false≢true e)
names_step id (amount n) ps seen h e = absurd (false≢true e)
names_step id (Datum.custom j) ps seen h e = absurd (false≢true e)

names_agree :
    (ps : List DependencyView) (seen : List String)
    → all_named ps ≡ true
    → seen_names ps seen ≡ some (fold_name_coverage (data_of ps) seen)
unfolding all_named seen_names fold_name_coverage
names_agree [] seen h = refl
names_agree (p ∷ ps) seen h = names_step p.behavior_id p.datum ps seen (λ l e. names_agree ps l e) h

covered_step :
    (size : ℕ) (id : String) (d : Datum) (ps : List DependencyView) (w : Covered)
    → ((u : Covered)
        → all_shaped ps ≡ true
        → cover_all size ps u ≡ some (fold_index_coverage size (data_of ps) u))
    → all_shaped (view id d ∷ ps) ≡ true
    → cover_all size (view id d ∷ ps) w ≡ some (fold_index_coverage size (d ∷ data_of ps) w)
unfolding all_shaped cover_all cover fold_index_coverage
covered_step size id (verdict true) ps w h e = h _ e
covered_step size id (verdict false) ps w h e = absurd (false≢true e)
covered_step size id (names l) ps w h e = absurd (false≢true e)
covered_step size id (Datum.custom j) ps w h e = absurd (false≢true e)
covered_step size id (indexes l) ps w h e =
    rw (left (str_eq id (applicator_id "contains")) _ e, cover_all, cover)
      (h _ (right (str_eq id (applicator_id "contains")) _ e))
covered_step size id (amount n) ps w h e =
    let shape = left _ (all_shaped ps) e in
    rw (denied _ (left _ (str_eq id (applicator_id "prefixItems")) shape), cover_all, cover)
      (rw (right (not (str_eq id (applicator_id "contains"))) _ shape, cover_all, cover)
        (h _ (right _ (all_shaped ps) e)))

indexes_agree :
    (size : ℕ) (ps : List DependencyView) (w : Covered)
    → all_shaped ps ≡ true
    → cover_all size ps w ≡ some (fold_index_coverage size (data_of ps) w)
unfolding all_shaped cover_all fold_index_coverage
indexes_agree size [] w h = refl
indexes_agree size (p ∷ ps) w h =
    covered_step size p.behavior_id p.datum ps w (λ u e. indexes_agree size ps u e) h

-- Over the same dependency records, with the data that the producers of names give, the compiled
-- fold of the harvested data names exactly what the interpreter has seen.
pub fold_name_coverage-seen_names :
    (x : Context) (ids : List String) (ds : List DependencyRecord)
    → all_named (select_views x ids every ds) ≡ true
    → seen_names (select_views x ids every ds) []
      ≡ some (fold_name_coverage (harvest_coverage ds x.cursor ids) [])
fold_name_coverage-seen_names x ids ds h =
    names_agree (select_views x ids every ds) [] h
    ∙ ap (λ l. some (fold_name_coverage l [])) (sym (harvested x ids ds))

-- Over the same dependency records, with the data that the producers of indexes give, the compiled
-- fold of the harvested data covers exactly the items that the interpreter takes as covered.
pub fold_index_coverage-cover_all :
    (size : ℕ) (x : Context) (ids : List String) (ds : List DependencyRecord)
    → all_shaped (select_views x ids every ds) ≡ true
    → cover_all size (select_views x ids every ds) nothing_covered
      ≡ some (fold_index_coverage size (harvest_coverage ds x.cursor ids) nothing_covered)
fold_index_coverage-cover_all size x ids ds h =
    indexes_agree size (select_views x ids every ds) nothing_covered h
    ∙ ap (λ l. some (fold_index_coverage size l nothing_covered)) (sym (harvested x ids ds))
