-- ===== src/Keywords/Unevaluated.antt =====
-- packages/core/src/keywords/unevaluated.ts: the consumers of dependency data.
use Prim.Native.String.{◌++◌ as str_append}
use json_schema_engine.Base.{
  ℕ, ◌+◌, Bool, true, false, ◌&&◌, ◌||◌, List, [], ◌∷◌, ◌++◌, String, ◌==◌, any, length, drop, ltb,
  if◌then◌else◌, Option, none, some, str_eq, foreign,
}
use json_schema_engine.Json.{Json, array, string, elements}
use json_schema_engine.Cursor.{Cursor, value, key, index}
use json_schema_engine.Engine.State.{Datum, verdict, names, indexes, amount}
use json_schema_engine.Engine.Program.{
  Program, done, fail, child, apply, produce, visible, every, DependencyView, KeywordBehavior,
  ◌>>=◌,
}
use json_schema_engine.Keywords.Schema.{
  is_false, described, rejecting, member_of, on_object, on_array,
}
use json_schema_engine.Keywords.InPlace.{applicator_id, Sweep, no_names}
use json_schema_engine.Keywords.Object.{apply_member}
use json_schema_engine.Keywords.Array.{Tally, no_items, close_items}

abbrev pub unevaluated_id : String → String
unevaluated_id name = str_append "https://json-schema.org/draft/2020-12/vocab/unevaluated#" name

abbrev pub text_elements : List Json → List String
text_elements [] = []
text_elements (string s ∷ xs) = s ∷ text_elements xs
text_elements (_ ∷ xs) = text_elements xs

-- The names that iterating over a datum adds to `seen`; what is no iterable throws. A text as a datum
-- of a keyword of a program's own is outside of the model, which throws there too.
unfoldable pub datum_names : Datum → Option (List String)
datum_names (names l) = some l
datum_names (indexes l) = some []
datum_names (Datum.custom (array xs)) = some (text_elements (elements xs))
datum_names _ = none

unfoldable pub seen_names : List DependencyView → List String → Option (List String)
seen_names [] seen = some seen
seen_names (p ∷ ps) seen = elim (datum_names p.datum) [
  | none ↦ none
  | some l ↦ seen_names ps (seen ++ l)
]

unfoldable pub property_ids : List String
property_ids =
    applicator_id "properties"
    ∷ applicator_id "patternProperties"
    ∷ applicator_id "additionalProperties"
    ∷ unevaluated_id "unevaluatedProperties"
    ∷ []

-- The loop over the names of the instance; `matched` are the ones not seen.
unfoldable pub sweep_unseen :
    Cursor → Json → List String → List (String × Json) → Sweep → Program Sweep
sweep_unseen c schema seen [] w = done w
sweep_unseen c schema seen ((name, v) ∷ rest) w =
    let skipped = sweep_unseen c schema seen rest w in
    let refused = sweep_unseen c schema seen rest (record w { matched = w.matched ++ name ∷ [] }) in
    let applied = apply_member c name v "unevaluatedProperties" (λ b.
      sweep_unseen c schema seen rest
        (record w { passes = w.passes && b; matched = w.matched ++ name ∷ [] })) in
    if member_of name seen then skipped else if is_false schema then refused else applied

abbrev pub close_accepted : Bool → List String → Program Bool
close_accepted true matched = produce (names matched) (done true)
close_accepted false matched = done false

abbrev pub close_refused : List String → Bool → Program Bool
close_refused [] passes = close_accepted passes []
close_refused (n ∷ ns) passes = rejecting (described "unevaluatedNames" (names (n ∷ ns) ∷ []))

abbrev pub close_unseen : Json → Sweep → Program Bool
close_unseen schema w =
    if is_false schema then close_refused w.matched w.passes else close_accepted w.passes w.matched

abbrev pub with_seen : Option (List String) → (List String → Program Bool) → Program Bool
with_seen none k = fail (foreign "TypeError")
with_seen (some seen) k = k seen

unfoldable pub unevaluated_properties : KeywordBehavior
unfolding sweep_unseen seen_names property_ids datum_names
unevaluated_properties = record {
  id = unevaluated_id "unevaluatedProperties";
  phase = 1;
  structural = false;
  evaluate = λ v c schema. on_object (value c) (λ instance. visible property_ids every (λ views.
      with_seen (seen_names views [])
        (λ seen. sweep_unseen c v seen instance no_names >>= close_unseen v)));
}

-- What the dependency data says of the indexes: `coveredPrefix` and `coveredIdx`.
pub record Covered : Type 0 where
  pub prefix : ℕ
  pub indexes : List ℕ

abbrev pub nothing_covered : Covered
nothing_covered = record { prefix = 0; indexes = [] }

abbrev pub larger : ℕ → ℕ → ℕ
larger a b = if ltb a b then b else a

-- One record. `contains` gives `true` or the indexes, `prefixItems` gives `true` or the last index,
-- the other two give `true`; data of another shape under the first two identifiers throws.
unfoldable pub cover : ℕ → DependencyView → Covered → Option Covered
cover size p w = elim p.datum [
  | verdict true ↦ some (record w { prefix = size })
  | verdict false ↦
      if str_eq p.behavior_id (applicator_id "contains")
        || str_eq p.behavior_id (applicator_id "prefixItems")
      then none
      else some w
  | indexes l ↦
      if str_eq p.behavior_id (applicator_id "contains")
      then some (record w { indexes = w.indexes ++ l })
      else if str_eq p.behavior_id (applicator_id "prefixItems")
      then none
      else some w
  | amount n ↦
      if str_eq p.behavior_id (applicator_id "contains")
      then none
      else if str_eq p.behavior_id (applicator_id "prefixItems")
      then some (record w { prefix = larger w.prefix (n + 1) })
      else some w
  | names l ↦
      if str_eq p.behavior_id (applicator_id "contains")
        || str_eq p.behavior_id (applicator_id "prefixItems")
      then none
      else some w
  | Datum.custom j ↦
      if str_eq p.behavior_id (applicator_id "contains")
        || str_eq p.behavior_id (applicator_id "prefixItems")
      then none
      else some w
]

unfoldable pub cover_all : ℕ → List DependencyView → Covered → Option Covered
cover_all size [] w = some w
cover_all size (p ∷ ps) w = elim (cover size p w) [ none ↦ none | some w' ↦ cover_all size ps w' ]

unfoldable pub item_ids : List String
item_ids =
    applicator_id "prefixItems"
    ∷ applicator_id "items"
    ∷ applicator_id "contains"
    ∷ unevaluated_id "unevaluatedItems"
    ∷ []

abbrev pub index_member : ℕ → List ℕ → Bool
index_member i l = any (λ j. j == i) l

-- The loop over the items from an index on.
unfoldable pub sweep_uncovered : Cursor → Json → List ℕ → ℕ → List Json → Tally → Program Tally
sweep_uncovered c s covered i [] w = done w
sweep_uncovered c s covered i (v ∷ vs) w =
    let skipped = sweep_uncovered c s covered (i + 1) vs w in
    let refused =
      sweep_uncovered c s covered (i + 1) vs
        (record w { applied = true; rejected = w.rejected ++ i ∷ [] }) in
    let applied = child c (index i) v (λ at. apply (key "unevaluatedItems" ∷ []) at (λ b.
      sweep_uncovered c s covered (i + 1) vs
        (record w { passes = w.passes && b; applied = true }))) in
    if index_member i covered then skipped else if is_false s then refused else applied

abbrev pub with_covered : Option Covered → (Covered → Program Bool) → Program Bool
with_covered none k = fail (foreign "TypeError")
with_covered (some w) k = k w

unfoldable pub unevaluated_items : KeywordBehavior
unfolding sweep_uncovered cover_all item_ids cover
unevaluated_items = record {
  id = unevaluated_id "unevaluatedItems";
  phase = 1;
  structural = false;
  evaluate = λ v c schema. on_array (value c) (λ instance. visible item_ids every (λ views.
      with_covered (cover_all (length instance) views nothing_covered) (λ w.
        sweep_uncovered c v w.indexes w.prefix (drop w.prefix instance) no_items
        >>= close_items (λ l. described "unevaluated" (indexes l ∷ [])) (verdict true))));
}
