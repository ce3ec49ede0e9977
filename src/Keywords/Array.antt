-- ===== src/Keywords/Array.antt =====
-- packages/core/src/keywords/applicator.ts: the applicators over an array's items.
use json_schema_engine.Base.{
  ℕ, suc, ◌+◌, ◌-◌, Bool, true, false, ◌&&◌, ◌||◌, List, [], ◌∷◌, ◌++◌, String, ◌==◌, length, drop,
  if◌then◌else◌, none, some, ltb,
}
use json_schema_engine.Json.{Json, array, number, Double, Members, elements, entries, lookup}
use json_schema_engine.Json.Number.{length_lt, lt_length}
use json_schema_engine.Cursor.{Cursor, value, key, index}
use json_schema_engine.Engine.State.{Datum, Description, verdict, amount, indexes}
use json_schema_engine.Engine.Program.{Program, done, child, apply, produce, KeywordBehavior, ◌>>=◌}
use json_schema_engine.Keywords.Schema.{is_false, described, rejecting, behavior, on_array}
use json_schema_engine.Keywords.InPlace.{applicator_id}

-- What the sweep of an array's items carries: `ok`, `applied` and `rejected`.
pub record Tally : Type 0 where
  pub passes : Bool
  pub applied : Bool
  pub rejected : List ℕ

abbrev pub no_items : Tally
no_items = record { passes = true; applied = false; rejected = [] }

-- A tuple of schemas against the items at the same positions, as far as both go.
unfoldable pub sweep_prefix : Cursor → ℕ → List Json → List Json → Tally → Program Tally
sweep_prefix c i [] vs w = done w
sweep_prefix c i (s ∷ ss) [] w = done w
sweep_prefix c i (s ∷ ss) (v ∷ vs) w =
    let refused =
      sweep_prefix c (i + 1) ss vs (record w { applied = true; rejected = w.rejected ++ i ∷ [] }) in
    let applied = child c (index i) v (λ at.
      apply (key "prefixItems" ∷ index i ∷ []) at (λ b.
        sweep_prefix c (i + 1) ss vs (record w { passes = w.passes && b; applied = true }))) in
    if is_false s then refused else applied

-- `Math.min(schemas.length, items.length)`
unfoldable pub overlap : List Json → List Json → ℕ
overlap [] vs = 0
overlap (s ∷ ss) [] = 0
overlap (s ∷ ss) (v ∷ vs) = suc (overlap ss vs)

abbrev pub close_indexes : (List ℕ → Description) → Datum → List ℕ → Bool → Bool → Program Bool
close_indexes describe d [] true true = produce d (done true)
close_indexes describe d [] true false = done false
close_indexes describe d [] false passes = done passes
close_indexes describe d (i ∷ rest) applied passes = rejecting (describe (i ∷ rest))

-- The closing steps of an array applicator, with the datum of a success that swept something.
abbrev pub close_items : (List ℕ → Description) → Datum → Tally → Program Bool
close_items describe d w = close_indexes describe d w.rejected w.applied w.passes

unfoldable pub prefix_items : KeywordBehavior
unfolding sweep_prefix overlap
prefix_items = behavior (applicator_id "prefixItems") (λ v c schema. on_array (value c) (λ instance.
    on_array v (λ schemas.
      let n = overlap schemas instance in
      sweep_prefix c 0 schemas instance no_items
      >>= close_items (λ l. described "positionsRejected" (indexes l ∷ []))
          (if n == length instance then verdict true else amount (n - 1)))))

unfoldable pub sweep_items : Cursor → Json → String → ℕ → List Json → Tally → Program Tally
sweep_items c s keyword i [] w = done w
sweep_items c s keyword i (v ∷ vs) w =
    let refused =
      sweep_items c s keyword (i + 1) vs
        (record w { applied = true; rejected = w.rejected ++ i ∷ [] }) in
    let applied = child c (index i) v (λ at. apply (key keyword ∷ []) at (λ b.
      sweep_items c s keyword (i + 1) vs (record w { passes = w.passes && b; applied = true }))) in
    if is_false s then refused else applied

-- The length of the sibling `prefixItems`, where it is an array.
unfoldable pub prefix_length : Members → ℕ
prefix_length schema = elim (lookup "prefixItems" (entries schema)) [
  | some (array xs) ↦ length (elements xs)
  | some _ ↦ 0
  | none ↦ 0
]

unfoldable pub items : KeywordBehavior
unfolding sweep_items prefix_length
items = behavior (applicator_id "items") (λ v c schema. on_array (value c) (λ instance.
    let start = prefix_length schema in
    sweep_items c v "items" start (drop start instance) no_items
    >>= close_items (λ l. described "tailRejected" (amount start ∷ indexes l ∷ [])) (verdict true)))

-- `containsRange`: a bound that is no number is 1 below and none above.
pub data Bound : Type 0 where
  at : Double → Bound
  one infinity : Bound

unfoldable pub bound_of : String → Bound → Members → Bound
bound_of keyword otherwise schema = elim (lookup keyword (entries schema)) [
  | some (number d) ↦ at d
  | some _ ↦ otherwise
  | none ↦ otherwise
]

-- `count < bound` and `count > bound`
unfoldable pub below : ℕ → Bound → Bool
unfolding length_lt
below n (at d) = length_lt n d
below n one = ltb n 1
below n infinity = true

unfoldable pub above : ℕ → Bound → Bool
unfolding lt_length
above n (at d) = lt_length d n
above n one = ltb 1 n
above n infinity = false

unfoldable pub sweep_contains : Cursor → ℕ → List Json → List ℕ → Program (List ℕ)
sweep_contains c i [] matched = done matched
sweep_contains c i (v ∷ vs) matched = child c (index i) v (λ at.
    apply (key "contains" ∷ []) at
      (λ b. sweep_contains c (i + 1) vs (if b then matched ++ i ∷ [] else matched)))

abbrev pub close_contains : ℕ → Bound → Bound → List ℕ → Program Bool
close_contains size least most matched =
    if below (length matched) least || above (length matched) most
    then rejecting (described "contains" (amount (length matched) ∷ indexes matched ∷ []))
    else if length matched == 0
    then done true
    else produce (if length matched == size then verdict true else indexes matched) (done true)

unfoldable pub contains : KeywordBehavior
unfolding bound_of below above sweep_contains
contains = behavior (applicator_id "contains") (λ v c schema. on_array (value c) (λ instance.
    (if is_false v then done [] else sweep_contains c 0 instance [])
    >>= close_contains (length instance) (bound_of "minContains" one schema)
        (bound_of "maxContains" infinity schema)))
