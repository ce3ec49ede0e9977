-- ===== src/Keywords/InPlace.antt =====
-- packages/core/src/keywords/applicator.ts: the in-place applicators.
use Prim.Native.String.{◌++◌ as str_append}
use json_schema_engine.Base.{
  ℕ, ◌+◌, Bool, true, false, ◌&&◌, ◌||◌, not, List, [], ◌∷◌, ◌++◌, String, ◌==◌, length,
  if◌then◌else◌,
}
use json_schema_engine.Json.{Json, lookup}
use json_schema_engine.Cursor.{Cursor, value, key, index}
use json_schema_engine.Engine.State.{Datum, verdict, names, indexes, amount}
use json_schema_engine.Engine.Program.{
  Program, done, apply, produce, visible, adjacent, DependencyView, KeywordBehavior, ◌>>=◌,
}
use json_schema_engine.Keywords.Schema.{
  is_false, with_array, with_entries, described, rejecting, behavior, when_present, on_object,
}

abbrev pub applicator_id : String → String
applicator_id name = str_append "https://json-schema.org/draft/2020-12/vocab/applicator#" name

-- `falseIndexes`
unfoldable pub false_indexes : ℕ → List Json → List ℕ
false_indexes i [] = []
false_indexes i (s ∷ rest) =
    let later = false_indexes (i + 1) rest in if is_false s then i ∷ later else later

-- The `forEach` of `allOf`; the accumulator is `ok`.
unfoldable pub all_branches : Cursor → ℕ → List Json → Bool → Program Bool
all_branches c i [] ok = done ok
all_branches c i (s ∷ rest) ok =
    let skipped = all_branches c (i + 1) rest ok in
    let applied =
      apply (key "allOf" ∷ index i ∷ []) c (λ b. all_branches c (i + 1) rest (ok && b)) in
    if is_false s then skipped else applied

abbrev pub close_all : List ℕ → Bool → Program Bool
close_all [] ok = done ok
close_all (i ∷ failed) ok = rejecting (described "allOfFalse" (indexes (i ∷ failed) ∷ []))

unfoldable pub all_of : KeywordBehavior
unfolding all_branches false_indexes
all_of = behavior (applicator_id "allOf") (λ v c schema.
    with_array v (λ schemas. all_branches c 0 schemas true >>= close_all (false_indexes 0 schemas)))

unfoldable pub any_branches : Cursor → ℕ → List Json → Bool → Program Bool
any_branches c i [] ok = done ok
any_branches c i (s ∷ rest) ok =
    apply (key "anyOf" ∷ index i ∷ []) c (λ b. any_branches c (i + 1) rest (ok || b))

abbrev pub close_any : ℕ → Bool → Program Bool
close_any count true = done true
close_any count false = rejecting (described "anyOf" (amount count ∷ []))

unfoldable pub any_of : KeywordBehavior
unfolding any_branches
any_of = behavior (applicator_id "anyOf") (λ v c schema.
    with_array v (λ schemas. any_branches c 0 schemas false >>= close_any (length schemas)))

unfoldable pub one_branches : Cursor → ℕ → List Json → List ℕ → Program (List ℕ)
one_branches c i [] passing = done passing
one_branches c i (s ∷ rest) passing =
    apply (key "oneOf" ∷ index i ∷ []) c
      (λ b. one_branches c (i + 1) rest (if b then passing ++ i ∷ [] else passing))

abbrev pub close_one : ℕ → List ℕ → Program Bool
close_one count passing =
    if length passing == 1
    then done true
    else rejecting (described "oneOf" (amount count ∷ indexes passing ∷ []))

unfoldable pub one_of : KeywordBehavior
unfolding one_branches
one_of = behavior (applicator_id "oneOf") (λ v c schema.
    with_array v (λ schemas. one_branches c 0 schemas [] >>= close_one (length schemas)))

unfoldable pub not_keyword : KeywordBehavior
not_keyword = behavior (applicator_id "not") (λ v c schema.
    apply (key "not" ∷ []) c (λ b. if b then rejecting (described "not" []) else done true))

-- `if` hands its verdict to `then` and `else`, and accepts.
unfoldable pub if_keyword : KeywordBehavior
if_keyword =
    behavior (applicator_id "if")
      (λ v c schema. apply (key "if" ∷ []) c (λ b. produce (verdict b) (done true)))

-- `outcome.length === 0 || outcome[0].data !== when`
abbrev pub selected : Bool → List DependencyView → Bool
selected when [] = false
selected when (o ∷ later) = elim o.datum [
  | verdict b ↦ (if when then b else not b)
  | names l ↦ false
  | amount i ↦ false
  | indexes l ↦ false
  | Datum.custom j ↦ false
]

-- `conditionalBranch`
unfoldable pub conditional_branch : String → String → Bool → KeywordBehavior
conditional_branch id name when = behavior id (λ v c schema.
    visible (applicator_id "if" ∷ []) adjacent (λ outcome.
      if selected when outcome then apply (key name ∷ []) c (λ b. done b) else done true))

unfoldable pub then_keyword : KeywordBehavior
unfolding conditional_branch
then_keyword = conditional_branch (applicator_id "then") "then" true

unfoldable pub else_keyword : KeywordBehavior
unfolding conditional_branch
else_keyword = conditional_branch (applicator_id "else") "else" false

-- What the sweep of an object's members carries: `ok`, `matched` and `rejected`.
pub record Sweep : Type 0 where
  pub passes : Bool
  pub matched : List String
  pub rejected : List String

abbrev pub no_names : Sweep
no_names = record { passes = true; matched = []; rejected = [] }

unfoldable pub dependents :
    Cursor → List (String × Json) → List (String × Json) → Sweep → Program Sweep
dependents c instance [] w = done w
dependents c instance ((name, schema) ∷ rest) w =
    let absent = dependents c instance rest w in
    let refused = dependents c instance rest (record w { rejected = w.rejected ++ name ∷ [] }) in
    let applied =
      apply (key "dependentSchemas" ∷ key name ∷ []) c
        (λ b. dependents c instance rest (record w { passes = w.passes && b })) in
    when_present (lookup name instance) absent (λ v. if is_false schema then refused else applied)

-- One error names every member whose schema is `false`.
abbrev pub reject_names : String → List String → Bool → Program Bool
reject_names template [] ok = done ok
reject_names template (n ∷ ns) ok = rejecting (described template (names (n ∷ ns) ∷ []))

unfoldable pub dependent_schemas : KeywordBehavior
unfolding dependents
dependent_schemas = behavior (applicator_id "dependentSchemas") (λ v c schema.
    on_object (value c) (λ instance. with_entries v (λ spec.
      dependents c instance spec no_names >>= λ w.
      reject_names "dependentsRejected" w.rejected w.passes)))
