-- ===== src/Keywords/Object.antt =====
-- packages/core/src/keywords/applicator.ts: the applicators over an object's members.
use json_schema_engine.Base.{
  Bool, true, false, ◌&&◌, ◌||◌, List, [], ◌∷◌, ◌++◌, String, any, if◌then◌else◌, none, some,
}
use json_schema_engine.Json.{Json, object, string, Members, entries, keys, lookup}
use json_schema_engine.Cursor.{Cursor, value, key}
use json_schema_engine.Engine.State.{Description, names}
use json_schema_engine.Engine.Program.{
  Program, done, child, apply, produce, compile_regex, KeywordBehavior, ◌>>=◌,
}
use json_schema_engine.Keywords.Schema.{
  is_false, with_entries, described, rejecting, member_of, add_name, behavior, when_present,
  on_object,
}
use json_schema_engine.Keywords.InPlace.{applicator_id, Sweep, no_names}

-- The child cursor of a member, and its subschema applied there.
abbrev pub apply_member :
    {A : Type 0} → Cursor → String → Json → String → (Bool → Program A) → Program A
apply_member c name v keyword k = child c (key name) v (λ at. apply (key keyword ∷ []) at k)

abbrev pub apply_member_at :
    {A : Type 0} → Cursor → String → Json → String → String → (Bool → Program A) → Program A
apply_member_at c name v keyword sub k =
    child c (key name) v (λ at. apply (key keyword ∷ key sub ∷ []) at k)

abbrev pub close_names :
    (List String → Description) → List String → Bool → List String → Program Bool
close_names describe [] true matched = produce (names matched) (done true)
close_names describe [] false matched = done false
close_names describe (n ∷ ns) passes matched = rejecting (describe (n ∷ ns))

-- What closes a sweep: one error for the members of a `false` schema, else the matched names as
-- dependency data of an accepting keyword.
abbrev pub close_sweep : (List String → Description) → Sweep → Program Bool
close_sweep describe w = close_names describe w.rejected w.passes w.matched

unfoldable pub sweep_properties :
    Cursor → List (String × Json) → List (String × Json) → Sweep → Program Sweep
sweep_properties c instance [] w = done w
sweep_properties c instance ((name, schema) ∷ rest) w =
    let absent = sweep_properties c instance rest w in
    let refused =
      sweep_properties c instance rest
        (record w { matched = w.matched ++ name ∷ []; rejected = w.rejected ++ name ∷ [] }) in
    when_present (lookup name instance) absent (λ v.
      let applied = apply_member_at c name v "properties" name (λ b.
        sweep_properties c instance rest
          (record w { passes = w.passes && b; matched = w.matched ++ name ∷ [] })) in
      if is_false schema then refused else applied)

unfoldable pub properties : KeywordBehavior
unfolding sweep_properties
properties = behavior (applicator_id "properties") (λ v c schema. on_object (value c) (λ instance.
    with_entries v (λ spec.
      sweep_properties c instance spec no_names
      >>= close_sweep (λ l. described "forbidden" (names l ∷ [])))))

-- One pattern over the names of the instance; the sets keep each name once.
unfoldable pub sweep_pattern :
    Cursor → String → Json → (String → Bool) → List (String × Json) → Sweep → Program Sweep
sweep_pattern c pattern schema re [] w = done w
sweep_pattern c pattern schema re ((name, v) ∷ rest) w =
    let unmatched = sweep_pattern c pattern schema re rest w in
    let refused =
      sweep_pattern c pattern schema re rest
        (record w { matched = add_name name w.matched; rejected = add_name name w.rejected }) in
    let applied = apply_member_at c name v "patternProperties" pattern (λ b.
      sweep_pattern c pattern schema re rest
        (record w { passes = w.passes && b; matched = add_name name w.matched })) in
    if re name then (if is_false schema then refused else applied) else unmatched

unfoldable pub sweep_patterns :
    Cursor → List (String × Json) → List (String × Json) → Sweep → Program Sweep
sweep_patterns c instance [] w = done w
sweep_patterns c instance ((pattern, schema) ∷ rest) w =
    compile_regex pattern (λ re.
      sweep_pattern c pattern schema re instance w >>= λ w'. sweep_patterns c instance rest w')

-- `forbiddenPatterns`
unfoldable pub forbidden_patterns : List (String × Json) → List String
forbidden_patterns [] = []
forbidden_patterns ((pattern, schema) ∷ rest) =
    let later = forbidden_patterns rest in if is_false schema then pattern ∷ later else later

unfoldable pub pattern_properties : KeywordBehavior
unfolding sweep_patterns sweep_pattern forbidden_patterns
pattern_properties = behavior (applicator_id "patternProperties") (λ v c schema.
    on_object (value c) (λ instance. with_entries v (λ spec.
      sweep_patterns c instance spec no_names
      >>= close_sweep
          (λ l. described "forbiddenPatterns" (names (forbidden_patterns spec) ∷ names l ∷ [])))))

-- The names of an object-valued sibling keyword.
unfoldable pub sibling_names : String → Members → List String
sibling_names keyword schema = elim (lookup keyword (entries schema)) [
  | some (object ms) ↦ keys (entries ms)
  | some _ ↦ []
  | none ↦ []
]

unfoldable pub compile_all : List String → List (String → Bool) → Program (List (String → Bool))
compile_all [] res = done res
compile_all (p ∷ ps) res = compile_regex p (λ re. compile_all ps (res ++ re ∷ []))

unfoldable pub sweep_additional :
    Cursor
    → Json
    → List String
    → List (String → Bool)
    → List (String × Json)
    → Sweep
    → Program Sweep
sweep_additional c schema known res [] w = done w
sweep_additional c schema known res ((name, v) ∷ rest) w =
    let covered = sweep_additional c schema known res rest w in
    let refused =
      sweep_additional c schema known res rest
        (record w { matched = w.matched ++ name ∷ []; rejected = w.rejected ++ name ∷ [] }) in
    let applied = apply_member c name v "additionalProperties" (λ b.
      sweep_additional c schema known res rest
        (record w { passes = w.passes && b; matched = w.matched ++ name ∷ [] })) in
    if member_of name known || any (λ re. re name) res
    then covered
    else if is_false schema
    then refused
    else applied

unfoldable pub additional_properties : KeywordBehavior
unfolding sibling_names compile_all sweep_additional
additional_properties = behavior (applicator_id "additionalProperties") (λ v c schema.
    on_object (value c) (λ instance.
      compile_all (sibling_names "patternProperties" schema) [] >>= λ res.
      sweep_additional c v (sibling_names "properties" schema) res instance no_names
      >>= close_sweep (λ l. described "additionalRejected" (names l ∷ []))))

unfoldable pub sweep_names : Cursor → List String → Bool → Program Bool
sweep_names c [] ok = done ok
sweep_names c (name ∷ rest) ok =
    apply_member c name (string name) "propertyNames" (λ b. sweep_names c rest (ok && b))

abbrev pub refuse_names : List String → Program Bool
refuse_names [] = done true
refuse_names (n ∷ ns) = rejecting (described "noNames" (names (n ∷ ns) ∷ []))

unfoldable pub property_names : KeywordBehavior
unfolding sweep_names
property_names = behavior (applicator_id "propertyNames") (λ v c schema.
    on_object (value c) (λ instance.
      if is_false v then refuse_names (keys instance) else sweep_names c (keys instance) true))
