-- ===== src/Schemas/Tolerant/Visits.antt =====
-- packages/core/src/walk.ts: the schema positions that the walk visits.
use Prim.Native.String.{◌++◌ as str_append}
use mathlib.Core.List.{Memᴰ}
use json_schema_engine.Base.{
  ℕ, zero, suc, ◌+◌, ◌≤◌, ltb, ◌≡◌, refl, sym, subst, Bool, true, false, Option, none, some, List,
  [], ◌∷◌, ◌++◌, String, arith, Bool-cases, inl, inr,
}
use json_schema_engine.Json.{Json, boolean, array, object, null, number, string, Members, entries}
use json_schema_engine.Cursor.{Segment}
use json_schema_engine.Schemas.Fallible.{SchemaError, max_depth_exceeded}
use json_schema_engine.Schemas.Walk.{hop}
use json_schema_engine.Schemas.Tolerant.{
  Visit, Walked, and_walk, Analyzer, follow_segments, positions_of, visit_child, walk_paths,
  walk_members, visit_node, step, walk_schema,
}

abbrev pub is_schema : Json → Bool
is_schema (boolean b) = true
is_schema (object ms) = true
is_schema _ = false

module _ (text : ℕ → String) (analyze : Analyzer) (max_depth : ℕ) (schema : Json) where
  -- A value in a schema position: the root, or what a path that a keyword of a schema object claims
  -- leads to. With it stand its pointer, the keyword and how deep it is nested.
  pub data Reached : Json → String → Option String → ℕ → Type 0 where
    start : Reached schema "" none 0
    below :
        {ms : Members} {p : String} {k : Option String} {d : ℕ} {name : String} {value child : Json}
        {path : List Segment} {suffix : String}
        → Reached (object ms) p k d
        → Memᴰ (name, value) (entries ms)
        → Memᴰ path (positions_of text analyze max_depth name value ms)
        → follow_segments text analyze max_depth path (some value) (hop name) ≡ (some child, suffix)
        → Reached child (str_append p suffix) (some name) (d + 1)

  abbrev pub IsReached : Visit → Type 0
  IsReached v =
      (d : ℕ) × Reached v.node v.pointer v.keyword d × (d ≤ max_depth) × (is_schema v.node ≡ true)

  abbrev pub AllReached : List Visit → Type 0
  AllReached [] = Unit {0}
  AllReached (v ∷ vs) = IsReached v × AllReached vs

  abbrev pub IsBounded : Option SchemaError → Type 0
  IsBounded none = Unit {0}
  IsBounded (some e) = e ≡ max_depth_exceeded

  abbrev Sound : Walked → Type 0
  Sound w = AllReached w.0 × IsBounded w.1

  AllReached-append : (vs ws : List Visit) → AllReached vs → AllReached ws → AllReached (vs ++ ws)
  AllReached-append [] ws a b = b
  AllReached-append (v ∷ vs) ws (r, a) b = (r, AllReached-append vs ws a b)

  and_walk-Sound : (a b : Walked) → Sound a → Sound b → Sound (and_walk a b)
  and_walk-Sound (vs, none) b (r, u) (q, e) = (AllReached-append vs b.0 r q, e)
  and_walk-Sound (vs, some e) b s t = s

  -- A schema object at a depth that the bound allows, and the walk of what is below it.
  module _ (descend : Json → String → Option String → Walked) (ms : Members) (p : String)
      (k : Option String) (d : ℕ) (here : Reached (object ms) p k d)
      (deeper : (c : Json) (q : String) (j : Option String)
        → Reached c q j (d + 1)
        → Sound (descend c q j)) where
    visit_child-Sound :
        (name : String) (value : Json) (path : List Segment) (r : Option Json × String)
        → Memᴰ (name, value) (entries ms)
        → Memᴰ path (positions_of text analyze max_depth name value ms)
        → follow_segments text analyze max_depth path (some value) (hop name) ≡ r
        → Sound (visit_child text analyze max_depth descend name p r)
    visit_child-Sound name value path (none, suffix) m q e = (tt, tt)
    visit_child-Sound name value path (some child, suffix) m q e =
        deeper child (str_append p suffix) (some name) (below here m q e)

    walk_paths-Sound :
        (name : String) (value : Json) (paths : List (List Segment))
        → Memᴰ (name, value) (entries ms)
        → ((path : List Segment)
            → Memᴰ path paths
            → Memᴰ path (positions_of text analyze max_depth name value ms))
        → Sound (walk_paths text analyze max_depth descend name value p paths)
    unfolding walk_paths
    walk_paths-Sound name value [] m q = (tt, tt)
    walk_paths-Sound name value (path ∷ paths) m q =
        and_walk-Sound _ _ (visit_child-Sound name value path _ m (q path (Memᴰ.head refl)) refl)
          (walk_paths-Sound name value paths m (λ x h. q x (Memᴰ.tail h)))

    walk_members-Sound :
        (es : List (String × Json))
        → ((e : String × Json) → Memᴰ e es → Memᴰ e (entries ms))
        → Sound (walk_members text analyze max_depth descend ms p es)
    unfolding walk_members
    walk_members-Sound [] q = (tt, tt)
    walk_members-Sound ((name, value) ∷ es) q =
        and_walk-Sound _ _
          (walk_paths-Sound name value (positions_of text analyze max_depth name value ms)
            (q (name, value) (Memᴰ.head refl)) (λ path h. h))
          (walk_members-Sound es (λ e h. q e (Memᴰ.tail h)))

  visit_node-Sound :
      (descend : Json → String → Option String → Walked) (node : Json) (p : String)
      (k : Option String) (d : ℕ)
      → d ≤ max_depth
      → Reached node p k d
      → ((c : Json) (q : String) (j : Option String)
          → Reached c q j (d + 1)
          → Sound (descend c q j))
      → Sound (visit_node text analyze max_depth descend node p k)
  unfolding visit_node
  visit_node-Sound descend (boolean b) p k d h r deeper = (((d, r, h, refl), tt), tt)
  visit_node-Sound descend (object ms) p k d h r deeper =
      and_walk-Sound (record { node = object ms; pointer = p; keyword = k } ∷ [], none) _
        (((d, r, h, refl), tt), tt)
        (walk_members-Sound descend ms p k d r deeper (entries ms) (λ e m. m))
  visit_node-Sound descend null p k d h r deeper = (tt, tt)
  visit_node-Sound descend (number n) p k d h r deeper = (tt, tt)
  visit_node-Sound descend (string s) p k d h r deeper = (tt, tt)
  visit_node-Sound descend (array xs) p k d h r deeper = (tt, tt)

  pub step_past :
      (fuel d : ℕ) (node : Json) (p : String) (k : Option String)
      → ltb max_depth d ≡ true
      → step text analyze max_depth (suc fuel) d node p k ≡ ([], some max_depth_exceeded)
  unfolding step
  step_past fuel d node p k h = rw (h, step) refl

  pub step_within :
      (fuel d : ℕ) (node : Json) (p : String) (k : Option String)
      → ltb max_depth d ≡ false
      → step text analyze max_depth (suc fuel) d node p k
        ≡ visit_node text analyze max_depth (step text analyze max_depth fuel (d + 1)) node p k
  unfolding step
  step_within fuel d node p k h = rw (h, step) refl

  step-Sound :
      (fuel d : ℕ) (node : Json) (p : String) (k : Option String)
      → suc (suc max_depth) ≤ fuel + d
      → d ≤ suc max_depth
      → Reached node p k d
      → Sound (step text analyze max_depth fuel d node p k)
  step-Sound zero d node p k e h r = absurd (omega (arith, e, h))
  step-Sound (suc fuel) d node p k e h r = elim (Bool-cases (ltb max_depth d)) [
    | inl b ↦ subst Sound (sym (step_past fuel d node p k b)) (tt, refl)
    | inr b ↦
        let allowed : d ≤ max_depth = ground (arith, b) in
        subst Sound (sym (step_within fuel d node p k b)) (
          visit_node-Sound (step text analyze max_depth fuel (d + 1)) node p k d allowed r
            (λ c q j r'.
              step-Sound fuel (d + 1) c q j (omega (arith, e)) (omega (arith, allowed)) r'))
  ]

  -- What the walk visits are schema objects and booleans at positions that the keywords claim, nested
  -- at most as deep as the bound allows; and whatever the keywords' `analyze` throw, the walk throws
  -- nothing but that the bound is exceeded.
  pub walk_schema-Sound :
      AllReached (walk_schema text analyze max_depth schema).0
      × IsBounded (walk_schema text analyze max_depth schema).1
  unfolding walk_schema
  walk_schema-Sound =
      step-Sound (suc (suc max_depth)) 0 schema "" none (omega arith) (omega arith) start
