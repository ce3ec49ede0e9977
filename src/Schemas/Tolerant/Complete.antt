-- ===== src/Schemas/Tolerant/Complete.antt =====
-- packages/core/src/walk.ts: the walk visits all that it reaches.
use Prim.Native.String.{◌++◌ as str_append}
use mathlib.Core.List.{Memᴰ}
use mathlib.Core.List.Memᴰ
use mathlib.Core.Bool.{false≢true}
use json_schema_engine.Base.{
  ℕ, suc, ◌+◌, ◌-◌, ◌≤◌, ltb, ◌≡◌, refl, sym, ap, subst, ◌∙◌, true, Option, none, some, List, [],
  ◌∷◌, String, arith, Bool-cases, inl, inr,
}
use json_schema_engine.Json.{Json, boolean, array, object, null, number, string, Members, entries}
use json_schema_engine.Cursor.{Segment}
use json_schema_engine.Schemas.Fallible.{SchemaError, max_depth_exceeded}
use json_schema_engine.Schemas.Walk.{hop}
use json_schema_engine.Schemas.Tolerant.Visits.{
  is_schema, Reached, start, below, step_past, step_within,
}
use json_schema_engine.Schemas.Tolerant.{
  Visit, Walked, and_walk, Analyzer, follow_segments, positions_of, visit_child, walk_paths,
  walk_members, visit_node, step, walk_schema,
}

module _ (text : ℕ → String) (analyze : Analyzer) (max_depth : ℕ) (schema : Json)
    (all : List Visit) where
  -- A part of the walk that threw nothing, and whose visits are visits of the whole.
  record Within (w : Walked) : Type 0 where
    quiet : w.1 ≡ none
    kept : (v : Visit) → Memᴰ v w.0 → Memᴰ v all

  left_of : (a b : Walked) → Within (and_walk a b) → Within a
  left_of (vs, none) b h = record { quiet = refl; kept = λ v m. h.kept v (Memᴰ.append_left b.0 m) }
  left_of (vs, some e) b h = h

  not_quiet : {vs : List Visit} {e : SchemaError} → Within (vs, some e) → ⊥
  not_quiet h = thrown h.quiet
    where
      thrown : {e : SchemaError} → some e ≡ none → ⊥
      thrown q = cc

  right_of : (a b : Walked) → Within (and_walk a b) → Within b
  right_of (vs, none) b h = record {
    quiet = h.quiet;
    kept = λ v m. h.kept v (Memᴰ.append_right vs m);
  }
  right_of (vs, some e) b h = absurd (not_quiet h)

  child_of :
      (descend : Json → String → Option String → Walked) (name : String) (value : Json) (p : String)
      (path : List Segment) (paths : List (List Segment))
      → Memᴰ path paths
      → Within (walk_paths text analyze max_depth descend name value p paths)
      → Within (
          visit_child text analyze max_depth descend name p
            (follow_segments text analyze max_depth path (some value) (hop name)))
  unfolding walk_paths
  child_of descend name value p path [] m h = absurd (Memᴰ.not-nil m)
  child_of descend name value p path (x ∷ paths) (Memᴰ.head e) h =
      subst
        (λ y. Within (
          visit_child text analyze max_depth descend name p
            (follow_segments text analyze max_depth y (some value) (hop name))))
        (sym e) (left_of _ _ h)
  child_of descend name value p path (x ∷ paths) (Memᴰ.tail m) h =
      child_of descend name value p path paths m (
        right_of
          (visit_child text analyze max_depth descend name p
            (follow_segments text analyze max_depth x (some value) (hop name)))
          _ h)

  member_of :
      (descend : Json → String → Option String → Walked) (ms : Members) (p : String)
      (e : String × Json) (es : List (String × Json))
      → Memᴰ e es
      → Within (walk_members text analyze max_depth descend ms p es)
      → Within (
          walk_paths text analyze max_depth descend e.0 e.1 p
            (positions_of text analyze max_depth e.0 e.1 ms))
  unfolding walk_members
  member_of descend ms p e [] m h = absurd (Memᴰ.not-nil m)
  member_of descend ms p e (x ∷ es) (Memᴰ.head q) h =
      subst
        (λ y. Within (
          walk_paths text analyze max_depth descend y.0 y.1 p
            (positions_of text analyze max_depth y.0 y.1 ms)))
        (sym q) (left_of _ _ h)
  member_of descend ms p e (x ∷ es) (Memᴰ.tail m) h = member_of descend ms p e es m (
      right_of
        (walk_paths text analyze max_depth descend x.0 x.1 p
          (positions_of text analyze max_depth x.0 x.1 ms))
        _ h)

  -- The walk at a position that it reaches, with the fuel of its depth.
  abbrev at_depth : ℕ → Json → String → Option String → Walked
  at_depth d = step text analyze max_depth (suc (suc max_depth) - d) d

  at_depth-within :
      (d : ℕ) (node : Json) (p : String) (k : Option String)
      → d ≤ max_depth
      → at_depth d node p k ≡ visit_node text analyze max_depth (at_depth (d + 1)) node p k
  at_depth-within d node p k h =
      let enough : suc (suc max_depth) - d ≡ suc (suc max_depth - d) = omega (arith, h) in
      let next : suc max_depth - d ≡ suc (suc max_depth) - (d + 1) = omega (arith, h) in
      ap (λ f. step text analyze max_depth f d node p k) enough
      ∙ (step_within text analyze max_depth schema (suc max_depth - d) d node p k
            (ground (arith, h))
          ∙ ap
              (λ f.
                visit_node text analyze max_depth (step text analyze max_depth f (d + 1)) node p k)
              next)

  allowed :
      (d : ℕ) (node : Json) (p : String) (k : Option String)
      → d ≤ suc max_depth
      → Within (at_depth d node p k)
      → d ≤ max_depth
  allowed d node p k h w = elim (Bool-cases (ltb max_depth d)) [
    | inr b ↦ ground (arith, b)
    | inl b ↦
        let enough : suc (suc max_depth) - d ≡ suc (suc max_depth - d) = omega (arith, h) in
        let past : at_depth d node p k ≡ ([], some max_depth_exceeded) =
          ap (λ f. step text analyze max_depth f d node p k) enough
          ∙ step_past text analyze max_depth schema (suc max_depth - d) d node p k b in
        absurd (not_quiet (subst Within past w))
  ]

  -- From a schema object to what a path of one of its keywords leads to.
  below-Within :
      (ms : Members) (p : String) (k : Option String) (d : ℕ) (name : String) (value child : Json)
      (path : List Segment) (suffix : String)
      → Within (at_depth d (object ms) p k)
      → d ≤ max_depth
      → Memᴰ (name, value) (entries ms)
      → Memᴰ path (positions_of text analyze max_depth name value ms)
      → follow_segments text analyze max_depth path (some value) (hop name) ≡ (some child, suffix)
      → Within (at_depth (d + 1) child (str_append p suffix) (some name))
  unfolding visit_node
  below-Within ms p k d name value child path suffix w h m q e =
      let next = at_depth (d + 1) in
      let object_walk = subst Within (at_depth-within d (object ms) p k h) w in
      let loop =
        right_of (record { node = object ms; pointer = p; keyword = k } ∷ [], none)
          (walk_members text analyze max_depth next ms p (entries ms)) object_walk in
      let visit =
        child_of next name value p path (positions_of text analyze max_depth name value ms) q
          (member_of next ms p (name, value) (entries ms) m loop) in
      subst (λ r. Within (visit_child text analyze max_depth next name p r)) e visit

  Reached-Within :
      (node : Json) (p : String) (k : Option String) (d : ℕ)
      → Within (at_depth 0 schema "" none)
      → Reached text analyze max_depth schema node p k d
      → Within (at_depth d node p k) × (d ≤ max_depth)
  Reached-Within node p k d whole start = (whole, omega arith)
  Reached-Within node p k d whole
        (below {ms} {p = p'} {k = k'} {d = d'} {name} {value} {child} {path} {suffix} r m q e) =
      let (w, h) = Reached-Within (object ms) p' k' d' whole r in
      let inner = below-Within ms p' k' d' name value child path suffix w h m q e in
      (inner, allowed (d' + 1) child (str_append p' suffix) (some name) (omega (arith, h)) inner)

  Within-visited :
      (descend : Json → String → Option String → Walked) (node : Json) (p : String)
      (k : Option String)
      → is_schema node ≡ true
      → Within (visit_node text analyze max_depth descend node p k)
      → Memᴰ (record { node = node; pointer = p; keyword = k }) all
  unfolding visit_node
  Within-visited descend (boolean b) p k h w = w.kept _ (Memᴰ.head refl)
  Within-visited descend (object ms) p k h w = w.kept _ (Memᴰ.head refl)
  Within-visited descend null p k h w = absurd (false≢true h)
  Within-visited descend (number n) p k h w = absurd (false≢true h)
  Within-visited descend (string s) p k h w = absurd (false≢true h)
  Within-visited descend (array xs) p k h w = absurd (false≢true h)

module _ (text : ℕ → String) (analyze : Analyzer) (max_depth : ℕ) (schema : Json) where
  whole :
      (walk_schema text analyze max_depth schema).1 ≡ none
      → Within text analyze max_depth schema (walk_schema text analyze max_depth schema).0 (
          at_depth text analyze max_depth schema
            (walk_schema text analyze max_depth schema).0
            0
            schema
            ""
            none)
  unfolding walk_schema
  whole q =
      subst
        (λ f.
          Within text analyze max_depth schema (walk_schema text analyze max_depth schema).0
            (step text analyze max_depth f 0 schema "" none))
        {x = suc (suc max_depth)} (omega arith) (record { quiet = q; kept = λ v m. m })

  -- A walk that throws nothing visits each schema object and boolean that the keywords' positions lead
  -- to from the root, with its pointer and the keyword that claims it, and none of them is nested
  -- deeper than the bound.
  pub walk_schema_complete :
      (node : Json) (p : String) (k : Option String) (d : ℕ)
      → (walk_schema text analyze max_depth schema).1 ≡ none
      → Reached text analyze max_depth schema node p k d
      → is_schema node ≡ true
      → Memᴰ
          (record { node = node; pointer = p; keyword = k })
          (walk_schema text analyze max_depth schema).0
        × (d ≤ max_depth)
  walk_schema_complete node p k d q r h =
      let all = (walk_schema text analyze max_depth schema).0 in
      let (w, b) = Reached-Within text analyze max_depth schema all node p k d (whole q) r in
      (
        Within-visited text analyze max_depth schema all
            (at_depth text analyze max_depth schema all (d + 1)) node p k h
            (subst (Within text analyze max_depth schema all)
              (at_depth-within text analyze max_depth schema all d node p k b) w),
        b,
      )
