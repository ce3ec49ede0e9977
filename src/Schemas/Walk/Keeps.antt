-- ===== src/Schemas/Walk/Keeps.antt =====
-- packages/core/src/registry.ts: a property of the staging that each step of a walk keeps is kept by
-- the walk.
use json_schema_engine.Base.{
  ℕ, zero, suc, ◌+◌, ltb, ◌≡◌, sym, ap, subst, ◌∙◌, Bool, true, false, ◌&&◌, not, Option, none,
  some, List, [], ◌∷◌, String, str_eq, if_holds,
}
use json_schema_engine.Json.{Json, boolean, object, Members, entries, lookup}
use json_schema_engine.Cursor.{Segment}
use json_schema_engine.Dialects.{or_default}
use json_schema_engine.Dialects.Identifiers.{IdentifierFacts}
use json_schema_engine.Engine.Program.{DialectKeyword}
use json_schema_engine.Schemas.Fallible.{
  Fallible, returns, throws, >>=-eq-returns, throw_if, max_depth_exceeded, not-throws,
  returns_injective,
}
use json_schema_engine.Schemas.State.{
  Node, StaticFacts, Setting, Dialects, extract, StagedResource, Staging, Indexes,
}
use json_schema_engine.Schemas.Stage.{check_base_id, resource_dialect, stage_resource, stage_anchor}
use json_schema_engine.Schemas.Uri.{is_empty, resolved_resource}
use json_schema_engine.Schemas.Walk.{
  Place, location_text, hop, place_below, screened, claim_anchors, claim_dynamic, claim_recursive,
  claim, add_pending, enter_resource, entered, add_references, record_facts, follow_path,
  walk_positions, walk_analyzed, walk_found, walk_value, entered_by, walk_facts, walk_keyword,
  walk_keywords, walk_object, walk_node, walk,
}

-- The property holds of what is returned, if anything is.
abbrev pub Keeps : (Staging → Type 0) → Fallible Staging → Type 0
Keeps P out = (s : Staging) → out ≡ returns s → P s

Keeps-returns : (P : Staging → Type 0) (s : Staging) → P s → Keeps P (returns s)
Keeps-returns P s h t e = subst P (cc e) h

-- The changes that a walk makes: resources claimed in the document's name, anchors and flags on
-- them, and the other sets of a staging.
pub record IsKept (i : Indexes) (document_uri : String) (P : Staging → Type 0) : Type 0 where
  pub claimed :
      (uri : String) (res : StagedResource) (stage : Staging)
      → res.location.document_uri ≡ document_uri
      → P stage
      → Keeps P (stage_resource i uri res stage)
  pub anchored :
      (uri name : String) (node : Node) (pointer : String) (dynamic : Bool) (stage : Staging)
      → P stage
      → Keeps P (stage_anchor uri name node pointer dynamic stage)
  pub marked :
      (at : Place) (flag : Bool) (stage : Staging) → P stage → P (claim_recursive at flag stage)
  pub noted :
      (stage : Staging) (produced consumed producers pending : List String)
      → P stage
      → P (record stage {
        produced = produced;
        consumed = consumed;
        coverage_producers = producers;
        pending = pending;
      })

module _ (i : Indexes) (document_uri : String) (P : Staging → Type 0)
    (kept : IsKept i document_uri P) where
  claim_anchors-Keeps :
      (node : Node) (at : Place) (names : List String) (stage : Staging)
      → P stage
      → Keeps P (claim_anchors node at names stage)
  unfolding claim_anchors
  claim_anchors-Keeps node at [] stage h s e = Keeps-returns P stage h s e
  claim_anchors-Keeps node at (name ∷ rest) stage h s e =
      let (t, a, b) =
        >>=-eq-returns (stage_anchor at.base_uri name node at.pointer false stage) _ e in
      claim_anchors-Keeps node at rest t
        (kept.anchored at.base_uri name node at.pointer false stage h t a) s b

  claim_dynamic-Keeps :
      (node : Node) (at : Place) (name : Option String) (stage : Staging)
      → P stage
      → Keeps P (claim_dynamic node at name stage)
  claim_dynamic-Keeps node at none stage h = Keeps-returns P stage h
  claim_dynamic-Keeps node at (some name) stage h =
      kept.anchored at.base_uri name node at.pointer true stage h

  claim-Keeps :
      (node : Node) (at : Place) (ids : IdentifierFacts) (stage : Staging)
      → P stage
      → Keeps P (claim node at ids stage)
  unfolding claim
  claim-Keeps node at ids stage h s e =
      let (t, a, b) =
        >>=-eq-returns (claim_anchors node at (or_default ids.anchors []) stage) _ e in
      let (u, c, d) = >>=-eq-returns (claim_dynamic node at ids.dynamic_anchor t) _ b in
      subst P (cc d) (
        kept.marked at ids.recursive_anchor u (
          claim_dynamic-Keeps node at ids.dynamic_anchor t
            (claim_anchors-Keeps node at (or_default ids.anchors []) stage h t a) u c))

  enter_resource-Keeps :
      (setting : Setting) (dialects : Dialects) (node : Node) (ms : Members) (at : Place)
      (base_id : String) (stage : Staging)
      → at.document_uri ≡ document_uri
      → P stage
      → (ids : IdentifierFacts) (at' : Place) (s : Staging)
      → enter_resource setting dialects i node ms at base_id stage ≡ returns (ids, at', s)
      → (at'.document_uri ≡ document_uri) × P s
  unfolding enter_resource
  enter_resource-Keeps setting dialects node ms at base_id stage w h ids at' s e =
      let (u, a, b) = >>=-eq-returns (check_base_id base_id (location_text at)) _ e in
      let (base, c, d) =
        >>=-eq-returns (resolved_resource setting.parser base_id at.base_uri) _ b in
      let (dialect, p, q) =
        >>=-eq-returns (resource_dialect setting.parser dialects node.json base at.dialect) _ d in
      let (t, x, y) = >>=-eq-returns (stage_resource i base _ stage) _ q in
      let same = returns_injective y in
      (
        sym (ap (λ o. o.1.document_uri) same) ∙ w,
        subst P (ap (λ o. o.2) same) (kept.claimed base _ stage w h t x),
      )

  module _ (ids : IdentifierFacts) (at : Place) (stage : Staging)
      (w : at.document_uri ≡ document_uri) (h : P stage) where
    outside :
        (ids' : IdentifierFacts) (at' : Place) (s : Staging)
        → ◌≡◌ {A = Fallible (IdentifierFacts × Place × Staging)}
            (returns (ids, at, stage))
            (returns (ids', at', s))
        → (at'.document_uri ≡ document_uri) × P s
    outside ids' at' s e =
        let same = returns_injective e in
        (sym (ap (λ o. o.1.document_uri) same) ∙ w, subst P (ap (λ o. o.2) same) h)

    entered_by-Keeps :
        (setting : Setting) (dialects : Dialects) (node : Node) (ms : Members) (o : Option String)
        (ids' : IdentifierFacts) (at' : Place) (s : Staging)
        → entered_by setting dialects i o node ms at ids stage ≡ returns (ids', at', s)
        → (at'.document_uri ≡ document_uri) × P s
    unfolding entered_by
    entered_by-Keeps setting dialects node ms none ids' at' s = outside ids' at' s
    entered_by-Keeps setting dialects node ms (some base_id) ids' at' s =
        if_holds
          (λ (out : Fallible (IdentifierFacts × Place × Staging)).
            out ≡ returns (ids', at', s) → (at'.document_uri ≡ document_uri) × P s)
          (is_empty at.pointer) (outside ids' at' s)
          (enter_resource-Keeps setting dialects node ms at base_id stage w h ids' at' s)

  add_pending-kept : (r : Fallible String) (stage : Staging) → P stage → P (add_pending r stage)
  unfolding add_pending
  add_pending-kept (returns resource) stage h =
      kept.noted stage stage.produced stage.consumed stage.coverage_producers _ h
  add_pending-kept (throws e) stage h = h

  add_references-kept :
      (setting : Setting) (dialects : Dialects) (base : String) (references : List String)
      (stage : Staging)
      → P stage
      → P (add_references setting dialects i base references stage)
  unfolding add_references
  add_references-kept setting dialects base [] stage h = h
  add_references-kept setting dialects base (ref ∷ rest) stage h =
      add_references-kept setting dialects base rest _
        (add_pending-kept (resolved_resource setting.parser ref base) stage h)

  module _ (setting : Setting) (dialects : Dialects)
      (descend : Option Node → Place → Staging → Fallible Staging)
      (descend-Keeps : (target : Option Node) (at : Place) (stage : Staging)
        → at.document_uri ≡ document_uri
        → P stage
        → Keeps P (descend target at stage)) where
    walk_positions-Keeps :
        (value : Node) (name : String) (at : Place) (paths : List (List Segment)) (stage : Staging)
        → at.document_uri ≡ document_uri
        → P stage
        → Keeps P (walk_positions setting dialects i descend value name at paths stage)
    unfolding walk_positions
    walk_positions-Keeps value name at [] stage w h s e = Keeps-returns P stage h s e
    walk_positions-Keeps value name at (path ∷ rest) stage w h s e =
        let (reached, a, b) =
          >>=-eq-returns (follow_path setting dialects i path (some value) (hop name)) _ e in
        let (t, c, d) =
          >>=-eq-returns (descend reached.0 (place_below setting dialects i at reached.1) stage) _
            b in
        walk_positions-Keeps value name at rest t w
          (descend-Keeps reached.0 (place_below setting dialects i at reached.1) stage w h t c) s d

    walk_facts-Keeps :
        (value : Node) (name : String) (at : Place) (id : String) (facts : StaticFacts)
        (stage : Staging)
        → at.document_uri ≡ document_uri
        → P stage
        → Keeps P (walk_facts setting dialects i descend value name at id facts stage)
    unfolding walk_facts record_facts
    walk_facts-Keeps value name at id facts stage w h s e =
        let (u, a, b) = >>=-eq-returns (screened setting.screen _ facts.regexes) _ e in
        walk_positions-Keeps value name at facts.subschemas _ w
          (add_references-kept setting dialects at.base_uri facts.references _
            (kept.noted stage _ _ _ stage.pending h))
          s b

    walk_analyzed-Keeps :
        (analysis : Option (Json → Members → Fallible StaticFacts)) (id : String) (node : Node)
        (ms : Members) (at : Place) (entry : String × Json) (stage : Staging)
        → at.document_uri ≡ document_uri
        → P stage
        → Keeps P (walk_analyzed setting dialects i descend analysis id node ms at entry stage)
    unfolding walk_analyzed
    walk_analyzed-Keeps none id node ms at entry stage w h s e = Keeps-returns P stage h s e
    walk_analyzed-Keeps (some analyze) id node ms at (name, value) stage w h s e =
        let (facts, a, b) = >>=-eq-returns (analyze value ms) _ e in
        walk_facts-Keeps _ name at id facts stage w h s b

    walk_found-Keeps :
        (found : Option DialectKeyword) (node : Node) (ms : Members) (at : Place)
        (entry : String × Json) (stage : Staging)
        → at.document_uri ≡ document_uri
        → P stage
        → Keeps P (walk_found setting dialects i descend found node ms at entry stage)
    unfolding walk_found
    walk_found-Keeps none node ms at entry stage w h = Keeps-returns P stage h
    walk_found-Keeps (some k) node ms at entry stage w h =
        walk_analyzed-Keeps (setting.analyze k.behavior) k.behavior.id node ms at entry stage w h

    walk_keyword-Keeps :
        (ref_only : Bool) (node : Node) (ms : Members) (at : Place) (entry : String × Json)
        (stage : Staging)
        → at.document_uri ≡ document_uri
        → P stage
        → Keeps P (walk_keyword setting dialects i descend ref_only node ms at entry stage)
    unfolding walk_keyword
    walk_keyword-Keeps ref_only node ms at entry stage w h =
        if_holds (Keeps P) (ref_only && not (str_eq entry.0 "$ref")) (Keeps-returns P stage h)
          (walk_found-Keeps (lookup entry.0 at.dialect.keywords) node ms at entry stage w h)

    walk_keywords-Keeps :
        (ref_only : Bool) (node : Node) (ms : Members) (at : Place) (members : List (String × Json))
        (stage : Staging)
        → at.document_uri ≡ document_uri
        → P stage
        → Keeps P (walk_keywords setting dialects i descend ref_only node ms at members stage)
    unfolding walk_keywords
    walk_keywords-Keeps ref_only node ms at [] stage w h s e = Keeps-returns P stage h s e
    walk_keywords-Keeps ref_only node ms at (entry ∷ rest) stage w h s e =
        let (t, a, b) =
          >>=-eq-returns (walk_keyword setting dialects i descend ref_only node ms at entry stage) _
            e in
        walk_keywords-Keeps ref_only node ms at rest t w
          (walk_keyword-Keeps ref_only node ms at entry stage w h t a) s b

    walk_object-Keeps :
        (node : Node) (ms : Members) (at : Place) (stage : Staging)
        → at.document_uri ≡ document_uri
        → P stage
        → Keeps P (walk_object setting dialects i descend node ms at stage)
    unfolding walk_object entered
    walk_object-Keeps node ms at stage w h s e =
        let facts = extract at.dialect.identifiers (entries ms) in
        let (found, a, b) =
          >>=-eq-returns (entered setting dialects i node ms at facts stage) _ e in
        let (w', h') =
          entered_by-Keeps facts at stage w h setting dialects node ms facts.base_id found.0 found.1
            found.2 a in
        let (t, c, d) = >>=-eq-returns (claim node found.1 found.0 found.2) _ b in
        walk_keywords-Keeps _ node ms found.1 (entries ms) t w'
          (claim-Keeps node found.1 found.0 found.2 h' t c) s d

    walk_value-Keeps :
        (v : Json) (node : Node) (at : Place) (stage : Staging)
        → at.document_uri ≡ document_uri
        → P stage
        → Keeps P (walk_value setting dialects i descend v node at stage)
    unfolding walk_value
    walk_value-Keeps (boolean b) node at stage w h s e = Keeps-returns P stage h s e
    walk_value-Keeps (object ms) node at stage w h s e = walk_object-Keeps node ms at stage w h s e
    walk_value-Keeps _ node at stage w h s e = absurd (not-throws e)

    walk_node-Keeps :
        (target : Option Node) (at : Place) (stage : Staging)
        → at.document_uri ≡ document_uri
        → P stage
        → Keeps P (walk_node setting dialects i descend target at stage)
    unfolding walk_node
    walk_node-Keeps none at stage w h s e = absurd (not-throws e)
    walk_node-Keeps (some node) at stage w h s e = walk_value-Keeps node.json node at stage w h s e

  -- Where the steps keep `P`, a walk that returns keeps it.
  pub walk-Keeps :
      (setting : Setting) (dialects : Dialects) (fuel depth : ℕ) (target : Option Node) (at : Place)
      (stage : Staging)
      → at.document_uri ≡ document_uri
      → P stage
      → Keeps P (walk setting dialects i fuel depth target at stage)
  unfolding walk
  walk-Keeps setting dialects zero depth target at stage w h s e = absurd (not-throws e)
  walk-Keeps setting dialects (suc fuel) depth target at stage w h s e =
      let (u, a, b) =
        >>=-eq-returns (throw_if (ltb setting.max_depth depth) max_depth_exceeded) _ e in
      walk_node-Keeps setting dialects (walk setting dialects i fuel (depth + 1))
        (walk-Keeps setting dialects fuel (depth + 1)) target at stage w h s b
