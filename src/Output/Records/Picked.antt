-- ===== src/Output/Records/Picked.antt =====
-- packages/core/src/records.ts and output.ts: what a node of the located tree picks.
use mathlib.Core.Path.{ap₂}
use json_schema_engine.Base.{
  ℕ, ◌+◌, ◌≡◌, refl, sym, ap, ◌∙◌, Bool, true, false, some, List, [], ◌∷◌, ◌++◌, map, filter,
  length, get_elem?, arith, String, if◌then◌else◌, append-nil, append_assoc, length-append,
  Bool-cases, inl, inr,
}
use json_schema_engine.Engine.State.{
  PathNode, same_path, path_node, no_path, ErrorRecord, AnnotationRecord, TraceNode, trace_node,
}
use json_schema_engine.Output.Located.{pick, fields_of}
use json_schema_engine.Output.Records.{
  Positions, add_position, index_from, index_by_path, positions_at, RecordSets, to_render_node,
  to_node, located,
}

same_path_agree : (r q p : PathNode) → same_path r q ≡ true → same_path r p ≡ same_path q p
same_path_agree no_path no_path p h = refl
same_path_agree no_path (path_node j b t) p h = ground (arith, h)
same_path_agree (path_node i a s) no_path p h = ground (arith, h)
same_path_agree (path_node i a s) (path_node j b t) no_path h = refl
same_path_agree (path_node i a s) (path_node j b t) (path_node k c u) h = ground (arith, h)

same_path_differ :
    (r q p : PathNode) → same_path r q ≡ false → same_path r p ≡ true → same_path q p ≡ false
same_path_differ no_path no_path p h e = ground (arith, h)
same_path_differ no_path (path_node j b t) no_path h e = refl
same_path_differ no_path (path_node j b t) (path_node k c u) h e = ground (arith, e)
same_path_differ (path_node i a s) q no_path h e = ground (arith, e)
same_path_differ (path_node i a s) no_path (path_node k c u) h e = refl
same_path_differ (path_node i a s) (path_node j b t) (path_node k c u) h e = ground (arith, h, e)

abbrev one_if : Bool → ℕ → List ℕ
one_if b i = if b then i ∷ [] else []

one_if_first : (b : Bool) (i : ℕ) (is : List ℕ) → one_if b i ++ is ≡ (if b then i ∷ is else is)
one_if_first true i is = refl
one_if_first false i is = refl

positions-add_position :
    (p q : PathNode) (i : ℕ) (at : Positions)
    → positions_at p (add_position q i at) ≡ positions_at p at ++ one_if (same_path q p) i
unfolding positions_at add_position
positions-add_position p q i [] = refl
positions-add_position p q i ((r, is) ∷ at) = elim (Bool-cases (same_path r q)) [
  | inl h ↦ rw (h, same_path_agree r q p h) (ground (arith, append-nil (positions_at p at)))
  | inr h ↦ elim (Bool-cases (same_path r p)) [
    | inl e ↦ rw (h, e, same_path_differ r q p h e) (sym (append-nil is))
    | inr e ↦ rw (h, e) (positions-add_position p q i at)
  ]
]

-- The positions from `i` on at which a path stands in a list.
abbrev places : PathNode → List PathNode → ℕ → List ℕ
places p [] i = []
places p (q ∷ paths) i =
    let later = places p paths (i + 1) in if same_path q p then i ∷ later else later

-- Where the records of a path stand.
places-index_from :
    (p : PathNode) (paths : List PathNode) (i : ℕ) (at : Positions)
    → positions_at p (index_from paths i at) ≡ positions_at p at ++ places p paths i
unfolding index_from
places-index_from p [] i at = sym (append-nil (positions_at p at))
places-index_from p (q ∷ paths) i at =
    places-index_from p paths (i + 1) (add_position q i at)
    ∙ (ap (λ is. is ++ places p paths (i + 1)) (positions-add_position p q i at)
        ∙ (append_assoc (positions_at p at) (one_if (same_path q p) i) (places p paths (i + 1))
            ∙ ap (λ is. positions_at p at ++ is)
                (one_if_first (same_path q p) i (places p paths (i + 1)))))

places-index_by_path :
    (p : PathNode) (paths : List PathNode) → positions_at p (index_by_path paths) ≡ places p paths 0
unfolding index_by_path positions_at
places-index_by_path p paths = places-index_from p paths 0 []

get_elem?-length :
    {T : Type 0} (us : List T) (u : T) (vs : List T) → get_elem? (us ++ u ∷ vs) (length us) ≡ some u
get_elem?-length [] u vs = refl
get_elem?-length (v ∷ us) u vs = get_elem?-length us u vs

pick_found :
    {T : Type 0} (i : ℕ) (is : List ℕ) (us : List T) (u : T)
    → get_elem? us i ≡ some u
    → pick (i ∷ is) us ≡ u ∷ pick is us
unfolding pick
pick_found i is us u h = rw (h, pick) refl

-- The records of a path, picked from what all the records were rendered to.
pick-places :
    {R T : Type 0} (path_of : R → PathNode) (f : R → T) (p : PathNode) (us : List T) (rs : List R)
    → pick (places p (map path_of rs) (length us)) (us ++ map f rs)
      ≡ map f (filter (λ r. same_path (path_of r) p) rs)
unfolding pick
pick-places path_of f p us [] = refl
pick-places path_of f p us (r ∷ rs) =
    let later =
      (ap₂ (λ n vs. pick (places p (map path_of rs) n) vs) (sym (length-append us (f r ∷ [])))
          (sym (append_assoc us (f r ∷ []) (map f rs)))
        ∙ pick-places path_of f p (us ++ f r ∷ []) rs) in
    elim (Bool-cases (same_path (path_of r) p)) [
      | inl h ↦ rw h (
          pick_found (length us) _ _ (f r) (get_elem?-length us (f r) (map f rs))
          ∙ ap (λ xs. f r ∷ xs) later)
      | inr h ↦ rw h later
    ]

abbrev pub path_of : TraceNode → PathNode
path_of (trace_node r path cursor valid keywords children) = path

abbrev pub at_node {ℓ} : {R : Type ℓ} → (R → PathNode) → PathNode → List R → List R
at_node path p rs = filter (λ r. same_path (path r) p) rs

module _ {E N : Type 0} (text : ℕ → String) (f : ErrorRecord → E) (g : AnnotationRecord → N) where
  picked :
      {R T : Type 0} (path : R → PathNode) (h : R → T) (p : PathNode) (rs : List R)
      → pick (positions_at p (index_by_path (map path rs))) (map h rs) ≡ map h (at_node path p rs)
  picked path h p rs = rw (places-index_by_path p (map path rs)) (pick-places path h p [] rs)

  -- The index lists of a node of the located tree pick, of the units that the records were rendered
  -- to one by one, exactly those of the records made at that application, in their order: errors,
  -- dropped errors, annotations and dropped annotations alike. Applications are told apart by the
  -- identity of their path nodes.
  pub to_render_node-picks :
      (t : TraceNode) (records : RecordSets)
      → (pick (fields_of (to_render_node text t records)).errors (map f records.errors)
          ≡ map f (at_node (λ r. r.path) (path_of t) records.errors))
        × (pick
              (fields_of (to_render_node text t records)).dropped_errors
              (map f records.dropped_errors)
            ≡ map f (at_node (λ r. r.path) (path_of t) records.dropped_errors))
        × (pick (fields_of (to_render_node text t records)).annotations (map g records.annotations)
            ≡ map g (at_node (λ r. r.path) (path_of t) records.annotations))
        × (pick
              (fields_of (to_render_node text t records)).dropped_annotations
              (map g records.dropped_annotations)
            ≡ map g (at_node (λ r. r.path) (path_of t) records.dropped_annotations))
  unfolding to_render_node to_node located
  to_render_node-picks (trace_node r path cursor valid keywords children) records = (
    picked (λ x. x.path) f path records.errors,
    picked (λ x. x.path) f path records.dropped_errors,
    picked (λ x. x.path) g path records.annotations,
    picked (λ x. x.path) g path records.dropped_annotations,
  )
