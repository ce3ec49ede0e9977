-- ===== src/Output/Detailed/Whole.antt =====
-- packages/core/src/output.ts: the keyword-level tree holds every application and every keyword
-- evaluation once, however the applications are grouped by keyword.
use json_schema_engine.Base.{ℕ, ◌+◌, ◌≡◌, refl, String, Option, some, List, [], ◌∷◌, ◌++◌, arith}
use json_schema_engine.Engine.State.{KeywordTrace}
use json_schema_engine.Output.Located.{
  NodeFields, RenderNode, node, RenderNodes, no_nodes, and_node, RenderInput,
}
use json_schema_engine.Output.Detailed.{
  DetailedFields, DetailedUnit, detailed_unit, DetailedUnits, no_detailed, and_detailed, Level,
  Groups, add_child, children_into, applied_by, without_group, strays, nested, application_fields,
  keyword_fields, keyword_units, build, build_children, build_draft03_tree,
}

-- A sum over the groups.
module _ {U : Type 0} (w : U → ℕ) where
  abbrev weigh_list : List U → ℕ
  weigh_list [] = 0
  weigh_list (u ∷ us) = w u + weigh_list us

  abbrev weigh_groups : Groups U → ℕ
  weigh_groups [] = 0
  weigh_groups ((k, us) ∷ groups) = weigh_list us + weigh_groups groups

  abbrev weigh_children : List (Option String × U) → ℕ
  weigh_children [] = 0
  weigh_children ((k, u) ∷ children) = w u + weigh_children children

  weigh_list-append : (us vs : List U) → weigh_list (us ++ vs) ≡ weigh_list us + weigh_list vs
  weigh_list-append [] vs = omega arith
  weigh_list-append (u ∷ us) vs = omega (arith, weigh_list-append us vs)

  weigh-add_child :
      (k : Option String) (u : U) (groups : Groups U)
      → weigh_groups (add_child k u groups) ≡ w u + weigh_groups groups
  unfolding add_child
  weigh-add_child k u [] = omega arith
  weigh-add_child k u ((j, us) ∷ groups) =
      ground (arith, weigh_list-append us (u ∷ []), weigh-add_child k u groups)

  weigh-children_into :
      (children : List (Option String × U)) (groups : Groups U)
      → weigh_groups (children_into children groups) ≡ weigh_children children + weigh_groups groups
  unfolding children_into
  weigh-children_into [] groups = omega arith
  weigh-children_into ((k, u) ∷ children) groups =
      omega (arith, weigh-children_into children (add_child k u groups), weigh-add_child k u groups)

  weigh-without_group :
      (k : Option String) (groups : Groups U)
      → weigh_list (applied_by k groups) + weigh_groups (without_group k groups)
        ≡ weigh_groups groups
  unfolding applied_by without_group
  weigh-without_group k [] = refl
  weigh-without_group k ((j, us) ∷ groups) = ground (arith, weigh-without_group k groups)

  weigh-strays : (groups : Groups U) → weigh_list (strays groups) ≡ weigh_groups groups
  unfolding strays
  weigh-strays [] = refl
  weigh-strays ((k, us) ∷ groups) =
      omega (arith, weigh_list-append us (strays groups), weigh-strays groups)

module _ {A : Type 0} (w : DetailedFields A → ℕ) where
  unfoldable mutual
    pub weigh : DetailedUnit A → ℕ
    weigh (detailed_unit f us) = w f + weigh_all us

    pub weigh_all : DetailedUnits A → ℕ
    weigh_all no_detailed = 0
    weigh_all (and_detailed u us) = weigh u + weigh_all us

  weigh_all-nested : (us : List (DetailedUnit A)) → weigh_all (nested us) ≡ weigh_list weigh us
  unfolding weigh
  weigh_all-nested [] = refl
  weigh_all-nested (u ∷ us) = omega (arith, weigh_all-nested us)

  module _ (input : RenderInput A) (level : Level) where
    abbrev pub weigh_keywords : NodeFields → List KeywordTrace → ℕ
    weigh_keywords n [] = 0
    weigh_keywords n (k ∷ ks) = w (keyword_fields input level n k) + weigh_keywords n ks

    -- The units that an evaluation tree is due: one of each application, one of each of its keyword
    -- evaluations.
    unfoldable mutual
      pub weigh_due : RenderNode → ℕ
      weigh_due (node n children) =
          w (application_fields input level n)
          + weigh_keywords n n.keywords
          + weigh_due_all children

      pub weigh_due_all : RenderNodes → ℕ
      weigh_due_all no_nodes = 0
      weigh_due_all (and_node n ns) = weigh_due n + weigh_due_all ns

    weigh-keyword_units :
        (n : NodeFields) (ks : List KeywordTrace) (groups : Groups (DetailedUnit A))
        → weigh_list weigh (keyword_units input level n ks groups)
          ≡ weigh_keywords n ks + weigh_groups weigh groups
    unfolding keyword_units weigh
    weigh-keyword_units n [] groups = omega (arith, weigh-strays weigh groups)
    weigh-keyword_units n (k ∷ ks) groups = omega (
      arith,
      weigh_all-nested (applied_by (some k.name) groups),
      weigh-without_group weigh (some k.name) groups,
      weigh-keyword_units n ks (without_group (some k.name) groups),
    )

    weigh-nested :
        (n : NodeFields) (children : List (Option String × DetailedUnit A))
        → weigh_all (nested (keyword_units input level n n.keywords (children_into children [])))
          ≡ weigh_keywords n n.keywords + weigh_children weigh children
    weigh-nested n children = omega (
      arith,
      weigh_all-nested (keyword_units input level n n.keywords (children_into children [])),
      weigh-keyword_units n n.keywords (children_into children []),
      weigh-children_into weigh children [],
    )

    mutual
      unfolding build weigh weigh_due

      weigh-build : (n : RenderNode) → weigh (build input level n) ≡ weigh_due n
      weigh-build (node n children) = omega (
        arith,
        weigh-nested n (build_children input level n.evaluation_path children),
        weigh-build_children n.evaluation_path children,
      )

      weigh-build_children :
          (path : String) (ns : RenderNodes)
          → weigh_children weigh (build_children input level path ns) ≡ weigh_due_all ns
      weigh-build_children path no_nodes = refl
      weigh-build_children path (and_node n ns) =
          omega (arith, weigh-build n, weigh-build_children path ns)

    -- For every weighing of units, the keyword-level tree weighs as much, at either level, as one
    -- unit for each schema application of the evaluation tree and one for each of its keyword
    -- evaluations. So, counting the units that are equal to a given one, the document holds exactly
    -- these units, each as often as it is due: the grouping of applications by keyword loses none and
    -- doubles none, also where a keyword's name comes twice or an application has no keyword.
    pub build_draft03_tree-whole : weigh (build_draft03_tree input level) ≡ weigh_due input.root
    unfolding build_draft03_tree
    build_draft03_tree-whole = weigh-build input.root
