-- ===== src/Output/Units/Listed.antt =====
-- packages/core/src/output.ts: what pruning leaves of the documents.
use json_schema_engine.Base.{
  ◌≡◌, refl, sym, ap, ◌∙◌, ◌||◌, Option, none, some, List, [], ◌∷◌, ◌++◌, map, arith, filter,
  filter-append,
}
use mathlib.Core.List.{map-append}
use mathlib.Core.Path.{ap₂}
use json_schema_engine.Output.Located.{
  NodeFields, RenderNode, node, RenderNodes, no_nodes, and_node, RenderInput, fields_of,
}
use json_schema_engine.Output.Units.{
  UnitFields, OutputUnit, OutputUnits, no_units, and_unit, IrrelevantRendering, is_mark, reports,
  and_some, own_unit, keep_unit, to_unit, to_units, or_bare, render_hierarchical, listed_unit,
  collect, collect_all, render_list,
}

-- The applications of a tree, an application before those nested in it, in evaluation order.
unfoldable mutual
  pub applications : RenderNode → List NodeFields
  applications (node n children) = n ∷ applications_in children

  pub applications_in : RenderNodes → List NodeFields
  applications_in no_nodes = []
  applications_in (and_node n ns) = applications n ++ applications_in ns

module _ {A : Type 0} (input : RenderInput A) (irrelevant : IrrelevantRendering) where
  abbrev listed : List NodeFields → List (UnitFields A)
  listed ns = filter (λ u. is_mark irrelevant || reports u) (map (own_unit input irrelevant) ns)

  abbrev collect_kept : Option (OutputUnit A) → List (UnitFields A)
  collect_kept none = []
  collect_kept (some u) = collect input irrelevant u

  collect-keep_unit :
      (u : UnitFields A) (us : OutputUnits A)
      → collect_kept (keep_unit input irrelevant u us)
        ≡ listed_unit input irrelevant u ++ collect_all input irrelevant us
  unfolding keep_unit collect
  collect-keep_unit u no_units = ground arith
  collect-keep_unit u (and_unit v us) = ground arith

  collect-and_some :
      (o : Option (OutputUnit A)) (us : OutputUnits A)
      → collect_all input irrelevant (and_some o us)
        ≡ collect_kept o ++ collect_all input irrelevant us
  unfolding collect
  collect-and_some none us = refl
  collect-and_some (some u) us = refl

  listed-append : (xs ys : List NodeFields) → listed (xs ++ ys) ≡ listed xs ++ listed ys
  listed-append xs ys =
      ap (filter (λ u. is_mark irrelevant || reports u))
        (map-append (own_unit input irrelevant) xs ys)
      ∙ filter-append (λ u. is_mark irrelevant || reports u) _ _

  listed_first :
      (n : NodeFields) (ns : List NodeFields)
      → listed (n ∷ ns) ≡ listed_unit input irrelevant (own_unit input irrelevant n) ++ listed ns
  listed_first n ns = ground arith

  mutual
    unfolding to_unit applications collect

    collect-to_unit :
        (n : RenderNode) → collect_kept (to_unit input irrelevant n) ≡ listed (applications n)
    collect-to_unit (node n children) =
        collect-keep_unit _ _
        ∙ (ap (λ us. listed_unit input irrelevant (own_unit input irrelevant n) ++ us)
              (collect-to_units children)
            ∙ sym (listed_first n (applications_in children)))

    collect-to_units :
        (ns : RenderNodes)
        → collect_all input irrelevant (to_units input irrelevant ns) ≡ listed (applications_in ns)
    collect-to_units no_nodes = refl
    collect-to_units (and_node n ns) =
        collect-and_some (to_unit input irrelevant n) (to_units input irrelevant ns)
        ∙ (ap₂ (λ xs ys. xs ++ ys) (collect-to_unit n) (collect-to_units ns)
            ∙ sym (listed-append (applications n) (applications_in ns)))

  -- A root that is left out has nothing to list.
  collect-or_bare :
      (u : UnitFields A) (us : OutputUnits A) (n : NodeFields)
      → collect input irrelevant (or_bare input irrelevant (keep_unit input irrelevant u us) n)
        ≡ collect_kept (keep_unit input irrelevant u us)
  unfolding keep_unit collect
  collect-or_bare u no_units n = ground arith
  collect-or_bare u (and_unit v us) n = ground arith

  collect-root :
      (n : RenderNode)
      → collect input irrelevant
          (or_bare input irrelevant (to_unit input irrelevant n) (fields_of n))
        ≡ collect_kept (to_unit input irrelevant n)
  unfolding to_unit
  collect-root (node n children) = collect-or_bare _ _ n

  -- The list document holds, for every schema application of the tree, an application before those
  -- nested in it and in evaluation order, the application's own unit: all of them at the verbose
  -- level, and those that report an error or an annotation at the relevant level. So what the
  -- relevant level prunes is never a unit with a record, whatever it is nested in.
  pub render_list-applications :
      (render_list input irrelevant).details
      ≡ filter
          (λ u. is_mark irrelevant || reports u)
          (map (own_unit input irrelevant) (applications input.root))
  unfolding render_list render_hierarchical
  render_list-applications = collect-root input.root ∙ collect-to_unit input.root
