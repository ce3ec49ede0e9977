-- ===== src/Keywords/Yields/Object.antt =====
-- packages/core/src/keywords/applicator.ts: the verdict of `properties`.
use json_schema_engine.Base.{
  ◌≡◌, sym, Bool, true, false, ◌&&◌, not, List, [], ◌∷◌, String, arith, any, all, ok,
}
use mathlib.Core.Path.{subst}
use json_schema_engine.Json.{Json, object, Members, entries, lookup, is_some}
use json_schema_engine.Cursor.{Cursor, value, Segment, key, child_cursor}
use json_schema_engine.Engine.State.{EvalState, names}
use json_schema_engine.Engine.Program.{Program, Environment, ◌>>=◌}
use json_schema_engine.Engine.Context.{Context, Application}
use json_schema_engine.Engine.Apply.{run}
use json_schema_engine.Keywords.Schema.{is_false, when_present, on_object, described}
use json_schema_engine.Keywords.InPlace.{Sweep, no_names}
use json_schema_engine.Keywords.Object.{close_sweep, properties, sweep_properties}
use json_schema_engine.Keywords.Yields.{
  declares, Oracle, Situated, Yields, Yields-apply, Yields-child, Yields-if, Yields-when_present,
  members_claimed,
}
use json_schema_engine.Keywords.Yields.Sweep.{no_name-snoc, Rest, close-Rest}

module _ {env : Environment} {self : Application} {x : Context} {origin : EvalState}
    {verdicts : List Segment → Json → Bool} (o : Oracle env self x origin verdicts)
    (c : Cursor) where
  module _ (instance : List (String × Json)) where
    -- A member of `properties` that says nothing, or whose schema accepts the value of its name.
    abbrev pub property_accepts : String × Json → Bool
    property_accepts (name, schema) =
        when_present (lookup name instance) true
          (λ v. not (is_false schema) && verdicts (key "properties" ∷ key name ∷ []) v)

    abbrev pub property_forbidden : String × Json → Bool
    property_forbidden (name, schema) = is_some (lookup name instance) && is_false schema

    sweep_properties-Yields :
        (k : Sweep → Program Bool) (b : Bool) (r : Bool × Bool) (spec : List (String × Json))
        (w : Sweep)
        → members_claimed o "properties" spec ≡ true
        → Rest o c k b r w.passes w.rejected
            (all property_accepts spec)
            (any property_forbidden spec)
        → Yields o (sweep_properties c instance spec w >>= k) b r
    unfolding sweep_properties Rest
    sweep_properties-Yields k b r [] w own h = h w (ground arith) (ground arith)
    sweep_properties-Yields k b r ((name, schema) ∷ spec) w own h =
        Yields-when_present o (lookup name instance) _ _ k b r
          (λ absent.
            sweep_properties-Yields k b r spec w (ground (arith, own))
              (λ w' e f. h w' (ground (arith, absent, e)) (ground (arith, absent, f))))
          (λ v present.
            Yields-if o (is_false schema) _ _ k b r
              (λ refused. sweep_properties-Yields k b r spec _ (ground (arith, own)) (λ w' e f.
                h w' (ground (arith, present, refused, e, f, no_name-snoc w.rejected name))
                  (ground (arith, present, refused, f, no_name-snoc w.rejected name))))
              (λ applied. Yields-child o c _ v _ b r (λ n.
                Yields-apply o _ (child_cursor n c (key name) v) _ b r (ground (arith, own)) (
                  sweep_properties-Yields k b r spec _ (ground (arith, own)) (λ w' e f.
                    h w' (ground (arith, present, applied, e))
                      (ground (arith, present, applied, f)))))))

  -- Where an oracle answers for each schema of the keyword, and the registry lists the keyword as one
  -- that produces data, `properties` accepts an object exactly when each member of the keyword whose name the object has
  -- holds a schema that is not `false` and accepts the value of that name; it reports exactly when
  -- the object has a name whose schema is `false`.
  pub properties_verdict :
      (instance spec ms : Members)
      → value c ≡ object instance
      → declares env x ≡ true
      → members_claimed o "properties" (entries spec) ≡ true
      → (s : EvalState) → Situated origin s
      → (run env self x (properties.evaluate (object spec) c ms) false s).0
        ≡ ok (
          all (property_accepts (entries instance)) (entries spec),
          any (property_forbidden (entries instance)) (entries spec),
        )
  unfolding properties
  properties_verdict instance spec ms at declared own =
      subst
        (λ j.
          Yields o
            (on_object j (λ l.
              sweep_properties c l (entries spec) no_names
              >>= close_sweep (λ q. described "forbidden" (names q ∷ []))))
            false
            (
              all (property_accepts (entries instance)) (entries spec),
              any (property_forbidden (entries instance)) (entries spec),
            ))
        (sym at)
        (sweep_properties-Yields (entries instance) _ false _ (entries spec) no_names own (
          close-Rest o c (λ q. described "forbidden" (names q ∷ []))
            (all (property_accepts (entries instance)) (entries spec))
            (any (property_forbidden (entries instance)) (entries spec)) declared))
