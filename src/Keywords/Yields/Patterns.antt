-- ===== src/Keywords/Yields/Patterns.antt =====
-- packages/core/src/keywords/applicator.ts: the verdicts of `patternProperties` and
-- `dependentSchemas`.
use json_schema_engine.Base.{
  ◌≡◌, refl, sym, ◌∙◌, ap, Bool, true, false, ◌&&◌, ◌||◌, not, List, [], ◌∷◌, String, arith,
  Bool-cases, inl, inr, any, all, ok,
}
use mathlib.Core.Path.{subst, ap₂}
use json_schema_engine.Json.{Json, object, Members, entries, lookup, is_some}
use json_schema_engine.Cursor.{Cursor, value, Segment, key, child_cursor}
use json_schema_engine.Engine.State.{EvalState, Description, names}
use json_schema_engine.Engine.Program.{Program, Environment, ◌>>=◌}
use json_schema_engine.Engine.Context.{Context, Application}
use json_schema_engine.Engine.Apply.{run}
use json_schema_engine.Keywords.Schema.{
  is_false, when_present, on_object, described, add_name, member_of,
}
use json_schema_engine.Keywords.InPlace.{
  Sweep, no_names, dependents, reject_names, dependent_schemas,
}
use json_schema_engine.Keywords.Object.{
  close_sweep, sweep_pattern, sweep_patterns, forbidden_patterns, pattern_properties,
}
use json_schema_engine.Keywords.Yields.{
  declares, Oracle, Situated, Yields, Yields-done, Yields-report, Yields-apply, Yields-child,
  Yields-if, Yields-when_present, Yields-compile_regex, Yields-if_then, members_claimed,
}
use json_schema_engine.Keywords.Yields.Sweep.{no_name, no_name-snoc, not-not, Rest, close-Rest}

no_name-member : (n : String) (l : List String) → member_of n l ≡ true → no_name l ≡ false
no_name-member n [] h = absurd (ground (arith, h))
no_name-member n (m ∷ l) h = refl

no_name-add_name : (n : String) (l : List String) → no_name (add_name n l) ≡ false
no_name-add_name n l = elim (Bool-cases (member_of n l)) [
  | inl e ↦ rw e (no_name-member n l e)
  | inr e ↦ rw e (no_name-snoc l n)
]

module _ {env : Environment} {self : Application} {x : Context} {origin : EvalState}
    {verdicts : List Segment → Json → Bool} (o : Oracle env self x origin verdicts)
    (c : Cursor) where
  -- The schema of one pattern against a member.
  abbrev pub pattern_accepts : String → Json → String × Json → Bool
  pattern_accepts pattern schema (name, v) =
      not (o.regex pattern name)
      || not (is_false schema) && verdicts (key "patternProperties" ∷ key pattern ∷ []) v

  abbrev pub pattern_forbidden : String → Json → String × Json → Bool
  pattern_forbidden pattern schema (name, v) = o.regex pattern name && is_false schema

  sweep_pattern-Yields :
      (pattern : String) (schema : Json) (f : Sweep → Program Sweep) (k : Sweep → Program Bool)
      (b : Bool) (r : Bool × Bool) (instance : List (String × Json)) (w : Sweep)
      → o.claimed (key "patternProperties" ∷ key pattern ∷ []) ≡ true
      → ((w' : Sweep)
          → (no_name w'.rejected && w'.passes)
            ≡ (no_name w.rejected && (w.passes && all (pattern_accepts pattern schema) instance))
          → no_name w'.rejected
            ≡ (no_name w.rejected && not (any (pattern_forbidden pattern schema) instance))
          → Yields o (f w' >>= k) b r)
      → Yields o (sweep_pattern c pattern schema (o.regex pattern) instance w >>= f >>= k) b r
  unfolding sweep_pattern
  sweep_pattern-Yields p schema g k b r [] w own h = h w (ground arith) (ground arith)
  sweep_pattern-Yields p schema g k b r ((name, v) ∷ instance) w own h =
      Yields-if_then o (o.regex p name) _ _ g k b r
        (λ hit.
          Yields-if_then o (is_false schema) _ _ g k b r
            (λ refused. sweep_pattern-Yields p schema g k b r instance _ own (λ w' e f.
              h w' (ground (arith, hit, refused, e, f, no_name-add_name name w.rejected))
                (ground (arith, hit, refused, f, no_name-add_name name w.rejected))))
            (λ applied. Yields-child o c _ v _ b r (λ n.
              Yields-apply o _ (child_cursor n c (key name) v) _ b r own (
                sweep_pattern-Yields p schema g k b r instance _ own (λ w' e f.
                  h w' (ground (arith, hit, applied, e)) (ground (arith, hit, applied, f)))))))
        (λ miss.
          sweep_pattern-Yields p schema g k b r instance w own
            (λ w' e f. h w' (ground (arith, miss, e)) (ground (arith, miss, f))))

  module _ (instance : List (String × Json)) where
    abbrev pub patterns_accept : String × Json → Bool
    patterns_accept (pattern, schema) = all (pattern_accepts pattern schema) instance

    abbrev pub patterns_forbid : String × Json → Bool
    patterns_forbid (pattern, schema) = any (pattern_forbidden pattern schema) instance

    sweep_patterns-Yields :
        (k : Sweep → Program Bool) (b : Bool) (r : Bool × Bool) (spec : List (String × Json))
        (w : Sweep)
        → members_claimed o "patternProperties" spec ≡ true
        → all (λ p. o.compilable p.0) spec ≡ true
        → Rest o c k b r w.passes w.rejected (all patterns_accept spec) (any patterns_forbid spec)
        → Yields o (sweep_patterns c instance spec w >>= k) b r
    unfolding sweep_patterns Rest
    sweep_patterns-Yields k b r [] w own good h = h w (ground arith) (ground arith)
    sweep_patterns-Yields k b r ((pattern, schema) ∷ spec) w own good h =
        Yields-compile_regex o pattern _ b r (ground (arith, good)) (
          sweep_pattern-Yields pattern schema (sweep_patterns c instance spec) k b r instance w
            (ground (arith, own))
            (λ w' e f.
              sweep_patterns-Yields k b r spec w' (ground (arith, own)) (ground (arith, good))
                (λ u p q. h u (ground (arith, e, f, p)) (ground (arith, e, f, q)))))

    -- A member of `dependentSchemas` whose name is absent, or whose schema accepts the whole object.
    abbrev pub dependent_accepts : String × Json → Bool
    dependent_accepts (name, schema) =
        when_present (lookup name instance) true (λ v.
          not (is_false schema) && verdicts (key "dependentSchemas" ∷ key name ∷ []) (value c))

    abbrev pub dependent_forbidden : String × Json → Bool
    dependent_forbidden (name, schema) = is_some (lookup name instance) && is_false schema

    dependents-Yields :
        (k : Sweep → Program Bool) (b : Bool) (r : Bool × Bool) (spec : List (String × Json))
        (w : Sweep)
        → members_claimed o "dependentSchemas" spec ≡ true
        → Rest o c k b r w.passes w.rejected
            (all dependent_accepts spec)
            (any dependent_forbidden spec)
        → Yields o (dependents c instance spec w >>= k) b r
    unfolding dependents Rest
    dependents-Yields k b r [] w own h = h w (ground arith) (ground arith)
    dependents-Yields k b r ((name, schema) ∷ spec) w own h =
        Yields-when_present o (lookup name instance) _ _ k b r
          (λ absent.
            dependents-Yields k b r spec w (ground (arith, own))
              (λ w' e f. h w' (ground (arith, absent, e)) (ground (arith, absent, f))))
          (λ v present.
            Yields-if o (is_false schema) _ _ k b r
              (λ refused. dependents-Yields k b r spec _ (ground (arith, own)) (λ w' e f.
                h w' (ground (arith, present, refused, e, f, no_name-snoc w.rejected name))
                  (ground (arith, present, refused, f, no_name-snoc w.rejected name))))
              (λ applied. Yields-apply o _ c _ b r (ground (arith, own)) (
                dependents-Yields k b r spec _ (ground (arith, own)) (λ w' e f.
                  h w' (ground (arith, present, applied, e))
                    (ground (arith, present, applied, f))))))

  -- Where an oracle answers for each schema of the keyword, its patterns compile, and the registry
  -- lists the keyword as one that produces data, `patternProperties` accepts an object exactly when each name that a pattern matches has a value
  -- that the pattern's schema, not being `false`, accepts; it reports exactly when a pattern with the
  -- schema `false` matches a name.
  pub pattern_properties_verdict :
      (instance spec ms : Members)
      → value c ≡ object instance
      → declares env x ≡ true
      → members_claimed o "patternProperties" (entries spec) ≡ true
      → all (λ p. o.compilable p.0) (entries spec) ≡ true
      → (s : EvalState) → Situated origin s
      → (run env self x (pattern_properties.evaluate (object spec) c ms) false s).0
        ≡ ok (
          all (patterns_accept (entries instance)) (entries spec),
          any (patterns_forbid (entries instance)) (entries spec),
        )
  unfolding pattern_properties
  pattern_properties_verdict instance spec ms at declared own good =
      let describe : List String → Description = λ l.
        described "forbiddenPatterns" (names (forbidden_patterns (entries spec)) ∷ names l ∷ []) in
      let accepts = all (patterns_accept (entries instance)) (entries spec) in
      let forbids = any (patterns_forbid (entries instance)) (entries spec) in
      subst
        (λ j.
          Yields o
            (on_object j (λ l. sweep_patterns c l (entries spec) no_names >>= close_sweep describe))
            false (accepts, forbids))
        (sym at)
        (sweep_patterns-Yields (entries instance) _ false _ (entries spec) no_names own good
          (close-Rest o c describe accepts forbids declared))

  close_rejected-Yields :
      (l : List String) (valid : Bool)
      → Yields o
          (reject_names "dependentsRejected" l valid)
          false
          (no_name l && valid, not (no_name l))
  close_rejected-Yields [] valid = Yields-done o valid false
  close_rejected-Yields (n ∷ l) valid = Yields-report o _ _ false _ (Yields-done o false true)

  -- Where an oracle answers for each schema of the keyword, `dependentSchemas` accepts an object exactly when each member of the keyword whose name the
  -- object has holds a schema that is not `false` and accepts the object itself; it reports exactly
  -- when the object has a name whose schema is `false`.
  pub dependent_schemas_verdict :
      (instance spec ms : Members)
      → value c ≡ object instance
      → members_claimed o "dependentSchemas" (entries spec) ≡ true
      → (s : EvalState) → Situated origin s
      → (run env self x (dependent_schemas.evaluate (object spec) c ms) false s).0
        ≡ ok (
          all (dependent_accepts (entries instance)) (entries spec),
          any (dependent_forbidden (entries instance)) (entries spec),
        )
  unfolding dependent_schemas Rest
  dependent_schemas_verdict instance spec ms at own =
      let accepts = all (dependent_accepts (entries instance)) (entries spec) in
      let forbids = any (dependent_forbidden (entries instance)) (entries spec) in
      subst
        (λ j.
          Yields o
            (on_object j (λ l. dependents c l (entries spec) no_names >>= λ w.
              reject_names "dependentsRejected" w.rejected w.passes))
            false (accepts, forbids))
        (sym at)
        (dependents-Yields (entries instance) _ false _ (entries spec) no_names own (λ w e f.
          subst (Yields o (reject_names "dependentsRejected" w.rejected w.passes) false)
            (ap₂ (λ p q. (p, not q)) e f ∙ ap (λ q. (accepts, q)) (not-not forbids))
            (close_rejected-Yields w.rejected w.passes)))
