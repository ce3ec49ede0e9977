-- ===== src/Keywords/Yields/Names.antt =====
-- packages/core/src/keywords/applicator.ts: the verdicts of `additionalProperties` and
-- `propertyNames`.
use json_schema_engine.Base.{
  ◌≡◌, sym, Bool, true, false, ◌&&◌, ◌||◌, not, List, [], ◌∷◌, ◌++◌, String, arith, Bool-cases, inl,
  inr, if◌then◌else◌, any, all, map, append_assoc, append-nil, ok,
}
use mathlib.Core.Path.{subst}
use json_schema_engine.Json.{Json, object, string, Members, entries, keys}
use json_schema_engine.Cursor.{Cursor, value, Segment, key, child_cursor}
use json_schema_engine.Engine.State.{EvalState, names}
use json_schema_engine.Engine.Program.{Program, done, Environment, ◌>>=◌}
use json_schema_engine.Engine.Context.{Context, Application}
use json_schema_engine.Engine.Apply.{run}
use json_schema_engine.Keywords.Schema.{is_false, member_of, on_object, described}
use json_schema_engine.Keywords.InPlace.{Sweep, no_names}
use json_schema_engine.Keywords.Object.{
  close_sweep, sibling_names, compile_all, sweep_additional, additional_properties, sweep_names,
  property_names, refuse_names,
}
use json_schema_engine.Keywords.Yields.{
  declares, Oracle, Situated, Yields, Yields-done, Yields-report, Yields-apply, Yields-child,
  Yields-if, Yields-compile_regex,
}
use json_schema_engine.Keywords.Yields.Sweep.{
  no_name, no_name-snoc, and-true, and_assoc, Rest, close-Rest,
}

module _ {env : Environment} {self : Application} {x : Context} {origin : EvalState}
    {verdicts : List Segment → Json → Bool} (o : Oracle env self x origin verdicts)
    (c : Cursor) where
  -- A name that `properties` lists or a pattern of `patternProperties` matches.
  abbrev pub covered : List String → List (String → Bool) → String → Bool
  covered known res name = member_of name known || any (λ re. re name) res

  module _ (schema : Json) (known : List String) (res : List (String → Bool)) where
    abbrev pub additional_accepts : String × Json → Bool
    additional_accepts (name, v) =
        covered known res name
        || not (is_false schema) && verdicts (key "additionalProperties" ∷ []) v

    abbrev pub additional_forbidden : String × Json → Bool
    additional_forbidden (name, v) = not (covered known res name) && is_false schema

    sweep_additional-Yields :
        (k : Sweep → Program Bool) (b : Bool) (r : Bool × Bool) (instance : List (String × Json))
        (w : Sweep)
        → o.claimed (key "additionalProperties" ∷ []) ≡ true
        → Rest o c k b r w.passes w.rejected
            (all additional_accepts instance)
            (any additional_forbidden instance)
        → Yields o (sweep_additional c schema known res instance w >>= k) b r
    unfolding sweep_additional Rest
    sweep_additional-Yields k b r [] w own h = h w (ground arith) (ground arith)
    sweep_additional-Yields k b r ((name, v) ∷ instance) w own h =
        Yields-if o (covered known res name) _ _ k b r
          (λ present.
            sweep_additional-Yields k b r instance w own
              (λ w' e f. h w' (ground (arith, present, e)) (ground (arith, present, f))))
          (λ absent.
            Yields-if o (is_false schema) _ _ k b r
              (λ refused. sweep_additional-Yields k b r instance _ own (λ w' e f.
                h w' (ground (arith, absent, refused, e, f, no_name-snoc w.rejected name))
                  (ground (arith, absent, refused, f, no_name-snoc w.rejected name))))
              (λ applied. Yields-child o c _ v _ b r (λ n.
                Yields-apply o _ (child_cursor n c (key name) v) _ b r own (
                  sweep_additional-Yields k b r instance _ own (λ w' e f.
                    h w' (ground (arith, absent, applied, e))
                      (ground (arith, absent, applied, f)))))))

  compile_all-Yields :
      (k : List (String → Bool) → Program Bool) (b : Bool) (r : Bool × Bool) (ps : List String)
      (res : List (String → Bool))
      → all o.compilable ps ≡ true
      → Yields o (k (res ++ map o.regex ps)) b r
      → Yields o (compile_all ps res >>= k) b r
  unfolding compile_all
  compile_all-Yields k b r [] res good h = subst (λ l. Yields o (k l) b r) (append-nil res) h
  compile_all-Yields k b r (p ∷ ps) res good h =
      Yields-compile_regex o p _ b r (ground (arith, good)) (
        compile_all-Yields k b r ps (res ++ o.regex p ∷ []) (ground (arith, good))
          (subst (λ l. Yields o (k l) b r) (sym (append_assoc res _ _)) h))

  -- The compiled patterns of the sibling `patternProperties`.
  abbrev pub sibling_patterns : Members → List (String → Bool)
  sibling_patterns ms = map o.regex (sibling_names "patternProperties" ms)

  -- Where an oracle answers for the keyword's schema, the patterns of the sibling `patternProperties`
  -- compile, and the registry lists the keyword as one that produces data, `additionalProperties`
  -- accepts an object exactly when each of its names is listed by the sibling
  -- `properties`, is matched by a pattern of the sibling `patternProperties`, or has a value that
  -- the keyword's schema, not being `false`, accepts.
  pub additional_properties_verdict :
      (schema : Json) (instance ms : Members)
      → value c ≡ object instance
      → declares env x ≡ true
      → o.claimed (key "additionalProperties" ∷ []) ≡ true
      → all o.compilable (sibling_names "patternProperties" ms) ≡ true
      → (s : EvalState) → Situated origin s
      → (run env self x (additional_properties.evaluate schema c ms) false s).0
        ≡ ok (
          all
              (additional_accepts schema (sibling_names "properties" ms) (sibling_patterns ms))
              (entries instance),
          any
              (additional_forbidden schema (sibling_names "properties" ms) (sibling_patterns ms))
              (entries instance),
        )
  unfolding additional_properties
  additional_properties_verdict schema instance ms at declared own good =
      let known = sibling_names "properties" ms in
      let res = sibling_patterns ms in
      let accepts = all (additional_accepts schema known res) (entries instance) in
      let forbids = any (additional_forbidden schema known res) (entries instance) in
      subst
        (λ j.
          Yields o
            (on_object j (λ l. compile_all (sibling_names "patternProperties" ms) [] >>= λ rs.
              sweep_additional c schema known rs l no_names
              >>= close_sweep (λ q. described "additionalRejected" (names q ∷ []))))
            false (accepts, forbids))
        (sym at)
        (compile_all-Yields
          (λ rs.
            sweep_additional c schema known rs (entries instance) no_names
            >>= close_sweep (λ q. described "additionalRejected" (names q ∷ [])))
          false (accepts, forbids) (sibling_names "patternProperties" ms) [] good
          (sweep_additional-Yields schema known res _ false _ (entries instance) no_names own (
            close-Rest o c (λ q. described "additionalRejected" (names q ∷ [])) accepts forbids
              declared)))

  abbrev pub name_accepts : String → Bool
  name_accepts name = verdicts (key "propertyNames" ∷ []) (string name)

  sweep_names-Yields :
      (ns : List String) (valid : Bool)
      → o.claimed (key "propertyNames" ∷ []) ≡ true
      → Yields o (sweep_names c ns valid) false (valid && all name_accepts ns, false)
  unfolding sweep_names
  sweep_names-Yields [] valid own =
      subst (λ y. Yields o (done valid) false (y, false)) (sym (and-true valid))
        (Yields-done o valid false)
  sweep_names-Yields (n ∷ ns) valid own = Yields-child o c _ (string n) _ false _ (λ i.
      Yields-apply o _ (child_cursor i c (key n) (string n)) _ false _ own (
        subst (λ y. Yields o (sweep_names c ns (valid && name_accepts n)) false (y, false))
          (sym (and_assoc valid (name_accepts n) _)) (sweep_names-Yields ns _ own)))

  refuse_names-Yields :
      (ns : List String) → Yields o (refuse_names ns) false (no_name ns, not (no_name ns))
  refuse_names-Yields [] = Yields-done o true false
  refuse_names-Yields (n ∷ ns) = Yields-report o _ _ false _ (Yields-done o false true)

  -- The names that a schema of `propertyNames` accepts; `false` accepts none.
  unfoldable pub names_accepted : Json → List String → Bool × Bool
  names_accepted schema ns =
      if is_false schema then (no_name ns, not (no_name ns)) else (all name_accepts ns, false)

  -- Where an oracle answers for the keyword's schema, `propertyNames` accepts an object exactly when its schema accepts each name of the object as a
  -- text, or the schema is `false` and the object has no name; only the latter check reports.
  pub property_names_verdict :
      (schema : Json) (instance ms : Members)
      → value c ≡ object instance
      → o.claimed (key "propertyNames" ∷ []) ≡ true
      → (s : EvalState) → Situated origin s
      → (run env self x (property_names.evaluate schema c ms) false s).0
        ≡ ok (names_accepted schema (keys (entries instance)))
  unfolding property_names names_accepted
  property_names_verdict schema instance ms at own =
      let ns = keys (entries instance) in
      subst
        (λ j.
          Yields o
            (on_object j
              (λ l. if is_false schema then refuse_names (keys l) else sweep_names c (keys l) true))
            false (names_accepted schema ns))
        (sym at)
        (elim (Bool-cases (is_false schema)) [
          | inl e ↦ rw (e, names_accepted) (refuse_names-Yields ns)
          | inr e ↦ rw (e, names_accepted) (sweep_names-Yields ns true own)
        ])
