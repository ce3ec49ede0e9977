-- ===== src/Keywords/Yields/Unevaluated.antt =====
-- packages/core/src/keywords/unevaluated.ts: the verdict of `unevaluatedProperties`.
use json_schema_engine.Base.{
  ◌≡◌, refl, sym, ◌∙◌, ap, Bool, true, false, ◌&&◌, ◌||◌, not, List, [], ◌∷◌, String, arith,
  Bool-cases, inl, inr, any, all, none, some, ok,
}
use mathlib.Core.Path.{subst, ap₂}
use json_schema_engine.Json.{Json, object, Members, entries}
use json_schema_engine.Cursor.{Cursor, value, Segment, key, child_cursor}
use json_schema_engine.Engine.State.{EvalState}
use json_schema_engine.Engine.Program.{Program, every, Environment, ◌>>=◌}
use json_schema_engine.Engine.Context.{Context, Application, consumption_error, select_views}
use json_schema_engine.Engine.Apply.{run}
use json_schema_engine.Keywords.Schema.{is_false, member_of}
use json_schema_engine.Keywords.InPlace.{Sweep, no_names}
use json_schema_engine.Keywords.Unevaluated.{
  unevaluated_properties, sweep_unseen, seen_names, property_ids, close_unseen, close_accepted,
  close_refused,
}
use json_schema_engine.Keywords.Yields.{
  declares, Oracle, Situated, Yields, Yields-done, Yields-report, Yields-apply, Yields-child,
  Yields-produce, Yields-if,
}
use json_schema_engine.Keywords.Yields.Sweep.{no_name, no_name-snoc, not-not}

module _ {env : Environment} {self : Application} {x : Context} {origin : EvalState}
    {verdicts : List Segment → Json → Bool} (o : Oracle env self x origin verdicts) (c : Cursor)
    (schema : Json) (seen : List String) where
  -- A member whose name was evaluated, or whose value the schema, not being `false`, accepts.
  abbrev pub unseen_accepts : String × Json → Bool
  unseen_accepts (name, v) =
      member_of name seen || not (is_false schema) && verdicts (key "unevaluatedProperties" ∷ []) v

  abbrev pub unseen_forbidden : String × Json → Bool
  unseen_forbidden (name, v) = not (member_of name seen) && is_false schema

  close_accepted-Yields :
      (passes : Bool) (l : List String)
      → declares env x ≡ true
      → Yields o (close_accepted passes l) false (passes, false)
  close_accepted-Yields true l declared =
      Yields-produce o _ _ false _ declared (Yields-done o true false)
  close_accepted-Yields false l declared = Yields-done o false false

  close_refused-Yields :
      (l : List String)
      → declares env x ≡ true
      → Yields o (close_refused l true) false (no_name l, not (no_name l))
  close_refused-Yields [] declared = close_accepted-Yields true [] declared
  close_refused-Yields (n ∷ l) declared = Yields-report o _ _ false _ (Yields-done o false true)

  -- The sweep of a schema that is not `false`.
  sweep_unseen_applied :
      (k : Sweep → Program Bool) (b : Bool) (r : Bool × Bool) (instance : List (String × Json))
      (w : Sweep)
      → o.claimed (key "unevaluatedProperties" ∷ []) ≡ true
      → is_false schema ≡ false
      → ((w' : Sweep) → w'.passes ≡ (w.passes && all unseen_accepts instance) → Yields o (k w') b r)
      → Yields o (sweep_unseen c schema seen instance w >>= k) b r
  unfolding sweep_unseen
  sweep_unseen_applied k b r [] w own ne h = h w (ground arith)
  sweep_unseen_applied k b r ((name, v) ∷ instance) w own ne h =
      Yields-if o (member_of name seen) _ _ k b r
        (λ present.
          sweep_unseen_applied k b r instance w own ne (λ w' e. h w' (ground (arith, present, e))))
        (λ absent.
          Yields-if o (is_false schema) _ _ k b r (λ refused. absurd (ground (arith, ne, refused)))
            (λ applied. Yields-child o c _ v _ b r (λ n.
              Yields-apply o _ (child_cursor n c (key name) v) _ b r own (
                sweep_unseen_applied k b r instance _ own ne
                  (λ w' e. h w' (ground (arith, absent, applied, e)))))))

  -- The sweep of `false`, which only collects.
  sweep_unseen_refused :
      (k : Sweep → Program Bool) (b : Bool) (r : Bool × Bool) (instance : List (String × Json))
      (w : Sweep)
      → is_false schema ≡ true
      → ((w' : Sweep)
          → w'.passes ≡ w.passes
          → no_name w'.matched ≡ (no_name w.matched && not (any unseen_forbidden instance))
          → Yields o (k w') b r)
      → Yields o (sweep_unseen c schema seen instance w >>= k) b r
  unfolding sweep_unseen
  sweep_unseen_refused k b r [] w is h = h w refl (ground arith)
  sweep_unseen_refused k b r ((name, v) ∷ instance) w is h =
      Yields-if o (member_of name seen) _ _ k b r
        (λ present.
          sweep_unseen_refused k b r instance w is (λ w' e f. h w' e (ground (arith, present, f))))
        (λ absent.
          Yields-if o (is_false schema) _ _ k b r
            (λ refused.
              sweep_unseen_refused k b r instance _ is (λ w' e f.
                h w' e (ground (arith, absent, refused, f, no_name-snoc w.matched name))))
            (λ applied. absurd (ground (arith, is, applied))))

  accepts_of_false :
      (instance : List (String × Json))
      → is_false schema ≡ true
      → all unseen_accepts instance ≡ not (any unseen_forbidden instance)
  accepts_of_false [] is = refl
  accepts_of_false ((name, v) ∷ instance) is = ground (arith, accepts_of_false instance is)

  forbids_of_other :
      (instance : List (String × Json))
      → is_false schema ≡ false
      → any unseen_forbidden instance ≡ false
  forbids_of_other [] ne = refl
  forbids_of_other ((name, v) ∷ instance) ne = ground (arith, forbids_of_other instance ne)

  close_applied :
      (instance : List (String × Json)) (w : Sweep)
      → declares env x ≡ true
      → is_false schema ≡ false
      → w.passes ≡ all unseen_accepts instance
      → Yields o
          (close_unseen schema w)
          false
          (all unseen_accepts instance, any unseen_forbidden instance)
  close_applied instance w declared ne e =
      subst (Yields o (close_unseen schema w) false)
        (ap₂ (λ p q. (p, q)) e (sym (forbids_of_other instance ne)))
        (rw ne (close_accepted-Yields w.passes w.matched declared))

  close_refused_lem :
      (instance : List (String × Json)) (w : Sweep)
      → declares env x ≡ true
      → is_false schema ≡ true
      → w.passes ≡ true
      → no_name w.matched ≡ not (any unseen_forbidden instance)
      → Yields o
          (close_unseen schema w)
          false
          (all unseen_accepts instance, any unseen_forbidden instance)
  close_refused_lem instance w declared is e f =
      subst (Yields o (close_unseen schema w) false)
        (ap (λ p. (p, not p)) f
          ∙ ap₂ (λ p q. (p, q)) (sym (accepts_of_false instance is)) (not-not _))
        (rw is (
          subst
            (λ y.
              Yields o (close_refused w.matched y) false
                (no_name w.matched, not (no_name w.matched)))
            (sym e) (close_refused-Yields w.matched declared)))

  unseen-Yields :
      (instance : List (String × Json))
      → declares env x ≡ true
      → o.claimed (key "unevaluatedProperties" ∷ []) ≡ true
      → Yields o
          (sweep_unseen c schema seen instance no_names >>= close_unseen schema)
          false
          (all unseen_accepts instance, any unseen_forbidden instance)
  unseen-Yields instance declared own = elim (Bool-cases (is_false schema)) [
    | inl is ↦
        sweep_unseen_refused (close_unseen schema) false _ instance no_names is
          (λ w e f. close_refused_lem instance w declared is e f)
    | inr ne ↦
        sweep_unseen_applied (close_unseen schema) false _ instance no_names own ne
          (λ w e. close_applied instance w declared ne e)
  ]

  -- Where an oracle answers for the keyword's schema, the registry lists what the keyword produces and
  -- consumes, and the dependency data that the keyword may see names `seen`, `unevaluatedProperties`
  -- accepts an object exactly when each of its names is in `seen` or has a value that the keyword's
  -- schema, not being `false`, accepts; it reports exactly when the schema is `false` and some name
  -- is not in `seen`.
  pub unevaluated_properties_verdict :
      (instance ms : Members)
      → value c ≡ object instance
      → declares env x ≡ true
      → o.claimed (key "unevaluatedProperties" ∷ []) ≡ true
      → (s : EvalState) → Situated origin s
      → consumption_error env property_ids ≡ none
      → seen_names (select_views x property_ids every s.frame.dependencies) [] ≡ some seen
      → (run env self x (unevaluated_properties.evaluate schema c ms) false s).0
        ≡ ok (all unseen_accepts (entries instance), any unseen_forbidden (entries instance))
  unfolding unevaluated_properties run
  unevaluated_properties_verdict instance ms at declared own s q consumed e =
      rw (at, run)
        (rw (consumed, run) (rw (e, run) (unseen-Yields (entries instance) declared own s q)))
