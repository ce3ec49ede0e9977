-- ===== src/Keywords/Yields/Contains.antt =====
-- packages/core/src/keywords/applicator.ts: the verdict of `contains`.
use json_schema_engine.Base.{
  ℕ, ◌+◌, ◌==◌, ◌≡◌, sym, Bool, true, false, ◌||◌, not, List, [], ◌∷◌, ◌++◌, if◌then◌else◌, ok,
  length, Bool-cases, inl, inr, append-nil,
}
use mathlib.Core.Path.{subst}
use json_schema_engine.Json.{Json, array, Items, Members, elements}
use json_schema_engine.Cursor.{Cursor, value, Segment, key, index, child_cursor}
use json_schema_engine.Engine.State.{EvalState}
use json_schema_engine.Engine.Program.{Program, done, Environment, ◌>>=◌}
use json_schema_engine.Engine.Context.{Context, Application}
use json_schema_engine.Engine.Apply.{run}
use json_schema_engine.Keywords.Schema.{is_false, on_array}
use json_schema_engine.Keywords.Array.{
  Bound, bound_of, one, infinity, below, above, contains, sweep_contains, close_contains,
}
use json_schema_engine.Keywords.Yields.{
  declares, Oracle, Situated, Yields, Yields-done, Yields-report, Yields-apply, Yields-child,
  Yields-produce,
}
use json_schema_engine.Keywords.Yields.InPlace.{one_more}

-- The bounds that a number of matches is held against.
abbrev pub within : Bound → Bound → ℕ → Bool
within least most n = not (below n least || above n most)

module _ {env : Environment} {self : Application} {x : Context} {origin : EvalState}
    {verdicts : List Segment → Json → Bool} (o : Oracle env self x origin verdicts)
    (c : Cursor) where
  -- The indexes of the items that the schema accepts.
  unfoldable pub contained : ℕ → List Json → List ℕ
  contained i [] = []
  contained i (v ∷ vs) =
      let later = contained (i + 1) vs in
      if verdicts (key "contains" ∷ []) v then i ∷ later else later

  sweep_contains-Yields :
      (k : List ℕ → Program Bool) (b : Bool) (r : Bool × Bool) (vs : List Json) (i : ℕ)
      (matched : List ℕ)
      → o.claimed (key "contains" ∷ []) ≡ true
      → Yields o (k (matched ++ contained i vs)) b r
      → Yields o (sweep_contains c i vs matched >>= k) b r
  unfolding sweep_contains contained
  sweep_contains-Yields k b r [] i matched own h =
      subst (λ l. Yields o (k l) b r) (append-nil matched) h
  sweep_contains-Yields k b r (v ∷ vs) i matched own h = Yields-child o c (index i) v _ b r (λ n.
      Yields-apply o _ (child_cursor n c (index i) v) _ b r own (
        sweep_contains-Yields k b r vs (i + 1) _ own (
          subst (λ l. Yields o (k l) b r) (one_more (verdicts (key "contains" ∷ []) v) i matched _)
            h)))

  close_contains-Yields :
      (size : ℕ) (least most : Bound) (l : List ℕ)
      → declares env x ≡ true
      → Yields o
          (close_contains size least most l)
          false
          (within least most (length l), not (within least most (length l)))
  close_contains-Yields size least most l declared =
      elim (Bool-cases (below (length l) least || above (length l) most)) [
        | inl out ↦ rw out (Yields-report o _ _ false _ (Yields-done o false true))
        | inr ins ↦ rw ins (elim (Bool-cases (length l == 0)) [
          | inl e ↦ rw e (Yields-done o true false)
          | inr e ↦ rw e (Yields-produce o _ _ false _ declared (Yields-done o true false))
        ])
      ]

  -- The items that count: none where the schema is `false`.
  unfoldable pub counted : Json → List Json → List ℕ
  unfolding contained
  counted schema vs = if is_false schema then [] else contained 0 vs

  -- Where an oracle answers for the keyword's schema, and the registry lists the keyword as one that
  -- produces data, `contains` accepts an array exactly when the number of items that its schema accepts is neither
  -- below the sibling `minContains`, 1 where there is none, nor above the sibling `maxContains`, and
  -- it reports exactly when it rejects.
  pub contains_verdict :
      (schema : Json) (instance : Items) (ms : Members)
      → value c ≡ array instance
      → declares env x ≡ true
      → o.claimed (key "contains" ∷ []) ≡ true
      → (s : EvalState) → Situated origin s
      → (run env self x (contains.evaluate schema c ms) false s).0
        ≡ ok (
          within
              (bound_of "minContains" one ms)
              (bound_of "maxContains" infinity ms)
              (length (counted schema (elements instance))),
          not (
              within
                (bound_of "minContains" one ms)
                (bound_of "maxContains" infinity ms)
                (length (counted schema (elements instance)))),
        )
  unfolding contains counted
  contains_verdict schema instance ms at declared own =
      let close : ℕ → List ℕ → Program Bool = λ n.
        close_contains n (bound_of "minContains" one ms) (bound_of "maxContains" infinity ms) in
      let result : List ℕ → Bool × Bool = λ l. (
        within (bound_of "minContains" one ms) (bound_of "maxContains" infinity ms) (length l),
        not (
            within (bound_of "minContains" one ms) (bound_of "maxContains" infinity ms) (length l)),
      ) in
      subst
        (λ j.
          Yields o
            (on_array j (λ l.
              (if is_false schema then done [] else sweep_contains c 0 l []) >>= close (length l)))
            false (result (counted schema (elements instance))))
        (sym at)
        (elim (Bool-cases (is_false schema)) [
          | inl e ↦
              rw (e, counted)
                (close_contains-Yields (length (elements instance)) (bound_of "minContains" one ms)
                  (bound_of "maxContains" infinity ms) [] declared)
          | inr e ↦
              rw (e, counted)
                (sweep_contains-Yields (close (length (elements instance))) false _
                  (elements instance) 0 [] own
                  (close_contains-Yields (length (elements instance))
                    (bound_of "minContains" one ms) (bound_of "maxContains" infinity ms)
                    (contained 0 (elements instance)) declared))
        ])
