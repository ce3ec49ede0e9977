-- ===== src/Keywords/Yields.antt =====
-- The verdict of a keyword's program, where the verdicts of its subschemas are known: one rule for
-- each call that a keyword makes of its context.
pub mod InPlace
pub mod Sweep
pub mod Object
pub mod Names
pub mod Patterns
pub mod Array
pub mod Contains
pub mod Conditional
pub mod Unevaluated
pub mod UnevaluatedItems
use json_schema_engine.Base.{
  ℕ, ◌+◌, ◌≡◌, refl, sym, ◌∙◌, ap, Bool, true, false, ◌&&◌, not, List, [], ◌∷◌, String, arith,
  Result, ok, err, Option, none, some, if◌then◌else◌, all,
}
use json_schema_engine.Json.{Json}
use json_schema_engine.Cursor.{Cursor, value, Segment, key, index, SchemaRef, child_cursor}
use json_schema_engine.Engine.State.{PathNode, EvalState, Exec, Datum, Description}
use json_schema_engine.Engine.Operations.{push_error, push_dependency}
use json_schema_engine.Engine.Program.{
  Program, done, child, apply, produce, report, compile_regex, Environment, ◌>>=◌,
}
use json_schema_engine.Keywords.Schema.{when_present}
use json_schema_engine.Engine.Context.{
  Context, Application, extend_path, produce_step, eliding, member_of, error_of,
}
use json_schema_engine.Engine.Apply.{run, proceed}
use json_schema_engine.Engine.Progress.{
  Progress, Progresses, push_error-Progress, produce_step-Progress,
}

-- The parts of the state that an application leaves as they were, and may depend on.
pub record Situated (origin s : EvalState) : Type 0 where
  pub depth : s.depth ≡ origin.depth
  pub active : s.active ≡ origin.active
  pub scope : s.dynamic_scope ≡ origin.dynamic_scope

Situated-Progress : {origin s t : EvalState} → Situated origin s → Progress s t → Situated origin t
Situated-Progress q h = record {
  depth = h.depth ∙ q.depth;
  active = h.active ∙ q.active;
  scope = h.scope ∙ q.scope;
}

-- `verdicts` says what applying the subschema at some segments to a value returns, in any state that
-- is situated like `origin`. The oracle answers for the paths that it claims alone, and for the
-- patterns that it claims to compile: a keyword asks it for its own parts, and what else the schema
-- holds, or does not hold, plays no role.
pub record Oracle (env : Environment) (self : Application) (x : Context) (origin : EvalState)
    (verdicts : List Segment → Json → Bool) : Type 0 where
  pub progresses : Progresses self
  pub claimed : List Segment → Bool
  pub target : List Segment → SchemaRef
  pub finds :
      (segs : List Segment)
      → claimed segs ≡ true
      → env.registry.child x.schema_ref segs ≡ ok (target segs)
  pub answers :
      (segs : List Segment) (c : Cursor) (p : PathNode) (s : EvalState)
      → claimed segs ≡ true
      → Situated origin s
      → (self (target segs) c p s).0 ≡ ok (verdicts segs (value c))
  pub compilable : String → Bool
  pub regex : String → String → Bool
  pub compiles : (p : String) → compilable p ≡ true → env.compile_regex p ≡ ok (regex p)

-- The keyword's identifier is one that the registry knows to produce data.
abbrev pub declares : Environment → Context → Bool
declares env x = member_of x.entry.behavior.id env.registry.produced_ids

proceed-Yields :
    {A B : Type 0} (m : Result A × EvalState) (f : A → Exec B) (a : A) (r : Result B)
    → m.0 ≡ ok a
    → (f a m.1).0 ≡ r
    → (proceed m f).0 ≡ r
proceed-Yields (ok b, t) f a r e h = let same : b ≡ a = cc in ap (λ y. (f y t).0) same ∙ h
proceed-Yields (err b, t) f a r e h = cc

produces :
    (env : Environment) (x : Context) (d : Datum) (s : EvalState)
    → declares env x ≡ true
    → (produce_step env x d s).0 ≡ ok tt
unfolding produce_step
produces env x d s declared = ground arith

module _ {env : Environment} {self : Application} {x : Context} {origin : EvalState}
    {verdicts : List Segment → Json → Bool} (o : Oracle env self x origin verdicts) where
  -- The schemas of an array under a keyword are claimed, from an index on.
  unfoldable pub items_claimed : String → ℕ → List Json → Bool
  items_claimed keyword i [] = true
  items_claimed keyword i (s ∷ rest) =
      o.claimed (key keyword ∷ index i ∷ []) && items_claimed keyword (i + 1) rest

  -- The schemas of an object under a keyword are claimed.
  abbrev pub members_claimed : String → List (String × Json) → Bool
  members_claimed keyword spec = all (λ p. o.claimed (key keyword ∷ key p.0 ∷ [])) spec

  -- The program returns the verdict and the `reported` flag `r`, from the flag `b`.
  abbrev pub Yields : Program Bool → Bool → Bool × Bool → Type 0
  Yields m b r = (s : EvalState) → Situated origin s → (run env self x m b s).0 ≡ ok r

  pub Yields-done : (a b : Bool) → Yields (done a) b (a, b)
  unfolding run
  Yields-done a b s q = refl

  pub Yields-report :
      (d : Description) (m : Program Bool) (b : Bool) (r : Bool × Bool)
      → Yields m true r
      → Yields (report d m) b r
  unfolding run
  Yields-report d m b r h s q = h _ (Situated-Progress q (push_error-Progress _ s))

  pub Yields-child :
      (c : Cursor) (seg : Segment) (w : Json) (k : Cursor → Program Bool) (b : Bool)
      (r : Bool × Bool)
      → ((n : ℕ) → Yields (k (child_cursor n c seg w)) b r)
      → Yields (child c seg w k) b r
  unfolding run
  Yields-child c seg w k b r h s q =
      h s.next_id _ (record { depth = q.depth; active = q.active; scope = q.scope })

  pub Yields-apply :
      (segs : List Segment) (c : Cursor) (k : Bool → Program Bool) (b : Bool) (r : Bool × Bool)
      → o.claimed segs ≡ true
      → Yields (k (verdicts segs (value c))) b r
      → Yields (apply segs c k) b r
  unfolding run
  Yields-apply segs c k b r own h s q =
      rw (o.finds segs own, run)
        (proceed-Yields _ _ _ _
          (o.answers segs c _ _ own
            (record { depth = q.depth; active = q.active; scope = q.scope }))
          (h _ (
            Situated-Progress (record { depth = q.depth; active = q.active; scope = q.scope })
              (o.progresses (o.target segs) c _ _))))

  pub Yields-produce :
      (d : Datum) (m : Program Bool) (b : Bool) (r : Bool × Bool)
      → declares env x ≡ true
      → Yields m b r
      → Yields (produce d m) b r
  unfolding run
  Yields-produce d m b r declared h s q =
      proceed-Yields _ _ _ _ (produces env x d s declared)
        (h _ (Situated-Progress q (produce_step-Progress env x d s)))

  pub Yields-compile_regex :
      (p : String) (k : (String → Bool) → Program Bool) (b : Bool) (r : Bool × Bool)
      → o.compilable p ≡ true
      → Yields (k (o.regex p)) b r
      → Yields (compile_regex p k) b r
  unfolding run
  Yields-compile_regex p k b r good h s q = rw (o.compiles p good, run) (h s q)

  -- A test before the rest of the program.
  pub Yields-if :
      {A : Type 0} (f : Bool) (m n : Program A) (k : A → Program Bool) (b : Bool) (r : Bool × Bool)
      → (f ≡ true → Yields (m >>= k) b r)
      → (f ≡ false → Yields (n >>= k) b r)
      → Yields ((if f then m else n) >>= k) b r
  Yields-if true m n k b r h g = h refl
  Yields-if false m n k b r h g = g refl

  -- The same, with a part of the keyword in between.
  pub Yields-if_then :
      {A B : Type 0} (f : Bool) (m n : Program A) (g : A → Program B) (k : B → Program Bool)
      (b : Bool) (r : Bool × Bool)
      → (f ≡ true → Yields (m >>= g >>= k) b r)
      → (f ≡ false → Yields (n >>= g >>= k) b r)
      → Yields ((if f then m else n) >>= g >>= k) b r
  Yields-if_then true m n g k b r h q = h refl
  Yields-if_then false m n g k b r h q = q refl

  pub Yields-when_present :
      {A : Type 0} (p : Option Json) (m : Program A) (n : Json → Program A) (k : A → Program Bool)
      (b : Bool) (r : Bool × Bool)
      → (p ≡ none → Yields (m >>= k) b r)
      → ((v : Json) → p ≡ some v → Yields (n v >>= k) b r)
      → Yields (when_present p m n >>= k) b r
  Yields-when_present none m n k b r h g = h refl
  Yields-when_present (some v) m n k b r h g = g v refl
