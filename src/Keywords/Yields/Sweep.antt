-- ===== src/Keywords/Yields/Sweep.antt =====
-- The closing steps of the sweeps of packages/core/src/keywords/applicator.ts, and what is left of a
-- sweep to show.
use json_schema_engine.Base.{
  ◌≡◌, refl, ◌∙◌, ap, Bool, true, false, ◌&&◌, not, List, [], ◌∷◌, ◌++◌, String, arith,
}
use mathlib.Core.Path.{subst, ap₂}
use json_schema_engine.Json.{Json}
use json_schema_engine.Cursor.{Cursor, Segment}
use json_schema_engine.Engine.State.{EvalState, Description}
use json_schema_engine.Engine.Program.{Program, Environment}
use json_schema_engine.Engine.Context.{Context, Application}
use json_schema_engine.Keywords.InPlace.{Sweep}
use json_schema_engine.Keywords.Object.{close_sweep, close_names}
use json_schema_engine.Keywords.Yields.{
  declares, Oracle, Yields, Yields-done, Yields-report, Yields-produce,
}

abbrev pub no_name : List String → Bool
no_name [] = true
no_name (n ∷ l) = false

pub not-not : (b : Bool) → not (not b) ≡ b
not-not true = refl
not-not false = refl

pub and-true : (a : Bool) → (a && true) ≡ a
and-true a = ground arith

pub and_assoc : (a b c : Bool) → (a && (b && c)) ≡ ((a && b) && c)
and_assoc a b c = ground arith

pub no_name-snoc : (l : List String) (n : String) → no_name (l ++ n ∷ []) ≡ false
no_name-snoc [] n = refl
no_name-snoc (m ∷ l) n = refl

module _ {env : Environment} {self : Application} {x : Context} {origin : EvalState}
    {verdicts : List Segment → Json → Bool} (o : Oracle env self x origin verdicts)
    (c : Cursor) where
  close_sweep-Yields :
      (d : List String → Description) (w : Sweep)
      → declares env x ≡ true
      → Yields o (close_sweep d w) false (no_name w.rejected && w.passes, not (no_name w.rejected))
  close_sweep-Yields d w declared = close w.rejected w.passes
    where
      close :
          (l : List String) (valid : Bool)
          → Yields o (close_names d l valid w.matched) false (no_name l && valid, not (no_name l))
      close [] true = Yields-produce o _ _ false _ declared (Yields-done o true false)
      close [] false = Yields-done o false false
      close (n ∷ l) valid = Yields-report o _ _ false _ (Yields-done o false true)

  -- What remains to be shown of a sweep that has `valid` and `l` behind it, where the rest of it accepts
  -- as `accepts` says and names members of a `false` schema as `forbids` says.
  unfoldable pub Rest :
      (Sweep → Program Bool) → Bool → Bool × Bool → Bool → List String → Bool → Bool → Type 0
  Rest k b r valid l accepts forbids =
      (w : Sweep)
      → (no_name w.rejected && w.passes) ≡ (no_name l && (valid && accepts))
      → no_name w.rejected ≡ (no_name l && not forbids)
      → Yields o (k w) b r

  -- From the sweep to the verdict.
  pub close-Rest :
      (d : List String → Description) (accepts forbids : Bool)
      → declares env x ≡ true
      → Rest (close_sweep d) false (accepts, forbids) true [] accepts forbids
  unfolding Rest
  close-Rest d accepts forbids declared w e f =
      subst (Yields o (close_sweep d w) false)
        (ap₂ (λ p q. (p, not q)) e f ∙ ap (λ q. (accepts, q)) (not-not forbids))
        (close_sweep-Yields d w declared)
