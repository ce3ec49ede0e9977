-- ===== src/Engine/Reuse.antt =====
-- packages/core/src/engine.ts: a fragment runner that reuses its state, beside a fresh state.
use json_schema_engine.Base.{
  ℕ, ◌≡◌, refl, sym, ◌∙◌, ap, Bool, true, false, Option, none, some, List, String, Result, ok, err,
  arith, inl, inr, Bool-cases,
}
use mathlib.Core.Bool.{not, false≢true}
use json_schema_engine.Json.{is_some}
use json_schema_engine.Cursor.{Cursor, SchemaRef}
use json_schema_engine.Engine.State.{EvalState, Trace, initial, no_path}
use json_schema_engine.Engine.Program.{Environment}
use json_schema_engine.Engine.Apply.{apply_with_backstop, apply_schema, backstop}
use json_schema_engine.Engine.Contract.{apply_schema-Settled}
use json_schema_engine.Engine.Fragment.{
  reset, seed, fresh, FragmentRunner, pooled_state, kept_state, valid_fragment,
}

-- The pooled state does not trace.
abbrev pub untraced : Option EvalState → Bool
untraced none = true
untraced (some s) = not (is_some s.trace)

no_trace : (o : Option Trace) → is_some o ≡ false → o ≡ none
no_trace none h = refl
no_trace (some t) h = absurd (false≢true (sym h))

-- A state that does not trace is a fresh one after `reset`.
reset-fresh :
    (depth next : ℕ) (s : EvalState)
    → is_some s.trace ≡ false
    → reset depth (record s { next_id = next }) ≡ fresh false depth next
unfolding reset fresh initial
reset-fresh depth next s h =
    ap {A = Option Trace} (λ o. record (fresh false depth next) { trace = o }) (no_trace s.trace h)

-- The pooled state, if there is one, does not trace.
abbrev pub IsUntraced : FragmentRunner → Type 0
IsUntraced w = untraced w.pooled ≡ true

pooled_state-fresh :
    (w : FragmentRunner) (depth next : ℕ)
    → IsUntraced w
    → reset depth (pooled_state w depth next) ≡ fresh false depth next
unfolding pooled_state reset fresh initial
pooled_state-fresh w depth next h = by_pool w.pooled h
  where
    by_pool :
        (o : Option EvalState)
        → untraced o ≡ true
        → reset depth
            (elim o [ none ↦ fresh false depth next | some s ↦ record s { next_id = next } ])
          ≡ fresh false depth next
    by_pool none q = refl
    by_pool (some s) q = reset-fresh depth next s (ground (arith, q))

kept_untraced :
    (m : Result Bool × EvalState) → is_some m.1.trace ≡ false → untraced (kept_state m) ≡ true
kept_untraced (ok b, s) h = ap not h
kept_untraced (err e, s) h = refl

backstop_state : (m : Result Bool × EvalState) → (backstop m).1 ≡ m.1
backstop_state (ok b, s) = refl
backstop_state (err e, s) = refl

-- A run keeps a state untraced.
run_untraced :
    (env : Environment) (r : SchemaRef) (c : Cursor) (s : EvalState)
    → is_some s.trace ≡ false
    → is_some (apply_with_backstop env r c no_path s).1.trace ≡ false
unfolding apply_with_backstop
run_untraced env r c s h =
    ap (λ u. is_some u.trace) (backstop_state (apply_schema env env.max_depth r c no_path s))
    ∙ (apply_schema-Settled env env.max_depth r c no_path s).progress.tracing
    ∙ h

-- A call of the runner, whatever ran on its state before, returns what a state of its own would
-- have given, be it a verdict or an exception; and the state that it keeps is again one that does
-- not trace.
pub valid_fragment-fresh :
    (env : Environment) (target : SchemaRef) (c : Cursor) (scope : List String) (depth next : ℕ)
    (w : FragmentRunner)
    → IsUntraced w
    → ((valid_fragment env target c scope depth next w).0
        ≡ (apply_with_backstop env target c no_path (seed scope (fresh false depth next))).0)
      × IsUntraced (valid_fragment env target c scope depth next w).1
unfolding valid_fragment
valid_fragment-fresh env target c scope depth next w h =
    let run_from : EvalState → Result Bool × EvalState =
      λ s. apply_with_backstop env target c no_path (seed scope s) in
    let same : reset depth (pooled_state w depth next) ≡ fresh false depth next =
      pooled_state-fresh w depth next h in
    elim (Bool-cases w.in_use) [
      | inl busy ↦ rw (busy, valid_fragment) (refl, h)
      | inr free ↦
          rw (free, valid_fragment)
            (
              ap (λ s. (run_from s).0) same,
              kept_untraced (run_from (reset depth (pooled_state w depth next))) (
                  run_untraced env target c (seed scope (reset depth (pooled_state w depth next)))
                    (ap (λ s. is_some s.trace) same)),
            )
    ]
