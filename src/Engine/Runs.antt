-- ===== src/Engine/Runs.antt =====
-- packages/core/src/engine.ts: `runEvaluation` as a whole.
use json_schema_engine.Base.{
  ℕ, ◌+◌, Bool, String, Result, ok, err, Result-cases, EngineError, inl, inr,
}
use json_schema_engine.Json.{Json}
use json_schema_engine.Cursor.{root_cursor}
use json_schema_engine.Engine.State.{EvalState, initial, no_path}
use json_schema_engine.Engine.Program.{Environment}
use json_schema_engine.Engine.Apply.{apply_schema, apply_with_backstop, backstop, run_evaluation}
use json_schema_engine.Engine.Progress.{Progress-refl}
use json_schema_engine.Engine.Contract.{Settled, apply_schema-Settled}

backstop-Settled :
    (m : Result Bool × EvalState) (s : EvalState)
    → Settled m.0 s m.1
    → Settled (backstop m).0 s (backstop m).1
backstop-Settled (ok b, t) s q = q
backstop-Settled (err e, t) s q = record {
  progress = q.progress;
  accepted = λ h. cc;
  rejected = λ h. cc;
}

failed-Settled : (e : EngineError) (s : EvalState) → Settled (err e) s s
failed-Settled e s = record { progress = Progress-refl s; accepted = λ h. cc; rejected = λ h. cc }

-- A run from a root leaves the stacks empty; where it accepts, no error is left, and where it
-- rejects, no annotation and no dependency record is.
pub run_evaluation-Settled :
    (env : Environment) (tracing : Bool) (uri : String) (instance_value : Json) (next : ℕ)
    → Settled
        (run_evaluation env tracing uri instance_value next).0
        (initial tracing (next + 1))
        (run_evaluation env tracing uri instance_value next).1
unfolding run_evaluation apply_with_backstop
run_evaluation-Settled env tracing uri v next = elim (Result-cases (env.registry.root_ref uri)) [
  | inl (e, failed) ↦ rw (failed, run_evaluation) (failed-Settled e (initial tracing (next + 1)))
  | inr (r, found) ↦
      rw (found, run_evaluation)
        (backstop-Settled
          (apply_schema env env.max_depth r (root_cursor next v) no_path
            (initial tracing (next + 1)))
          _
          (apply_schema-Settled env env.max_depth r (root_cursor next v) no_path
            (initial tracing (next + 1))))
]
