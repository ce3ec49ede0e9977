-- ===== src/Engine/Contract.antt =====
-- packages/core/src/engine.ts: the contract of a schema application (rules 3 and 6).
use json_schema_engine.Base.{
  ℕ, zero, suc, ◌≡◌, refl, ◌∙◌, ap, Bool, true, false, List, ◌∷◌, String, arith, leb, Bool-cases,
  inl, inr, EngineError, Result, ok, err, Result-cases, Extends, Extends-refl, if◌then◌else◌,
}
use json_schema_engine.Json.{is_some, Json, Members, boolean, object}
use json_schema_engine.Cursor.{Cursor, SchemaRef, ref_key}
use json_schema_engine.Engine.State.{PathNode, EvalState, Frame}
use json_schema_engine.Engine.Operations.{
  push_error, trace_exit, trace_enter, enter, scan_active, open_frame, enter_scope, close_frame,
  close_onto, finish, merge, drop_top, deepen,
}
use json_schema_engine.Engine.Program.{Dialect, Environment}
use json_schema_engine.Engine.Context.{Application}
use json_schema_engine.Engine.Apply.{
  apply_object, apply_boolean, apply_node, apply_schema, seal, surfaced, proceed,
}
use json_schema_engine.Engine.Progress.{
  Progress, Progress-refl, Progresses, retraced, map_trace-tracing, push_error-Progress,
}
use json_schema_engine.Engine.Verdict.{Looped, evaluate_all-Looped}

-- What `applySchema` promises: the stacks are left as they were; an accepting application leaves no
-- error behind, and a rejecting one no annotation and no dependency record.
pub record Settled (r : Result Bool) (s t : EvalState) : Type 0 where
  pub progress : Progress s t
  pub accepted : r ≡ ok true → t.errors ≡ s.errors
  pub rejected : r ≡ ok false → t.frame ≡ s.frame

abbrev pub Settles : Application → Type 0
Settles self =
    (r : SchemaRef) (c : Cursor) (p : PathNode) (s : EvalState)
    → Settled (self r c p s).0 s (self r c p s).1

-- The state in which the keywords of a schema object start.
abbrev pub opened : Bool → SchemaRef → Cursor → PathNode → String → EvalState → EvalState
opened pushed r c p k s =
    trace_enter r p c
      (open_frame (enter_scope pushed r.base_uri (record s { active = (k, c) ∷ s.active })))

close_frame_lem :
    (valid : Bool) (t : EvalState) (parent : Frame) (rest : List Frame)
    → t.outer ≡ parent ∷ rest
    → close_frame valid t
      ≡ record t { frame = if valid then merge parent t.frame else parent; outer = rest }
unfolding close_frame
close_frame_lem valid t parent rest e = ap (close_onto valid t) e

merged_annotations :
    (valid : Bool) (parent f : Frame)
    → Extends parent.annotations (if valid then merge parent f else parent).annotations
merged_annotations true parent f = record { added = f.annotations; whole = refl }
merged_annotations false parent f = Extends-refl parent.annotations

merged_dependencies :
    (valid : Bool) (parent f : Frame)
    → Extends parent.dependencies (if valid then merge parent f else parent).dependencies
merged_dependencies true parent f = record { added = f.dependencies; whole = refl }
merged_dependencies false parent f = Extends-refl parent.dependencies

scope_restored :
    (pushed : Bool) (uri : String) (before after : List String)
    → after ≡ (if pushed then uri ∷ before else before)
    → (if pushed then drop_top after else after) ≡ before
scope_restored true uri before after e = ap drop_top e
scope_restored false uri before after e = e

module _ (r : SchemaRef) (c : Cursor) (p : PathNode) (k : String) (s : EvalState) where
  finish-Progress :
      (valid pushed : Bool) {t : EvalState}
      → Progress (opened pushed r c p k s) t
      → Progress s (finish valid pushed t)
  unfolding finish trace_enter open_frame
  finish-Progress valid pushed {t} h =
      let closed = close_frame_lem valid t s.frame s.outer h.outer in
      record {
        outer = ap (λ u. u.outer) closed;
        scope = scope_restored pushed r.base_uri _ _ (ap (λ u. u.dynamic_scope) closed ∙ h.scope);
        depth = ap (λ u. u.depth) closed ∙ h.depth;
        active = ap (λ u. drop_top u.active) closed ∙ ap drop_top h.active;
        tracing =
            map_trace-tracing _ (close_frame valid t).trace
            ∙ ap (λ u. is_some u.trace) closed
            ∙ h.tracing
            ∙ map_trace-tracing _ s.trace;
        errors = record {
          added = h.errors.added;
          whole = ap (λ u. u.errors) closed ∙ h.errors.whole;
        };
        annotations = record {
          added = (merged_annotations valid s.frame t.frame).added;
          whole =
              ap (λ u. u.frame.annotations) closed
              ∙ (merged_annotations valid s.frame t.frame).whole;
        };
        dependencies = record {
          added = (merged_dependencies valid s.frame t.frame).added;
          whole =
              ap (λ u. u.frame.dependencies) closed
              ∙ (merged_dependencies valid s.frame t.frame).whole;
        };
      }

  finish-rejected :
      (pushed : Bool) {t : EvalState}
      → Progress (opened pushed r c p k s) t
      → (finish false pushed t).frame ≡ s.frame
  unfolding finish trace_enter open_frame
  finish-rejected pushed {t} h = ap (λ u. u.frame) (close_frame_lem false t s.frame s.outer h.outer)

  finish-errors :
      (valid pushed : Bool) {t : EvalState}
      → Progress (opened pushed r c p k s) t
      → (finish valid pushed t).errors ≡ t.errors
  unfolding finish trace_enter open_frame
  finish-errors valid pushed {t} h =
      ap (λ u. u.errors) (close_frame_lem valid t s.frame s.outer h.outer)

  seal-Settled :
      (pushed : Bool) (m : Result (Unit {0}) × Bool × EvalState)
      → Looped true (opened pushed r c p k s) m
      → Settled (seal pushed m).0 s (seal pushed m).1
  unfolding trace_enter open_frame
  seal-Settled pushed (err e, valid, t) l = record {
    progress = finish-Progress valid pushed l.progress;
    accepted = λ q. cc;
    rejected = λ q. cc;
  }
  seal-Settled pushed (ok _, true, t) l = record {
    progress = finish-Progress true pushed l.progress;
    accepted = λ _. finish-errors true pushed l.progress ∙ l.accepted refl refl;
    rejected = λ q. cc;
  }
  seal-Settled pushed (ok _, false, t) l = record {
    progress = finish-Progress false pushed l.progress;
    accepted = λ q. cc;
    rejected = λ _. finish-rejected pushed l.progress;
  }

Settled-refl : {e : EngineError} (s : EvalState) → Settled (err e) s s
Settled-refl s = record { progress = Progress-refl s; accepted = λ q. cc; rejected = λ q. cc }

boolean_traced :
    (b : Bool) (r : SchemaRef) (c : Cursor) (p : PathNode) (s : EvalState)
    → is_some (apply_boolean b r c p s).trace ≡ is_some s.trace
unfolding apply_boolean trace_exit trace_enter push_error
boolean_traced true r c p s = map_trace-tracing _ _ ∙ map_trace-tracing _ s.trace
boolean_traced false r c p s = map_trace-tracing _ _ ∙ map_trace-tracing _ s.trace

module _ (env : Environment) (self : Application) (h : Progresses self) where
  entered-Settled :
      (d : Dialect) (r : SchemaRef) (ms : Members) (c : Cursor) (p : PathNode) (s : EvalState)
      → Settled
          (proceed (enter r c s) (λ _. apply_object env self d r ms c p)).0
          s
          (proceed (enter r c s) (λ _. apply_object env self d r ms c p)).1
  unfolding enter apply_object
  entered-Settled d r ms c p s = elim (Bool-cases (scan_active (ref_key r) c s.active)) [
    | inl again ↦ rw again (Settled-refl s)
    | inr fresh ↦
        rw fresh
          (seal-Settled r c p (ref_key r) s _ _ (evaluate_all-Looped env self h d r ms c p _))
  ]

  apply_boolean-Settled :
      (b : Bool) (r : SchemaRef) (c : Cursor) (p : PathNode) (s : EvalState)
      → Settled (ok b) s (apply_boolean b r c p s)
  unfolding apply_boolean
  apply_boolean-Settled true r c p s = record {
    progress = retraced _ (boolean_traced true r c p s) (Progress-refl s);
    accepted = λ _. refl;
    rejected = λ q. cc;
  }
  apply_boolean-Settled false r c p s = record {
    progress = retraced _ (boolean_traced false r c p s) (push_error-Progress _ s);
    accepted = λ q. cc;
    rejected = λ _. refl;
  }

  object-Settled :
      (r : SchemaRef) (ms : Members) (c : Cursor) (p : PathNode) (s : EvalState)
      → Settled
          (apply_node env self (object ms) r c p s).0
          s
          (apply_node env self (object ms) r c p s).1
  unfolding apply_node
  object-Settled r ms c p s = elim (Result-cases (env.registry.dialect_for r.base_uri)) [
    | inl (e, missing) ↦ rw (missing, apply_node) (Settled-refl s)
    | inr (d, found) ↦ rw (found, apply_node) (entered-Settled d r ms c p s)
  ]

  apply_node-Settled :
      (v : Json) (r : SchemaRef) (c : Cursor) (p : PathNode) (s : EvalState)
      → Settled (apply_node env self v r c p s).0 s (apply_node env self v r c p s).1
  unfolding apply_node
  apply_node-Settled (boolean b) r c p s = apply_boolean-Settled b r c p s
  apply_node-Settled (object ms) r c p s = object-Settled r ms c p s
  apply_node-Settled _ r c p s = Settled-refl s

surfaced-Settled :
    (s : EvalState) (m : Result Bool × EvalState)
    → Settled m.0 (deepen s) m.1
    → Settled (surfaced m).0 s (surfaced m).1
surfaced-Settled s m h = record {
  progress = record {
    outer = h.progress.outer;
    scope = h.progress.scope;
    depth = omega (arith, h.progress.depth);
    active = h.progress.active;
    tracing = h.progress.tracing;
    errors = h.progress.errors;
    annotations = h.progress.annotations;
    dependencies = h.progress.dependencies;
  };
  accepted = h.accepted;
  rejected = h.rejected;
}

-- Whatever the keywords do, and whether it returns or throws, an application of a schema leaves
-- the outer frames, the dynamic scope, the active applications and the depth as it found them, and
-- only adds to the errors and to the records of the open frame. If it accepts, it leaves no error
-- behind; if it rejects, the open frame is what it was.
pub apply_schema-Settled :
    (env : Environment) (fuel : ℕ) (r : SchemaRef) (c : Cursor) (p : PathNode) (s : EvalState)
    → Settled (apply_schema env fuel r c p s).0 s (apply_schema env fuel r c p s).1
unfolding apply_schema
apply_schema-Settled env zero r c p s = Settled-refl s
apply_schema-Settled env (suc fuel) r c p s = elim (Bool-cases (leb env.max_depth s.depth)) [
  | inl deep ↦ rw deep (Settled-refl s)
  | inr room ↦ rw room (
      surfaced-Settled s _ (
        apply_node-Settled env (apply_schema env fuel)
          (λ r' c' p' s'. (apply_schema-Settled env fuel r' c' p' s').progress) r.node r c p
          (deepen s)))
]
