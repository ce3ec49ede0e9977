-- ===== src/Engine/Verdict.antt =====
-- packages/core/src/engine.ts: what one keyword and the loops over them do to the errors.
use mathlib.Core.Bool.{and-eq-true_iff}
use json_schema_engine.Base.{
  ◌≡◌, refl, sym, ◌∙◌, ap, Bool, true, false, ◌&&◌, List, [], ◌∷◌, String, arith, ltb, Bool-cases,
  append-nil, inl, inr, Result, ok, err, length, take_of_Extends, eq_of_Extends, if_holds,
}
use json_schema_engine.Json.{Members}
use json_schema_engine.Cursor.{Cursor, SchemaRef}
use json_schema_engine.Engine.State.{PathNode, EvalState, Exec, AnnotationRecord}
use json_schema_engine.Engine.Operations.{push_annotation, drop_errors_from, trace_keyword}
use json_schema_engine.Engine.Program.{DialectKeyword, Dialect, Environment}
use json_schema_engine.Engine.Context.{Application}
use json_schema_engine.Engine.Apply.{
  proceed, settle_errors, conclude, evaluate_keyword, collect_unknown, continue_loop, each,
  evaluate_all, node_table, follow,
}
use json_schema_engine.Engine.Progress.{
  Progress, Progress-refl, Progress-trans, Progresses, run-Progress, retraced, map_trace-tracing,
  push_annotation-Progress,
}

-- The step made progress, and accepted only with the errors as it found them.
pub record Judged (r : Result Bool) (s t : EvalState) : Type 0 where
  pub progress : Progress s t
  pub accepted : r ≡ ok true → t.errors ≡ s.errors

abbrev pub Judges {ℓ} : {A : Type ℓ} → (A → Exec Bool) → Type ℓ
Judges {A} f = (a : A) (s : EvalState) → Judged (f a s).0 s (f a s).1

drop-Judged :
    (s t : EvalState) → Progress s t → Judged (ok true) s (drop_errors_from (length s.errors) t)
unfolding drop_errors_from
drop-Judged s t h = record {
  progress = record {
    outer = h.outer;
    scope = h.scope;
    depth = h.depth;
    active = h.active;
    tracing = map_trace-tracing _ t.trace ∙ h.tracing;
    errors = record { added = []; whole = take_of_Extends h.errors ∙ sym (append-nil s.errors) };
    annotations = h.annotations;
    dependencies = h.dependencies;
  };
  accepted = λ _. take_of_Extends h.errors;
}

settle_errors-Judged :
    (s t : EvalState) (b : Bool)
    → Progress s t
    → Judged (ok b) s (settle_errors b (length s.errors) t)
unfolding settle_errors
settle_errors-Judged s t false h = record { progress = h; accepted = λ e. cc }
settle_errors-Judged s t true h = elim (Bool-cases (ltb (length s.errors) (length t.errors))) [
  | inl longer ↦ rw longer (drop-Judged s t h)
  | inr equal ↦
      rw equal (record { progress = h; accepted = λ _. eq_of_Extends h.errors (ground arith) })
]

trace_keyword-Judged :
    (name : String) (b : Bool) {r : Result Bool} {s t : EvalState}
    → Judged r s t
    → Judged r s (trace_keyword name b t)
unfolding trace_keyword
trace_keyword-Judged name b {t = t} h = record {
  progress = retraced _ (map_trace-tracing _ t.trace) h.progress;
  accepted = h.accepted;
}

conclude-Judged :
    (entry : DialectKeyword) (s t : EvalState) (b reported : Bool)
    → Progress s t
    → Judged
        (conclude entry (length s.errors) (b, reported) t).0
        s
        (conclude entry (length s.errors) (b, reported) t).1
unfolding conclude
conclude-Judged entry s t true true h = record { progress = h; accepted = λ e. cc }
conclude-Judged entry s t b reported h =
    if_holds (Judged (ok b) s) entry.behavior.structural (settle_errors-Judged s t b h)
      (trace_keyword-Judged entry.name b (settle_errors-Judged s t b h))

-- The verdict of a keyword is reached with its errors settled.
proceed-Judged :
    (s : EvalState) (entry : DialectKeyword) (m : Result (Bool × Bool) × EvalState)
    → Progress s m.1
    → Judged
        (proceed m (conclude entry (length s.errors))).0
        s
        (proceed m (conclude entry (length s.errors))).1
proceed-Judged s entry (ok (b, reported), t) h = conclude-Judged entry s t b reported h
proceed-Judged s entry (err e, t) h = record { progress = h; accepted = λ q. cc }

-- What a loop of such steps gives; the verdict is the one it started with, if all accepted.
pub record Looped (valid : Bool) (s : EvalState) (m : Result (Unit {0}) × Bool × EvalState)
    : Type 0 where
  pub progress : Progress s m.2
  pub accepted : m.0 ≡ ok tt → m.1 ≡ true → m.2.errors ≡ s.errors
  pub began : m.1 ≡ true → valid ≡ true

module _ {ℓ} {A : Type ℓ} (f : A → Exec Bool) (h : Judges f) where
  pub each-Looped :
      (xs : List A) (valid : Bool) (s : EvalState) → Looped valid s (each f xs valid s)
  unfolding each
  each-Looped [] valid s = record {
    progress = Progress-refl s;
    accepted = λ _ _. refl;
    began = λ e. e;
  }
  each-Looped (x ∷ xs) valid s = next (f x s) (h x s) (each-Looped xs)
    where
      next :
          (m : Result Bool × EvalState)
          → Judged m.0 s m.1
          → ((v : Bool) (t : EvalState) → Looped v t (each f xs v t))
          → Looped valid s (continue_loop valid m (each f xs))
      next (err e, t) j ih = record { progress = j.progress; accepted = λ q. cc; began = λ q. q }
      next (ok b, t) j ih =
          let l = ih (valid && b) t in
          record {
            progress = Progress-trans j.progress l.progress;
            accepted = λ p q.
                l.accepted p q ∙ j.accepted (ap ok ((and-eq-true_iff valid b).0 (l.began q)).1);
            began = λ q. ((and-eq-true_iff valid b).0 (l.began q)).0;
          }

Judged-refl : {r : Result Bool} (s : EvalState) → Judged r s s
Judged-refl s = record { progress = Progress-refl s; accepted = λ _. refl }

follow-Looped :
    {valid : Bool} (s : EvalState) (m : Result (Unit {0}) × Bool × EvalState)
    (f : Bool → EvalState → Result (Unit {0}) × Bool × EvalState)
    → Looped valid s m
    → ((v : Bool) (t : EvalState) → Looped v t (f v t))
    → Looped valid s (follow m f)
follow-Looped s (err e, v, t) f l k = l
follow-Looped s (ok _, v, t) f l k =
    let n = k v t in
    record {
      progress = Progress-trans l.progress n.progress;
      accepted = λ p q. n.accepted p q ∙ l.accepted refl (n.began q);
      began = λ q. l.began (n.began q);
    }

push_annotation-Judged :
    (a : AnnotationRecord) {t s : EvalState}
    → Judged (ok true) s t
    → Judged (ok true) s (push_annotation a t)
unfolding push_annotation
push_annotation-Judged a {t} j = record {
  progress = Progress-trans j.progress (push_annotation-Progress a t);
  accepted = j.accepted;
}

pub collect_unknown-Judged :
    (env : Environment) (d : Dialect) (r : SchemaRef) (ms : Members) (c : Cursor) (p : PathNode)
    → Judges (collect_unknown env d r ms c p)
unfolding collect_unknown
collect_unknown-Judged env d r ms c p name s = elim (Bool-cases d.allow_unknown_keywords) [
  | inl allowed ↦ rw allowed (
      if_holds (Judged (ok true) s) _
        (push_annotation-Judged _ (trace_keyword-Judged name true (Judged-refl s)))
        (trace_keyword-Judged name true (Judged-refl s)))
  | inr refused ↦ rw refused (Judged-refl s)
]

module _ (env : Environment) (self : Application) (h : Progresses self) where
  pub evaluate_keyword-Judged :
      (r : SchemaRef) (ms : Members) (c : Cursor) (p : PathNode)
      → Judges (evaluate_keyword env self r ms c p)
  unfolding evaluate_keyword
  evaluate_keyword-Judged r ms c p entry s =
      proceed-Judged s entry _ (run-Progress env self _ h (entry.behavior.evaluate _ c ms) false s)

  pub evaluate_all-Looped :
      (d : Dialect) (r : SchemaRef) (ms : Members) (c : Cursor) (p : PathNode) (s : EvalState)
      → Looped true s (evaluate_all env self d r ms c p s)
  unfolding evaluate_all
  evaluate_all-Looped d r ms c p s =
      follow-Looped s _ _
        (each-Looped _ (evaluate_keyword-Judged r ms c p) (node_table ms d).0 true s)
        (each-Looped _ (collect_unknown-Judged env d r ms c p) (node_table ms d).1)
