-- ===== src/Schemas/Calls/Consistent.antt =====
-- packages/core/src/registry.ts: the indexes agree after any calls.
use json_schema_engine.Base.{ℕ, ◌≡◌, refl, sym, subst, Option, List, [], ◌∷◌, String}
use json_schema_engine.Json.{lookup}
use json_schema_engine.Schemas.Fallible.{Fallible, returns, throws}
use json_schema_engine.Schemas.State.{Node, Setting, Dialects, RangeLookup}
use json_schema_engine.Schemas.Commit.Consistent.{
  IsConsistentAt, IsConsistent, evict-IsConsistentAt, commit-IsConsistentAt,
}
use json_schema_engine.Schemas.Locate.{canonical}
use json_schema_engine.Schemas.Register.{
  SchemaRegistry, DialectView, ResourceCheck, register, unregister, apply, snapshot, new_registry,
  next_unresolved, take_unresolved,
}
use json_schema_engine.Schemas.Register.Inversion.{register-Registration, unregister-Removal}
use json_schema_engine.Schemas.Resolve.Untouched.{
  resolve_ref-indexes, dynamic_reference-indexes, recursive_reference-indexes,
  sync_dialects-indexes,
}
use json_schema_engine.Schemas.Calls.{
  Call, registers, unregisters, resolves, resolves_dynamic, resolves_recursive, takes_snapshot,
  takes_next, takes_all, view_at, registered, or_before, after_call, after_calls,
}

empty-IsConsistent : (view : DialectView) → IsConsistent (new_registry view).indexes
unfolding lookup
empty-IsConsistent view uri = record {
  dialects = refl;
  locations = refl;
  anchors = refl;
  dynamic = refl;
  roots = refl;
}

module _ (setting : Setting) (history : ℕ → Dialects) where
  registered-IsConsistent :
      (g : ℕ) (schema : Node) (uri : String) (dialect : Option String) (range : Option RangeLookup)
      (check : Option ResourceCheck) (r : SchemaRegistry)
      → IsConsistent r.indexes
      → (out : Fallible (String × SchemaRegistry))
      → register setting (view_at history g) schema uri dialect range check r ≡ out
      → IsConsistent (registered r out).indexes
  unfolding apply
  registered-IsConsistent g schema uri dialect range check r h (throws e) p k = h k
  registered-IsConsistent g schema uri dialect range check r h (returns (u, s)) p k =
      let done = register-Registration setting (view_at history g) p in
      subst (λ (x : SchemaRegistry). IsConsistentAt k x.indexes) done.applied
        (commit-IsConsistentAt k done.stage range r.indexes (h k))

  removed-IsConsistent :
      (g : ℕ) (uri : String) (r : SchemaRegistry)
      → IsConsistent r.indexes
      → (out : Fallible SchemaRegistry) → unregister setting (view_at history g) uri r ≡ out
      → IsConsistent (or_before r out).indexes
  removed-IsConsistent g uri r h (throws e) p k = h k
  removed-IsConsistent g uri r h (returns s) p k =
      let done = unregister-Removal setting (view_at history g) p in
      subst (λ (x : SchemaRegistry). IsConsistentAt k x.indexes) done.dropped
        (evict-IsConsistentAt (canonical done.split.resource r.indexes) k r.indexes (h k))

  after_call-IsConsistent :
      (c : ℕ × Call) (r : SchemaRegistry)
      → IsConsistent r.indexes
      → IsConsistent (after_call setting history c r).indexes
  unfolding after_call snapshot next_unresolved take_unresolved
  after_call-IsConsistent (g, registers schema uri dialect range check) r h =
      registered-IsConsistent g schema uri dialect range check r h _ refl
  after_call-IsConsistent (g, unregisters uri) r h = removed-IsConsistent g uri r h _ refl
  after_call-IsConsistent (g, resolves ref base) r h =
      subst IsConsistent (sym (resolve_ref-indexes setting (view_at history g) ref base r)) h
  after_call-IsConsistent (g, resolves_dynamic ref base) r h =
      subst IsConsistent (sym (dynamic_reference-indexes setting (view_at history g) ref base r)) h
  after_call-IsConsistent (g, resolves_recursive ref base) r h =
      subst IsConsistent (sym (recursive_reference-indexes setting (view_at history g) ref base r))
        h
  after_call-IsConsistent (g, takes_snapshot) r h =
      subst IsConsistent (sym (sync_dialects-indexes setting (view_at history g) r)) h
  after_call-IsConsistent (g, takes_next) r h = h
  after_call-IsConsistent (g, takes_all) r h = h

  kept-IsConsistent :
      (cs : List (ℕ × Call)) (r : SchemaRegistry)
      → IsConsistent r.indexes
      → IsConsistent (after_calls setting history cs r).indexes
  unfolding after_calls
  kept-IsConsistent [] r h = h
  kept-IsConsistent (c ∷ cs) r h = kept-IsConsistent cs _ (after_call-IsConsistent c r h)

  -- After any calls of a new registry, whether or not some threw: under each URI the document, its
  -- dialect and its location are there together or not at all, and anchors, dynamic anchors and a
  -- recursive root are there only beside a document.
  pub after_calls-IsConsistent :
      (cs : List (ℕ × Call)) (start : ℕ)
      → IsConsistent (after_calls setting history cs (new_registry (view_at history start))).indexes
  after_calls-IsConsistent cs start =
      kept-IsConsistent cs (new_registry (view_at history start))
        (empty-IsConsistent (view_at history start))
