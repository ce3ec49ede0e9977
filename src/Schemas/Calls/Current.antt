-- ===== src/Schemas/Calls/Current.antt =====
-- packages/core/src/registry.ts: the memos are current, whatever was called before.
use json_schema_engine.Base.{
  ℕ, ◌==◌, ==_iff, ◌≡◌, refl, sym, ap, subst, ◌∙◌, Bool, true, false, Option, List, [], ◌∷◌, String,
  arith, if◌then◌else◌,
}
use json_schema_engine.Schemas.Fallible.{Fallible, returns, throws}
use json_schema_engine.Schemas.State.{Node, RangeLookup, Setting, Dialects}
use json_schema_engine.Schemas.Commit.{evict}
use json_schema_engine.Schemas.Locate.{
  canonical, resolution, dynamic_resolution, recursive_resolution,
}
use json_schema_engine.Schemas.Register.{
  ResourceCheck, SchemaRegistry, no_memos, DialectView, register, unregister, apply, sync_dialects,
  snapshot, new_registry, next_unresolved, take_unresolved,
}
use json_schema_engine.Schemas.Register.Inversion.{register-Registration, unregister-Removal}
use json_schema_engine.Schemas.Resolve.{resolve_ref, dynamic_reference, recursive_reference}
use json_schema_engine.Schemas.Resolve.Transparent.{
  SoundFor, IsSound-empty, Transparent, plain-Transparent,
}
use json_schema_engine.Schemas.Resolve.Dynamic.{dynamic_memo-Transparent}
use json_schema_engine.Schemas.Resolve.Recursive.{recursive_memo-Transparent}
use json_schema_engine.Schemas.Calls.{
  Call, registers, unregisters, resolves, resolves_dynamic, resolves_recursive, takes_snapshot,
  takes_next, takes_all, view_at, registered, or_before, after_call, after_calls,
}

no_memos-SoundFor :
    (setting : Setting) (d : Dialects) (r : SchemaRegistry)
    → SoundFor setting d (record r { memos = no_memos })
no_memos-SoundFor setting d r = record {
  refs = IsSound-empty _ _;
  dynamics = IsSound-empty _ _;
  recursives = IsSound-empty _ _;
}

module _ (setting : Setting) (history : ℕ → Dialects) where
  abbrev IsCurrent : SchemaRegistry → Type 0
  IsCurrent r = SoundFor setting (history r.dialect_generation) r

  -- After the check of the generation.
  synced :
      (g : ℕ) (r : SchemaRegistry) (b : Bool)
      → (r.dialect_generation == g) ≡ b
      → IsCurrent r
      → SoundFor setting
          (history g)
          (if b then r else record r { dialect_generation = g; memos = no_memos })
        × ((if b
              then r
              else record r { dialect_generation = g; memos = no_memos }).dialect_generation
            ≡ g)
  synced g r true e h =
      let same : r.dialect_generation ≡ g = (==_iff r.dialect_generation g).0 e in
      (subst (λ k. SoundFor setting (history k) r) same h, same)
  synced g r false e h =
      (no_memos-SoundFor setting (history g) (record r { dialect_generation = g }), refl)

  sync_dialects-IsCurrent :
      (g : ℕ) (r : SchemaRegistry)
      → IsCurrent r
      → SoundFor setting (history g) (sync_dialects (view_at history g) r)
        × ((sync_dialects (view_at history g) r).dialect_generation ≡ g)
  unfolding sync_dialects
  sync_dialects-IsCurrent g r h = synced g r (r.dialect_generation == g) refl h

  -- A lookup that is transparent on a registry of the generation leaves it current.
  Transparent-IsCurrent :
      {A : Type 0} (g : ℕ) (s : SchemaRegistry) (x : Fallible A) (out : Fallible A × SchemaRegistry)
      → s.dialect_generation ≡ g
      → Transparent setting (history g) s x out
      → IsCurrent out.1
  Transparent-IsCurrent g s x out e (m, p, h) =
      rw p (subst (λ k. SoundFor setting (history k) (record s { memos = m })) (sym e) h)

  -- A registration or a removal that returns starts with no memos, and another changes nothing.
  registered-IsCurrent :
      (g : ℕ) (schema : Node) (uri : String) (dialect : Option String) (range : Option RangeLookup)
      (check : Option ResourceCheck) (r : SchemaRegistry)
      → IsCurrent r
      → (out : Fallible (String × SchemaRegistry))
      → register setting (view_at history g) schema uri dialect range check r ≡ out
      → IsCurrent (registered r out)
  unfolding apply
  registered-IsCurrent g schema uri dialect range check r h (throws e) p = h
  registered-IsCurrent g schema uri dialect range check r h (returns (u, s)) p =
      let done = register-Registration setting (view_at history g) p in
      subst IsCurrent done.applied
        (no_memos-SoundFor setting _ (apply setting (view_at history g) done.stage range r))

  removed-IsCurrent :
      (g : ℕ) (uri : String) (r : SchemaRegistry)
      → IsCurrent r
      → (out : Fallible SchemaRegistry) → unregister setting (view_at history g) uri r ≡ out
      → IsCurrent (or_before r out)
  removed-IsCurrent g uri r h (throws e) p = h
  removed-IsCurrent g uri r h (returns s) p =
      let done = unregister-Removal setting (view_at history g) p in
      subst IsCurrent done.dropped (
        no_memos-SoundFor setting _
          (record r { indexes = evict (canonical done.split.resource r.indexes) r.indexes }))

  after_call-IsCurrent :
      (c : ℕ × Call) (r : SchemaRegistry) → IsCurrent r → IsCurrent (after_call setting history c r)
  unfolding after_call resolve_ref dynamic_reference recursive_reference snapshot next_unresolved
      take_unresolved
  after_call-IsCurrent (g, registers schema uri dialect range check) r h =
      registered-IsCurrent g schema uri dialect range check r h _ refl
  after_call-IsCurrent (g, unregisters uri) r h = removed-IsCurrent g uri r h _ refl
  after_call-IsCurrent (g, resolves ref base) r h =
      let (k, e) = sync_dialects-IsCurrent g r h in
      Transparent-IsCurrent g (sync_dialects (view_at history g) r) _ _ e
        (plain-Transparent setting (view_at history g) ref base _ k)
  after_call-IsCurrent (g, resolves_dynamic ref base) r h =
      let (k, e) = sync_dialects-IsCurrent g r h in
      Transparent-IsCurrent g (sync_dialects (view_at history g) r) _ _ e
        (dynamic_memo-Transparent setting (view_at history g) ref base _ _ k refl)
  after_call-IsCurrent (g, resolves_recursive ref base) r h =
      let (k, e) = sync_dialects-IsCurrent g r h in
      Transparent-IsCurrent g (sync_dialects (view_at history g) r) _ _ e
        (recursive_memo-Transparent setting (view_at history g) ref base _ _ k refl)
  after_call-IsCurrent (g, takes_snapshot) r h =
      let (k, e) = sync_dialects-IsCurrent g r h in
      subst (λ n. SoundFor setting (history n) (sync_dialects (view_at history g) r)) (sym e) k
  after_call-IsCurrent (g, takes_next) r h = record {
    refs = h.refs;
    dynamics = h.dynamics;
    recursives = h.recursives;
  }
  after_call-IsCurrent (g, takes_all) r h = record {
    refs = h.refs;
    dynamics = h.dynamics;
    recursives = h.recursives;
  }

  after_calls-IsCurrent :
      (cs : List (ℕ × Call)) (r : SchemaRegistry)
      → IsCurrent r
      → IsCurrent (after_calls setting history cs r)
  unfolding after_calls
  after_calls-IsCurrent [] r h = h
  after_calls-IsCurrent (c ∷ cs) r h = after_calls-IsCurrent cs _ (after_call-IsCurrent c r h)

  sync_dialects-indexes :
      (view : DialectView) (r : SchemaRegistry) → (sync_dialects view r).indexes ≡ r.indexes
  unfolding sync_dialects
  sync_dialects-indexes view r = ground arith

  -- The answer of a transparent lookup on a registry with these indexes.
  answered :
      {A : Type 0} (g : ℕ) (s : SchemaRegistry) (x : Fallible A) (out : Fallible A × SchemaRegistry)
      → Transparent setting (history g) s x out
      → out.0 ≡ x
  answered g s x out (m, p, h) = ap (λ o. o.0) p

  current_lookups :
      (r : SchemaRegistry)
      → IsCurrent r
      → (g : ℕ) (ref base : String)
      → ((resolve_ref setting (view_at history g) ref base r).0
          ≡ resolution setting (history g) r.indexes ref base)
        × ((dynamic_reference setting (view_at history g) ref base r).0
            ≡ dynamic_resolution setting (history g) r.indexes ref base)
        × ((recursive_reference setting (view_at history g) ref base r).0
            ≡ recursive_resolution setting (history g) r.indexes ref base)
  unfolding resolve_ref dynamic_reference recursive_reference
  current_lookups r h g ref base =
      let view = view_at history g in
      let s = sync_dialects view r in
      let k = (sync_dialects-IsCurrent g r h).0 in
      let same = sync_dialects-indexes view r in
      (
        answered g s _ _ (plain-Transparent setting view ref base s k)
            ∙ ap (λ i. resolution setting (history g) i ref base) same,
        answered g s _ _ (dynamic_memo-Transparent setting view ref base s _ k refl)
            ∙ ap (λ i. dynamic_resolution setting (history g) i ref base) same,
        answered g s _ _ (recursive_memo-Transparent setting view ref base s _ k refl)
            ∙ ap (λ i. recursive_resolution setting (history g) i ref base) same,
      )

  -- After any calls of a new registry, whether or not some threw, and at any generation of the
  -- dialects, `resolveRef`, `dynamicReference` and `recursiveReference` return or throw what the
  -- resolution of the reference gives on the indexes and dialects of that moment: no memo is stale.
  pub lookups_current :
      (cs : List (ℕ × Call)) (start g : ℕ) (ref base : String)
      → let r = after_calls setting history cs (new_registry (view_at history start)) in
        ((resolve_ref setting (view_at history g) ref base r).0
          ≡ resolution setting (history g) r.indexes ref base)
        × ((dynamic_reference setting (view_at history g) ref base r).0
            ≡ dynamic_resolution setting (history g) r.indexes ref base)
        × ((recursive_reference setting (view_at history g) ref base r).0
            ≡ recursive_resolution setting (history g) r.indexes ref base)
  lookups_current cs start g ref base =
      current_lookups (after_calls setting history cs (new_registry (view_at history start)))
        (after_calls-IsCurrent cs (new_registry (view_at history start))
          (no_memos-SoundFor setting (history start) (new_registry (view_at history start))))
        g ref base
