-- ===== src/Schemas/Resolve/Untouched.antt =====
-- packages/core/src/registry.ts: a lookup leaves the indexes as they are.
use json_schema_engine.Base.{◌≡◌, refl, ◌∙◌, Option, none, some, String, arith, Bool}
use json_schema_engine.Schemas.Fallible.{Fallible, returns, throws}
use json_schema_engine.Schemas.Uri.{SplitUri, resolve_split}
use json_schema_engine.Schemas.State.{Ref, Setting}
use json_schema_engine.Schemas.Register.{
  RefEntry, SchemaRegistry, DialectView, sync_dialects, memo_get,
}
use json_schema_engine.Schemas.Resolve.{
  resolve_memo, from_memo, resolve_ref, keep_dynamic, new_dynamic, dynamic_memo, dynamic_reference,
  keep_recursive, new_recursive, recursive_memo, recursive_reference,
}

module _ (setting : Setting) (view : DialectView) where
  pub sync_dialects-indexes : (r : SchemaRegistry) → (sync_dialects view r).indexes ≡ r.indexes
  unfolding sync_dialects
  sync_dialects-indexes r = ground arith

  from_memo-indexes :
      (o : Option RefEntry) (split : Option SplitUri) (ref base : String) (r : SchemaRegistry)
      → (from_memo setting view o split ref base r).1.indexes ≡ r.indexes
  unfolding from_memo
  from_memo-indexes none split ref base r = refl
  from_memo-indexes (some entry) split ref base r = refl

  resolve_memo-indexes :
      (ref base : String) (split : Option SplitUri) (r : SchemaRegistry)
      → (resolve_memo setting view ref base split r).1.indexes ≡ r.indexes
  unfolding resolve_memo
  resolve_memo-indexes ref base split r =
      from_memo-indexes (memo_get base ref r.memos.refs) split ref base r

  pub resolve_ref-indexes :
      (ref base : String) (r : SchemaRegistry)
      → (resolve_ref setting view ref base r).1.indexes ≡ r.indexes
  unfolding resolve_ref
  resolve_ref-indexes ref base r =
      resolve_memo-indexes ref base none (sync_dialects view r) ∙ sync_dialects-indexes r

  keep_dynamic-indexes :
      (split : SplitUri) (ref base : String) (out : Fallible Ref × SchemaRegistry)
      → (keep_dynamic setting view split ref base out).1.indexes ≡ out.1.indexes
  unfolding keep_dynamic
  keep_dynamic-indexes split ref base (throws e, r) = refl
  keep_dynamic-indexes split ref base (returns x, r) = refl

  new_dynamic-indexes :
      (s : Fallible SplitUri) (ref base : String) (r : SchemaRegistry)
      → (new_dynamic setting view s ref base r).1.indexes ≡ r.indexes
  unfolding new_dynamic
  new_dynamic-indexes (throws e) ref base r = refl
  new_dynamic-indexes (returns split) ref base r =
      keep_dynamic-indexes split ref base _ ∙ resolve_memo-indexes ref base (some split) r

  dynamic_memo-indexes :
      (o : Option (Ref × Option String)) (ref base : String) (r : SchemaRegistry)
      → (dynamic_memo setting view o ref base r).1.indexes ≡ r.indexes
  unfolding dynamic_memo
  dynamic_memo-indexes none ref base r =
      new_dynamic-indexes (resolve_split setting.parser ref base) ref base r
  dynamic_memo-indexes (some v) ref base r = refl

  pub dynamic_reference-indexes :
      (ref base : String) (r : SchemaRegistry)
      → (dynamic_reference setting view ref base r).1.indexes ≡ r.indexes
  unfolding dynamic_reference
  dynamic_reference-indexes ref base r =
      dynamic_memo-indexes _ ref base (sync_dialects view r) ∙ sync_dialects-indexes r

  keep_recursive-indexes :
      (split : SplitUri) (ref base : String) (out : Fallible Ref × SchemaRegistry)
      → (keep_recursive setting view split ref base out).1.indexes ≡ out.1.indexes
  unfolding keep_recursive
  keep_recursive-indexes split ref base (throws e, r) = refl
  keep_recursive-indexes split ref base (returns x, r) = refl

  new_recursive-indexes :
      (s : Fallible SplitUri) (ref base : String) (r : SchemaRegistry)
      → (new_recursive setting view s ref base r).1.indexes ≡ r.indexes
  unfolding new_recursive
  new_recursive-indexes (throws e) ref base r = refl
  new_recursive-indexes (returns split) ref base r =
      keep_recursive-indexes split ref base _ ∙ resolve_memo-indexes ref base (some split) r

  recursive_memo-indexes :
      (o : Option (Ref × Bool)) (ref base : String) (r : SchemaRegistry)
      → (recursive_memo setting view o ref base r).1.indexes ≡ r.indexes
  unfolding recursive_memo
  recursive_memo-indexes none ref base r =
      new_recursive-indexes (resolve_split setting.parser ref base) ref base r
  recursive_memo-indexes (some v) ref base r = refl

  pub recursive_reference-indexes :
      (ref base : String) (r : SchemaRegistry)
      → (recursive_reference setting view ref base r).1.indexes ≡ r.indexes
  unfolding recursive_reference
  recursive_reference-indexes ref base r =
      recursive_memo-indexes _ ref base (sync_dialects view r) ∙ sync_dialects-indexes r
