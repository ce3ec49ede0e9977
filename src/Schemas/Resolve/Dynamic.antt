-- ===== src/Schemas/Resolve/Dynamic.antt =====
-- packages/core/src/registry.ts: the memo of `dynamicReference`.
use json_schema_engine.Base.{◌≡◌, refl, sym, ap, Option, none, some, String}
use json_schema_engine.Schemas.Fallible.{Fallible, returns, ◌>>=◌, throws}
use json_schema_engine.Schemas.Uri.{SplitUri, resolve_split}
use json_schema_engine.Schemas.State.{Ref, Setting}
use json_schema_engine.Schemas.Locate.{dynamic_resolution, dynamic_part}
use json_schema_engine.Schemas.Register.{Memos, SchemaRegistry, DialectView, memo_get, memo_set}
use json_schema_engine.Schemas.Resolve.{dynamic_memo, new_dynamic, keep_dynamic}
use json_schema_engine.Schemas.Resolve.Transparent.{
  IsSound-memo_set, Clear, SoundAt, spec_at, lexical_target, resolve_memo-Transparent,
}

module _ (setting : Setting) (view : DialectView) where
  dynamic_spec-eq :
      (ref base : String) (split : SplitUri) (r : SchemaRegistry) (x : Fallible Ref)
      → resolve_split setting.parser ref base ≡ returns split
      → spec_at setting view r ref base ≡ x
      → dynamic_resolution setting view.dialects r.indexes ref base
        ≡ (x >>= λ lexical. returns (dynamic_part setting view.dialects r.indexes split lexical))
  unfolding dynamic_resolution
  dynamic_spec-eq ref base split r x e p =
      rw (e, lexical_target setting view ref base split r e, p) refl

  keep_dynamic-Transparent :
      (split : SplitUri) (ref base : String) (r : SchemaRegistry) (x : Fallible Ref) (m : Memos)
      → SoundAt setting view (record r { memos = m })
      → dynamic_resolution setting view.dialects r.indexes ref base
        ≡ (x >>= λ lexical. returns (dynamic_part setting view.dialects r.indexes split lexical))
      → Clear setting view r
          (dynamic_resolution setting view.dialects r.indexes ref base)
          (keep_dynamic setting view split ref base (x, record r { memos = m }))
  unfolding keep_dynamic
  keep_dynamic-Transparent split ref base r (throws e) m h p =
      (m, ap (λ x. (x, record r { memos = m })) (sym p), h)
  keep_dynamic-Transparent split ref base r (returns lexical) m h p =
      let result = dynamic_part setting view.dialects r.indexes split lexical in
      (
        record m { dynamics = memo_set base ref result m.dynamics },
        ap
            (λ x.
              (x, record r { memos = record m { dynamics = memo_set base ref result m.dynamics } }))
            (sym p),
        record {
          refs = h.refs;
          dynamics = IsSound-memo_set _ _ m.dynamics base ref result h.dynamics (sym p);
          recursives = h.recursives;
        },
      )

  new_dynamic-Transparent :
      (ref base : String) (r : SchemaRegistry) (s : Fallible SplitUri)
      → SoundAt setting view r
      → resolve_split setting.parser ref base ≡ s
      → Clear setting view r
          (dynamic_resolution setting view.dialects r.indexes ref base)
          (new_dynamic setting view s ref base r)
  unfolding new_dynamic dynamic_resolution
  new_dynamic-Transparent ref base r (throws e) h p = (r.memos, rw p refl, h)
  new_dynamic-Transparent ref base r (returns split) h p =
      let (m, e, k) =
        resolve_memo-Transparent setting view ref base (some split) r h
          (lexical_target setting view ref base split r p) in
      rw e (
        keep_dynamic-Transparent split ref base r (spec_at setting view r ref base) m k
          (dynamic_spec-eq ref base split r (spec_at setting view r ref base) p refl))

  pub dynamic_memo-Transparent :
      (ref base : String) (r : SchemaRegistry) (o : Option (Ref × Option String))
      → SoundAt setting view r
      → memo_get base ref r.memos.dynamics ≡ o
      → Clear setting view r
          (dynamic_resolution setting view.dialects r.indexes ref base)
          (dynamic_memo setting view o ref base r)
  unfolding dynamic_memo
  dynamic_memo-Transparent ref base r none h p = new_dynamic-Transparent ref base r _ h refl
  dynamic_memo-Transparent ref base r (some v) h p =
      (r.memos, ap (λ x. (x, r)) (h.dynamics base ref v p), h)
