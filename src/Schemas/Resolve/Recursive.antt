-- ===== src/Schemas/Resolve/Recursive.antt =====
-- packages/core/src/registry.ts: the memo of `recursiveReference`.
use json_schema_engine.Base.{◌≡◌, refl, sym, ap, Bool, Option, none, some, String}
use json_schema_engine.Schemas.Fallible.{Fallible, returns, ◌>>=◌, throws}
use json_schema_engine.Schemas.Uri.{SplitUri, resolve_split}
use json_schema_engine.Schemas.State.{Ref, Setting}
use json_schema_engine.Schemas.Locate.{recursive_resolution, recursive_part}
use json_schema_engine.Schemas.Register.{Memos, SchemaRegistry, DialectView, memo_get, memo_set}
use json_schema_engine.Schemas.Resolve.{recursive_memo, new_recursive, keep_recursive}
use json_schema_engine.Schemas.Resolve.Transparent.{
  IsSound-memo_set, Clear, SoundAt, spec_at, lexical_target, resolve_memo-Transparent,
}

module _ (setting : Setting) (view : DialectView) where
  recursive_spec-eq :
      (ref base : String) (split : SplitUri) (r : SchemaRegistry) (x : Fallible Ref)
      → resolve_split setting.parser ref base ≡ returns split
      → spec_at setting view r ref base ≡ x
      → recursive_resolution setting view.dialects r.indexes ref base
        ≡ (x >>= λ lexical. returns (recursive_part setting view.dialects r.indexes split lexical))
  unfolding recursive_resolution
  recursive_spec-eq ref base split r x e p =
      rw (e, lexical_target setting view ref base split r e, p) refl

  keep_recursive-Transparent :
      (split : SplitUri) (ref base : String) (r : SchemaRegistry) (x : Fallible Ref) (m : Memos)
      → SoundAt setting view (record r { memos = m })
      → recursive_resolution setting view.dialects r.indexes ref base
        ≡ (x >>= λ lexical. returns (recursive_part setting view.dialects r.indexes split lexical))
      → Clear setting view r
          (recursive_resolution setting view.dialects r.indexes ref base)
          (keep_recursive setting view split ref base (x, record r { memos = m }))
  unfolding keep_recursive
  keep_recursive-Transparent split ref base r (throws e) m h p =
      (m, ap (λ x. (x, record r { memos = m })) (sym p), h)
  keep_recursive-Transparent split ref base r (returns lexical) m h p =
      let result = recursive_part setting view.dialects r.indexes split lexical in
      (
        record m { recursives = memo_set base ref result m.recursives },
        ap
            (λ x. (
              x,
              record r { memos = record m { recursives = memo_set base ref result m.recursives } },
            ))
            (sym p),
        record {
          refs = h.refs;
          recursives = IsSound-memo_set _ _ m.recursives base ref result h.recursives (sym p);
          dynamics = h.dynamics;
        },
      )

  new_recursive-Transparent :
      (ref base : String) (r : SchemaRegistry) (s : Fallible SplitUri)
      → SoundAt setting view r
      → resolve_split setting.parser ref base ≡ s
      → Clear setting view r
          (recursive_resolution setting view.dialects r.indexes ref base)
          (new_recursive setting view s ref base r)
  unfolding new_recursive recursive_resolution
  new_recursive-Transparent ref base r (throws e) h p = (r.memos, rw p refl, h)
  new_recursive-Transparent ref base r (returns split) h p =
      let (m, e, k) =
        resolve_memo-Transparent setting view ref base (some split) r h
          (lexical_target setting view ref base split r p) in
      rw e (
        keep_recursive-Transparent split ref base r (spec_at setting view r ref base) m k
          (recursive_spec-eq ref base split r (spec_at setting view r ref base) p refl))

  pub recursive_memo-Transparent :
      (ref base : String) (r : SchemaRegistry) (o : Option (Ref × Bool))
      → SoundAt setting view r
      → memo_get base ref r.memos.recursives ≡ o
      → Clear setting view r
          (recursive_resolution setting view.dialects r.indexes ref base)
          (recursive_memo setting view o ref base r)
  unfolding recursive_memo
  recursive_memo-Transparent ref base r none h p = new_recursive-Transparent ref base r _ h refl
  recursive_memo-Transparent ref base r (some v) h p =
      (r.memos, ap (λ x. (x, r)) (h.recursives base ref v p), h)
