-- ===== src/Schemas/Resolve.antt =====
-- packages/core/src/registry.ts: `resolveMemo`, `resolveRef`, `dynamicReference` and
-- `recursiveReference`, each with the memo that it reads and writes.
pub mod Transparent
pub mod Dynamic
pub mod Recursive
pub mod Untouched
use json_schema_engine.Base.{
  ℕ, ◌+◌, ltb, Bool, true, false, Option, none, some, String, if◌then◌else◌,
}
use json_schema_engine.Schemas.Fallible.{
  Fallible, returns, throws, SchemaError, unresolvable_ref, ◌>>=◌,
}
use json_schema_engine.Schemas.Uri.{SplitUri, resolve_split}
use json_schema_engine.Schemas.State.{Ref, Setting}
use json_schema_engine.Schemas.Locate.{locate, dynamic_part, recursive_part}
use json_schema_engine.Schemas.Register.{
  RefEntry, hit, miss, SchemaRegistry, DialectView, Memos, sync_dialects, memo_get, memo_set,
}

-- `MAX_MEMOIZED_MISSES`
abbrev pub max_memoized_misses : ℕ
max_memoized_misses = 1024

-- The message of an `UnresolvableRefError`; no other failure is remembered.
abbrev pub miss_message : SchemaError → Option String
miss_message (unresolvable_ref m) = some m
miss_message _ = none

abbrev pub answer : RefEntry → Fallible Ref
answer (hit r) = returns r
answer (miss m) = throws (unresolvable_ref m)

abbrev pub remember_miss : String → String → Option String → Memos → Memos
unfolding memo_set
remember_miss base ref none m = m
remember_miss base ref (some message) m =
    if ltb m.misses max_memoized_misses
    then record m { refs = memo_set base ref (miss message) m.refs; misses = m.misses + 1 }
    else m

abbrev pub remember : String → String → Fallible Ref → Memos → Memos
unfolding memo_set remember_miss
remember base ref (returns found) m = record m { refs = memo_set base ref (hit found) m.refs }
remember base ref (throws e) m = remember_miss base ref (miss_message e) m

module _ (setting : Setting) (view : DialectView) where
  abbrev attempt : Option SplitUri → String → String → SchemaRegistry → Fallible Ref
  attempt (some split) ref base r = locate setting view.dialects r.indexes split
  attempt none ref base r =
      resolve_split setting.parser ref base >>= locate setting view.dialects r.indexes

  abbrev from_memo :
      Option RefEntry
      → Option SplitUri
      → String
      → String
      → SchemaRegistry
      → Fallible Ref × SchemaRegistry
  unfolding remember
  from_memo (some entry) split ref base r = (answer entry, r)
  from_memo none split ref base r =
      let found = attempt split ref base r in
      (found, record r { memos = remember base ref found r.memos })

  unfoldable pub resolve_memo :
      String → String → Option SplitUri → SchemaRegistry → Fallible Ref × SchemaRegistry
  unfolding memo_get from_memo
  resolve_memo ref base split r = from_memo (memo_get base ref r.memos.refs) split ref base r

  unfoldable pub resolve_ref : String → String → SchemaRegistry → Fallible Ref × SchemaRegistry
  unfolding sync_dialects resolve_memo
  resolve_ref ref base r = resolve_memo ref base none (sync_dialects view r)

  -- The parts of a reference are put together from the lexical target and remembered.
  abbrev keep_dynamic :
      SplitUri
      → String
      → String
      → Fallible Ref × SchemaRegistry
      → Fallible (Ref × Option String) × SchemaRegistry
  unfolding memo_set dynamic_part
  keep_dynamic split ref base (throws e, r) = (throws e, r)
  keep_dynamic split ref base (returns lexical, r) =
      let result = dynamic_part setting view.dialects r.indexes split lexical in
      (
        returns result,
        record r {
          memos = record r.memos { dynamics = memo_set base ref result r.memos.dynamics };
        },
      )

  abbrev new_dynamic :
      Fallible SplitUri
      → String
      → String
      → SchemaRegistry
      → Fallible (Ref × Option String) × SchemaRegistry
  unfolding keep_dynamic
  new_dynamic (throws e) ref base r = (throws e, r)
  new_dynamic (returns split) ref base r =
      keep_dynamic split ref base (resolve_memo ref base (some split) r)

  abbrev pub dynamic_memo :
      Option (Ref × Option String)
      → String
      → String
      → SchemaRegistry
      → Fallible (Ref × Option String) × SchemaRegistry
  unfolding new_dynamic
  dynamic_memo (some memo) ref base r = (returns memo, r)
  dynamic_memo none ref base r = new_dynamic (resolve_split setting.parser ref base) ref base r

  unfoldable pub dynamic_reference :
      String → String → SchemaRegistry → Fallible (Ref × Option String) × SchemaRegistry
  unfolding sync_dialects memo_get dynamic_memo
  dynamic_reference ref base r =
      let s = sync_dialects view r in dynamic_memo (memo_get base ref s.memos.dynamics) ref base s

  abbrev keep_recursive :
      SplitUri
      → String
      → String
      → Fallible Ref × SchemaRegistry
      → Fallible (Ref × Bool) × SchemaRegistry
  unfolding memo_set recursive_part
  keep_recursive split ref base (throws e, r) = (throws e, r)
  keep_recursive split ref base (returns lexical, r) =
      let result = recursive_part setting view.dialects r.indexes split lexical in
      (
        returns result,
        record r {
          memos = record r.memos { recursives = memo_set base ref result r.memos.recursives };
        },
      )

  abbrev new_recursive :
      Fallible SplitUri → String → String → SchemaRegistry → Fallible (Ref × Bool) × SchemaRegistry
  unfolding keep_recursive
  new_recursive (throws e) ref base r = (throws e, r)
  new_recursive (returns split) ref base r =
      keep_recursive split ref base (resolve_memo ref base (some split) r)

  abbrev pub recursive_memo :
      Option (Ref × Bool)
      → String
      → String
      → SchemaRegistry
      → Fallible (Ref × Bool) × SchemaRegistry
  unfolding new_recursive
  recursive_memo (some memo) ref base r = (returns memo, r)
  recursive_memo none ref base r = new_recursive (resolve_split setting.parser ref base) ref base r

  unfoldable pub recursive_reference :
      String → String → SchemaRegistry → Fallible (Ref × Bool) × SchemaRegistry
  unfolding sync_dialects memo_get recursive_memo
  recursive_reference ref base r =
      let s = sync_dialects view r in
      recursive_memo (memo_get base ref s.memos.recursives) ref base s
