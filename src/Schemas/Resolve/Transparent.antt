-- ===== src/Schemas/Resolve/Transparent.antt =====
-- packages/core/src/registry.ts: what is remembered is what a resolution on the indexes gives.
use json_schema_engine.Base.{
  ◌≡◌, refl, sym, ap, ◌∙◌, Bool, true, false, ◌&&◌, ltb, Option, none, some, List, [], String,
  str_eq, str_eq_iff, if◌then◌else◌, arith, if_holds,
}
use json_schema_engine.Json.{lookup}
use json_schema_engine.Dialects.{set_entry, or_default}
use json_schema_engine.Schemas.Entries.{lookup-set_entry}
use json_schema_engine.Schemas.Fallible.{Fallible, returns, throws, SchemaError, unresolvable_ref}
use json_schema_engine.Schemas.Uri.{SplitUri, resolve_split}
use json_schema_engine.Schemas.State.{Ref, Setting, Dialects}
use json_schema_engine.Schemas.Locate.{
  and_then, locate, resolution, dynamic_resolution, recursive_resolution,
}
use json_schema_engine.Schemas.Register.{
  RefEntry, hit, miss, Memo, Memos, SchemaRegistry, DialectView, memo_get, memo_set,
}
use json_schema_engine.Schemas.Resolve.{
  max_memoized_misses, miss_message, answer, remember_miss, remember, resolve_memo, attempt,
  from_memo,
}

-- Under a base with no map yet, or with one.
rest_alike :
    {A : Type 0} (r : String) (v : A) (c : Bool) (o : Option (List (String × A)))
    → (if c then some v else lookup r (or_default o []))
      ≡ (if c then some v else and_then o (λ by_ref. lookup r by_ref))
unfolding lookup
rest_alike r v true o = refl
rest_alike r v false none = refl
rest_alike r v false (some l) = refl

-- A two-level lookup after a write, by the two tests.
two_levels :
    {A : Type 0} (b r : String) (same : Bool) (base ref : String) (v : A) (m : Memo A)
    → str_eq base b ≡ same
    → and_then
        (if same then some (set_entry ref v (or_default (lookup base m) [])) else lookup b m)
        (λ by_ref. lookup r by_ref)
      ≡ (if same && str_eq ref r then some v else memo_get b r m)
unfolding memo_get
two_levels b r false base ref v m e = refl
two_levels b r true base ref v m e =
    lookup-set_entry ref r v (or_default (lookup base m) [])
    ∙ rw ((str_eq_iff base b).0 e) (rest_alike r v (str_eq ref r) (lookup b m))

pub memo_get-memo_set :
    {A : Type 0} (base b ref r : String) (v : A) (m : Memo A)
    → memo_get b r (memo_set base ref v m)
      ≡ (if str_eq base b && str_eq ref r then some v else memo_get b r m)
unfolding memo_get memo_set
memo_get-memo_set base b ref r v m =
    ap (λ o. and_then o (λ by_ref. lookup r by_ref))
      (lookup-set_entry base b (set_entry ref v (or_default (lookup base m) [])) m)
    ∙ two_levels b r (str_eq base b) base ref v m refl

-- Each entry answers what the resolution of its reference does.
abbrev pub IsSound :
    {A W : Type 0} → (A → Fallible W) → (String → String → Fallible W) → Memo A → Type 0
IsSound {A} give spec m =
    (base ref : String) (v : A) → memo_get base ref m ≡ some v → give v ≡ spec base ref

pub IsSound-empty :
    {A W : Type 0} (give : A → Fallible W) (spec : String → String → Fallible W)
    → IsSound give spec []
unfolding memo_get lookup
IsSound-empty give spec base ref v h = cc

pub IsSound-memo_set :
    {A W : Type 0} (give : A → Fallible W) (spec : String → String → Fallible W) (m : Memo A)
    (base ref : String) (v : A)
    → IsSound give spec m
    → give v ≡ spec base ref
    → IsSound give spec (memo_set base ref v m)
IsSound-memo_set {A} give spec m base ref v h e b r w found =
    pick (str_eq base b) (str_eq ref r) refl refl (sym (memo_get-memo_set base b ref r v m) ∙ found)
  where
    pick :
        (x y : Bool)
        → str_eq base b ≡ x
        → str_eq ref r ≡ y
        → (if x && y then some v else memo_get b r m) ≡ some w
        → give w ≡ spec b r
    pick true true p q f =
        rw (sym ((str_eq_iff base b).0 p), sym ((str_eq_iff ref r).0 q)) (ap give (cc f) ∙ e)
    pick true false p q f = h b r w f
    pick false y p q f = h b r w f

miss_message-eq :
    (e : SchemaError) (m : String) → miss_message e ≡ some m → answer (miss m) ≡ throws e
miss_message-eq (unresolvable_ref k) m h = cc h
miss_message-eq _ m h = cc h

module _ (spec : String → String → Fallible Ref) (base ref : String) (m : Memos)
    (sound : IsSound answer spec m.refs) where
  remember_miss-IsSound :
      (e : SchemaError) (message : Option String)
      → miss_message e ≡ message
      → throws e ≡ spec base ref
      → IsSound answer spec (remember_miss base ref message m).refs
  unfolding remember_miss
  remember_miss-IsSound e none p q = sound
  remember_miss-IsSound e (some text) p q =
      if_holds (λ (n : Memos). IsSound answer spec n.refs) (ltb m.misses max_memoized_misses)
        (IsSound-memo_set answer spec m.refs base ref (miss text) sound
          (miss_message-eq e text p ∙ q))
        sound

  remember-IsSound :
      (found : Fallible Ref)
      → found ≡ spec base ref
      → IsSound answer spec (remember base ref found m).refs
  unfolding remember
  remember-IsSound (returns r) q = IsSound-memo_set answer spec m.refs base ref (hit r) sound q
  remember-IsSound (throws e) q = remember_miss-IsSound e (miss_message e) refl q

remember-dynamics :
    (base ref : String) (found : Fallible Ref) (m : Memos)
    → (remember base ref found m).dynamics ≡ m.dynamics
unfolding remember remember_miss
remember-dynamics base ref (returns r) m = refl
remember-dynamics base ref (throws e) m = keeps (miss_message e)
  where
    keeps : (o : Option String) → (remember_miss base ref o m).dynamics ≡ m.dynamics
    keeps none = refl
    keeps (some text) = ground arith

remember-recursives :
    (base ref : String) (found : Fallible Ref) (m : Memos)
    → (remember base ref found m).recursives ≡ m.recursives
unfolding remember remember_miss
remember-recursives base ref (returns r) m = refl
remember-recursives base ref (throws e) m = keeps (miss_message e)
  where
    keeps : (o : Option String) → (remember_miss base ref o m).recursives ≡ m.recursives
    keeps none = refl
    keeps (some text) = ground arith

-- The three memos of a registry under the dialects `d`.
pub record SoundFor (setting : Setting) (d : Dialects) (r : SchemaRegistry) : Type 0 where
  pub refs : IsSound answer (λ base ref. resolution setting d r.indexes ref base) r.memos.refs
  pub dynamics :
      IsSound
        (λ v. returns v)
        (λ base ref. dynamic_resolution setting d r.indexes ref base)
        r.memos.dynamics
  pub recursives :
      IsSound
        (λ v. returns v)
        (λ base ref. recursive_resolution setting d r.indexes ref base)
        r.memos.recursives

-- A lookup answers `x`, and changes nothing but the memos, which stay sound.
abbrev pub Transparent {ℓ} :
    Setting
    → Dialects
    → {A : Type ℓ} → SchemaRegistry
    → Fallible A
    → Fallible A × SchemaRegistry
    → Type ℓ
Transparent setting d r x out =
    (m : Memos) × (out ≡ (x, record r { memos = m })) × SoundFor setting d (record r { memos = m })

module _ (setting : Setting) (view : DialectView) where
  abbrev pub Clear {ℓ} :
      {A : Type ℓ} → SchemaRegistry → Fallible A → Fallible A × SchemaRegistry → Type ℓ
  Clear r x out = Transparent setting view.dialects r x out

  abbrev pub SoundAt : SchemaRegistry → Type 0
  SoundAt r = SoundFor setting view.dialects r

  abbrev pub spec_at : SchemaRegistry → String → String → Fallible Ref
  spec_at r ref base = resolution setting view.dialects r.indexes ref base

  from_memo-Transparent :
      (ref base : String) (split : Option SplitUri) (r : SchemaRegistry) (o : Option RefEntry)
      → SoundAt r
      → attempt setting view split ref base r ≡ spec_at r ref base
      → memo_get base ref r.memos.refs ≡ o
      → Clear r (spec_at r ref base) (from_memo setting view o split ref base r)
  unfolding from_memo
  from_memo-Transparent ref base split r (some entry) h e p =
      (r.memos, ap (λ x. (x, r)) (h.refs base ref entry p), h)
  from_memo-Transparent ref base split r none h e p = (
    remember base ref (attempt setting view split ref base r) r.memos,
    ap
        (λ x. (
          x,
          record r { memos = remember base ref (attempt setting view split ref base r) r.memos },
        ))
        e,
    record {
      refs = remember-IsSound _ base ref r.memos h.refs (attempt setting view split ref base r) e;
      dynamics =
          rw (remember-dynamics base ref (attempt setting view split ref base r) r.memos)
            h.dynamics;
      recursives =
          rw (remember-recursives base ref (attempt setting view split ref base r) r.memos)
            h.recursives;
    },
  )

  pub resolve_memo-Transparent :
      (ref base : String) (split : Option SplitUri) (r : SchemaRegistry)
      → SoundAt r
      → attempt setting view split ref base r ≡ spec_at r ref base
      → Clear r (spec_at r ref base) (resolve_memo setting view ref base split r)
  unfolding resolve_memo
  resolve_memo-Transparent ref base split r h e =
      from_memo-Transparent ref base split r (memo_get base ref r.memos.refs) h e refl

  -- The lexical target of a reference, as the attempt with its parts at hand.
  pub lexical_target :
      (ref base : String) (split : SplitUri) (r : SchemaRegistry)
      → resolve_split setting.parser ref base ≡ returns split
      → locate setting view.dialects r.indexes split ≡ spec_at r ref base
  unfolding resolution
  lexical_target ref base split r e = rw e refl

  -- `resolveRef` on a registry whose dialects are current.
  pub plain-Transparent :
      (ref base : String) (r : SchemaRegistry)
      → SoundAt r
      → Clear r (spec_at r ref base) (resolve_memo setting view ref base none r)
  unfolding resolution
  plain-Transparent ref base r h = resolve_memo-Transparent ref base none r h refl
