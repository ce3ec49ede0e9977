-- ===== src/Schemas/Register/Removed.antt =====
-- packages/core/src/registry.ts: what a removal takes away, and what it leaves.
use json_schema_engine.Base.{
  ◌≡◌, ◌≢◌, refl, sym, ap, subst, ◌∙◌, Bool, true, false, ◌||◌, ◌&&◌, some, List, [], ◌∷◌, String,
  str_eq, str_eq_iff, if◌then◌else◌, arith, Bool-cases, inl, inr,
}
use json_schema_engine.Json.{lookup}
use json_schema_engine.Dialects.{or_default}
use json_schema_engine.Schemas.Entries.{has_name, str_eq_refl}
use json_schema_engine.Schemas.Fallible.{returns}
use json_schema_engine.Schemas.Uri.{SplitUri, split_fragment}
use json_schema_engine.Schemas.State.{Setting, Indexes}
use json_schema_engine.Schemas.Commit.{
  located_in, owned_by, drop_resource, drop_owned, evict, without_target,
}
use json_schema_engine.Schemas.Commit.Lookups.{Entry, entry, no_entry, entry-drop_resource}
use json_schema_engine.Schemas.Locate.{canonical}
use json_schema_engine.Schemas.Register.{SchemaRegistry, DialectView, unregister}
use json_schema_engine.Schemas.Register.Inversion.{unregister-Removal}

-- One step of an eviction, by its tests: whether the resource is the one looked at, and owned.
entry-drop_step :
    (doc r k : String) (i : Indexes)
    → entry k (if owned_by r doc i then drop_resource r i else i)
      ≡ (if str_eq r k && owned_by k doc i then no_entry else entry k i)
entry-drop_step doc r k i = elim (Bool-cases (str_eq r k)) [
  | inl e ↦
      let same : r ≡ k = (str_eq_iff r k).0 e in
      subst
        (λ j.
          entry k (if owned_by j doc i then drop_resource j i else i)
          ≡ (if str_eq j k && owned_by k doc i then no_entry else entry k i))
        (sym same) (at_itself (owned_by k doc i))
  | inr e ↦ rw e (elsewhere e (owned_by r doc i))
]
  where
    at_itself :
        (b : Bool)
        → entry k (if b then drop_resource k i else i)
          ≡ (if str_eq k k && b then no_entry else entry k i)
    at_itself true = entry-drop_resource k k i ∙ rw (str_eq_refl k) refl
    at_itself false = rw (str_eq_refl k) refl

    elsewhere :
        str_eq r k ≡ false → (b : Bool) → entry k (if b then drop_resource r i else i) ≡ entry k i
    elsewhere e true = entry-drop_resource r k i ∙ rw e refl
    elsewhere e false = refl

-- A removal in two steps is one, by whether the first takes the entry and whether it is owned.
two_steps :
    (doc : String) (e e' : Entry) (a h l : Bool)
    → located_in doc e.location ≡ l
    → e' ≡ (if a && l then no_entry else e)
    → (if h && located_in doc e'.location then no_entry else e')
      ≡ (if (a || h) && l then no_entry else e)
two_steps doc e e' true h true p q = rw q (gone h)
  where
    gone : (h : Bool) → (if h && false then no_entry else no_entry) ≡ no_entry
    gone true = refl
    gone false = refl
two_steps doc e e' true h false p q = rw (q, p) (kept h)
  where
    kept : (h : Bool) → (if h && false then no_entry else e) ≡ e
    kept true = refl
    kept false = refl
two_steps doc e e' false h l p q = rw (q, p) refl

str_eq_comm : (a b : String) → str_eq a b ≡ str_eq b a
str_eq_comm a b = ground (arith, str_eq_iff a b, str_eq_iff b a)

entry-drop_owned :
    (doc k : String) (rs : List String) (i : Indexes)
    → entry k (drop_owned doc rs i)
      ≡ (if has_name k rs && owned_by k doc i then no_entry else entry k i)
unfolding drop_owned owned_by
entry-drop_owned doc k [] i = refl
entry-drop_owned doc k (r ∷ rs) i =
    entry-drop_owned doc k rs _
    ∙ rw (str_eq_comm k r) (
        two_steps doc (entry k i) _ (str_eq r k) (has_name k rs) _ refl (entry-drop_step doc r k i))

without_target_lem :
    (doc alias t : String) (m : List (String × String))
    → lookup alias (without_target doc m) ≡ some t
    → t ≢ doc
unfolding without_target lookup
without_target_lem doc alias t [] h e = cc h
without_target_lem doc alias t ((a, u) ∷ m) h e =
    ground (arith, without_target_lem doc alias t m, str_eq_iff u doc)

-- After `unregister` returns, with `doc` the base URI that the text stands for: a resource that the
-- last registration of `doc` claimed and that is still located in `doc` has no document, dialect or
-- location left; each other resource, an equal copy that another document took over included, has
-- all three as before; and no alias leads to `doc`.
pub unregister_removes :
    (setting : Setting) (view : DialectView) (uri : String) (r s : SchemaRegistry)
    → unregister setting view uri r ≡ returns s
    → (doc : String) × ((split : SplitUri) × (split_fragment setting.parser uri ≡ returns split)
        × (canonical split.resource r.indexes ≡ doc))
      × ((k : String)
          → entry k s.indexes ≡ (
              if has_name k (or_default (lookup doc r.indexes.owned_resources) [])
                && owned_by k doc r.indexes
              then no_entry
              else entry k r.indexes))
      × ((alias t : String) → lookup alias s.indexes.aliases ≡ some t → t ≢ doc)
unfolding evict
unregister_removes setting view uri r s p =
    let done = unregister-Removal setting view p in
    let doc = canonical done.split.resource r.indexes in
    (
      doc,
      (done.split, done.parsed, refl),
      λ k.
          ap (λ (x : SchemaRegistry). entry k x.indexes) (sym done.dropped)
          ∙ entry-drop_owned doc k (or_default (lookup doc r.indexes.owned_resources) []) r.indexes,
      λ alias t h. without_target_lem doc alias t _ (
          subst (λ (x : SchemaRegistry). lookup alias x.indexes.aliases ≡ some t) (sym done.dropped)
            h),
    )
