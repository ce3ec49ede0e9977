-- ===== src/Schemas/Locate.antt =====
-- packages/core/src/registry.ts: queries of the indexes, and resolution without its memos.
use Prim.Native.Char.{code}
use Prim.Native.String.{◌++◌ as str_append}
use json_schema_engine.Base.{
  ℕ, ◌==◌, Bool, false, ◌||◌, ◌&&◌, Option, none, some, List, [], ◌∷◌, String, if◌then◌else◌,
  get_elem?,
}
use json_schema_engine.Json.{Json, object, array, elements, entries, lookup, is_some}
use json_schema_engine.Json.Pointer.{unescape_segment}
use json_schema_engine.Cursor.{Segment, key, index, segment_text}
use json_schema_engine.Dialects.{RegisteredDialect, or_default}
use json_schema_engine.Schemas.Entries.{has_name}
use json_schema_engine.Schemas.Fallible.{
  Fallible, returns, unresolvable_ref, unknown_dialect, ◌>>=◌, found_or,
}
use json_schema_engine.Schemas.Uri.{
  SplitUri, is_empty, split_fragment, resolve_split, resolved_resource,
}
use json_schema_engine.Schemas.State.{Node, Ref, Setting, Dialects, DocumentLocation, Indexes}
use json_schema_engine.Schemas.Stage.{base_id_of}
use json_schema_engine.Schemas.Walk.{part_of, hop}

abbrev pub and_then {ℓ κ} : {A : Type ℓ} {B : Type κ} → Option A → (A → Option B) → Option B
and_then none f = none
and_then (some a) f = f a

unfoldable pub canonical : String → Indexes → String
canonical uri i = or_default (lookup uri i.aliases) uri

-- `has`
unfoldable pub is_registered : String → Indexes → Bool
is_registered uri i = is_some (lookup uri i.documents) || is_some (lookup uri i.aliases)

unfoldable pub root_node : String → Indexes → Option Node
unfolding canonical
root_node uri i = lookup (canonical uri i) i.documents

unfoldable pub document_location : String → Indexes → Option DocumentLocation
unfolding canonical
document_location uri i = lookup (canonical uri i) i.resource_locations

unfoldable pub dynamic_anchor : String → String → Indexes → Option Ref
unfolding canonical
dynamic_anchor uri name i =
    and_then (lookup (canonical uri i) i.dynamic_anchors) (λ refs. lookup name refs)

unfoldable pub has_recursive_root : String → Indexes → Bool
unfolding canonical
has_recursive_root uri i = has_name (canonical uri i) i.recursive_roots

unfoldable pub dialect_uri_for : String → Indexes → Fallible String
unfolding canonical
dialect_uri_for uri i =
    found_or (lookup (canonical uri i) i.document_dialects) (unresolvable_ref uri)

abbrev pub get : Dialects → String → Fallible RegisteredDialect
get dialects uri = found_or (lookup uri dialects) (unknown_dialect uri)

unfoldable pub dialect_for : Dialects → String → Indexes → Fallible RegisteredDialect
unfolding dialect_uri_for
dialect_for dialects uri i = dialect_uri_for uri i >>= get dialects

-- The dialect of a base that navigation enters, or the one in force where no walk has seen the base.
unfoldable pub dialect_after :
    Dialects → String → RegisteredDialect → Indexes → Fallible RegisteredDialect
dialect_after dialects base current i = elim (lookup base i.document_dialects) [
  | none ↦ returns current
  | some uri ↦ get dialects uri
]

-- `text.split("/")`
unfoldable pub split_slash : String → List String
split_slash String.[] = String.[] ∷ []
split_slash (String.◌∷◌ c s) =
    let rest = split_slash s in
    if code c == code "/"
    then String.[] ∷ rest
    else elim rest [ [] ↦ String.◌∷◌ c String.[] ∷ [] | first ∷ later ↦ String.◌∷◌ c first ∷ later ]

abbrev pub starts_with_slash : String → Bool
starts_with_slash String.[] = false
starts_with_slash (String.◌∷◌ c s) = code c == code "/"

-- `text.slice(1)`
abbrev pub tail_text : String → String
tail_text String.[] = String.[]
tail_text (String.◌∷◌ c s) = s

-- A fragment that is present, not empty and no pointer is a name.
abbrev pub plain_name : Option String → Option String
plain_name none = none
plain_name (some f) = if is_empty f || starts_with_slash f then none else some f

-- A position that navigation has reached, with the dialect of its resource.
pub record Position : Type 0 where
  pub node : Node
  pub base_uri : String
  pub pointer : String
  pub dialect : RegisteredDialect

abbrev pub ref_at : Position → Ref
ref_at p = record { node = p.node; base_uri = p.base_uri; pointer = p.pointer }

module _ (setting : Setting) (dialects : Dialects) (i : Indexes) where
  -- A part with an `$id`, in the syntax of the resource around it, starts a resource.
  unfoldable pub arrive : Node → String → String → RegisteredDialect → Fallible Position
  unfolding dialect_after
  arrive n base pointer dialect = elim (base_id_of dialect n.json) [
    | none ↦ returns (record { node = n; base_uri = base; pointer = pointer; dialect = dialect })
    | some base_id ↦ do
      entered ← resolved_resource setting.parser base_id base
      dialect' ← dialect_after dialects entered dialect i
      returns (record { node = n; base_uri = entered; pointer = ""; dialect = dialect' })
  ]

  abbrev numbered : Node → List Json → Option ℕ → Option Node
  numbered n xs none = none
  numbered n xs (some k) = part_of n (setting.index_text k) (get_elem? xs k)

  -- `node[Number(seg)]` of an array, an own property of an object.
  unfoldable pub select : Node → String → Option Node
  select n seg = elim n.json [
    | array xs ↦ numbered n (elements xs) (setting.number_index seg)
    | object ms ↦ part_of n seg (lookup seg (entries ms))
    | _ ↦ none
  ]

  unfoldable pub navigate : String → List String → Position → Fallible Position
  unfolding arrive select hop
  navigate what [] p = returns p
  navigate what (raw ∷ rest) p = do
    n ← found_or (select p.node (unescape_segment raw)) (unresolvable_ref what)
    q ← arrive n p.base_uri (str_append p.pointer (hop (unescape_segment raw))) p.dialect
    navigate what rest q

  abbrev root_position : String → Node → RegisteredDialect → Position
  root_position uri n dialect = record { node = n; base_uri = uri; pointer = ""; dialect = dialect }

  -- A pointer is followed from the root; without one the root itself is meant.
  unfoldable pub locate_pointer : String → Option String → Fallible Ref
  unfolding dialect_for
  locate_pointer resource fragment = do
    root ← found_or (lookup resource i.documents) (unresolvable_ref resource)
    let f = or_default fragment ""
    if is_empty f
        then returns (record { node = root; base_uri = resource; pointer = "" })
        else dialect_for dialects resource i >>= λ dialect.
            navigate (str_append resource (str_append "#" f)) (split_slash (tail_text f))
              (root_position resource root dialect)
            >>= λ p. returns (ref_at p)

  abbrev anchored : String → String → Option Ref
  anchored resource name = and_then (lookup resource i.anchors) (λ refs. lookup name refs)

  unfoldable pub locate : SplitUri → Fallible Ref
  unfolding canonical locate_pointer
  locate split =
      let resource = canonical split.resource i in
      elim (plain_name split.fragment) [
        | some name ↦
            found_or (anchored resource name)
              (unresolvable_ref (str_append resource (str_append "#" name)))
        | none ↦ locate_pointer resource split.fragment
      ]

  -- `resolveRef`, `dynamicReference` and `recursiveReference` without their memos.
  unfoldable pub resolution : String → String → Fallible Ref
  resolution ref base = resolve_split setting.parser ref base >>= locate

  unfoldable pub dynamic_part : SplitUri → Ref → Ref × Option String
  dynamic_part split lexical = (
    lexical,
    and_then (plain_name split.fragment)
        λ name. if is_some (dynamic_anchor split.resource name i) then some name else none,
  )

  unfoldable pub recursive_part : SplitUri → Ref → Ref × Bool
  recursive_part split lexical =
      (lexical, is_empty (or_default split.fragment "") && has_recursive_root split.resource i)

  unfoldable pub dynamic_resolution : String → String → Fallible (Ref × Option String)
  dynamic_resolution ref base = do
    split ← resolve_split setting.parser ref base
    lexical ← locate split
    returns (dynamic_part split lexical)

  unfoldable pub recursive_resolution : String → String → Fallible (Ref × Bool)
  recursive_resolution ref base = do
    split ← resolve_split setting.parser ref base
    lexical ← locate split
    returns (recursive_part split lexical)

  -- `child`, hop by hop. A text names no element of an array. A name that is missing gives an undefined node, which has no parts.
  abbrev own_part : Node → Segment → Option Node
  own_part n seg = elim n.json [
    | array xs ↦ elim seg [
      | index k ↦ part_of n (setting.index_text k) (get_elem? (elements xs) k)
      | key k ↦ none
    ]
    | object ms ↦ let k = segment_text setting.index_text seg in part_of n k (lookup k (entries ms))
    | _ ↦ none
  ]

  unfoldable pub descend : List Segment → Position → Fallible (Option Position)
  unfolding arrive segment_text hop
  descend [] p = returns (some p)
  descend (seg ∷ rest) p = elim (own_part p.node seg) [
    | none ↦ returns none
    | some n ↦
        arrive n p.base_uri (str_append p.pointer (hop (segment_text setting.index_text seg)))
          p.dialect
        >>= λ q. descend rest q
  ]

  unfoldable pub child : Ref → List Segment → Fallible (Option Ref)
  unfolding dialect_for descend
  child ref segments = do
    dialect ← dialect_for dialects ref.base_uri i
    p ← descend segments (record {
      node = ref.node;
      base_uri = ref.base_uri;
      pointer = ref.pointer;
      dialect = dialect;
    })
    returns (and_then p (λ q. some (ref_at q)))

  root_or_part : Option String → String → String → Fallible Ref
  root_or_part fragment uri resource =
      if is_empty (or_default fragment "")
      then found_or (lookup resource i.documents) (unresolvable_ref resource)
        >>= (λ n. returns (record { node = n; base_uri = resource; pointer = "" }))
      else resolution uri resource

  unfoldable pub root_ref : String → Fallible Ref
  unfolding canonical root_or_part
  root_ref uri = do
    split ← split_fragment setting.parser uri
    let resource = canonical split.resource i
    root_or_part split.fragment uri resource
