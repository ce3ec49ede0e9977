-- ===== src/Schemas/Uri.antt =====
-- packages/core/src/uri.ts. The URL parser of the language and its percent decoding are the functions
-- `href` and `decode_component`, none where they throw.
use Prim.Native.Char.{code}
use Prim.Native.String.{[], ◌∷◌}
use json_schema_engine.Base.{Bool, true, false, Option, none, some, String, ◌==◌, if◌then◌else◌}
use json_schema_engine.Json.Pointer.{includes_char}
use json_schema_engine.Schemas.Fallible.{
  Fallible, returns, unresolvable_ref, uri_error, found_or, ◌>>=◌,
}

pub record UriParser : Type 0 where
  pub href : String → String → Option String
  pub decode_component : String → Option String

pub record SplitUri : Type 0 where
  pub resource : String
  pub fragment : Option String

-- What stands before the first `#`, and what behind it.
unfoldable pub split_hash : String → String × Option String
split_hash [] = ([], none)
split_hash (c ∷ s) =
    let rest = split_hash s in if code c == code "#" then ([], some s) else (c ∷ rest.0, rest.1)

abbrev pub is_empty : String → Bool
is_empty [] = true
is_empty (c ∷ s) = false

abbrev decoded : Bool → (String → Option String) → String → Option String
decoded true decode raw = decode raw
decoded false decode raw = some raw

abbrev split_at : UriParser → String × Option String → Fallible SplitUri
split_at p (resource, none) = returns (record { resource = resource; fragment = none })
split_at p (resource, some raw) = do
  f ← found_or (decoded (includes_char "%" raw) p.decode_component raw) uri_error
  returns (record { resource = resource; fragment = some f })

unfoldable pub resolve_uri : UriParser → String → String → Fallible String
resolve_uri p ref base = found_or (p.href ref base) (unresolvable_ref ref)

unfoldable pub split_fragment : UriParser → String → Fallible SplitUri
unfolding split_hash includes_char
split_fragment p uri = split_at p (split_hash uri)

unfoldable pub resolve_split : UriParser → String → String → Fallible SplitUri
unfolding resolve_uri split_fragment
resolve_split p ref base = do absolute ← resolve_uri p ref base; split_fragment p absolute

-- `splitFragment(resolveUri(ref, base)).resource`
unfoldable pub resolved_resource : UriParser → String → String → Fallible String
unfolding resolve_split
resolved_resource p ref base = do split ← resolve_split p ref base; returns split.resource
