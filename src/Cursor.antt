-- ===== src/Cursor.antt =====
-- packages/core/src/cursor.ts and ref.ts: positions in the instance and in a schema.
-- A cursor is a parent-linked object; its identity (`===`) is the number it was allocated with. The
-- cached pointer of a cursor and the caches of a schema position are not kept.
use Prim.Native.String.{◌++◌ as str_append}
use json_schema_engine.Base.{ℕ, ◌+◌, Bool, String, ◌==◌}
use json_schema_engine.Json.{Json}
use json_schema_engine.Json.Pointer.{escape_segment}

-- `string | number`
pub data Segment : Type 0 where
  key : String → Segment
  index : ℕ → Segment

pub data Cursor : Type 0 where
  root_cursor : ℕ → Json → Cursor
  child_cursor : ℕ → Cursor → Segment → Json → Cursor

abbrev pub identity : Cursor → ℕ
identity (root_cursor i v) = i
identity (child_cursor i p s v) = i

abbrev pub value : Cursor → Json
value (root_cursor i v) = v
value (child_cursor i p s v) = v

unfoldable pub depth : Cursor → ℕ
depth (root_cursor i v) = 0
depth (child_cursor i p s v) = depth p + 1

-- `a === b` of cursors
abbrev pub same_cursor : Cursor → Cursor → Bool
same_cursor a b = identity a == identity b

module _ (text : ℕ → String) where
  -- `String(segment)`; `text` writes an index in decimal.
  unfoldable pub segment_text : Segment → String
  segment_text (key k) = k
  segment_text (index i) = text i

  unfoldable pub instance_pointer : Cursor → String
  unfolding segment_text escape_segment
  instance_pointer (root_cursor i v) = ""
  instance_pointer (child_cursor i p s v) =
      str_append (instance_pointer p) (str_append "/" (escape_segment (segment_text s)))

-- ref.ts
pub record SchemaRef : Type 0 where
  pub node : Json
  pub base_uri : String
  pub pointer : String

-- `${baseUri}#${pointer}`
unfoldable pub ref_key : SchemaRef → String
ref_key r = str_append r.base_uri (str_append "#" r.pointer)
