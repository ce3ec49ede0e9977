-- ===== src/Dialects/Identifiers.antt =====
-- packages/core/src/dialect.ts: the identifiers of a schema object, by draft.
use Prim.Native.Char.{code}
use json_schema_engine.Base.{
  Bool, false, Option, none, some, List, [], ◌∷◌, String, ◌==◌, if◌then◌else◌,
}
use json_schema_engine.Json.{Json, string, boolean, lookup, is_some}

-- A fact that is absent is an option.
pub record IdentifierFacts : Type 0 where
  pub base_id : Option String
  pub anchors : Option (List String)
  pub dynamic_anchor : Option String
  pub recursive_anchor : Bool

abbrev pub no_facts : IdentifierFacts
no_facts = record {
  base_id = none;
  anchors = none;
  dynamic_anchor = none;
  recursive_anchor = false;
}

-- The text of a member, if it is one.
abbrev text_value : Option Json → Option String
text_value (some (string s)) = some s
text_value _ = none

abbrev one_anchor : Option String → Option (List String)
one_anchor none = none
one_anchor (some a) = some (a ∷ [])

abbrev is_true : Option Json → Bool
is_true (some (boolean b)) = b
is_true _ = false

unfoldable pub identifiers2020 : List (String × Json) → IdentifierFacts
identifiers2020 node = record {
  base_id = text_value (lookup "$id" node);
  anchors = one_anchor (text_value (lookup "$anchor" node));
  dynamic_anchor = text_value (lookup "$dynamicAnchor" node);
  recursive_anchor = false;
}

unfoldable pub identifiers2019 : List (String × Json) → IdentifierFacts
identifiers2019 node = record {
  base_id = text_value (lookup "$id" node);
  anchors = one_anchor (text_value (lookup "$anchor" node));
  dynamic_anchor = none;
  recursive_anchor = is_true (lookup "$recursiveAnchor" node);
}

-- A fragment alone is an anchor, and an empty one says nothing.
abbrev legacy_id : String → IdentifierFacts
legacy_id String.[] = record no_facts { base_id = some "" }
legacy_id (String.◌∷◌ c s) =
    if code c == code "#"
    then elim s [
      | String.[] ↦ no_facts
      | String.◌∷◌ d t ↦ record no_facts { anchors = some (String.◌∷◌ d t ∷ []) }
    ]
    else record no_facts { base_id = some (String.◌∷◌ c s) }

abbrev legacy_facts : Option String → IdentifierFacts
legacy_facts none = no_facts
legacy_facts (some id) = legacy_id id

unfoldable pub identifiers_legacy : List (String × Json) → IdentifierFacts
identifiers_legacy node =
    if is_some (lookup "$ref" node) then no_facts else legacy_facts (text_value (lookup "$id" node))
