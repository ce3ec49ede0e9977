-- ===== src/Output/Records/Named.antt =====
-- packages/core/src/records.ts and output.ts: the keyword that an error's location names.
use Prim.Native.String.{◌++◌ as concat}
use text.Mathlib.TextLemmas.{nil-append, cons-append, append-eq-nil_iff}
use mathlib.Core.Bool.{false≢true}
use json_schema_engine.Base.{
  ℕ, suc, ◌≡◌, refl, sym, ap, ◌∙◌, false, Option, none, some, String, if◌then◌else◌, str_eq,
  str_eq_iff, Bool-cases, inl, inr,
}
use json_schema_engine.Json.Pointer.{escape_segment, unescape_segment}
use json_schema_engine.Json.Pointer.RoundTrip.{unescape_segment-escape_segment}
use json_schema_engine.Engine.State.{ErrorRecord, materialize_path, TraceNode, trace_node}
use json_schema_engine.Output.Texts.{path_length, drop_text}
use json_schema_engine.Output.Records.Picked.{path_of}
use json_schema_engine.Output.Located.{ErrorUnit, rest_after, keyword_of, NodeFields, fields_of}
use json_schema_engine.Output.Records.{
  render_error, keyword_suffix, evaluation_path_of, RecordSets, to_render_node, to_node, located,
}

drop_text-concat : (s t : String) → drop_text (path_length s) (concat s t) ≡ t
unfolding drop_text path_length
drop_text-concat String.[] t = nil-append t
drop_text-concat (String.◌∷◌ c s) t =
    ap (drop_text (suc (path_length s))) (cons-append c s t) ∙ drop_text-concat s t

abbrev pub or_nameless : Option String → String
or_nameless none = ""
or_nameless (some name) = name

str_eq-segment : (s : String) → str_eq (concat "/" s) "" ≡ false
str_eq-segment s = elim (Bool-cases (str_eq (concat "/" s) "")) [
  | inl h ↦
      absurd (false≢true ((str_eq_iff "/" "").1 (append-eq-nil_iff.0 ((str_eq_iff _ _).0 h)).0))
  | inr h ↦ h
]

abbrev decoded : String → String
decoded rest = if str_eq rest "" then "" else unescape_segment (drop_text 1 rest)

decoded-keyword_suffix : (name : Option String) → decoded (keyword_suffix name) ≡ or_nameless name
unfolding keyword_suffix path_length
decoded-keyword_suffix none = refl
decoded-keyword_suffix (some name) = rw (str_eq-segment (escape_segment name)) (
    ap unescape_segment (drop_text-concat "/" (escape_segment name))
    ∙ unescape_segment-escape_segment name)

keyword_of-suffix :
    (n : NodeFields) (u : ErrorUnit) (name : Option String)
    → u.evaluation_path ≡ concat n.evaluation_path (keyword_suffix name)
    → keyword_of u n ≡ or_nameless name
unfolding keyword_of rest_after
keyword_of-suffix n u name h =
    ap decoded (
      ap (drop_text (path_length n.evaluation_path)) h
      ∙ drop_text-concat n.evaluation_path (keyword_suffix name))
    ∙ decoded-keyword_suffix name

-- The keyword that the documents read off the location of an error's unit, cut at the path of its
-- node and unescaped, is the keyword that raised the error, and the empty name where a boolean schema
-- raised it.
pub keyword_of-render_error :
    (text : ℕ → String) (message : ErrorRecord → String) (records : RecordSets) (t : TraceNode)
    (r : ErrorRecord)
    → path_of t ≡ r.path
    → keyword_of (render_error text message r) (fields_of (to_render_node text t records))
      ≡ or_nameless r.keyword_name
unfolding render_error to_render_node to_node located evaluation_path_of
keyword_of-render_error text message records (trace_node s path cursor valid keywords children) r
      h =
    keyword_of-suffix _ (render_error text message r) r.keyword_name
      (ap (λ p. concat (materialize_path p) (keyword_suffix r.keyword_name)) (sym h))
