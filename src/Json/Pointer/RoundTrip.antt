-- ===== src/Json/Pointer/RoundTrip.antt =====
-- packages/core/src/json.ts: `unescapeSegment` behind `escapeSegment` (RFC 6901).
use Prim.Native.Char.{Char, code}
use Prim.Native.String.{String, [], ◌∷◌}
use json_schema_engine.Base.{
  ◌≡◌, refl, sym, ◌∙◌, ap, false, true, ◌||◌, ◌==◌, arith, Bool-cases, inl, inr,
}
use json_schema_engine.Json.Pointer.{
  replace_char, replace_pair, includes_char, escape_segment, unescape_segment,
}
use text.Mathlib.TextEquality.{Char-path}
use json_schema_engine.Base.{==_iff}

char_of_code : (c d : Char) → (code c == code d) ≡ true → c ≡ d
char_of_code c d h = Char-path c d ((==_iff (code c) (code d)).0 h)

-- A character that begins no pair stays.
replace_pair_miss :
    (a b c d : Char) (s : String)
    → (code d == code a) ≡ false
    → replace_pair a b c (d ∷ s) ≡ d ∷ replace_pair a b c s
unfolding replace_pair
replace_pair_miss a b c d [] h = refl
replace_pair_miss a b c d (e ∷ s) h = rw h refl

replace_pair_hit :
    (a b c : Char) (s : String) → replace_pair a b c (a ∷ b ∷ s) ≡ c ∷ replace_pair a b c s
unfolding replace_pair
replace_pair_hit a b c s = ground arith

replace_char_hit :
    (c a b d : Char) (s : String)
    → (code d == code c) ≡ true
    → replace_char c a b (d ∷ s) ≡ a ∷ b ∷ replace_char c a b s
unfolding replace_char
replace_char_hit c a b d s h = rw h refl

replace_char_miss :
    (c a b d : Char) (s : String)
    → (code d == code c) ≡ false
    → replace_char c a b (d ∷ s) ≡ d ∷ replace_char c a b s
unfolding replace_char
replace_char_miss c a b d s h = rw h refl

abbrev tildes : String → String
tildes s = replace_char "~" "~" "0" s

abbrev slashes : String → String
slashes s = replace_char "/" "~" "1" s

abbrev unslash : String → String
unslash s = replace_pair "~" "1" "/" s

tilde_undone : (s : String) → replace_pair "~" "0" "~" (tildes s) ≡ s
unfolding replace_char replace_pair
tilde_undone [] = refl
tilde_undone (d ∷ s) = elim (Bool-cases (code d == code "~")) [
  | inl e ↦
      ap (replace_pair "~" "0" "~") (replace_char_hit "~" "~" "0" d s e)
      ∙ replace_pair_hit "~" "0" "~" (tildes s)
      ∙ ap (λ t. "~" ∷ t) (tilde_undone s)
      ∙ ap (λ x. x ∷ s) (sym (char_of_code d "~" e))
  | inr e ↦
      ap (replace_pair "~" "0" "~") (replace_char_miss "~" "~" "0" d s e)
      ∙ replace_pair_miss "~" "0" "~" d (tildes s) e
      ∙ ap (λ t. d ∷ t) (tilde_undone s)
]

slash_undone : (s : String) → unslash (slashes (tildes s)) ≡ tildes s
unfolding replace_char replace_pair
slash_undone [] = refl
slash_undone (d ∷ s) = elim (Bool-cases (code d == code "~")) [
  | inl e ↦
      ap (λ t. unslash (slashes t)) (replace_char_hit "~" "~" "0" d s e)
      ∙ ap (λ t. "~" ∷ t) (replace_pair_miss "~" "1" "/" "0" (slashes (tildes s)) refl)
      ∙ ap (λ t. "~" ∷ "0" ∷ t) (slash_undone s)
      ∙ sym (replace_char_hit "~" "~" "0" d s e)
  | inr e ↦
      ap (λ t. unslash (slashes t)) (replace_char_miss "~" "~" "0" d s e)
      ∙ elim (Bool-cases (code d == code "/")) [
        | inl f ↦
            ap unslash (replace_char_hit "/" "~" "1" d (tildes s) f)
            ∙ replace_pair_hit "~" "1" "/" (slashes (tildes s))
            ∙ ap (λ x. x ∷ unslash (slashes (tildes s))) (sym (char_of_code d "/" f))
        | inr f ↦
            ap unslash (replace_char_miss "/" "~" "1" d (tildes s) f)
            ∙ replace_pair_miss "~" "1" "/" d (slashes (tildes s)) e
      ]
      ∙ ap (λ t. d ∷ t) (slash_undone s)
      ∙ sym (replace_char_miss "~" "~" "0" d s e)
]

-- A text without the character is left as it is.
replace_char_absent :
    (c a b : Char) (s : String) → includes_char c s ≡ false → replace_char c a b s ≡ s
unfolding replace_char includes_char
replace_char_absent c a b [] h = refl
replace_char_absent c a b (d ∷ s) h =
    replace_char_miss c a b d s (ground (arith, h))
    ∙ ap (λ t. d ∷ t) (replace_char_absent c a b s (ground (arith, h)))

escape_segment_lem : (s : String) → escape_segment s ≡ slashes (tildes s)
unfolding escape_segment
escape_segment_lem s = elim (Bool-cases (includes_char "~" s || includes_char "/" s)) [
  | inl e ↦ rw (e, escape_segment) refl
  | inr e ↦
      rw (e, escape_segment)
        (sym (
          ap slashes (replace_char_absent "~" "~" "0" s (ground (arith, e)))
          ∙ replace_char_absent "/" "~" "1" s (ground (arith, e))))
]

-- Unescaping an escaped segment of a JSON Pointer gives the segment back, whatever its characters.
pub unescape_segment-escape_segment : (s : String) → unescape_segment (escape_segment s) ≡ s
unfolding unescape_segment
unescape_segment-escape_segment s =
    ap unescape_segment (escape_segment_lem s)
    ∙ ap (replace_pair "~" "0" "~") (slash_undone s)
    ∙ tilde_undone s
