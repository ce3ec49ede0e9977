-- ===== src/Messages/Preview/Exact.antt =====
-- packages/core/src/messages.ts, `preview`: stopping early does not show.
use json_schema_engine.Base.{
  ℕ, ◌≤◌, ◌<◌, leb, ◌≡◌, refl, sym, ap, subst, ◌∙◌, Bool, true, false, [], ◌∷◌, ◌++◌, append_assoc,
  append-nil, if◌then◌else◌, length, length-append, take, drop, arith, Bool-cases, inl, inr,
}
use json_schema_engine.Json.{
  Double, Json, null, boolean, number, string, array, object, Items, nil, cons, Members, end,
  member,
}
use json_schema_engine.Json.Length.{codes}
use json_schema_engine.Messages.Texts.{
  Text, code_units, length_le-code_units, IsPlain, take_long, take-take, length-take,
  length-take_full, take-drop,
}
use json_schema_engine.Messages.Preview.Outcome.{
  Outcome, whole, spent, Follows, put-Follows, put-Follows_cut, and_put-Follows, separator-Follows,
}
use json_schema_engine.Messages.Preview.{
  cut, ellipsis, put, separator, quoted, escaped_text, scalar_text, preview_value, walk_items,
  walk_entries, preview,
}

-- The whole text of a value, whatever its length.
module _ (escape : ℕ → Text) (number_text : Double → Text) where
  unfoldable mutual
    pub compact : Json → Text
    compact (string s) = quoted escape number_text (codes s)
    compact (array xs) = codes "[" ++ compact_items true xs
    compact (object ms) = codes "{" ++ compact_entries true ms
    compact null = scalar_text escape number_text null
    compact (boolean b) = scalar_text escape number_text (boolean b)
    compact (number n) = scalar_text escape number_text (number n)

    pub compact_items : Bool → Items → Text
    compact_items first nil = codes "]"
    compact_items first (cons v vs) = separator first ++ (compact v ++ compact_items false vs)

    pub compact_entries : Bool → Members → Text
    compact_entries first end = codes "}"
    compact_entries first (member key v ms) =
        separator first
        ++ ((quoted escape number_text (codes key) ++ codes ": ")
            ++ (compact v ++ compact_entries false ms))

module _ (escape : ℕ → Text) (number_text : Double → Text)
    (shown : (c : ℕ) → 1 ≤ length (escape c)) where
  abbrev quote : Text → Text
  quote s = quoted escape number_text s

  length_escaped : (s : Text) → length s ≤ length (escaped_text escape number_text s)
  length_escaped [] = omega arith
  length_escaped (c ∷ s) = omega (
    arith,
    shown c,
    length_escaped s,
    length-append (escape c) (escaped_text escape number_text s),
  )

  escaped_text-append :
      (s t : Text)
      → escaped_text escape number_text (s ++ t)
        ≡ escaped_text escape number_text s ++ escaped_text escape number_text t
  escaped_text-append [] t = refl
  escaped_text-append (c ∷ s) t =
      ap (λ x. escape c ++ x) (escaped_text-append s t)
      ∙ sym (append_assoc (escape c) (escaped_text escape number_text s) _)

  -- A cut string and the whole one begin alike, beyond the budget.
  quoted_split :
      (s : Text)
      → 65 < length s
      → (q : Text) × (a : Text) × (b : Text) × (64 < length q)
        × (quote (take 65 s) ≡ q ++ a)
        × (quote s ≡ q ++ b)
  quoted_split s n = (
    codes "\"" ++ escaped_text escape number_text (take 65 s),
    codes "\"",
    escaped_text escape number_text (drop 65 s) ++ codes "\"",
    omega (arith, n, length_escaped (take 65 s), length-take_full 65 s (omega (arith, n))),
    refl,
    ap (λ x. codes "\"" ++ x)
        (ap (λ x. escaped_text escape number_text x ++ codes "\"") (sym (take-drop 65 s))
          ∙ (ap (λ x. x ++ codes "\"") (escaped_text-append (take 65 s) (drop 65 s))
              ∙ append_assoc (escaped_text escape number_text (take 65 s)) _ (codes "\""))),
  )

  key-Follows : (s tail : Text) → Follows (put (quote (take 65 s) ++ tail)) (quote s ++ tail)
  key-Follows s tail = elim (Bool-cases (leb (length s) 65)) [
    | inl h ↦
        let same = take_long 65 s (ground (arith, h)) in
        subst (λ x. Follows (put (quote x ++ tail)) (quote s ++ tail)) (sym same)
          (put-Follows (quote s ++ tail))
    | inr h ↦
        let (q, a, b, n, e, d) = quoted_split s (ground (arith, h)) in
        subst (λ x. Follows (put x) (quote s ++ tail))
          (sym (ap (λ x. x ++ tail) e ∙ append_assoc q a tail))
          (subst (λ y. Follows (put (q ++ (a ++ tail))) y)
            (sym (ap (λ x. x ++ tail) d ∙ append_assoc q b tail))
            (put-Follows_cut q (a ++ tail) (b ++ tail) n))
  ]

  text-Follows : (s : Text) → Follows (put (quote (take 65 s))) (quote s)
  text-Follows s =
      subst (λ x. Follows (put x) (quote s)) (append-nil (quote (take 65 s)))
        (subst (λ y. Follows (put (quote (take 65 s) ++ [])) y) (append-nil (quote s))
          (key-Follows s []))

  mutual
    unfolding preview_value compact

    value-Follows :
        (v : Json) → Follows (preview_value escape number_text v) (compact escape number_text v)
    value-Follows (string s) = text-Follows (codes s)
    value-Follows (array xs) =
        and_put-Follows _ _ _ _ (put-Follows (codes "[")) (items-Follows true xs)
    value-Follows (object ms) =
        and_put-Follows _ _ _ _ (put-Follows (codes "{")) (entries-Follows true ms)
    value-Follows null = put-Follows _
    value-Follows (boolean b) = put-Follows _
    value-Follows (number n) = put-Follows _

    items-Follows :
        (first : Bool) (xs : Items)
        → Follows
            (walk_items escape number_text first xs)
            (compact_items escape number_text first xs)
    items-Follows first nil = put-Follows _
    items-Follows first (cons v vs) =
        and_put-Follows _ _ _ _ (separator-Follows first)
          (and_put-Follows _ _ _ _ (value-Follows v) (items-Follows false vs))

    entries-Follows :
        (first : Bool) (ms : Members)
        → Follows
            (walk_entries escape number_text first ms)
            (compact_entries escape number_text first ms)
    entries-Follows first end = put-Follows _
    entries-Follows first (member key v ms) = and_put-Follows _ _ _ _ (separator-Follows first) (
        and_put-Follows _ _ _ _ (key-Follows (codes key) (codes ": "))
          (and_put-Follows _ _ _ _ (value-Follows v) (entries-Follows false ms)))

over : (n : ℕ) → 64 < n → leb n 64 ≡ false
over n h = ground (arith, h)

cut_long : (t : Text) → 64 < length t → cut t ≡ take 63 t ++ ellipsis
unfolding cut
cut_long t h =
    let a = over (code_units t) (omega (arith, h, length_le-code_units t)) in
    let b = over (length t) h in rw (a, b) refl

cut_same : (s t : Text) → 64 < length s → 64 < length t → take 64 s ≡ take 64 t → cut s ≡ cut t
cut_same s t a b w =
    let first : take 63 s ≡ take 63 t =
      sym (take-take 63 64 s (omega arith)) ∙ (ap (take 63) w ∙ take-take 63 64 t (omega arith)) in
    cut_long s a ∙ (ap (λ x. x ++ ellipsis) first ∙ sym (cut_long t b))

cut-Outcome : (r : Text × Bool) (u : Text) → Outcome r u → cut r.0 ≡ cut u
cut-Outcome r u (whole e w l) = ap cut w
cut-Outcome r u (spent e m n w) = cut_same r.0 u m n w

cut_short : (t : Text) → length t ≤ 64 → cut t ≡ t
unfolding cut
cut_short t h = elim (Bool-cases (leb (code_units t) 64)) [
  | inl a ↦ rw a refl
  | inr a ↦ let b : leb (length t) 64 ≡ true = ground (arith, h) in rw (a, b) refl
]

cut-length : (t : Text) → cut t ≡ (if leb (length t) 64 then t else take 63 t ++ ellipsis)
cut-length t = elim (Bool-cases (leb (length t) 64)) [
  | inl a ↦ rw a (cut_short t (ground (arith, a)))
  | inr a ↦ rw a (cut_long t (ground (arith, a)))
]

length-cut : (t : Text) → length (cut t) ≤ 64
length-cut t = elim (Bool-cases (leb (length t) 64)) [
  | inl a ↦
      let h : length t ≤ 64 = ground (arith, a) in
      subst (λ x. length x ≤ 64) (sym (cut_short t h)) h
  | inr a ↦
      subst (λ x. length x ≤ 64) (sym (cut_long t (ground (arith, a))))
        (omega (arith, length-append (take 63 t) ellipsis, length-take 63 t))
]

module _ (escape : ℕ → Text) (number_text : Double → Text) where
  -- A preview has at most 64 code points, whatever the value.
  pub preview_bounded : (v : Json) → length (preview escape number_text v) ≤ 64
  unfolding preview
  preview_bounded v = length-cut (preview_value escape number_text v []).0

  -- Where the compact JSON text of a value holds no character outside of the basic plane, its preview
  -- is that text where it has at most 64 code points, and else its first 63 code points and an
  -- ellipsis: that strings are cut and the walk stops early does not show. `JSON.stringify` writes
  -- something for each character of a string.
  pub preview-compact :
      (v : Json)
      → ((c : ℕ) → 1 ≤ length (escape c))
      → IsPlain (compact escape number_text v)
      → preview escape number_text v ≡ (
          if leb (length (compact escape number_text v)) 64
          then compact escape number_text v
          else take 63 (compact escape number_text v) ++ ellipsis)
  unfolding preview
  preview-compact v shown plain =
      cut-Outcome (preview_value escape number_text v []) (compact escape number_text v)
        (value-Follows escape number_text shown v [] (omega arith) refl plain)
      ∙ cut-length (compact escape number_text v)
