-- ===== src/Messages/Preview/Outcome.antt =====
-- packages/core/src/messages.ts, `preview`: what a walk leaves.
use json_schema_engine.Base.{
  ◌≤◌, ◌<◌, leb, ◌≡◌, refl, sym, ap, subst, ◌∙◌, Bool, true, false, ◌++◌, append_assoc, append-nil,
  length, length-append, take, arith,
}
use json_schema_engine.Json.Length.{codes}
use json_schema_engine.Messages.Texts.{
  Text, code_units, length_le-code_units, IsPlain, IsPlain-append, IsPlain-split, take_short,
}
use json_schema_engine.Messages.Preview.{Writer, go_on, and_put, put, separator, put_separator}

-- What a walk that should have written `u` left: all of it, within the budget, or a text that begins
-- as `u` does and is, like `u`, too long.
pub data Outcome (r : Text × Bool) (u : Text) : Type 0 where
  whole : r.1 ≡ true → r.0 ≡ u → length u ≤ 64 → Outcome r u
  spent : r.1 ≡ false → 64 < length r.0 → 64 < length u → take 64 r.0 ≡ take 64 u → Outcome r u

-- A writer that should append `f`.
abbrev pub Follows : Writer → Text → Type 0
Follows m f = (t : Text) → length t ≤ 64 → IsPlain t → IsPlain f → Outcome (m t) (t ++ f)

put-cases :
    (p t : Text) (b : Bool)
    → leb (code_units (t ++ p)) 64 ≡ b
    → IsPlain (t ++ p)
    → Outcome (t ++ p, b) (t ++ p)
put-cases p t true h q = whole refl refl (ground (arith, h, q))
put-cases p t false h q = spent refl (ground (arith, h, q)) (ground (arith, h, q)) refl

pub put-Follows : (p : Text) → Follows (put p) p
unfolding put
put-Follows p t l a b = put-cases p t _ refl (IsPlain-append t p a b)

same_start : (t q p f : Text) → 64 < length q → take 64 (t ++ (q ++ p)) ≡ take 64 (t ++ (q ++ f))
same_start t q p f n =
    let long : 64 ≤ length (t ++ q) = omega (arith, n, length-append t q) in
    ap (take 64) (sym (append_assoc t q p))
    ∙ (take_short 64 (t ++ q) p long
        ∙ (sym (take_short 64 (t ++ q) f long) ∙ ap (take 64) (append_assoc t q f)))

too_long : (t q p : Text) → 64 < length q → 64 < length (t ++ (q ++ p))
too_long t q p n = omega (arith, n, length-append t (q ++ p), length-append q p)

-- Two texts that begin alike beyond the budget.
pub put-Follows_cut : (q p f : Text) → 64 < length q → Follows (put (q ++ p)) (q ++ f)
unfolding put
put-Follows_cut q p f n t l a b =
    let long = too_long t q p n in
    let u = length_le-code_units (t ++ (q ++ p)) in
    spent (ground (arith, long, u)) long (too_long t q f n) (same_start t q p f n)

go_on-Outcome :
    (r : Text × Bool) (k : Writer) (u g : Text)
    → Outcome r u
    → IsPlain u
    → IsPlain g
    → Follows k g
    → Outcome (go_on r k) (u ++ g)
go_on-Outcome (t, true) k u g (whole e w l) a b h =
    subst (λ x. Outcome (k x) (u ++ g)) (sym w) (h u l a b)
go_on-Outcome (t, true) k u g (spent e m n w) a b h = absurd (cc (e))
go_on-Outcome (t, false) k u g (whole e w l) a b h = absurd (cc (e))
go_on-Outcome (t, false) k u g (spent e m n w) a b h =
    spent refl m (omega (arith, n, length-append u g))
      (w ∙ sym (take_short 64 u g (omega (arith, n))))

pub and_put-Follows :
    (m k : Writer) (f g : Text) → Follows m f → Follows k g → Follows (and_put m k) (f ++ g)
and_put-Follows m k f g p q t l a b =
    let (bf, bg) = IsPlain-split f g b in
    subst (Outcome (go_on (m t) k)) (append_assoc t f g)
      (go_on-Outcome (m t) k (t ++ f) g (p t l a bf) (IsPlain-append t f a bf) bg q)

pub separator-Follows : (first : Bool) → Follows (put_separator first) (separator first)
unfolding put_separator
separator-Follows true t l a b = subst (Outcome (t, true)) (sym (append-nil t)) (whole refl refl l)
separator-Follows false t l a b = put-Follows (codes ", ") t l a b
