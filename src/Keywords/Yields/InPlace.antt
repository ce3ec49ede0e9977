-- ===== src/Keywords/Yields/InPlace.antt =====
-- packages/core/src/keywords/applicator.ts: the verdicts of `allOf`, `anyOf`, `oneOf` and `not`.
use json_schema_engine.Base.{
  ℕ, ◌+◌, append_assoc, append-nil, ◌≡◌, refl, sym, Bool, true, false, ◌&&◌, ◌||◌, not, List, [],
  ◌∷◌, ◌++◌, String, arith, ok, Bool-cases, inl, inr, if◌then◌else◌, any, all, length, ◌==◌,
}
use mathlib.Core.Path.{subst}
use json_schema_engine.Json.{Json, array, Items, Members, elements}
use json_schema_engine.Cursor.{Cursor, value, Segment, key, index}
use json_schema_engine.Engine.State.{EvalState}
use json_schema_engine.Engine.Program.{Program, done, Environment, ◌>>=◌}
use json_schema_engine.Engine.Context.{Context, Application}
use json_schema_engine.Engine.Apply.{run}
use json_schema_engine.Keywords.Schema.{is_false, rejecting, described}
use json_schema_engine.Keywords.InPlace.{
  all_of, all_branches, false_indexes, any_of, any_branches, one_of, one_branches, not_keyword,
  close_any, close_all, close_one,
}
use json_schema_engine.Keywords.Yields.{
  Oracle, Situated, Yields, Yields-done, Yields-report, Yields-apply, Yields-if, items_claimed,
}

-- One value for each schema of an array, with its index.
unfoldable pub indexed : (ℕ → Json → Bool) → ℕ → List Json → List Bool
indexed f i [] = []
indexed f i (s ∷ rest) = f i s ∷ indexed f (i + 1) rest

abbrev pub id_test : Bool → Bool
id_test b = b

or-false : (a : Bool) → (a || false) ≡ a
or-false a = ground arith

and-true : (a : Bool) → (a && true) ≡ a
and-true a = ground arith

or_assoc : (a b c : Bool) → (a || (b || c)) ≡ ((a || b) || c)
or_assoc a b c = ground arith

and_assoc : (a b c : Bool) → (a && (b && c)) ≡ ((a && b) && c)
and_assoc a b c = ground arith

-- The indexes at which a test of an array's schemas holds.
unfoldable pub matching : (ℕ → Json → Bool) → ℕ → List Json → List ℕ
matching f i [] = []
matching f i (s ∷ rest) = let later = matching f (i + 1) rest in if f i s then i ∷ later else later

pub one_more :
    (f : Bool) (i : ℕ) (passing later : List ℕ)
    → (passing ++ (if f then i ∷ later else later))
      ≡ (if f then passing ++ i ∷ [] else passing) ++ later
one_more true i passing later = sym (append_assoc passing (i ∷ []) later)
one_more false i passing later = refl

abbrev no_index : List ℕ → Bool
no_index [] = true
no_index (i ∷ l) = false

module _ {env : Environment} {self : Application} {x : Context} {origin : EvalState}
    {verdicts : List Segment → Json → Bool} (o : Oracle env self x origin verdicts)
    (c : Cursor) where
  -- What the branch at an index of the keyword says of the instance.
  abbrev pub branch : String → ℕ → Bool
  branch keyword i = verdicts (key keyword ∷ index i ∷ []) (value c)

  any_branches-Yields :
      (k : Bool → Program Bool) (b : Bool) (r : Bool × Bool) (xs : List Json) (i : ℕ) (valid : Bool)
      → items_claimed o "anyOf" i xs ≡ true
      → Yields o (k (valid || any id_test (indexed (λ j s. branch "anyOf" j) i xs))) b r
      → Yields o (any_branches c i xs valid >>= k) b r
  unfolding any_branches indexed items_claimed
  any_branches-Yields k b r [] i valid own h = subst (λ y. Yields o (k y) b r) (or-false valid) h
  any_branches-Yields k b r (x ∷ xs) i valid own h =
      Yields-apply o _ c _ b r (ground (arith, own)) (
        any_branches-Yields k b r xs (i + 1) _ (ground (arith, own))
          (subst (λ y. Yields o (k y) b r) (or_assoc valid _ _) h))

  -- Where an oracle answers for each branch of the keyword, `anyOf` returns that it accepts exactly
  -- when some branch does, and it reports exactly when no branch does.
  pub any_of_verdict :
      (xs : Items) (ms : Members) (s : EvalState)
      → items_claimed o "anyOf" 0 (elements xs) ≡ true
      → Situated origin s
      → (run env self x (any_of.evaluate (array xs) c ms) false s).0
        ≡ ok (
          any id_test (indexed (λ j s. branch "anyOf" j) 0 (elements xs)),
          not (any id_test (indexed (λ j s. branch "anyOf" j) 0 (elements xs))),
        )
  unfolding any_of
  any_of_verdict xs ms s own = any_branches-Yields _ false _ (elements xs) 0 false own (close _) s
    where
      close : (y : Bool) → Yields o (close_any (length (elements xs)) y) false (y, not y)
      close true = Yields-done o true false
      close false = Yields-report o _ _ false _ (Yields-done o false true)

  all_branches-Yields :
      (k : Bool → Program Bool) (b : Bool) (r : Bool × Bool) (xs : List Json) (i : ℕ) (valid : Bool)
      → items_claimed o "allOf" i xs ≡ true
      → Yields o
          (k (valid && all id_test (indexed (λ j s. is_false s || branch "allOf" j) i xs)))
          b
          r
      → Yields o (all_branches c i xs valid >>= k) b r
  unfolding all_branches indexed items_claimed
  all_branches-Yields k b r [] i valid own h = subst (λ y. Yields o (k y) b r) (and-true valid) h
  all_branches-Yields k b r (x ∷ xs) i valid own h =
      Yields-if o (is_false x) _ _ k b r
        (λ e.
          all_branches-Yields k b r xs (i + 1) valid (ground (arith, own))
            (along _ _ (ground (arith, e)) h))
        (λ e. Yields-apply o _ c _ b r (ground (arith, own)) (
          all_branches-Yields k b r xs (i + 1) _ (ground (arith, own))
            (along _ _ (ground (arith, e)) h)))
    where
      along : (y z : Bool) → y ≡ z → Yields o (k y) b r → Yields o (k z) b r
      along y z q g = subst (λ w. Yields o (k w) b r) q g

  close_all-Yields :
      (l : List ℕ) (valid : Bool)
      → Yields o (close_all l valid) false (no_index l && valid, not (no_index l))
  close_all-Yields [] valid = Yields-done o valid false
  close_all-Yields (i ∷ l) valid = Yields-report o _ _ false _ (Yields-done o false true)

  -- A `false` branch is left out of the applications, and rejects.
  unfoldable pub all_of_test : (xs : List Json) (i : ℕ) → Bool × Bool
  all_of_test xs i =
      (all id_test (indexed (λ j s. not (is_false s) && branch "allOf" j) i xs), any is_false xs)

  all_of_test_lem :
      (xs : List Json) (i : ℕ)
      → (
        no_index (false_indexes i xs)
            && all id_test (indexed (λ j s. is_false s || branch "allOf" j) i xs),
        not (no_index (false_indexes i xs)),
      )
        ≡ all_of_test xs i
  unfolding all_of_test false_indexes indexed
  all_of_test_lem [] i = refl
  all_of_test_lem (x ∷ xs) i = ground (arith, all_of_test_lem xs (i + 1))

  -- Where an oracle answers for each branch of the keyword, `allOf` accepts exactly when no branch
  -- is `false` and each branch accepts; it reports exactly when a branch is `false`.
  pub all_of_verdict :
      (xs : Items) (ms : Members) (s : EvalState)
      → items_claimed o "allOf" 0 (elements xs) ≡ true
      → Situated origin s
      → (run env self x (all_of.evaluate (array xs) c ms) false s).0
        ≡ ok (all_of_test (elements xs) 0)
  unfolding all_of
  all_of_verdict xs ms s own =
      subst (Yields o (all_of.evaluate (array xs) c ms) false) (all_of_test_lem (elements xs) 0)
        (all_branches-Yields _ false _ (elements xs) 0 true own
          (close_all-Yields (false_indexes 0 (elements xs)) _))
        s

  one_branches-Yields :
      (k : List ℕ → Program Bool) (b : Bool) (r : Bool × Bool) (xs : List Json) (i : ℕ)
      (passing : List ℕ)
      → items_claimed o "oneOf" i xs ≡ true
      → Yields o (k (passing ++ matching (λ j s. branch "oneOf" j) i xs)) b r
      → Yields o (one_branches c i xs passing >>= k) b r
  unfolding one_branches matching items_claimed
  one_branches-Yields k b r [] i passing own h =
      subst (λ l. Yields o (k l) b r) (append-nil passing) h
  one_branches-Yields k b r (x ∷ xs) i passing own h =
      Yields-apply o _ c _ b r (ground (arith, own)) (
        one_branches-Yields k b r xs (i + 1) _ (ground (arith, own))
          (subst (λ l. Yields o (k l) b r) (one_more (branch "oneOf" i) i passing _) h))

  close_one-Yields :
      (n : ℕ) (l : List ℕ) → Yields o (close_one n l) false (length l == 1, not (length l == 1))
  close_one-Yields n l = elim (Bool-cases (length l == 1)) [
    | inl e ↦ rw e (Yields-done o true false)
    | inr e ↦ rw e (Yields-report o _ _ false _ (Yields-done o false true))
  ]

  -- Where an oracle answers for each branch of the keyword, `oneOf` accepts exactly when the
  -- branches that accept are one in number, and reports exactly when they are not.
  pub one_of_verdict :
      (xs : Items) (ms : Members) (s : EvalState)
      → items_claimed o "oneOf" 0 (elements xs) ≡ true
      → Situated origin s
      → (run env self x (one_of.evaluate (array xs) c ms) false s).0
        ≡ ok (
          length (matching (λ j s. branch "oneOf" j) 0 (elements xs)) == 1,
          not (length (matching (λ j s. branch "oneOf" j) 0 (elements xs)) == 1),
        )
  unfolding one_of
  one_of_verdict xs ms s own =
      one_branches-Yields _ false _ (elements xs) 0 [] own
        (close_one-Yields (length (elements xs)) _) s

  -- Where an oracle answers for the keyword's schema, `not` accepts exactly when that schema rejects
  -- the instance, and reports exactly when it accepts it.
  pub not_verdict :
      (v : Json) (ms : Members) (s : EvalState)
      → o.claimed (key "not" ∷ []) ≡ true
      → Situated origin s
      → (run env self x (not_keyword.evaluate v c ms) false s).0
        ≡ ok (not (verdicts (key "not" ∷ []) (value c)), verdicts (key "not" ∷ []) (value c))
  unfolding not_keyword
  not_verdict v ms s own =
      Yields-apply o _ c _ false _ own (close (verdicts (key "not" ∷ []) (value c))) s
    where
      close :
          (y : Bool)
          → Yields o (if y then rejecting (described "not" []) else done true) false (not y, y)
      close true = Yields-report o _ _ false _ (Yields-done o false true)
      close false = Yields-done o true false
