-- ===== src/Schemas/Facts/Positions.antt =====
-- packages/core/src/keywords: the positions that a keyword claims are in its value.
use json_schema_engine.Base.{
  ℕ, suc, ◌+◌, ◌≡◌, refl, ap, subst, ◌∙◌, Bool, true, false, none, some, List, [], ◌∷◌, map, String,
  str_eq, str_eq_iff, if◌then◌else◌, get_elem?, arith,
}
use json_schema_engine.Json.{
  Json, string, array, object, Items, Members, entries, elements, keys, lookup,
}
use json_schema_engine.Cursor.{Segment}
use json_schema_engine.Schemas.Fallible.{returns}
use json_schema_engine.Schemas.State.{Node, Setting, Dialects, Indexes}
use json_schema_engine.Schemas.Walk.{follow_path}
use json_schema_engine.Schemas.Facts.{
  Analysis, one_key, element_paths, map_positions, array_positions, self_analysis, array_analysis,
  map_analysis, reference_analysis, reference_facts, if_analysis, branch_analysis,
  properties_analysis, pattern_properties_analysis, additional_properties_analysis,
  prefix_items_analysis, items_analysis, contains_analysis, unevaluated_properties_analysis,
  unevaluated_items_analysis, pattern_analysis, analyses,
}

module _ (setting : Setting) (dialects : Dialects) (i : Indexes) where
  -- Following the path from a value ends at a part of it.
  abbrev pub IsThere : Node → String → List Segment → Type 0
  IsThere n suffix path =
      (part : Node) × (end : String) × (follow_path setting dialects i path (some n) suffix
        ≡ returns (some part, end))

  abbrev pub AllThere : Node → String → List (List Segment) → Type 0
  AllThere n suffix [] = Unit {0}
  AllThere n suffix (path ∷ rest) = IsThere n suffix path × AllThere n suffix rest

  -- A name of an object, looked up in it.
  lookup_own :
      (k : String) (v : Json) (l : List (String × Json))
      → (w : Json) × (lookup k ((k, v) ∷ l) ≡ some w)
  unfolding lookup
  lookup_own k v l = (v, rw ((str_eq_iff k k).1 refl) refl)

  lookup_later :
      (k j : String) (v : Json) (l : List (String × Json))
      → (w : Json) × (lookup k l ≡ some w)
      → (w : Json) × (lookup k ((j, v) ∷ l) ≡ some w)
  unfolding lookup
  lookup_later k j v l (w, e) = by_test (str_eq j k)
    where
      by_test : (b : Bool) → (u : Json) × ((if b then some v else lookup k l) ≡ some u)
      by_test true = (v, refl)
      by_test false = (w, e)

  abbrev AllHave : List String → List (String × Json) → Type 0
  AllHave [] l = Unit {0}
  AllHave (k ∷ ks) l = ((w : Json) × (lookup k l ≡ some w)) × AllHave ks l

  AllHave-later :
      (ks : List String) (j : String) (v : Json) (l : List (String × Json))
      → AllHave ks l
      → AllHave ks ((j, v) ∷ l)
  AllHave-later [] j v l h = tt
  AllHave-later (k ∷ ks) j v l (h, rest) = (lookup_later k j v l h, AllHave-later ks j v l rest)

  AllHave-keys : (l : List (String × Json)) → AllHave (keys l) l
  AllHave-keys [] = tt
  AllHave-keys ((k, v) ∷ l) = (lookup_own k v l, AllHave-later (keys l) k v l (AllHave-keys l))

  module _ (o : ℕ) (p suffix : String) where
    abbrev node : Json → Node
    node v = record { object_number = o; place = p; json = v }

    keys_there :
        (ms : Members) (ks : List String)
        → AllHave ks (entries ms)
        → AllThere (node (object ms)) suffix (map one_key ks)
    unfolding follow_path
    keys_there ms [] h = tt
    keys_there ms (k ∷ ks) ((w, e), rest) =
        (rw (e, follow_path) (_, _, refl), keys_there ms ks rest)

    map_there : (v : Json) → AllThere (node v) suffix (map_positions v).subschemas
    unfolding map_positions
    map_there (object ms) = keys_there ms (keys (entries ms)) (AllHave-keys (entries ms))
    map_there _ = tt

    -- The elements from the n-th on.
    counted_there :
        (xs : Items) (n : ℕ) (ys : List Json)
        → ((k : ℕ) → get_elem? (elements xs) (n + k) ≡ get_elem? ys k)
        → AllThere (node (array xs)) suffix (element_paths n ys)
    unfolding follow_path
    counted_there xs n [] h = tt
    counted_there xs n (y ∷ ys) h =
        let here : get_elem? (elements xs) n ≡ some y =
          ap (get_elem? (elements xs)) (omega arith) ∙ h 0 in
        (
          rw here (_, _, refl),
          counted_there xs (suc n) ys (λ k. ap (get_elem? (elements xs)) (omega arith) ∙ h (suc k)),
        )

    array_there : (v : Json) → AllThere (node v) suffix (array_positions v).subschemas
    unfolding array_positions
    array_there (array xs) =
        counted_there xs 0 (elements xs) (λ k. ap (get_elem? (elements xs)) (omega arith))
    array_there _ = tt

    self-IsThere : (v : Json) → IsThere (node v) suffix []
    unfolding follow_path
    self-IsThere v = (node v, suffix, refl)

    abbrev Claims : Analysis → Type 0
    Claims a = (v : Json) (schema : Members) → AllThere (node v) suffix (a v schema).subschemas

    abbrev AllClaim : List (String × Analysis) → Type 0
    AllClaim [] = Unit {0}
    AllClaim ((k, a) ∷ rest) = Claims a × AllClaim rest

    self_claims : (v : Json) → AllThere (node v) suffix ([] ∷ [])
    self_claims v = (self-IsThere v, tt)

    reference_there : (v : Json) → AllThere (node v) suffix (reference_facts v).subschemas
    unfolding reference_facts
    reference_there (string s) = tt
    reference_there _ = tt

    all_claim : AllClaim analyses
    unfolding analyses self_analysis array_analysis map_analysis reference_analysis if_analysis
        branch_analysis properties_analysis pattern_properties_analysis
        additional_properties_analysis prefix_items_analysis items_analysis contains_analysis
        unevaluated_properties_analysis unevaluated_items_analysis pattern_analysis
    all_claim =
        let refers = λ (v : Json) (schema : Members). reference_there v in
        let maps = λ (v : Json) (schema : Members). map_there v in
        let arrays = λ (v : Json) (schema : Members). array_there v in
        let selves : (v : Json) (schema : Members) → AllThere (node v) suffix ([] ∷ []) =
          λ v schema. self_claims v in
        let nothing_there : (v : Json) (schema : Members) → Unit {0} = λ v schema. tt in
        (
          refers,
          (
            refers,
            (
              refers,
              (
                maps,
                (
                  arrays,
                  (
                    arrays,
                    (
                      arrays,
                      (
                        selves,
                        (
                          selves,
                          (
                            selves,
                            (
                              selves,
                              (
                                maps,
                                (
                                  maps,
                                  (
                                    maps,
                                    (
                                      selves,
                                      (
                                        arrays,
                                        (
                                          selves,
                                          (
                                            selves,
                                            (selves, (selves, (selves, (nothing_there, tt)))),
                                          ),
                                        ),
                                      ),
                                    ),
                                  ),
                                ),
                              ),
                            ),
                          ),
                        ),
                      ),
                    ),
                  ),
                ),
              ),
            ),
          ),
        )

    claimed_by :
        (l : List (String × Analysis)) (id : String) (a : Analysis)
        → AllClaim l
        → lookup id l ≡ some a
        → Claims a
    unfolding lookup
    claimed_by [] id a h = λ (e : none ≡ some a). cc e
    claimed_by ((k, b) ∷ rest) id a (h, later) = by_test (str_eq k id) (claimed_by rest id a later)
      where
        by_test :
            (c : Bool)
            → (lookup id rest ≡ some a → Claims a)
            → (if c then some b else lookup id rest) ≡ some a
            → Claims a
        by_test true next e = let same : b ≡ a = cc e in subst Claims same h
        by_test false next e = next e

  -- Each position that a keyword of the core, applicator, unevaluated or validation vocabulary of the
  -- 2020-12 draft, or `$recursiveRef`, claims for its subschemas is in the value of the keyword, whatever that value is: the walk that follows it
  -- neither throws nor leaves the value.
  pub analyses_there :
      (id : String) (a : Analysis) (value : Node) (schema : Members) (suffix : String)
      → lookup id analyses ≡ some a
      → AllThere value suffix (a value.json schema).subschemas
  analyses_there id a value schema suffix e =
      claimed_by value.object_number value.place suffix analyses id a
        (all_claim value.object_number value.place suffix) e value.json schema
