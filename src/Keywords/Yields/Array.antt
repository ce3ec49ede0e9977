-- ===== src/Keywords/Yields/Array.antt =====
-- packages/core/src/keywords/applicator.ts: the verdicts of `items` and `prefixItems`.
use json_schema_engine.Base.{
  ℕ, ◌+◌, ◌-◌, ◌==◌, ◌≡◌, refl, sym, ◌∙◌, ap, Bool, true, false, ◌&&◌, ◌||◌, not, List, [], ◌∷◌,
  ◌++◌, arith, if◌then◌else◌, any, all, ok, length, drop,
}
use mathlib.Core.Path.{subst, ap₂}
use json_schema_engine.Json.{Json, array, Items, Members, elements}
use json_schema_engine.Cursor.{Cursor, value, Segment, key, index, child_cursor}
use json_schema_engine.Engine.State.{EvalState, Datum, Description, indexes, amount, verdict}
use json_schema_engine.Engine.Program.{Program, Environment, ◌>>=◌}
use json_schema_engine.Engine.Context.{Context, Application}
use json_schema_engine.Engine.Apply.{run}
use json_schema_engine.Keywords.Schema.{is_false, on_array, described}
use json_schema_engine.Keywords.Array.{
  Tally, no_items, close_items, close_indexes, items, sweep_items, prefix_length, prefix_items,
  sweep_prefix, overlap,
}
use json_schema_engine.Keywords.Yields.{
  declares, Oracle, Situated, Yields, Yields-done, Yields-report, Yields-apply, Yields-child,
  Yields-produce, Yields-if, items_claimed,
}

abbrev pub no_index : List ℕ → Bool
no_index [] = true
no_index (i ∷ l) = false

pub no_index-snoc : (l : List ℕ) (i : ℕ) → no_index (l ++ i ∷ []) ≡ false
no_index-snoc [] i = refl
no_index-snoc (j ∷ l) i = refl

not-not : (b : Bool) → not (not b) ≡ b
not-not true = refl
not-not false = refl

module _ {env : Environment} {self : Application} {x : Context} {origin : EvalState}
    {verdicts : List Segment → Json → Bool} (o : Oracle env self x origin verdicts)
    (c : Cursor) where
  close_items-Yields :
      (d : List ℕ → Description) (m : Datum) (w : Tally)
      → declares env x ≡ true
      → Yields o
          (close_items d m w)
          false
          (no_index w.rejected && w.passes, not (no_index w.rejected))
  close_items-Yields d m w declared = close w.rejected w.applied w.passes
    where
      close :
          (l : List ℕ) (applied valid : Bool)
          → Yields o
              (close_indexes d m l applied valid)
              false
              (no_index l && valid, not (no_index l))
      close [] true true = Yields-produce o _ _ false _ declared (Yields-done o true false)
      close [] true false = Yields-done o false false
      close [] false valid = Yields-done o valid false
      close (i ∷ l) applied valid = Yields-report o _ _ false _ (Yields-done o false true)

  -- What remains to be shown of a sweep, as for the sweeps of an object.
  unfoldable pub Rest :
      (Tally → Program Bool) → Bool → Bool × Bool → Bool → List ℕ → Bool → Bool → Type 0
  Rest k b r valid l accepts forbids =
      (w : Tally)
      → (no_index w.rejected && w.passes) ≡ (no_index l && (valid && accepts))
      → no_index w.rejected ≡ (no_index l && not forbids)
      → Yields o (k w) b r

  pub close-Rest :
      (d : List ℕ → Description) (m : Datum) (accepts forbids : Bool)
      → declares env x ≡ true
      → Rest (close_items d m) false (accepts, forbids) true [] accepts forbids
  unfolding Rest
  close-Rest d m accepts forbids declared w e f =
      subst (Yields o (close_items d m w) false)
        (ap₂ (λ p q. (p, not q)) e f ∙ ap (λ q. (accepts, q)) (not-not forbids))
        (close_items-Yields d m w declared)

  module _ (schema : Json) where
    abbrev pub item_accepts : Json → Bool
    item_accepts v = not (is_false schema) && verdicts (key "items" ∷ []) v

    abbrev pub item_forbidden : Json → Bool
    item_forbidden v = is_false schema

    sweep_items-Yields :
        (k : Tally → Program Bool) (b : Bool) (r : Bool × Bool) (i : ℕ) (vs : List Json) (w : Tally)
        → o.claimed (key "items" ∷ []) ≡ true
        → Rest k b r w.passes w.rejected (all item_accepts vs) (any item_forbidden vs)
        → Yields o (sweep_items c schema "items" i vs w >>= k) b r
    unfolding sweep_items Rest
    sweep_items-Yields k b r i [] w own h = h w (ground arith) (ground arith)
    sweep_items-Yields k b r i (v ∷ vs) w own h =
        Yields-if o (is_false schema) _ _ k b r
          (λ refused. sweep_items-Yields k b r (i + 1) vs _ own (λ w' e f.
            h w' (ground (arith, refused, e, f, no_index-snoc w.rejected i))
              (ground (arith, refused, f, no_index-snoc w.rejected i))))
          (λ applied. Yields-child o c _ v _ b r (λ n.
            Yields-apply o _ (child_cursor n c (index i) v) _ b r own (
              sweep_items-Yields k b r (i + 1) vs _ own
                (λ w' e f. h w' (ground (arith, applied, e)) (ground (arith, applied, f))))))

  -- Where an oracle answers for the keyword's schema, and the registry lists the keyword as one that
  -- produces data, `items` accepts an array exactly when each item behind those of the sibling `prefixItems` is
  -- accepted by the keyword's schema, which is not `false` where there is such an item; it reports
  -- exactly when there is one and the schema is `false`.
  pub items_verdict :
      (schema : Json) (instance : Items) (ms : Members)
      → value c ≡ array instance
      → declares env x ≡ true
      → o.claimed (key "items" ∷ []) ≡ true
      → (s : EvalState) → Situated origin s
      → (run env self x (items.evaluate schema c ms) false s).0
        ≡ ok (
          all (item_accepts schema) (drop (prefix_length ms) (elements instance)),
          any (item_forbidden schema) (drop (prefix_length ms) (elements instance)),
        )
  unfolding items
  items_verdict schema instance ms at declared own =
      let start = prefix_length ms in
      let accepts = all (item_accepts schema) (drop start (elements instance)) in
      let forbids = any (item_forbidden schema) (drop start (elements instance)) in
      subst
        (λ j.
          Yields o
            (on_array j (λ l.
              sweep_items c schema "items" start (drop start l) no_items
              >>= close_items (λ q. described "tailRejected" (amount start ∷ indexes q ∷ []))
                  (verdict true)))
            false (accepts, forbids))
        (sym at)
        (sweep_items-Yields schema _ false _ start (drop start (elements instance)) no_items own (
          close-Rest (λ q. described "tailRejected" (amount start ∷ indexes q ∷ [])) (verdict true)
            accepts forbids declared))

  -- The schemas of `prefixItems` against the items at their positions.
  unfoldable pub positions_accept : ℕ → List Json → List Json → Bool
  positions_accept i [] vs = true
  positions_accept i (s ∷ ss) [] = true
  positions_accept i (s ∷ ss) (v ∷ vs) =
      (not (is_false s) && verdicts (key "prefixItems" ∷ index i ∷ []) v)
      && positions_accept (i + 1) ss vs

  unfoldable pub position_forbidden : List Json → List Json → Bool
  position_forbidden [] vs = false
  position_forbidden (s ∷ ss) [] = false
  position_forbidden (s ∷ ss) (v ∷ vs) = is_false s || position_forbidden ss vs

  sweep_prefix-Yields :
      (k : Tally → Program Bool) (b : Bool) (r : Bool × Bool) (i : ℕ) (ss vs : List Json)
      (w : Tally)
      → items_claimed o "prefixItems" i ss ≡ true
      → Rest k b r w.passes w.rejected (positions_accept i ss vs) (position_forbidden ss vs)
      → Yields o (sweep_prefix c i ss vs w >>= k) b r
  unfolding sweep_prefix items_claimed Rest positions_accept position_forbidden
  sweep_prefix-Yields k b r i [] vs w own h = h w (ground arith) (ground arith)
  sweep_prefix-Yields k b r i (s ∷ ss) [] w own h = h w (ground arith) (ground arith)
  sweep_prefix-Yields k b r i (s ∷ ss) (v ∷ vs) w own h =
      Yields-if o (is_false s) _ _ k b r
        (λ refused. sweep_prefix-Yields k b r (i + 1) ss vs _ (ground (arith, own)) (λ w' e f.
          h w' (ground (arith, refused, e, f, no_index-snoc w.rejected i))
            (ground (arith, refused, f, no_index-snoc w.rejected i))))
        (λ applied. Yields-child o c _ v _ b r (λ n.
          Yields-apply o _ (child_cursor n c (index i) v) _ b r (ground (arith, own)) (
            sweep_prefix-Yields k b r (i + 1) ss vs _ (ground (arith, own))
              (λ w' e f. h w' (ground (arith, applied, e)) (ground (arith, applied, f))))))

  -- Where an oracle answers for each schema of the keyword, and the registry lists the keyword as one
  -- that produces data, `prefixItems` accepts an array exactly when each item that has a schema at its position is
  -- accepted by that schema, which is not `false`; it reports exactly when such a schema is `false`.
  pub prefix_items_verdict :
      (schemas instance : Items) (ms : Members)
      → value c ≡ array instance
      → declares env x ≡ true
      → items_claimed o "prefixItems" 0 (elements schemas) ≡ true
      → (s : EvalState) → Situated origin s
      → (run env self x (prefix_items.evaluate (array schemas) c ms) false s).0
        ≡ ok (
          positions_accept 0 (elements schemas) (elements instance),
          position_forbidden (elements schemas) (elements instance),
        )
  unfolding prefix_items
  prefix_items_verdict schemas instance ms at declared own =
      let ss = elements schemas in
      let last : List Json → Datum =
        λ l. if overlap ss l == length l then verdict true else amount (overlap ss l - 1) in
      let describe : List ℕ → Description = λ q. described "positionsRejected" (indexes q ∷ []) in
      let accepts = positions_accept 0 ss (elements instance) in
      let forbids = position_forbidden ss (elements instance) in
      subst
        (λ j.
          Yields o
            (on_array j (λ l. sweep_prefix c 0 ss l no_items >>= close_items describe (last l)))
            false (accepts, forbids))
        (sym at)
        (sweep_prefix-Yields _ false _ 0 ss (elements instance) no_items own
          (close-Rest describe (last (elements instance)) accepts forbids declared))
