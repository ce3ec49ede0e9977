-- ===== src/Keywords/Yields/UnevaluatedItems.antt =====
-- packages/core/src/keywords/unevaluated.ts: the verdict of `unevaluatedItems`.
use json_schema_engine.Base.{
  ℕ, ◌+◌, ◌≡◌, Bool, true, false, ◌&&◌, ◌||◌, not, List, [], ◌∷◌, arith, some, none, ok, length,
  drop,
}
use json_schema_engine.Json.{Json, array, Items, Members, elements}
use json_schema_engine.Cursor.{Cursor, value, Segment, key, index, child_cursor}
use json_schema_engine.Engine.State.{EvalState, verdict, indexes}
use json_schema_engine.Engine.Program.{Program, Environment, every, ◌>>=◌}
use json_schema_engine.Engine.Context.{Context, Application, consumption_error, select_views}
use json_schema_engine.Engine.Apply.{run}
use json_schema_engine.Keywords.Schema.{is_false, described}
use json_schema_engine.Keywords.Array.{Tally, no_items}
use json_schema_engine.Keywords.Unevaluated.{
  unevaluated_items, sweep_uncovered, index_member, Covered, nothing_covered, cover_all, item_ids,
}
use json_schema_engine.Keywords.Yields.{
  declares, Oracle, Situated, Yields, Yields-apply, Yields-child, Yields-if,
}
use json_schema_engine.Keywords.Yields.Array.{no_index-snoc, Rest, close-Rest}

module _ {env : Environment} {self : Application} {x : Context} {origin : EvalState}
    {verdicts : List Segment → Json → Bool} (o : Oracle env self x origin verdicts) (c : Cursor)
    (schema : Json) (covered : List ℕ) where
  -- Each item from an index on is covered, or accepted by a schema that is not `false`.
  unfoldable pub uncovered_accept : ℕ → List Json → Bool
  uncovered_accept i [] = true
  uncovered_accept i (v ∷ vs) =
      (index_member i covered || not (is_false schema) && verdicts (key "unevaluatedItems" ∷ []) v)
      && uncovered_accept (i + 1) vs

  unfoldable pub uncovered_forbidden : ℕ → List Json → Bool
  uncovered_forbidden i [] = false
  uncovered_forbidden i (v ∷ vs) =
      not (index_member i covered) && is_false schema || uncovered_forbidden (i + 1) vs

  sweep_uncovered-Yields :
      (k : Tally → Program Bool) (b : Bool) (r : Bool × Bool) (i : ℕ) (vs : List Json) (w : Tally)
      → o.claimed (key "unevaluatedItems" ∷ []) ≡ true
      → Rest o c k b r w.passes w.rejected (uncovered_accept i vs) (uncovered_forbidden i vs)
      → Yields o (sweep_uncovered c schema covered i vs w >>= k) b r
  unfolding sweep_uncovered Rest uncovered_accept uncovered_forbidden
  sweep_uncovered-Yields k b r i [] w own h = h w (ground arith) (ground arith)
  sweep_uncovered-Yields k b r i (v ∷ vs) w own h =
      Yields-if o (index_member i covered) _ _ k b r
        (λ seen.
          sweep_uncovered-Yields k b r (i + 1) vs w own
            (λ w' e f. h w' (ground (arith, seen, e)) (ground (arith, seen, f))))
        (λ unseen.
          Yields-if o (is_false schema) _ _ k b r
            (λ refused. sweep_uncovered-Yields k b r (i + 1) vs _ own (λ w' e f.
              h w' (ground (arith, unseen, refused, e, f, no_index-snoc w.rejected i))
                (ground (arith, unseen, refused, f, no_index-snoc w.rejected i))))
            (λ applied. Yields-child o c _ v _ b r (λ n.
              Yields-apply o _ (child_cursor n c (index i) v) _ b r own (
                sweep_uncovered-Yields k b r (i + 1) vs _ own (λ w' e f.
                  h w' (ground (arith, unseen, applied, e))
                    (ground (arith, unseen, applied, f)))))))

-- Where an oracle answers for the keyword's schema, the registry lists what the keyword produces and
-- consumes, and the dependency data that the keyword may see covers the items before `w.prefix` and those at
-- `w.indexes`, `unevaluatedItems` accepts an array exactly when each other item is accepted by its
-- schema, which is not `false`; it reports exactly when the schema is `false` and there is another
-- item.
pub unevaluated_items_verdict :
    {env : Environment} {self : Application} {x : Context} {origin : EvalState}
    {verdicts : List Segment → Json → Bool} (o : Oracle env self x origin verdicts) (c : Cursor)
    (schema : Json) (w : Covered) (instance : Items) (ms : Members)
    → value c ≡ array instance
    → declares env x ≡ true
    → o.claimed (key "unevaluatedItems" ∷ []) ≡ true
    → (s : EvalState) → Situated origin s
    → consumption_error env item_ids ≡ none
    → cover_all
        (length (elements instance))
        (select_views x item_ids every s.frame.dependencies)
        nothing_covered
      ≡ some w
    → (run env self x (unevaluated_items.evaluate schema c ms) false s).0
      ≡ ok (
        uncovered_accept o c schema w.indexes w.prefix (drop w.prefix (elements instance)),
        uncovered_forbidden o c schema w.indexes w.prefix (drop w.prefix (elements instance)),
      )
unfolding unevaluated_items run
unevaluated_items_verdict o c schema w instance ms at declared own s q consumed e =
    let vs = drop w.prefix (elements instance) in
    let accepts = uncovered_accept o c schema w.indexes w.prefix vs in
    let forbids = uncovered_forbidden o c schema w.indexes w.prefix vs in
    rw (at, run)
      (rw (consumed, run)
        (rw (e, run)
          (sweep_uncovered-Yields o c schema w.indexes _ false _ w.prefix vs no_items own
            (close-Rest o c (λ l. described "unevaluated" (indexes l ∷ [])) (verdict true) accepts
              forbids declared)
            s q)))
