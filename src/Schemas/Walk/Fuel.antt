-- ===== src/Schemas/Walk/Fuel.antt =====
-- packages/core/src/registry.ts: the walk ends by its own depth bound, whatever fuel the model has.
use json_schema_engine.Base.{
  ℕ, zero, suc, ◌+◌, ◌≤◌, ltb, ◌≡◌, refl, ap, Option, arith, Bool-cases, inl, inr,
}
use json_schema_engine.Schemas.Fallible.{max_depth_exceeded, ◌>>=◌, throw_if}
use json_schema_engine.Schemas.State.{Node, Setting, Dialects, Staging, Indexes}
use json_schema_engine.Schemas.Walk.{Place, walk_node, walk}

module _ (setting : Setting) (dialects : Dialects) (i : Indexes) where
  -- Two walks at a depth within the bound, or one beyond it, whose fuel reaches past the bound, agree.
  fuel_irrelevant :
      (f g depth : ℕ) (target : Option Node) (at : Place) (stage : Staging)
      → depth ≤ suc setting.max_depth
      → suc (suc setting.max_depth) ≤ f + depth
      → suc (suc setting.max_depth) ≤ g + depth
      → walk setting dialects i f depth target at stage
        ≡ walk setting dialects i g depth target at stage
  unfolding walk
  fuel_irrelevant zero g depth target at stage d e h = absurd (omega (arith, d, e))
  fuel_irrelevant (suc f) zero depth target at stage d e h = absurd (omega (arith, d, h))
  fuel_irrelevant (suc f) (suc g) depth target at stage d e h =
      elim (Bool-cases (ltb setting.max_depth depth)) [
        | inl beyond ↦ rw (beyond, walk) refl
        | inr within ↦
            let below : (t : Option Node) (a : Place) (s : Staging)
                → walk setting dialects i f (depth + 1) t a s
                  ≡ walk setting dialects i g (depth + 1) t a s =
              λ t a s.
                fuel_irrelevant f g (depth + 1) t a s (ground (arith, within)) (omega (arith, e))
                  (omega (arith, h)) in
            let same : walk setting dialects i f (depth + 1)
                ≡ walk setting dialects i g (depth + 1) =
              λ j t a s. below t a s j in
            ap
              (λ descend. throw_if (ltb setting.max_depth depth) max_depth_exceeded >>= λ _.
                walk_node setting dialects i descend target at stage)
              same
      ]

  -- With any fuel that reaches past the depth bound, the walk satisfies the recursive equation of the
  -- source at each depth up to the first one beyond the bound: it throws beyond the bound, and else
  -- walks the schemas below with any fuel that reaches past the bound from the next depth, so that
  -- neither side depends on the fuel.
  pub walk-recursion :
      (fuel fuel' depth : ℕ) (target : Option Node) (at : Place) (stage : Staging)
      → depth ≤ suc setting.max_depth
      → suc (suc setting.max_depth) ≤ fuel + depth
      → suc (suc setting.max_depth) ≤ fuel' + (depth + 1)
      → walk setting dialects i fuel depth target at stage ≡ (
          throw_if (ltb setting.max_depth depth) max_depth_exceeded >>= λ _.
          walk_node setting dialects i (walk setting dialects i fuel' (depth + 1)) target at stage)
  unfolding walk
  walk-recursion fuel fuel' depth target at stage d e h =
      fuel_irrelevant fuel (suc fuel') depth target at stage d e (omega (arith, h))
