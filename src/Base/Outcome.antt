-- ===== src/Base/Outcome.antt =====
-- A computation that may throw, over the errors of the core package.
use Prim.Native.String.{String}
use mathlib.Core.Path.{◌≡◌, refl}
use mathlib.Core.Logic.{◌⊎◌, inl, inr}

-- The error classes that an evaluation throws. `out_of_fuel` is the model's own: it stands for a
-- recursion cut off before the source's depth bound was met. `stack_overflow` is the runtime's
-- RangeError, `foreign` any other exception of a caller's code.
pub data EngineError : Type 0 where
  infinite_loop : String → EngineError
  unknown_keyword : String → EngineError
  undeclared_consumption : String → EngineError
  undeclared_production : String → EngineError
  keyword_contract : String → EngineError
  invalid_schema : String → EngineError
  max_depth_exceeded : EngineError
  unresolvable_ref : String → EngineError
  stack_overflow : EngineError
  foreign : String → EngineError
  out_of_fuel : EngineError

pub data Result {ℓ} (A : Type ℓ) : Type ℓ where
  ok : A → Result A
  err : EngineError → Result A

pub Result-cases {ℓ} :
    {A : Type ℓ} (r : Result A) → ((e : EngineError) × (r ≡ err e)) ⊎ ((a : A) × (r ≡ ok a))
Result-cases (err e) = inl (e, refl)
Result-cases (ok a) = inr (a, refl)
