-- ===== src/Engine/Guard.antt =====
-- packages/core/src/engine.ts: the scan of the cycle guard, which stops early.
use json_schema_engine.Base.{
  ℕ, ◌<◌, ◌==◌, ◌≡◌, refl, sym, Bool, true, false, ◌&&◌, ◌||◌, not, List, [], ◌∷◌, String, str_eq,
  arith, ltb, leb, ltb→lt, Bool-cases, inl, inr,
}
use json_schema_engine.Cursor.{Cursor, depth, same_cursor}
use json_schema_engine.Engine.Operations.{scan_active}

-- The schema location is active at this very cursor, somewhere on the stack.
unfoldable pub is_active : String → Cursor → List (String × Cursor) → Bool
is_active k c [] = false
is_active k c ((j, a) ∷ rest) = same_cursor a c && str_eq j k || is_active k c rest

-- No active cursor lies deeper in the instance than those above it.
unfoldable pub no_deeper_than : ℕ → List (String × Cursor) → Bool
unfolding depth
no_deeper_than d [] = true
no_deeper_than d ((j, a) ∷ rest) = leb (depth a) d && no_deeper_than (depth a) rest

-- An active cursor that is the one at hand, as an object, has its depth.
unfoldable pub same_depths : Cursor → List (String × Cursor) → Bool
unfolding depth
same_depths c [] = true
same_depths c ((j, a) ∷ rest) = (not (same_cursor a c) || depth a == depth c) && same_depths c rest

left : (a b : Bool) → (a && b) ≡ true → a ≡ true
left a b h = ground arith

right : (a b : Bool) → (a && b) ≡ true → b ≡ true
right a b h = ground arith

bounded : (m d n : ℕ) (b : Bool) → (leb m d && b) ≡ true → d < n → m < n
bounded m d n b h q = ground arith

too_shallow : (same : Bool) (m n : ℕ) → (not same || m == n) ≡ true → m < n → same ≡ false
too_shallow true m n h q = absurd (ground arith)
too_shallow false m n h q = refl

none_below :
    (k : String) (c : Cursor) (l : List (String × Cursor)) (d : ℕ)
    → d < depth c
    → no_deeper_than d l ≡ true
    → same_depths c l ≡ true
    → is_active k c l ≡ false
unfolding is_active no_deeper_than same_depths
none_below k c [] d q h g = refl
none_below k c ((j, a) ∷ rest) d q h g =
    let shallow : depth a < depth c = bounded (depth a) d (depth c) _ h q in
    let different : same_cursor a c ≡ false =
      too_shallow (same_cursor a c) (depth a) (depth c) (left _ _ g) shallow in
    rw different (
      none_below k c rest (depth a) shallow (right (leb (depth a) d) _ h)
        (right (not (same_cursor a c) || depth a == depth c) _ g))

-- Where no entry of the stack lies deeper in the instance than the entries above it, and an entry of
-- the cursor at hand has its depth, the scan of the cycle guard, which stops at the first shallower
-- entry, finds the schema exactly when it is active at that cursor anywhere on the stack.
pub scan_active-is_active :
    (k : String) (c : Cursor) (l : List (String × Cursor)) (d : ℕ)
    → no_deeper_than d l ≡ true
    → same_depths c l ≡ true
    → scan_active k c l ≡ is_active k c l
unfolding scan_active is_active no_deeper_than same_depths
scan_active-is_active k c [] d h g = refl
scan_active-is_active k c ((j, a) ∷ rest) d h g =
    let later : scan_active k c rest ≡ is_active k c rest =
      scan_active-is_active k c rest (depth a) (right (leb (depth a) d) _ h)
        (right (not (same_cursor a c) || depth a == depth c) _ g) in
    elim (Bool-cases (same_cursor a c)) [
      | inl same ↦ rw same (ground (arith, later))
      | inr other ↦ rw other (elim (Bool-cases (ltb (depth a) (depth c))) [
        | inl lower ↦ rw lower (
            sym (
              none_below k c rest (depth a) (ltb→lt _ _ lower) (right (leb (depth a) d) _ h)
                (right (not (same_cursor a c) || depth a == depth c) _ g)))
        | inr level ↦ rw level later
      ])
    ]
