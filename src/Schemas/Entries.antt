-- ===== src/Schemas/Entries.antt =====
-- `Map` and `Set` of the language as lists in the order of insertion, with the laws of a lookup.
use json_schema_engine.Base.{
  ◌≡◌, refl, Bool, true, ◌||◌, ◌&&◌, not, none, some, List, [], ◌∷◌, ◌++◌, String, str_eq,
  str_eq_iff, if◌then◌else◌, any, arith,
}
use json_schema_engine.Json.{lookup}
use json_schema_engine.Dialects.{set_entry}

-- `Set.prototype.has` and `Set.prototype.add`
abbrev pub has_name : String → List String → Bool
has_name k l = any (str_eq k) l

unfoldable pub with_name : String → List String → List String
with_name k l = if has_name k l then l else l ++ k ∷ []

unfoldable pub with_names : List String → List String → List String
unfolding with_name
with_names [] l = l
with_names (k ∷ ks) l = with_names ks (with_name k l)

unfoldable pub without_name : String → List String → List String
without_name k [] = []
without_name k (j ∷ l) = let rest = without_name k l in if str_eq j k then rest else j ∷ rest

-- `Map.prototype.delete`
unfoldable pub delete_entry {ℓ} : {V : Type ℓ} → String → List (String × V) → List (String × V)
delete_entry k [] = []
delete_entry k ((j, w) ∷ m) =
    let rest = delete_entry k m in if str_eq j k then rest else (j, w) ∷ rest

pub lookup-set_entry {ℓ} :
    {V : Type ℓ} (k j : String) (v : V) (m : List (String × V))
    → lookup j (set_entry k v m) ≡ (if str_eq k j then some v else lookup j m)
unfolding lookup set_entry
lookup-set_entry k j v [] = refl
lookup-set_entry k j v ((i, w) ∷ m) =
    ground (arith, str_eq_iff k j, str_eq_iff i k, str_eq_iff i j, lookup-set_entry k j v m)

pub lookup-delete_entry {ℓ} :
    {V : Type ℓ} (k j : String) (m : List (String × V))
    → lookup j (delete_entry k m) ≡ (if str_eq k j then none else lookup j m)
unfolding lookup delete_entry
lookup-delete_entry k j [] = ground arith
lookup-delete_entry k j ((i, w) ∷ m) =
    ground (arith, str_eq_iff k j, str_eq_iff i k, str_eq_iff i j, lookup-delete_entry k j m)

pub str_eq_refl : (k : String) → str_eq k k ≡ true
str_eq_refl k = (str_eq_iff k k).1 refl

has_name-append :
    (j : String) (l r : List String) → has_name j (l ++ r) ≡ (has_name j l || has_name j r)
has_name-append j [] r = refl
has_name-append j (k ∷ l) r = ground (arith, has_name-append j l r)

pub has_name-with_name :
    (k j : String) (l : List String) → has_name j (with_name k l) ≡ (str_eq k j || has_name j l)
unfolding with_name
has_name-with_name k j l =
    ground (arith, str_eq_iff k j, str_eq_iff j k, has_name-append j l (k ∷ []))

pub has_name-without_name :
    (k j : String) (l : List String)
    → has_name j (without_name k l) ≡ (not (str_eq k j) && has_name j l)
unfolding without_name
has_name-without_name k j [] = ground arith
has_name-without_name k j (i ∷ l) =
    ground (arith, str_eq_iff k j, str_eq_iff i k, str_eq_iff j i, has_name-without_name k j l)
