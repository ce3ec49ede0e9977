-- ===== src/Schemas/Fallible.antt =====
-- packages/core/src/registry.ts, uri.ts and dialect.ts: what a registration or a lookup throws.
use json_schema_engine.Base.{
  ◌≡◌, refl, ◌⊎◌, inl, inr, Bool, true, false, Option, none, some, String,
}

-- The error classes with what tells their messages apart. `uri_error` is the language's URIError;
-- `foreign` is an exception of a caller's code or a TypeError; `out_of_fuel` is the model's own.
pub data SchemaError : Type 0 where
  read_only_registry : SchemaError
  unknown_dialect : String → SchemaError
  invalid_identifier : String → String → SchemaError
  duplicate_resource : String → SchemaError
  duplicate_anchor : String → String → SchemaError
  invalid_schema : String → SchemaError
  max_depth_exceeded : SchemaError
  unresolvable_ref : String → SchemaError
  uri_error : SchemaError
  foreign : String → SchemaError
  out_of_fuel : SchemaError

pub data Fallible {ℓ} (A : Type ℓ) : Type ℓ where
  returns : A → Fallible A
  throws : SchemaError → Fallible A

-- `abbrev`, so that a chain computes wherever it stands.
infixl 5 ◌>>=◌ ◌>>◌
abbrev pub ◌>>=◌ {ℓ κ} : {A : Type ℓ} {B : Type κ} → Fallible A → (A → Fallible B) → Fallible B
returns a >>= f = f a
throws e >>= f = throws e

abbrev pub ◌>>◌ {ℓ} : {B : Type ℓ} → Fallible (Unit {0}) → Fallible B → Fallible B
m >> k = m >>= λ _. k

-- `if (test) throw e;`
abbrev pub throw_if : Bool → SchemaError → Fallible (Unit {0})
throw_if true e = throws e
throw_if false e = returns tt

abbrev pub found_or {ℓ} : {A : Type ℓ} → Option A → SchemaError → Fallible A
found_or none e = throws e
found_or (some a) e = returns a

pub Fallible-cases {ℓ} :
    {A : Type ℓ} (r : Fallible A)
    → ((e : SchemaError) × (r ≡ throws e)) ⊎ ((a : A) × (r ≡ returns a))
Fallible-cases (throws e) = inl (e, refl)
Fallible-cases (returns a) = inr (a, refl)

-- A property of every outcome of a chain: of what it throws, and of what its steps return.
pub bind_holds {ℓ κ μ} :
    {A : Type ℓ} {B : Type κ} (P : Fallible B → Type μ) (m : Fallible A) (f : A → Fallible B)
    → ((e : SchemaError) → P (throws e))
    → ((a : A) → m ≡ returns a → P (f a))
    → P (m >>= f)
bind_holds P (throws e) f thrown step = thrown e
bind_holds P (returns a) f thrown step = step a refl

-- Where a chain returns, its first step did.
pub >>=-eq-returns {ℓ κ} :
    {A : Type ℓ} {B : Type κ} (m : Fallible A) (f : A → Fallible B) {b : B}
    → (m >>= f) ≡ returns b
    → (a : A) × (m ≡ returns a) × (f a ≡ returns b)
>>=-eq-returns (returns a) f h = (a, refl, h)
>>=-eq-returns (throws e) f h = cc

pub returns_injective {ℓ} : {A : Type ℓ} {a b : A} → returns a ≡ returns b → a ≡ b
returns_injective h = cc h

pub not-throws {ℓ} : {A : Type ℓ} {e : SchemaError} {a : A} → ¬ (throws e ≡ returns a)
not-throws h = cc h

pub not_thrown : (b : Bool) (e : SchemaError) {u : Unit {0}} → throw_if b e ≡ returns u → b ≡ false
not_thrown true e h = cc h
not_thrown false e h = refl

pub found_or-eq {ℓ} :
    {A : Type ℓ} (o : Option A) (e : SchemaError) {a : A} → found_or o e ≡ returns a → o ≡ some a
found_or-eq none e h = cc
found_or-eq (some b) e h = cc
