-- ===== src/Dialects/Snapshots.antt =====
-- packages/core/src/dialect.ts: registrations on the source of a snapshot.
use json_schema_engine.Base.{
  ℕ, zero, suc, ◌<◌, ◌==◌, ◌≡◌, refl, ◌∙◌, ap, Bool, true, false, ◌||◌, not, Option, List, [], ◌∷◌,
  ◌++◌, String, arith, length, length-append, get_elem?, if◌then◌else◌,
}
use json_schema_engine.Json.{lookup}
use json_schema_engine.Dialects.{
  Maps, DialectRegistry, RegistryError, Outcome, Vocabulary, DialectOptions, maps_at, write,
  snapshot, mutable, proceed_with, register_vocabulary, register_dialect, set_vocabulary,
  set_dialect, no_maps, get_dialect, or_default,
}

-- One call that registers something.
pub data Registration : Type 0 where
  vocabulary : String → Vocabulary → Registration
  dialect : String → List String → DialectOptions → Registration

unfoldable pub register : Registration → List Maps → DialectRegistry → Outcome
unfolding register_vocabulary register_dialect
register (vocabulary uri keywords) store r = register_vocabulary uri keywords store r
register (dialect uri uris options) store r = register_dialect uri uris options store r

-- Calls one after another; a caller may go on after one that throws.
unfoldable pub register_all :
    List Registration → List Maps → DialectRegistry → List Maps × DialectRegistry
unfolding register
register_all [] store r = (store, r)
register_all (x ∷ xs) store r =
    register_all xs (register x store r).store (register x store r).registry

length-write : (a : ℕ) (m : Maps) (store : List Maps) → length (write a m store) ≡ length store
unfolding write
length-write a m [] = refl
length-write zero m (n ∷ store) = refl
length-write (suc a) m (n ∷ store) = ap suc (length-write a m store)

get_elem?-write :
    (a v : ℕ) (m : Maps) (store : List Maps)
    → (a == v) ≡ false
    → get_elem? (write a m store) v ≡ get_elem? store v
unfolding write
get_elem?-write a v m [] h = refl
get_elem?-write zero zero m (n ∷ store) h = absurd (ground arith)
get_elem?-write zero (suc v) m (n ∷ store) h = refl
get_elem?-write (suc a) zero m (n ∷ store) h = refl
get_elem?-write (suc a) (suc v) m (n ∷ store) h = get_elem?-write a v m store (ground (arith, h))

get_elem?-append :
    (v : ℕ) (store added : List Maps)
    → v < length store
    → get_elem? (store ++ added) v ≡ get_elem? store v
get_elem?-append v [] added h = absurd (ground arith)
get_elem?-append zero (n ∷ store) added h = refl
get_elem?-append (suc v) (n ∷ store) added h = get_elem?-append v store added (ground arith)

-- The maps at `v` are `m`, and the registry would copy its own before it changes those.
record Isolated (v : ℕ) (m : Option Maps) (store : List Maps) (r : DialectRegistry) : Type 0 where
  taken : v < length store
  kept : get_elem? store v ≡ m
  apart : (r.shared || not (r.maps == v)) ≡ true

written :
    (v : ℕ) (m : Option Maps) (store : List Maps) (r : DialectRegistry) (n : Maps) (g : ℕ)
    → v < length store
    → get_elem? store v ≡ m
    → (r.maps == v) ≡ false
    → Isolated v m (write r.maps n store) (record r { gen = g })
written v m store r n g h k e = record {
  taken = omega (arith, h, length-write r.maps n store);
  kept = get_elem?-write r.maps v n store e ∙ k;
  apart = ground (arith, e);
}

by_test :
    {A : Type 0} (P : A → Type 0) (b : Bool) (x y : A)
    → (b ≡ true → P x)
    → (b ≡ false → P y)
    → P (if b then x else y)
by_test P true x y f g = f refl
by_test P false x y f g = g refl

mutable-Isolated :
    (v : ℕ) (m : Option Maps) (store : List Maps) (r : DialectRegistry)
    (f : Maps → Option RegistryError × Maps)
    → Isolated v m store r
    → Isolated v m
        (proceed_with (mutable store r) f).store
        (proceed_with (mutable store r) f).registry
unfolding mutable
mutable-Isolated v m store r f h =
    let P : Outcome → Type 0 =
      λ w. Isolated v m (proceed_with w f).store (proceed_with w f).registry in
    by_test P r.read_only _ _ (λ frozen. h)
      (λ free.
        by_test P (not r.shared) _ _
          (λ own. written v m store r _ _ h.taken h.kept (ground (arith, own, h.apart)))
          (λ shares.
            written v m (store ++ maps_at r.maps store ∷ [])
              (record r { maps = length store; shared = false }) _ _
              (omega (arith, h.taken, length-append store (maps_at r.maps store ∷ [])))
              (get_elem?-append v store _ h.taken ∙ h.kept) (ground (arith, h.taken))))

register-Isolated :
    (x : Registration) (v : ℕ) (m : Option Maps) (store : List Maps) (r : DialectRegistry)
    → Isolated v m store r
    → Isolated v m (register x store r).store (register x store r).registry
unfolding register register_vocabulary register_dialect
register-Isolated (vocabulary uri keywords) v m store r h =
    mutable-Isolated v m store r (set_vocabulary uri keywords) h
register-Isolated (dialect uri uris options) v m store r h =
    mutable-Isolated v m store r (set_dialect uri uris options) h

register_all-Isolated :
    (xs : List Registration) (v : ℕ) (m : Option Maps) (store : List Maps) (r : DialectRegistry)
    → Isolated v m store r
    → Isolated v m (register_all xs store r).0 (register_all xs store r).1
unfolding register_all
register_all-Isolated [] v m store r h = h
register_all-Isolated (x ∷ xs) v m store r h =
    register_all-Isolated xs v m _ _ (register-Isolated x v m store r h)

-- Whatever is registered on a source after a snapshot, whether or not a call throws, the view finds
-- under each URI the dialect that the source had when the snapshot was taken, or none as then.
pub snapshot_isolated :
    (xs : List Registration) (store : List Maps) (r : DialectRegistry) (uri : String)
    → r.maps < length store
    → get_dialect uri (register_all xs store (snapshot r).1).0 (snapshot r).0
      ≡ get_dialect uri store r
unfolding snapshot get_dialect
snapshot_isolated xs store r uri h =
    ap {A = Option Maps} (λ m. lookup uri (or_default {A = Maps} m no_maps).dialects)
      (register_all-Isolated xs r.maps (get_elem? store r.maps) store (record r { shared = true })
        (record { taken = h; kept = refl; apart = refl })).kept
