-- ===== src/Schemas/Register/Root.antt =====
-- packages/core/src/registry.ts: the root of a document stays staged as it was claimed.
use json_schema_engine.Base.{
  ◌≡◌, refl, sym, ap, subst, ◌∙◌, Bool, true, false, ◌&&◌, none, some, List, [], ◌∷◌, String,
  str_eq, str_eq_iff, if◌then◌else◌, arith, if_holds,
}
use json_schema_engine.Json.{lookup, is_some}
use json_schema_engine.Dialects.{set_entry}
use json_schema_engine.Schemas.Entries.{lookup-set_entry}
use json_schema_engine.Schemas.Fallible.{
  duplicate_anchor, foreign, >>=-eq-returns, throw_if, found_or, returns_injective, found_or-eq,
}
use json_schema_engine.Schemas.Uri.{is_empty}
use json_schema_engine.Schemas.State.{Node, StagedResource, Staging, Indexes}
use json_schema_engine.Schemas.Stage.{stage_resource, stage_anchor, other_node}
use json_schema_engine.Schemas.Stage.Claims.{stage_resource-Granted}
use json_schema_engine.Schemas.Walk.{mark_root, claim_recursive}
use json_schema_engine.Schemas.Walk.Keeps.{IsKept, Keeps}
use json_schema_engine.Schemas.Commit.Lookups.{Entry, staged_entry, AllAt}

module _ (uri : String) (e : Entry) where
  AllAt-set_entry :
      (k : String) (res : StagedResource) (rs : List (String × StagedResource))
      → AllAt uri e rs
      → (str_eq k uri ≡ true → staged_entry res ≡ e)
      → AllAt uri e (set_entry k res rs)
  unfolding set_entry
  AllAt-set_entry k res [] h p = (p, tt)
  AllAt-set_entry k res ((j, w) ∷ rest) (q, h) p =
      by_test (AllAt-set_entry k res rest h p) (str_eq j k) refl
    where
      by_test :
          AllAt uri e (set_entry k res rest)
          → (b : Bool) → str_eq j k ≡ b
          → AllAt uri e (if b then (j, res) ∷ rest else (j, w) ∷ set_entry k res rest)
      by_test later true t = (λ (u : str_eq j uri ≡ true). p (rw (sym ((str_eq_iff j k).0 t)) u), h)
      by_test later false t = (q, later)

  pub AllAt-lookup :
      (rs : List (String × StagedResource)) (res : StagedResource)
      → AllAt uri e rs
      → lookup uri rs ≡ some res
      → staged_entry res ≡ e
  unfolding lookup
  AllAt-lookup [] res h = λ (p : none ≡ some res). cc p
  AllAt-lookup ((j, w) ∷ rest) res (q, h) = by_test (AllAt-lookup rest res h) (str_eq j uri) refl
    where
      by_test :
          (lookup uri rest ≡ some res → staged_entry res ≡ e)
          → (b : Bool) → str_eq j uri ≡ b
          → (if b then some w else lookup uri rest) ≡ some res
          → staged_entry res ≡ e
      by_test later true t p = let same : w ≡ res = cc p in ap staged_entry (sym same) ∙ q t
      by_test later false t p = later p

  AllAt-mark_root :
      (rs : List (String × StagedResource)) (k : String)
      → AllAt uri e rs
      → AllAt uri e (mark_root rs k)
  AllAt-mark_root [] k h = tt
  AllAt-mark_root ((j, res) ∷ rest) k (p, h) = (
    λ t. if_holds (λ (x : StagedResource). staged_entry x ≡ e) (str_eq j k) (p t) (p t),
    AllAt-mark_root rest k h,
  )

is_some-mark_root :
    (uri k : String) (rs : List (String × StagedResource))
    → is_some (lookup uri (mark_root rs k)) ≡ is_some (lookup uri rs)
unfolding lookup
is_some-mark_root uri k [] = refl
is_some-mark_root uri k ((j, res) ∷ rest) = ground (arith, is_some-mark_root uri k rest)

-- A resource that was staged stays staged when another is written.
is_some-set_entry :
    {V : Type 0} (k uri : String) (v : V) (m : List (String × V))
    → is_some (lookup uri m) ≡ true
    → is_some (lookup uri (set_entry k v m)) ≡ true
is_some-set_entry k uri v m h =
    rw (lookup-set_entry k uri v m) (if_holds (λ o. is_some o ≡ true) (str_eq k uri) refl h)

-- A staging for one document, whose root has its entries in it.
pub record HasRoot (i : Indexes) (document_uri retrieval : String) (uri : String) (e : Entry)
    (stage : Staging) : Type 0 where
  pub named : stage.document_uri ≡ document_uri
  pub retrieved : stage.retrieval_resource ≡ retrieval
  pub alike : AllAt uri e stage.resources
  pub present : is_some (lookup uri stage.resources) ≡ true

module _ (i : Indexes) (document_uri retrieval uri : String) (e : Entry) where
  abbrev Rooted : Staging → Type 0
  Rooted = HasRoot i document_uri retrieval uri e

  -- A resource that is claimed is not the root, which is there already.
  not_there :
      (k : String) (rs : List (String × StagedResource))
      → is_some (lookup uri rs) ≡ true
      → is_some (lookup k rs) ≡ false
      → str_eq k uri ≡ true
      → ⊥
  not_there k rs h p t =
      let same : is_some (lookup k rs) ≡ is_some (lookup uri rs) =
        ap (λ j. is_some (lookup j rs)) ((str_eq_iff k uri).0 t) in
      cc

  written :
      (k : String) (res : StagedResource) (stage : Staging)
      → Rooted stage
      → (str_eq k uri ≡ true → staged_entry res ≡ e)
      → Rooted (record stage { resources = set_entry k res stage.resources })
  written k res stage h p = record {
    named = h.named;
    retrieved = h.retrieved;
    alike = AllAt-set_entry uri e k res stage.resources h.alike p;
    present = is_some-set_entry k uri res stage.resources h.present;
  }

  stage_resource-Rooted :
      (k : String) (res : StagedResource) (stage : Staging)
      → Rooted stage
      → Keeps Rooted (stage_resource i k res stage)
  stage_resource-Rooted k res stage h s p =
      let granted = stage_resource-Granted i k res stage p in
      subst Rooted granted.staged (
        written k res stage h
          λ t. absurd (not_there k stage.resources h.present granted.unstaged t))

  stage_anchor-Rooted :
      (k name : String) (node : Node) (pointer : String) (dynamic : Bool) (stage : Staging)
      → Rooted stage
      → Keeps Rooted (stage_anchor k name node pointer dynamic stage)
  unfolding stage_anchor
  stage_anchor-Rooted k name node pointer dynamic stage h s p =
      let (res, a, b) =
        >>=-eq-returns (found_or (lookup k stage.resources) (foreign "TypeError")) _ p in
      let (u, c, d) =
        >>=-eq-returns
          (throw_if (other_node (lookup name res.anchors) node) (duplicate_anchor k name)) _ b in
      subst Rooted (returns_injective d) (
        written k _ stage h λ t. AllAt-lookup uri e stage.resources res h.alike (
          subst (λ j. lookup j stage.resources ≡ some res) ((str_eq_iff k uri).0 t)
            (found_or-eq _ _ a)))

  pub Rooted-IsKept : IsKept i document_uri Rooted
  unfolding claim_recursive
  Rooted-IsKept = record {
    claimed = λ k res stage w h. stage_resource-Rooted k res stage h;
    anchored = stage_anchor-Rooted;
    marked = λ at flag stage h.
        if_holds Rooted (flag && is_empty at.pointer)
          (record {
            named = h.named;
            retrieved = h.retrieved;
            alike = AllAt-mark_root uri e stage.resources at.base_uri h.alike;
            present = is_some-mark_root uri at.base_uri stage.resources ∙ h.present;
          })
          h;
    noted = λ stage produced consumed producers pending h. record {
      named = h.named;
      retrieved = h.retrieved;
      alike = h.alike;
      present = h.present;
    };
  }
