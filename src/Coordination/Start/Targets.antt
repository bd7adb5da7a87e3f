-- ===== src/Coordination/Start/Targets.antt =====
-- What the claims of new work are on.
use the_pact.Prelude.{
  ◌<◌, ◌≡◌, refl, sym, ap, ◌∙◌, inl, inr, Bool, true, ◌&&◌, Option, none, some, List, [], ◌∷◌,
  arith, and_elim, find, find-In, find-append, find-append_none, any_row, In, In-append,
  In-append_left, ◌==◌, not,
}
use the_pact.Text.{text_eq}
use the_pact.Text.Laws.{text_eq_refl, eq_of_text_eq}
use the_pact.Identity.{Uuid}
use the_pact.Coordination.Model.{Scope, ScopeKind, repository, path, file, ResourceRef, ScopeClaim}
use the_pact.Coordination.Start.{
  kind_eq, same_resource, add_resource, new_resource, upsert_resource_ref, Claimant, is_claim_on,
}
use the_pact.Coordination.Start.Rows.{kind_eq_sound}
use the_pact.Database.{Db}

-- Two scopes, whatever their modes, on one file, path or repository.
pub record OneTarget (s t : Scope) : Type 0 where
  pub one_kind : s.kind ≡ t.kind
  pub one_locator : s.locator ≡ t.locator

unfoldable pub is_one_target : Scope → Scope → Bool
is_one_target s t = kind_eq s.kind t.kind && text_eq s.locator t.locator

-- No two of the scopes are on one file, path or repository.
unfoldable pub distinct_targets : List Scope → Bool
unfolding is_one_target any_row
distinct_targets [] = true
distinct_targets (s ∷ rest) = not (any_row (is_one_target s) rest) && distinct_targets rest

kind_eq_refl : (k : ScopeKind) → kind_eq k k ≡ true
kind_eq_refl repository = refl
kind_eq_refl path = refl
kind_eq_refl file = refl

pub is_one_target-OneTarget : (s t : Scope) → is_one_target s t ≡ true → OneTarget s t
unfolding is_one_target
is_one_target-OneTarget s t h =
    let (k, l) = and_elim (kind_eq s.kind t.kind) (text_eq s.locator t.locator) h in
    record { one_kind = kind_eq_sound _ _ k; one_locator = eq_of_text_eq _ _ l }

pub test_of_OneTarget : (s t : Scope) → OneTarget s t → is_one_target s t ≡ true
unfolding is_one_target
test_of_OneTarget s t h =
    rw (h.one_kind, h.one_locator, kind_eq_refl t.kind, text_eq_refl t.locator) refl

-- Identifiers of resources are below the next one, and belong to one row each.
pub record Keyed (db : Db) : Type 0 where
  pub below : (r : ResourceRef) → In r db.resources → r.id < db.next_id
  pub unique : (r q : ResourceRef) → In r db.resources → In q db.resources → r.id ≡ q.id → r ≡ q

module _ (c : Claimant) where
  abbrev pub is_target : Scope → ResourceRef → Bool
  is_target s = same_resource c.project c.repository_id s

  pub same_test : (s t : Scope) → OneTarget s t → is_target s ≡ is_target t
  unfolding same_resource
  same_test s t h i r =
      r.project == c.project
      && kind_eq r.kind (h.one_kind i)
      && r.repository_id == c.repository_id
      && text_eq r.locator (h.one_locator i)

  pub is_target_sound :
      (s : Scope) (r : ResourceRef)
      → is_target s r ≡ true
      → (r.kind ≡ s.kind) × (r.locator ≡ s.locator)
  unfolding same_resource
  is_target_sound s r h =
      (kind_eq_sound r.kind s.kind (ground arith), eq_of_text_eq r.locator s.locator (ground arith))

  pub is_claim_on-id :
      (id : Uuid) (x : ScopeClaim)
      → is_claim_on c id x ≡ true
      → (x.intent_id ≡ c.intent_id) × (x.resource.id ≡ id)
  unfolding is_claim_on
  is_claim_on-id id x h = (ground arith, ground arith)

  -- What is behind the insertion of a resource, or the update of the one that is there.
  pub record Upserted (db : Db) (s : Scope) (r : ResourceRef) (e : Db) : Type 0 where
    pub row : ResourceRef
    pub found : find (is_target s) e.resources ≡ some row
    pub same_id : r.id ≡ row.id
    pub same_claims : e.claims ≡ db.claims
    pub still :
        (t : Scope) (q : ResourceRef)
        → find (is_target t) db.resources ≡ some q
        → find (is_target t) e.resources ≡ some q
    pub keyed : Keyed db → Keyed e
    pub kept : (q : ResourceRef) → In q db.resources → In q e.resources
    -- An old row with the identifier of the resource is the resource's row.
    pub old : Keyed db → (q : ResourceRef) → In q db.resources → q.id ≡ r.id → q ≡ row

  new_row-passes :
      (db : Db) (s : Scope) → is_target s (new_resource db c.project c.repository_id s) ≡ true
  unfolding same_resource
  new_row-passes db s = rw (kind_eq_refl s.kind, text_eq_refl s.locator) (ground arith)

  new_row-Keyed :
      (db : Db) (s : Scope) → Keyed db → Keyed (add_resource db c.project c.repository_id s none).1
  unfolding add_resource
  new_row-Keyed db s k = record {
    below = λ r m. elim (In-append r db.resources _ m) [
      | inl l ↦ omega (arith, k.below r l)
      | inr (inl e) ↦ omega (arith, ap (λ (q : ResourceRef). q.id) e)
      | inr (inr never) ↦ absurd never
    ];
    unique = λ r q m n e. elim (In-append r db.resources _ m) [
      | inl l ↦ elim (In-append q db.resources _ n) [
        | inl j ↦ k.unique r q l j e
        | inr (inl f) ↦ absurd (omega (arith, k.below r l, e, ap (λ (q : ResourceRef). q.id) f))
        | inr (inr never) ↦ absurd never
      ]
      | inr (inl g) ↦ elim (In-append q db.resources _ n) [
        | inl j ↦ absurd (omega (arith, k.below q j, e, ap (λ (q : ResourceRef). q.id) g))
        | inr (inl f) ↦ g ∙ sym f
        | inr (inr never) ↦ absurd never
      ]
      | inr (inr never) ↦ absurd never
    ];
  }

  add_resource-Upserted :
      (db : Db) (s : Scope) (row : Option ResourceRef)
      → find (is_target s) db.resources ≡ row
      → Upserted db s
          (add_resource db c.project c.repository_id s row).0
          (add_resource db c.project c.repository_id s row).1
  unfolding add_resource find
  add_resource-Upserted db s (some r) e = record {
    row = r;
    found = e;
    same_id = refl;
    same_claims = refl;
    still = λ t q h. h;
    keyed = λ k. k;
    kept = λ q m. m;
    old = λ k q m h. k.unique q r m (find-In _ db.resources r e).0 h;
  }
  add_resource-Upserted db s none e = record {
    row = new_resource db c.project c.repository_id s;
    found = find-append_none (is_target s) db.resources _ e ∙ rw (new_row-passes db s) refl;
    same_id = refl;
    same_claims = refl;
    still = λ t q h. find-append (is_target t) db.resources _ q h;
    keyed = new_row-Keyed db s;
    kept = λ q m. In-append_left q db.resources _ m;
    old = λ k q m h. absurd (omega (arith, k.below q m, h));
  }

  pub upsert_resource_ref-Upserted :
      (db : Db) (s : Scope)
      → Upserted db s
          (upsert_resource_ref db c.project c.repository_id s).0
          (upsert_resource_ref db c.project c.repository_id s).1
  unfolding upsert_resource_ref
  upsert_resource_ref-Upserted db s =
      add_resource-Upserted db s (find (is_target s) db.resources) refl
