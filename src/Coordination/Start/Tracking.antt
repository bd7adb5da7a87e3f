-- ===== src/Coordination/Start/Tracking.antt =====
-- The claims of new work on distinct targets are all inserted.
use the_pact.Prelude.{
  ℕ, ◌≡◌, refl, sym, ap, ◌∙◌, inl, inr, true, not, List, [], ◌∷◌, arith, and_elim, find-In, any_row,
  any_row_of_In, In, In-append, ok,
}
use the_pact.Coordination.Model.{Scope, ResourceRef, ScopeClaim}
use the_pact.Coordination.Start.{Claimant, is_claim_on, insert_claims}
use the_pact.Coordination.Start.Targets.{
  OneTarget, is_one_target, distinct_targets, test_of_OneTarget, Keyed, Upserted, is_target,
  is_target_sound, is_claim_on-id,
}
use the_pact.Coordination.Start.Placing.{Blocked, Placed, insert_claim-cases}
use the_pact.Coordination.Start.Insertion.{all_inserted}
use the_pact.Database.{Db}

module _ (c : Claimant) where
  -- The claim is on the resource of one of the scopes.
  pub record Origin (handled : List Scope) (db : Db) (x : ScopeClaim) : Type 0 where
    pub scope : Scope
    pub among : In scope handled
    pub row : ResourceRef
    pub listed : In row db.resources
    pub same_id : row.id ≡ x.resource.id
    pub right : (row.kind ≡ scope.kind) × (row.locator ≡ scope.locator)

  -- Every active claim of the intent is on one of the scopes that were handled.
  pub record Tracked (handled : List Scope) (db : Db) : Type 0 where
    pub keyed : Keyed db
    pub origin :
        (x : ScopeClaim) (id : ℕ) → In x db.claims → is_claim_on c id x ≡ true → Origin handled db x

  found_row :
      (db e : Db) (s : Scope) (r : ResourceRef) (up : Upserted c db s r e)
      → In up.row e.resources × (up.row.kind ≡ s.kind) × (up.row.locator ≡ s.locator)
  found_row db e s r up =
      let (m, t) = find-In (is_target c s) e.resources up.row up.found in
      let (kind, locator) = is_target_sound c s up.row t in (m, kind, locator)

  -- A refusal tells of a scope on the same target.
  refused_twice :
      (handled : List Scope) (db : Db) (s : Scope)
      → Tracked handled db
      → Blocked c db s
      → (t : Scope) × In t handled × OneTarget t s
  refused_twice handled db s k b =
      let o = k.origin b.claim b.resource.id b.listed b.on_resource in
      let same =
        b.up.old k.keyed o.row o.listed
          (o.same_id ∙ (is_claim_on-id c b.resource.id b.claim b.on_resource).1) in
      let (m, kind, locator) = found_row db b.behind s b.resource b.up in
      (
        o.scope,
        o.among,
        record {
          one_kind = sym o.right.0 ∙ (ap (λ (r : ResourceRef). r.kind) same ∙ kind);
          one_locator = sym o.right.1 ∙ (ap (λ (r : ResourceRef). r.locator) same ∙ locator);
        },
      )

  Placed-Keyed : (db d : Db) (s : Scope) (x : ScopeClaim) → Placed c db s x d → Keyed db → Keyed d
  Placed-Keyed db d s x p k =
      let up = p.up.keyed k in
      record {
        below = λ r m. omega (arith, up.below r (rw p.same_resources at m), p.more_ids);
        unique = λ r q m n e. up.unique r q (rw p.same_resources at m) (rw p.same_resources at n) e;
      }

  Placed-Tracked :
      (handled : List Scope) (db d : Db) (s : Scope) (x : ScopeClaim)
      → Placed c db s x d
      → Tracked handled db
      → Tracked (s ∷ handled) d
  Placed-Tracked handled db d s x p k = record {
    keyed = Placed-Keyed db d s x p k.keyed;
    origin = λ y id m h. elim (In-append y db.claims (x ∷ []) (rw p.appended at m)) [
      | inl old ↦
          let o = k.origin y id old h in
          record {
            scope = o.scope;
            among = inr o.among;
            row = o.row;
            listed = rw p.same_resources (p.up.kept o.row o.listed);
            same_id = o.same_id;
            right = o.right;
          }
      | inr (inl new) ↦
          let (m, kind, locator) = found_row db p.behind s p.resource p.up in
          record {
            scope = s;
            among = inl refl;
            row = p.up.row;
            listed = rw p.same_resources m;
            same_id =
                sym p.up.same_id
                ∙ (sym p.resource_id ∙ ap (λ (z : ScopeClaim). z.resource.id) (sym new));
            right = (kind, locator);
          }
      | inr (inr never) ↦ absurd never
    ];
  }

  pub insert_claims_total :
      (handled : List Scope) (db : Db) (scopes : List Scope)
      → Tracked handled db
      → distinct_targets scopes ≡ true
      → ((t s : Scope) → In t handled → In s scopes → OneTarget t s → ⊥)
      → (r : List ScopeClaim × Db) × (insert_claims db c scopes ≡ ok r)
  unfolding insert_claims distinct_targets
  insert_claims_total handled db [] k h apart = (([], db), refl)
  insert_claims_total handled db (s ∷ rest) k h apart = elim (insert_claim-cases c db s) [
    | inl (e, b) ↦
        let (t, m, one) = refused_twice handled db s k b in absurd (apart t s m (inl refl) one)
    | inr (r, e, p) ↦
        let (once, distinct) =
          and_elim (not (any_row (is_one_target s) rest)) (distinct_targets rest) h in
        let (q, hq) =
          insert_claims_total (s ∷ handled) r.1 rest (Placed-Tracked handled db r.1 s r.0 p k)
            distinct
            (λ t u m n one. elim m [
              | inl e ↦ differs u n (rw (← e) one) once
              | inr m' ↦ apart t u m' (inr n) one
            ]) in
        ((r.0 ∷ q.0, q.1), all_inserted c db s rest r q e hq)
  ]
    where
      differs :
          (u : Scope) → In u rest → OneTarget s u → not (any_row (is_one_target s) rest) ≡ true → ⊥
      differs u n one once =
          cc (once, any_row_of_In (is_one_target s) rest u n (test_of_OneTarget s u one))
