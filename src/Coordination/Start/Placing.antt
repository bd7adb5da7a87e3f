-- ===== src/Coordination/Start/Placing.antt =====
-- The insertion of one claim: refused by the index, or placed at the end of the table.
use the_pact.Prelude.{
  ◌+◌, ◌<◌, ◌≡◌, refl, ◌⊎◌, inl, inr, true, false, [], ◌∷◌, ◌++◌, arith, Bool-cases, any_row,
  any_row-In, insert, In, ok, err, ◌>>=◌,
}
use the_pact.Identity.{Uuid}
use the_pact.Coordination.Model.{Scope, ResourceRef, ScopeClaim, internal}
use the_pact.Coordination.Start.{
  upsert_resource_ref, Claimant, new_claim, is_claim_on, insert_claim,
}
use the_pact.Database.{Db}
use the_pact.Coordination.Start.Targets.{Upserted, upsert_resource_ref-Upserted}

module _ (c : Claimant) where
  pub record Blocked (db : Db) (s : Scope) : Type 0 where
    pub resource : ResourceRef
    pub behind : Db
    pub up : Upserted c db s resource behind
    pub claim : ScopeClaim
    pub listed : In claim db.claims
    pub on_resource : is_claim_on c resource.id claim ≡ true

  pub record Placed (db : Db) (s : Scope) (x : ScopeClaim) (d : Db) : Type 0 where
    pub resource : ResourceRef
    pub behind : Db
    pub up : Upserted c db s resource behind
    pub free : any_row (is_claim_on c resource.id) db.claims ≡ false
    pub same_resources : d.resources ≡ behind.resources
    pub more_ids : behind.next_id < d.next_id
    pub appended : d.claims ≡ db.claims ++ x ∷ []
    pub on_resource : is_claim_on c resource.id x ≡ true
    pub resource_id : x.resource.id ≡ resource.id

  new_claim-on :
      (id : Uuid) (r : ResourceRef) (s : Scope) → is_claim_on c r.id (new_claim c id r s) ≡ true
  unfolding is_claim_on new_claim
  new_claim-on id r s = ground arith

  -- The claim, and the tables with it.
  abbrev placed : ResourceRef → Db → Scope → ScopeClaim × Db
  placed r e s = (
    new_claim c e.next_id r s,
    record e { claims = insert (new_claim c e.next_id r s) e.claims; next_id = e.next_id + 1 },
  )

  pub insert_claim-cases :
      (db : Db) (s : Scope)
      → ((insert_claim db c s ≡ err internal) × Blocked db s)
        ⊎ ((r : ScopeClaim × Db) × (insert_claim db c s ≡ ok r) × Placed db s r.0 r.1)
  unfolding insert_claim new_claim ◌>>=◌
  insert_claim-cases db s =
      let up = upsert_resource_ref-Upserted c db s in
      let (r, e) = upsert_resource_ref db c.project c.repository_id s in
      elim (Bool-cases (any_row (is_claim_on c r.id) db.claims)) [
        | inl t ↦
            let (x, m, h) = any_row-In (is_claim_on c r.id) db.claims t in
            inl (
              rw (up.same_claims, t) refl,
              record { resource = r; behind = _; up = up; claim = x; listed = m; on_resource = h },
            )
        | inr t ↦ inr (
          placed r e s,
          rw (up.same_claims, t) refl,
          record {
            resource = r;
            behind = e;
            up = up;
            free = t;
            same_resources = refl;
            more_ids = omega arith;
            appended = rw up.same_claims refl;
            on_resource = new_claim-on _ r s;
            resource_id = refl;
          },
        )
      ]
