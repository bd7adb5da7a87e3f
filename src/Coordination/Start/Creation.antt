-- ===== src/Coordination/Start/Creation.antt =====
-- When the rows of new work can be inserted.
use the_pact.Prelude.{
  ◌≡◌, refl, inl, inr, true, false, ◌&&◌, List, [], Bool-cases, and_elim, ok, err, ◌>>=◌, ◌+◌, ◌<◌,
  arith, All, All-In, insert,
}
use the_pact.Identity.{Uuid, Time}
use the_pact.Coordination.Model.{internal, Intent, ScopeClaim, StartInput}
use the_pact.Coordination.Start.{claimant, create_rows, fits_intents, new_intent}
use the_pact.Coordination.Start.Targets.{distinct_targets, Keyed, is_claim_on-id}
use the_pact.Coordination.Start.Insertion.{insert_claims-refused}
use the_pact.Coordination.Start.Tracking.{insert_claims_total}
use the_pact.Database.{Db}

module _ (db : Db) (now : Time) (project actor repo : Uuid) (input : StartInput) where
  pub create_rows_refused :
      (fits_intents input && distinct_targets input.scopes) ≡ false
      → create_rows db now project actor repo input ≡ err internal
  unfolding create_rows ◌>>=◌
  create_rows_refused t = elim (Bool-cases (fits_intents input)) [
    | inl f ↦
        rw
          (f, insert_claims-refused (claimant db now project repo input) _ input.scopes (rw f at t))
          refl
    | inr f ↦ rw f refl
  ]

  pub create_rows_total :
      All (λ (x : ScopeClaim). x.intent_id < db.next_id) db.claims
      → Keyed db
      → (fits_intents input && distinct_targets input.scopes) ≡ true
      → (r : Intent × List ScopeClaim × Db) × (create_rows db now project actor repo input ≡ ok r)
  unfolding create_rows ◌>>=◌
  create_rows_total w k t =
      let (f, d) = and_elim (fits_intents input) (distinct_targets input.scopes) t in
      let c = claimant db now project repo input in
      let base : Db = record db {
        intents = insert (new_intent db.next_id now project actor input) db.intents;
        next_id = db.next_id + 1;
      } in
      let (r, hr) =
        insert_claims_total c [] base input.scopes
          (record {
            keyed = record { below = λ r m. omega (arith, k.below r m); unique = k.unique };
            origin = λ x id m h. absurd (
                omega (
                  arith,
                  (is_claim_on-id c id x h).0,
                  All-In (λ (x : ScopeClaim). x.intent_id < db.next_id) x db.claims w m,
                ));
          })
          d (λ t s m n one. m) in
      ((new_intent db.next_id now project actor input, r.0, r.1), rw (f, hr) refl)
