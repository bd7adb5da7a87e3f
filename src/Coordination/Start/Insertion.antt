-- ===== src/Coordination/Start/Insertion.antt =====
-- The claims of new work are all inserted, or the index refuses one of them.
use the_pact.Prelude.{
  ◌≡◌, refl, sym, ap, ◌∙◌, inl, inr, true, false, Option, none, some, List, [], ◌∷◌, Bool-cases,
  find, any_row, any_row-In, any_row_of_In, In, In-append_left, In-append_right, ok, err, ◌>>=◌,
}
use the_pact.Identity.{Uuid}
use the_pact.Coordination.Model.{Scope, ResourceRef, ScopeClaim, internal}
use the_pact.Coordination.Start.{Claimant, is_claim_on, insert_claim, insert_claims}
use the_pact.Coordination.Start.Targets.{
  OneTarget, is_one_target, distinct_targets, is_one_target-OneTarget, is_target, same_test,
}
use the_pact.Coordination.Start.Placing.{Placed, insert_claim-cases}
use the_pact.Database.{Db}

module _ (c : Claimant) where
  -- The resource of the scope has an active claim of the intent.
  record Taken (db : Db) (s : Scope) : Type 0 where
    row : ResourceRef
    found : find (is_target c s) db.resources ≡ some row
    claimed : any_row (is_claim_on c row.id) db.claims ≡ true

  Placed-Taken : (db d : Db) (s : Scope) (x : ScopeClaim) → Placed c db s x d → Taken d s
  Placed-Taken db d s x p = record {
    row = p.up.row;
    found = rw p.same_resources p.up.found;
    claimed =
        any_row_of_In (is_claim_on c p.up.row.id) d.claims x
          (rw p.appended (In-append_right x db.claims (x ∷ []) (inl refl)))
          (rw (← p.up.same_id) p.on_resource);
  }

  Taken-Placed :
      (db d : Db) (s u : Scope) (x : ScopeClaim) → Taken db s → Placed c db u x d → Taken d s
  Taken-Placed db d s u x t p =
      let (y, m, h) = any_row-In (is_claim_on c t.row.id) db.claims t.claimed in
      record {
        row = t.row;
        found = rw p.same_resources (p.up.still s t.row t.found);
        claimed =
            any_row_of_In (is_claim_on c t.row.id) d.claims y
              (rw p.appended (In-append_left y db.claims (x ∷ []) m)) h;
      }

  Taken-refuses :
      (db : Db) (s t : Scope) → Taken db s → OneTarget s t → insert_claim db c t ≡ err internal
  Taken-refuses db s t k one = elim (insert_claim-cases c db t) [
    | inl (e, b) ↦ e
    | inr (r, e, p) ↦ absurd (
        differ
          (ap id_of (
              sym (
                p.up.still t k.row
                  (ap (λ q. find q db.resources) (sym (same_test c s t one)) ∙ k.found))
              ∙ p.up.found)
            ∙ sym p.up.same_id)
          k.claimed p.free)
  ]
    where
      id_of : Option ResourceRef → Uuid
      id_of none = 0
      id_of (some r) = r.id

      differ :
          {a b : Uuid}
          → a ≡ b
          → any_row (is_claim_on c a) db.claims ≡ true
          → any_row (is_claim_on c b) db.claims ≡ false
          → ⊥
      differ e h f = cc (ap (λ q. any_row (is_claim_on c q) db.claims) e)

  module _ (db : Db) (u : Scope) (rest : List Scope) where
    first_refused :
        insert_claim db c u ≡ err internal → insert_claims db c (u ∷ rest) ≡ err internal
    unfolding insert_claims ◌>>=◌
    first_refused h = rw h refl

    later_refused :
        (r : ScopeClaim × Db)
        → insert_claim db c u ≡ ok r
        → insert_claims r.1 c rest ≡ err internal
        → insert_claims db c (u ∷ rest) ≡ err internal
    unfolding insert_claims ◌>>=◌
    later_refused r h k = rw (h, k) refl

    pub all_inserted :
        (r : ScopeClaim × Db) (q : List ScopeClaim × Db)
        → insert_claim db c u ≡ ok r
        → insert_claims r.1 c rest ≡ ok q
        → insert_claims db c (u ∷ rest) ≡ ok (r.0 ∷ q.0, q.1)
    unfolding insert_claims ◌>>=◌
    all_inserted r q h k = rw (h, k) refl

  Taken-refuses_list :
      (db : Db) (s t : Scope) (scopes : List Scope)
      → Taken db s
      → OneTarget s t
      → In t scopes
      → insert_claims db c scopes ≡ err internal
  Taken-refuses_list db s t [] k one m = absurd m
  Taken-refuses_list db s t (u ∷ rest) k one (inl e) =
      first_refused db u rest (rw (← e) (Taken-refuses db s t k one))
  Taken-refuses_list db s t (u ∷ rest) k one (inr m) = elim (insert_claim-cases c db u) [
    | inl (e, b) ↦ first_refused db u rest e
    | inr (r, e, p) ↦
        later_refused db u rest r e
          (Taken-refuses_list r.1 s t rest (Taken-Placed db r.1 s u r.0 k p) one m)
  ]

  -- Two scopes on one file, path or repository are not both claimed.
  pub insert_claims-refused :
      (db : Db) (scopes : List Scope)
      → distinct_targets scopes ≡ false
      → insert_claims db c scopes ≡ err internal
  unfolding distinct_targets
  insert_claims-refused db [] h = absurd (cc)
  insert_claims-refused db (s ∷ rest) h = elim (insert_claim-cases c db s) [
    | inl (e, b) ↦ first_refused db s rest e
    | inr (r, e, p) ↦
        later_refused db s rest r e (elim (Bool-cases (any_row (is_one_target s) rest)) [
          | inl twice ↦
              let (t, m, one) = any_row-In (is_one_target s) rest twice in
              Taken-refuses_list r.1 s t rest (Placed-Taken db r.1 s r.0 p)
                (is_one_target-OneTarget s t one) m
          | inr once ↦ insert_claims-refused r.1 rest (rw once at h)
        ])
  ]
