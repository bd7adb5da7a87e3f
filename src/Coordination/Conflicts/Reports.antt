-- ===== src/Coordination/Conflicts/Reports.antt =====
-- The overlaps that are reported are those with the leases in force.
use the_pact.Prelude.{
  ◌<◌, ◌≡◌, refl, sym, ap, ◌∙◌, true, false, ◌||◌, List, arith, find-In, In, ◌↔◌,
}
use the_pact.Text.{Text}
use the_pact.Identity.{Uuid, Time}
use the_pact.Coordination.Model.{Scope, ScopeClaim, ScopeOverlap, ClaimMode}
use the_pact.Coordination.Overlap.{blocks, is_exclusive}
use the_pact.Coordination.Overlap.Regions.{Covers, scopes_overlap_iff}
use the_pact.Coordination.Conflicts.{
  ExistingClaim, is_candidate, is_active_claim, overlap_with, load_scope_overlaps,
  has_blocking_overlap, claim_scope, has_intent_id,
}
use the_pact.Coordination.Conflicts.Rows.{
  In-existing, existing_sound, In-all_overlaps, all_overlaps_sound, unblocked, joined,
  join_claim_sound,
}
use the_pact.Coordination.Exclusion.{Holds, WellFormed}
use the_pact.Database.{Db}

-- `o` tells of the scope `s`, which was asked for, and the claim `c`.
pub record Reports (s : Scope) (c : ScopeClaim) (o : ScopeOverlap) : Type 0 where
  pub of_request : o.requested ≡ s
  pub of_claim : o.existing_claim_id ≡ c.id
  pub of_scope : o.existing_scope ≡ claim_scope c
  pub says_blocking : o.blocking ≡ blocks s (claim_scope c)

overlap_with-Reports :
    (s : Scope) (c : ScopeClaim) (x : ExistingClaim) → x.claim ≡ c → Reports s c (overlap_with s x)
unfolding overlap_with
overlap_with-Reports s c x e = record {
  of_request = refl;
  of_claim = ap (λ (d : ScopeClaim). d.id) e;
  of_scope = ap claim_scope e;
  says_blocking = ap (λ (d : ScopeClaim). blocks s (claim_scope d)) e;
}

-- A lease in force on the project's repository that shares a path with the scope.
pub record Contends (db : Db) (now : Time) (project repo : Uuid) (s : Scope) (c : ScopeClaim)
    : Type 0 where
  pub lease : Holds db now c
  pub of_project : c.project ≡ project
  pub of_repository : c.resource.repository_id ≡ repo
  pub common_path : (f : Text) × Covers s f × Covers (claim_scope c) f

module _ (db : Db) (now : Time) (project repo : Uuid) where
  candidate_iff :
      (c : ScopeClaim)
      → (is_candidate now project repo c ≡ true) ↔ (
          (c.project ≡ project)
          × (is_active_claim c.status ≡ true)
          × (now < c.expires_at)
          × (c.resource.repository_id ≡ repo))
  unfolding is_candidate
  candidate_iff c = ((λ h. ground arith), (λ h. ground arith))

  -- Whatever is reported tells of a requested scope and of a lease in force on the repository that
  -- shares a file path with it.
  pub load_scope_overlaps_sound :
      (scopes : List Scope) (o : ScopeOverlap)
      → In o (load_scope_overlaps db now project repo scopes)
      → (s : Scope) × (c : ScopeClaim) × In s scopes
        × Contends db now project repo s c
        × Reports s c o
  unfolding load_scope_overlaps
  load_scope_overlaps_sound scopes o m =
      let (s, x, ms, mx, t, e) = all_overlaps_sound scopes _ o m in
      let (c, mc, cand, j) = existing_sound db now project repo db.claims x mx in
      let row = join_claim_sound db c x j in
      let (p, active, unexpired, r) = (candidate_iff c).0 cand in
      (
        s,
        c,
        ms,
        record {
          lease = record {
            listed = mc;
            active = active;
            unexpired = unexpired;
            intent = x.intent;
            of_intent = row.of_intent;
            unfinished = row.unfinished;
          };
          of_project = p;
          of_repository = r;
          common_path =
              (scopes_overlap_iff s (claim_scope c)).0 (rw (ap claim_scope row.same_claim) at t);
        },
        rw e (overlap_with-Reports s c x row.same_claim),
      )

  -- In a database with its foreign keys, every lease in force on the repository that shares a file
  -- path with a requested scope is reported, with its blocking flag.
  pub load_scope_overlaps_complete :
      (scopes : List Scope) (s : Scope) (c : ScopeClaim)
      → WellFormed db
      → In s scopes
      → Contends db now project repo s c
      → (o : ScopeOverlap) × In o (load_scope_overlaps db now project repo scopes) × Reports s c o
  unfolding load_scope_overlaps
  load_scope_overlaps_complete scopes s c w ms h =
      let l = h.lease in
      let (mi, _) = find-In (has_intent_id c.intent_id) db.intents l.intent l.of_intent in
      let (a, ha) = w.responsible_known l.intent mi in
      let x : ExistingClaim = record { claim = c; intent = l.intent; actor = a } in
      (
        overlap_with s x,
        In-all_overlaps scopes _ s x ms
            (In-existing db now project repo db.claims c x l.listed
              ((candidate_iff c).1 (h.of_project, l.active, l.unexpired, h.of_repository))
              (joined db c l.intent a l.of_intent l.unfinished ha))
            ((scopes_overlap_iff s (claim_scope c)).1 h.common_path),
        overlap_with-Reports s c x refl,
      )

  -- Without a blocking overlap, each lease that shares a path with a requested scope is shared, and
  -- so is the request.
  pub unblocked_lease :
      (scopes : List Scope) (s : Scope) (c : ScopeClaim)
      → WellFormed db
      → has_blocking_overlap (load_scope_overlaps db now project repo scopes) ≡ false
      → In s scopes
      → Contends db now project repo s c
      → (s.mode ≡ ClaimMode.shared) × (c.mode ≡ ClaimMode.shared)
  unblocked_lease scopes s c w free ms h =
      let (o, mo, told) = load_scope_overlaps_complete scopes s c w ms h in
      shared_of_blocks s (claim_scope c) (sym told.says_blocking ∙ unblocked _ o free mo)
    where
      modes :
          (m n : ClaimMode)
          → (is_exclusive m || is_exclusive n) ≡ false
          → (m ≡ ClaimMode.shared) × (n ≡ ClaimMode.shared)
      modes ClaimMode.shared ClaimMode.shared e = (refl, refl)
      modes ClaimMode.shared ClaimMode.exclusive e = absurd (cc)
      modes ClaimMode.exclusive n e = absurd (cc)

      shared_of_blocks :
          (a b : Scope)
          → blocks a b ≡ false
          → (a.mode ≡ ClaimMode.shared) × (b.mode ≡ ClaimMode.shared)
      shared_of_blocks a b e = unfold blocks in modes a.mode b.mode e
