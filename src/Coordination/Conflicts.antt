-- ===== src/Coordination/Conflicts.antt =====
-- Requested scopes against the leases that others hold: loadScopeOverlaps and hasBlockingOverlap
-- (internal/coordination/postgres_repository.go).
pub mod Rows
pub mod Reports
use the_pact.Prelude.{
  Bool, true, false, ◌&&◌, ◌||◌, not, Option, none, some, List, [], ◌∷◌, ◌++◌, Result, ok, or_fail,
  ltb, ◌==◌, if◌then◌else◌, find, ◌>>=◌, ◌>>◌,
}
use the_pact.Identity.{Uuid, Time}
use the_pact.Coordination.Model.{
  Error, not_found, repository_unavailable, Scope, ScopeClaim, ClaimStatus, Intent, ScopeOverlap,
  ScopeCheckResult,
}
use the_pact.Coordination.Overlap.{scopes_overlap, overlap_reason, blocks}
use the_pact.Coordination.Lifecycle.{is_terminal_status}
use the_pact.Database.{Db, Actor, Project}

abbrev pub is_active_claim : ClaimStatus → Bool
is_active_claim ClaimStatus.active = true
is_active_claim _ = false

abbrev pub has_intent_id : Uuid → Intent → Bool
has_intent_id id i = i.id == id

abbrev pub has_actor_id : Uuid → Actor → Bool
has_actor_id id a = a.id == id

abbrev pub claim_scope : ScopeClaim → Scope
claim_scope c = record { kind = c.resource.kind; locator = c.resource.locator; mode = c.mode }

pub record ExistingClaim : Type 0 where
  pub claim : ScopeClaim
  pub intent : Intent
  pub actor : Actor

-- The rows of the query: live leases of the repository, joined to their intents and actors.
unfoldable pub is_candidate : Time → Uuid → Uuid → ScopeClaim → Bool
is_candidate now project repository c =
    c.project == project
    && is_active_claim c.status
    && ltb now c.expires_at
    && c.resource.repository_id == repository

with_actor : ScopeClaim → Intent → Option Actor → Option ExistingClaim
with_actor c i none = none
with_actor c i (some a) = some (record { claim = c; intent = i; actor = a })

with_intent : List Actor → ScopeClaim → Option Intent → Option ExistingClaim
unfolding with_actor
with_intent actors c none = none
with_intent actors c (some i) =
    if is_terminal_status i.status
    then none
    else with_actor c i (find (has_actor_id i.responsible_agent_id) actors)

unfoldable pub join_claim : Db → ScopeClaim → Option ExistingClaim
unfolding with_intent
join_claim db c = with_intent db.actors c (find (has_intent_id c.intent_id) db.intents)

add_existing : Option ExistingClaim → List ExistingClaim → List ExistingClaim
add_existing none rest = rest
add_existing (some x) rest = x ∷ rest

unfoldable pub existing_claims : Db → Time → Uuid → Uuid → List ScopeClaim → List ExistingClaim
unfolding add_existing
existing_claims db now project repository [] = []
existing_claims db now project repository (c ∷ rest) =
    let others = existing_claims db now project repository rest in
    if is_candidate now project repository c then add_existing (join_claim db c) others else others

unfoldable pub overlap_with : Scope → ExistingClaim → ScopeOverlap
overlap_with candidate x = record {
  requested = candidate;
  existing_claim_id = x.claim.id;
  existing_intent_id = x.claim.intent_id;
  existing_title = x.intent.title;
  existing_status = x.intent.status;
  existing_actor_id = x.intent.responsible_agent_id;
  existing_actor = x.actor.display_name;
  existing_scope = claim_scope x.claim;
  blocking = blocks candidate (claim_scope x.claim);
  reason = overlap_reason candidate (claim_scope x.claim);
  expires_at = x.claim.expires_at;
}

unfoldable pub overlaps_of : Scope → List ExistingClaim → List ScopeOverlap
overlaps_of candidate [] = []
overlaps_of candidate (x ∷ rest) =
    let others = overlaps_of candidate rest in
    if scopes_overlap candidate (claim_scope x.claim)
    then overlap_with candidate x ∷ others
    else others

unfoldable pub all_overlaps : List Scope → List ExistingClaim → List ScopeOverlap
all_overlaps [] existing = []
all_overlaps (candidate ∷ rest) existing =
    overlaps_of candidate existing ++ all_overlaps rest existing

unfoldable pub load_scope_overlaps : Db → Time → Uuid → Uuid → List Scope → List ScopeOverlap
load_scope_overlaps db now project repository requested =
    all_overlaps requested (existing_claims db now project repository db.claims)

unfoldable pub has_blocking_overlap : List ScopeOverlap → Bool
has_blocking_overlap [] = false
has_blocking_overlap (o ∷ rest) = o.blocking || has_blocking_overlap rest

abbrev pub is_open_project : Uuid → Project → Bool
is_open_project id p = p.id == id && not p.archived

-- The root repository of a project that is not archived.
unfoldable pub project_repository : Db → Uuid → Result Error Uuid
project_repository db project = do
  p ← or_fail (find (is_open_project project) db.projects) not_found
  or_fail p.root_repository_id repository_unavailable

pub check_scopes : Db → Time → Uuid → List Scope → Result Error ScopeCheckResult
check_scopes db now project scopes = do
  repository ← project_repository db project
  let overlaps = load_scope_overlaps db now project repository scopes
  ok (record { scopes = scopes; overlaps = overlaps; blocked = has_blocking_overlap overlaps })
