-- ===== src/Coordination/Start.antt =====
-- Starting work: PostgresRepository.Start (internal/coordination/postgres_repository.go).
pub mod Rows
pub mod Adds
pub mod Safety
pub mod Worktrees
pub mod Repeat
pub mod Targets
pub mod Placing
pub mod Insertion
pub mod Tracking
pub mod Creation
pub mod Progress
use the_pact.Prelude.{
  ℕ, ◌+◌, Bool, true, false, ◌&&◌, not, Option, none, some, List, [], ◌∷◌, Result, ok, err, require,
  ◌==◌, leb, length, find, any_row, insert, ◌>>=◌, ◌>>◌,
}
use the_pact.Text.{Text, is_padding, text, text_eq}
use the_pact.Identity.{Uuid, Time, seconds}
use the_pact.Coordination.Model.{
  Error, scope_conflict, internal, Scope, ScopeKind, repository, path, file, ResourceRef,
  ScopeClaim, ClaimStatus, Intent, IntentStatus, ScopeOverlap, StartInput, StartResult,
}
use the_pact.Coordination.Conflicts.{
  load_scope_overlaps, has_blocking_overlap, project_repository, is_active_claim,
}
use the_pact.Coordination.Commands.{
  authorize_session, Reservation, reserved, replayed, reserve_command, complete_command,
  append_event, EventInput,
}
use the_pact.Database.{Db, Response, start_response, intent_started}

abbrev pub scope_lease : Time
scope_lease = seconds 60

unfoldable pub new_intent : Uuid → Time → Uuid → Uuid → StartInput → Intent
new_intent id now project actor input = record {
  id = id;
  project = project;
  title = input.title;
  goal = input.goal;
  success_criteria = input.success_criteria;
  status = IntentStatus.active;
  summary = none;
  status_detail = none;
  base_revision = input.base_revision;
  responsible_agent_id = actor;
  created_by_actor_id = actor;
  version = 1;
  created_at = now;
  updated_at = now;
  status_changed_at = now;
  completed_at = none;
}

abbrev pub kind_eq : ScopeKind → ScopeKind → Bool
kind_eq repository repository = true
kind_eq path path = true
kind_eq file file = true
kind_eq _ _ = false

-- resource_refs_identity_uq
unfoldable pub same_resource : Uuid → Uuid → Scope → ResourceRef → Bool
same_resource project repo s r =
    r.project == project
    && kind_eq r.kind s.kind
    && r.repository_id == repo
    && text_eq r.locator s.locator

abbrev new_resource : Db → Uuid → Uuid → Scope → ResourceRef
new_resource db project repo s = record {
  id = db.next_id;
  project = project;
  repository_id = repo;
  kind = s.kind;
  locator = s.locator;
}

add_resource : Db → Uuid → Uuid → Scope → Option ResourceRef → ResourceRef × Db
add_resource db project repo s (some r) = (record r { locator = s.locator }, db)
add_resource db project repo s none = (
  new_resource db project repo s,
  record db {
    resources = insert (new_resource db project repo s) db.resources;
    next_id = db.next_id + 1;
  },
)

-- ON CONFLICT the row that is there gets the locator that it has.
unfoldable pub upsert_resource_ref : Db → Uuid → Uuid → Scope → ResourceRef × Db
unfolding add_resource
upsert_resource_ref db project repo s =
    add_resource db project repo s (find (same_resource project repo s) db.resources)

-- Whose claims, and since when.
pub record Claimant : Type 0 where
  pub now : Time
  pub project : Uuid
  pub repository_id : Uuid
  pub intent_id : Uuid
  pub session_id : Uuid

unfoldable pub new_claim : Claimant → Uuid → ResourceRef → Scope → ScopeClaim
new_claim c id resource s = record {
  id = id;
  project = c.project;
  intent_id = c.intent_id;
  session_id = c.session_id;
  resource = resource;
  mode = s.mode;
  status = ClaimStatus.active;
  version = 1;
  created_at = c.now;
  updated_at = c.now;
  last_renewed_at = c.now;
  expires_at = c.now + scope_lease;
  released_at = none;
}

-- scope_claims_one_active_origin_idx: the origin of every claim is that it was declared.
unfoldable pub is_claim_on : Claimant → Uuid → ScopeClaim → Bool
is_claim_on c resource x =
    x.project == c.project
    && x.intent_id == c.intent_id
    && x.resource.id == resource
    && is_active_claim x.status

unfoldable pub insert_claim : Db → Claimant → Scope → Result Error (ScopeClaim × Db)
insert_claim db c s = do
  let (resource, db1) = upsert_resource_ref db c.project c.repository_id s
  require (not (any_row (is_claim_on c resource.id) db1.claims)) internal
  let claim = new_claim c db1.next_id resource s
  ok (claim, record db1 { claims = insert claim db1.claims; next_id = db1.next_id + 1 })

unfoldable pub insert_claims : Db → Claimant → List Scope → Result Error (List ScopeClaim × Db)
insert_claims db c [] = ok ([], db)
insert_claims db c (s ∷ rest) = do
  (claim, db1) ← insert_claim db c s
  (claims, db2) ← insert_claims db1 c rest
  ok (claim ∷ claims, db2)

abbrev pub claimant : Db → Time → Uuid → Uuid → StartInput → Claimant
claimant db now project repo input = record {
  now = now;
  project = project;
  repository_id = repo;
  intent_id = db.next_id;
  session_id = input.session_id;
}

-- The CHECK constraints on the texts of coordination.intents.
unfoldable pub fits_intents : StartInput → Bool
fits_intents input =
    not (is_padding input.title)
    && leb (length input.title) 300
    && not (is_padding input.goal)
    && leb (length input.goal) 10000
    && not (is_padding input.base_revision)
    && leb (length input.base_revision) 255

-- The intent under the next identifier, and a claim for each scope.
unfoldable pub create_rows :
    Db → Time → Uuid → Uuid → Uuid → StartInput → Result Error (Intent × List ScopeClaim × Db)
create_rows db now project actor repo input = do
  require (fits_intents input) internal
  let intent = new_intent db.next_id now project actor input
  (claims, db1) ←
      insert_claims (record db { intents = insert intent db.intents; next_id = db.next_id + 1 })
        (claimant db now project repo input) input.scopes
  ok (intent, claims, db1)

unfoldable pub started_event :
    Uuid → Uuid → Intent → List ScopeClaim → List ScopeOverlap → StartInput → EventInput
started_event command actor intent claims overlaps input = record {
  project = intent.project;
  command_id = command;
  actor_id = actor;
  session_id = input.session_id;
  intent_id = intent.id;
  event_type = text "pact.intent.started.v1";
  aggregate_type = text "intent";
  aggregate_id = intent.id;
  aggregate_version = intent.version;
  git_revision = input.base_revision;
  payload =
      intent_started intent claims overlaps (input.allow_overlap && has_blocking_overlap overlaps);
}

-- The part of Start behind the check of the scopes.
unfoldable pub create_work :
    Db
    → Time
    → Uuid
    → Text
    → Uuid
    → Uuid
    → Uuid
    → List ScopeOverlap
    → StartInput
    → Result Error (StartResult × Db)
create_work db now project key actor command repo overlaps input = do
  (intent, claims, db1) ← create_rows db now project actor repo input
  (event, db2) ← append_event db1 (started_event command actor intent claims overlaps input)
  let result : StartResult = record {
    intent = intent;
    claims = claims;
    overlaps = overlaps;
    event_id = event;
    is_replay = false;
  }
  db3 ← complete_command db2 project (text "work.start") key command (record {
    response_status = 201;
    response_body = start_response result;
    event_id = event;
    aggregate_id = intent.id;
  })
  ok (result, db3)

replay_start : Response → Result Error StartResult
replay_start (start_response r) = ok (record r { is_replay = true })
replay_start _ = err internal

unfoldable pub run_start :
    Db → Time → Uuid → Text → Uuid → StartInput → Reservation → Result Error (StartResult × Db)
unfolding replay_start
run_start db now project key actor input (replayed body) = do r ← replay_start body; ok (r, db)
run_start db now project key actor input (reserved command db1) = do
  repo ← project_repository db1 project
  let overlaps = load_scope_overlaps db1 now project repo input.scopes
  require (not (has_blocking_overlap overlaps && not input.allow_overlap)) (scope_conflict overlaps)
  create_work db1 now project key actor command repo overlaps input

unfoldable pub start :
    Db → Time → Uuid → Bool → Uuid → Text → ℕ → StartInput → Result Error (StartResult × Db)
start db now principal allow_all project key hash input = do
  actor ← authorize_session db now principal allow_all project input.session_id
  reservation ← reserve_command db project (text "work.start") key hash
  run_start db now project key actor input reservation
