-- ===== src/Coordination/Status.antt =====
-- Changing the status of an intent: PostgresRepository.UpdateStatus
-- (internal/coordination/postgres_repository.go).
pub mod Outcome
pub mod Safety
pub mod Change
pub mod Effects
pub mod OneLive
use the_pact.Prelude.{
  ℕ, ◌+◌, Bool, true, false, ◌&&◌, ◌||◌, not, Option, none, some, List, [], ◌∷◌, ◌++◌, Result, ok,
  err, require, or_fail, ◌==◌, leb, length, if◌then◌else◌, find, update_where, ◌>>=◌, ◌>>◌,
}
use the_pact.Text.{Text, is_padding, text}
use the_pact.Identity.{Uuid, Time}
use the_pact.Coordination.Model.{
  Error, not_found, forbidden, version_conflict, invalid_transition, internal, ScopeClaim,
  ClaimStatus, Intent, IntentStatus, Worktree, WorktreeStatus, StatusInput, StatusResult,
}
use the_pact.Coordination.Conflicts.{is_active_claim, has_intent_id}
use the_pact.Coordination.Lifecycle.{
  status_name, valid_transition, is_terminal_status, is_submitted, is_completed,
}
use the_pact.Coordination.Commands.{
  authorize_session, Reservation, reserved, replayed, reserve_command, complete_command,
  append_event, EventInput,
}
use the_pact.Database.{Db, Response, status_response, intent_changed}

-- COALESCE(NULLIF(summary, ''), old)
abbrev pub summary_or : Text → Option Text → Option Text
summary_or [] old = old
summary_or (c ∷ s) old = some (c ∷ s)

-- intents_summary_ck
unfoldable pub fits_summary : Option Text → Bool
fits_summary none = true
fits_summary (some s) = not (is_padding s) && leb (length s) 10000

unfoldable pub changed_intent : Time → StatusInput → Intent → Intent
changed_intent now input i = record i {
  status = input.status;
  summary = summary_or input.summary i.summary;
  status_detail = some input.reason;
  version = i.version + 1;
  updated_at = now;
  status_changed_at = now;
  completed_at = if is_completed input.status then some now else none;
}

abbrev pub is_workable : WorktreeStatus → Bool
is_workable WorktreeStatus.provisioning = true
is_workable WorktreeStatus.ready = true
is_workable WorktreeStatus.active = true
is_workable _ = false

abbrev pub is_archived : WorktreeStatus → Bool
is_archived WorktreeStatus.archived = true
is_archived _ = false

unfoldable pub freezes : Intent → Worktree → Bool
freezes i t = t.project == i.project && t.intent_id == i.id && is_workable t.status

unfoldable pub freeze : Time → Worktree → Worktree
freeze now t = record t {
  status = WorktreeStatus.frozen;
  version = t.version + 1;
  updated_at = now;
  frozen_at = some now;
}

unfoldable pub archives : Intent → Worktree → Bool
archives i t = t.project == i.project && t.intent_id == i.id && not (is_archived t.status)

unfoldable pub archive : Time → Worktree → Worktree
archive now t = record t {
  status = WorktreeStatus.archived;
  version = t.version + 1;
  updated_at = now;
  archived_at = some now;
}

unfoldable pub releases : Intent → ScopeClaim → Bool
releases i c = c.project == i.project && c.intent_id == i.id && is_active_claim c.status

unfoldable pub release : Time → ScopeClaim → ScopeClaim
release now c = record c {
  status = ClaimStatus.released;
  version = c.version + 1;
  updated_at = now;
  released_at = some now;
}

unfoldable pub is_version_of : Intent → Intent → Bool
is_version_of i j = j.id == i.id && j.version == i.version

-- Submitting freezes the worktrees.
unfoldable pub worktrees_after : Time → Intent → IntentStatus → List Worktree → List Worktree
worktrees_after now i status ts =
    if is_submitted status
    then update_where (freezes i) (freeze now) ts
    else if is_terminal_status status
    then update_where (archives i) (archive now) ts
    else ts

-- Finishing releases the claims.
unfoldable pub claims_after : Time → Intent → IntentStatus → List ScopeClaim → List ScopeClaim
claims_after now i status cs =
    if is_terminal_status status then update_where (releases i) (release now) cs else cs

unfoldable pub apply_status : Db → Time → Intent → StatusInput → Db
apply_status db now i input = record db {
  intents = update_where (is_version_of i) (changed_intent now input) db.intents;
  claims = claims_after now i input.status db.claims;
  worktrees = worktrees_after now i input.status db.worktrees;
}

unfoldable pub status_event : Uuid → Uuid → Intent → StatusInput → EventInput
status_event command actor i input = record {
  project = i.project;
  command_id = command;
  actor_id = actor;
  session_id = input.session_id;
  intent_id = i.id;
  event_type = text "pact.intent." ++ (status_name input.status ++ text ".v1");
  aggregate_type = text "intent";
  aggregate_id = i.id;
  aggregate_version = i.version;
  git_revision = i.base_revision;
  payload = intent_changed i input.reason;
}

replay_status : Response → Result Error StatusResult
replay_status (status_response r) = ok (record r { is_replay = true })
replay_status _ = err internal

-- The part behind the reservation; `i` is the row that was locked.
unfoldable pub run_status :
    Db → Time → Text → Uuid → Intent → StatusInput → Reservation → Result Error (StatusResult × Db)
unfolding replay_status
run_status db now key actor i input (replayed body) = do r ← replay_status body; ok (r, db)
run_status db now key actor i input (reserved command db1) = do
  require (i.version == input.expected_version) version_conflict
  require (valid_transition i.status input.status) invalid_transition
  let changed = changed_intent now input i
  require (fits_summary changed.summary) internal
  (event, db2) ←
      append_event (apply_status db1 now i input) (status_event command actor changed input)
  let result : StatusResult = record { intent = changed; event_id = event; is_replay = false }
  db3 ← complete_command db2 i.project (text "intent.status") key command (record {
    response_status = 200;
    response_body = status_response result;
    event_id = event;
    aggregate_id = i.id;
  })
  ok (result, db3)

unfoldable pub update_status :
    Db → Time → Uuid → Bool → Uuid → Text → ℕ → StatusInput → Result Error (StatusResult × Db)
update_status db now principal allow_all intent_id key hash input = do
  i ← or_fail (find (has_intent_id intent_id) db.intents) not_found
  actor ← authorize_session db now principal allow_all i.project input.session_id
  require (actor == i.responsible_agent_id || allow_all) forbidden
  reservation ← reserve_command db i.project (text "intent.status") key hash
  run_status db now key actor i input reservation
