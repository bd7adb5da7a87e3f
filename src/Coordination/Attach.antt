-- ===== src/Coordination/Attach.antt =====
-- Registering a worktree: PostgresRepository.AttachWorkspace
-- (internal/coordination/postgres_repository.go).
pub mod OneLive
pub mod Safety
use the_pact.Prelude.{
  ℕ, ◌+◌, Bool, true, false, ◌&&◌, ◌||◌, not, none, Result, ok, err, require, or_fail, ◌==◌, find,
  any_row, insert, ◌>>=◌, ◌>>◌,
}
use the_pact.Text.{Text, text}
use the_pact.Identity.{Uuid, Time}
use the_pact.Coordination.Model.{
  Error, not_found, forbidden, workspace_exists, internal, Intent, Worktree, WorktreeStatus,
  WorkspaceInput, WorkspaceResult,
}
use the_pact.Coordination.Lifecycle.{is_terminal_status}
use the_pact.Coordination.Commands.{
  authorize_session, Reservation, reserved, replayed, reserve_command, complete_command,
  append_event, EventInput, is_project,
}
use the_pact.Database.{Db, Response, workspace_response, workspace_ready}

-- The index worktrees_one_live_intent_idx.
abbrev pub is_live_worktree : WorktreeStatus → Bool
is_live_worktree WorktreeStatus.provisioning = true
is_live_worktree WorktreeStatus.ready = true
is_live_worktree WorktreeStatus.active = true
is_live_worktree WorktreeStatus.frozen = true
is_live_worktree _ = false

unfoldable pub occupies : Uuid → Uuid → Worktree → Bool
occupies project intent t =
    t.project == project && t.intent_id == intent && is_live_worktree t.status

unfoldable pub new_worktree : Uuid → Time → Uuid → Uuid → Uuid → WorkspaceInput → Worktree
new_worktree id now project repo intent input = record {
  id = id;
  project = project;
  repository_id = repo;
  intent_id = intent;
  session_id = input.session_id;
  base_revision = input.base_revision;
  path_ref = input.path_ref;
  git_branch = input.git_branch;
  status = WorktreeStatus.ready;
  version = 1;
  created_at = now;
  updated_at = now;
  frozen_at = none;
  archived_at = none;
}

-- The insertion, which the unique index refuses while a live worktree is there.
unfoldable pub insert_worktree :
    Db → Time → Uuid → Uuid → Uuid → WorkspaceInput → Result Error (Worktree × Db)
insert_worktree db now project repo intent input = do
  require (not (any_row (occupies project intent) db.worktrees)) workspace_exists
  let t = new_worktree db.next_id now project repo intent input
  ok (t, record db { worktrees = insert t db.worktrees; next_id = db.next_id + 1 })

unfoldable pub ready_event : Uuid → Uuid → Worktree → EventInput
ready_event command actor t = record {
  project = t.project;
  command_id = command;
  actor_id = actor;
  session_id = t.session_id;
  intent_id = t.intent_id;
  event_type = text "pact.workspace.ready.v1";
  aggregate_type = text "workspace";
  aggregate_id = t.id;
  aggregate_version = t.version;
  git_revision = t.base_revision;
  payload = workspace_ready t;
}

replay_workspace : Response → Result Error WorkspaceResult
replay_workspace (workspace_response r) = ok (record r { is_replay = true })
replay_workspace _ = err internal

unfoldable pub run_attach :
    Db
    → Time
    → Text
    → Uuid
    → Uuid
    → Uuid
    → Uuid
    → WorkspaceInput
    → Reservation
    → Result Error (WorkspaceResult × Db)
unfolding replay_workspace
run_attach db now key actor project repo intent input (replayed body) = do
  r ← replay_workspace body
  ok (r, db)
run_attach db now key actor project repo intent input (reserved command db1) = do
  (t, db2) ← insert_worktree db1 now project repo intent input
  (event, db3) ← append_event db2 (ready_event command actor t)
  let result : WorkspaceResult = record { workspace = t; event_id = event; is_replay = false }
  db4 ← complete_command db3 project (text "workspace.attach") key command (record {
    response_status = 201;
    response_body = workspace_response result;
    event_id = event;
    aggregate_id = t.id;
  })
  ok (result, db4)

abbrev pub is_open_intent : Uuid → Intent → Bool
is_open_intent id i = i.id == id && not (is_terminal_status i.status)

-- A project without a root repository gives NULL, which does not scan into a string.
unfoldable pub attach_workspace :
    Db → Time → Uuid → Bool → Uuid → Text → ℕ → WorkspaceInput → Result Error (WorkspaceResult × Db)
attach_workspace db now principal allow_all intent_id key hash input = do
  i ← or_fail (find (is_open_intent intent_id) db.intents) not_found
  p ← or_fail (find (is_project i.project) db.projects) not_found
  repo ← or_fail p.root_repository_id internal
  actor ← authorize_session db now principal allow_all i.project input.session_id
  require (actor == i.responsible_agent_id || allow_all) forbidden
  reservation ← reserve_command db i.project (text "workspace.attach") key hash
  run_attach db now key actor i.project repo intent_id input reservation
