-- ===== src/Coordination/Service/Commands.antt =====
-- The four commands behind their checks: Service.CheckScopes, Start, AttachWorkspace and UpdateStatus
-- (internal/coordination/service.go).
use the_pact.Prelude.{
  ℕ, Bool, ◌||◌, not, List, map, Result, require, or_fail, ltb, length, ◌>>=◌, ◌>>◌,
}
use the_pact.Text.{Text, text, trim_space, to_lower}
use the_pact.Identity.{Uuid, Time, valid_uuid}
use the_pact.Coordination.Model.{
  Error, validation, Scope, ScopeInput, ScopeCheckResult, IntentStatus, StartInput, StartResult,
  WorkspaceInput, WorkspaceResult, StatusInput, StatusResult,
}
use the_pact.Coordination.Scopes.{normalize_scopes}
use the_pact.Coordination.Conflicts.{check_scopes}
use the_pact.Coordination.Start.{start}
use the_pact.Coordination.Attach.{attach_workspace}
use the_pact.Coordination.Status.{update_status}
use the_pact.Database.{Db}
use the_pact.Coordination.Service.{
  start_command, workspace_command, status_command, StartRequest, WorkspaceRequest, StatusRequest,
  CommandInput, compact_strings, validate_idempotency_key, validate_ids, validate_command_identity,
  check_start, check_workspace, target_status, at_least_one,
}

-- `uuid_of` reads a UUID as the database does, `command_hash` is commandHash with the organization of
-- the service, and `table` is the case table of Unicode.
module _ (table : ℕ → ℕ) (uuid_of : Text → Uuid)
    (command_hash : Text → Text → CommandInput → ℕ) where
  unfoldable pub trimmed_start : StartRequest → StartRequest
  trimmed_start r = record {
    session_id = trim_space r.session_id;
    title = trim_space r.title;
    goal = trim_space r.goal;
    success_criteria = compact_strings (map trim_space r.success_criteria);
    base_revision = to_lower table (trim_space r.base_revision);
    scopes = r.scopes;
    allow_overlap = r.allow_overlap;
  }

  unfoldable pub start_input : StartRequest → List Scope → StartInput
  start_input r scopes = record {
    session_id = uuid_of r.session_id;
    title = r.title;
    goal = r.goal;
    success_criteria = r.success_criteria;
    base_revision = r.base_revision;
    scopes = scopes;
    allow_overlap = r.allow_overlap;
  }

  -- The requests below have their texts trimmed.
  unfoldable pub start_trimmed :
      Db → Time → Text → Bool → Text → Text → StartRequest → Result Error (StartResult × Db)
  start_trimmed db now principal allow_all project key r = do
    validate_command_identity principal project r.session_id key
    check_start r
    scopes ← normalize_scopes table r.scopes
    start db now (uuid_of principal) allow_all (uuid_of project) key
        (command_hash (text "work.start") project (start_command r scopes)) (start_input r scopes)

  unfoldable pub service_start :
      Db → Time → Text → Bool → Text → Text → StartRequest → Result Error (StartResult × Db)
  service_start db now principal allow_all project key r =
      start_trimmed db now (trim_space principal) allow_all (trim_space project) (trim_space key)
        (trimmed_start r)

  pub service_check_scopes : Db → Time → Text → List ScopeInput → Result Error ScopeCheckResult
  service_check_scopes db now project scopes = do
    require (valid_uuid (trim_space project)) (validation "project_id" "must be a UUID")
    normalized ← normalize_scopes table scopes
    check_scopes db now (uuid_of (trim_space project)) normalized

  pub trimmed_workspace : WorkspaceRequest → WorkspaceRequest
  trimmed_workspace r = record {
    session_id = trim_space r.session_id;
    base_revision = to_lower table (trim_space r.base_revision);
    path_ref = trim_space r.path_ref;
    git_branch = trim_space r.git_branch;
  }

  pub workspace_input : WorkspaceRequest → WorkspaceInput
  workspace_input r = record {
    session_id = uuid_of r.session_id;
    base_revision = r.base_revision;
    path_ref = r.path_ref;
    git_branch = r.git_branch;
  }

  pub attach_trimmed :
      Db → Time → Text → Bool → Text → Text → WorkspaceRequest → Result Error (WorkspaceResult × Db)
  attach_trimmed db now principal allow_all intent key r = do
    validate_ids principal "intent_id" intent r.session_id
    validate_idempotency_key key
    check_workspace r
    attach_workspace db now (uuid_of principal) allow_all (uuid_of intent) key
        (command_hash (text "workspace.attach") intent (workspace_command r)) (workspace_input r)

  pub service_attach_workspace :
      Db → Time → Text → Bool → Text → Text → WorkspaceRequest → Result Error (WorkspaceResult × Db)
  service_attach_workspace db now principal allow_all intent key r =
      attach_trimmed db now (trim_space principal) allow_all (trim_space intent) (trim_space key)
        (trimmed_workspace r)

  unfoldable pub trimmed_status : StatusRequest → StatusRequest
  trimmed_status r = record {
    session_id = trim_space r.session_id;
    status = to_lower table (trim_space r.status);
    expected_version = r.expected_version;
    summary = trim_space r.summary;
    reason = trim_space r.reason;
  }

  unfoldable pub status_input : StatusRequest → IntentStatus → ℕ → StatusInput
  status_input r status version = record {
    session_id = uuid_of r.session_id;
    status = status;
    expected_version = version;
    summary = r.summary;
    reason = r.reason;
  }

  unfoldable pub status_trimmed :
      Db → Time → Text → Bool → Text → Text → StatusRequest → Result Error (StatusResult × Db)
  status_trimmed db now principal allow_all intent key r = do
    validate_ids principal "intent_id" intent r.session_id
    validate_idempotency_key key
    status ← or_fail (target_status r.status) (
        validation "status"
          "must be active, blocked, submitted, completed, cancelled, or abandoned")
    version ←
        or_fail (at_least_one r.expected_version)
          (validation "expected_version" "must be greater than zero")
    require (not (ltb 10000 (length r.summary) || ltb 2000 (length r.reason)))
        (validation "summary" "summary or reason is too long")
    update_status db now (uuid_of principal) allow_all (uuid_of intent) key
        (command_hash (text "intent.status") intent (status_command r))
        (status_input r status version)

  unfoldable pub service_update_status :
      Db → Time → Text → Bool → Text → Text → StatusRequest → Result Error (StatusResult × Db)
  service_update_status db now principal allow_all intent key r =
      status_trimmed db now (trim_space principal) allow_all (trim_space intent) (trim_space key)
        (trimmed_status r)
