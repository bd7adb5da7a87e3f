-- ===== src/Coordination/Model.antt =====
-- The data of coordinated work (internal/coordination/model.go, errors.go), which are also the
-- rows of the tables in schema coordination.
use the_pact.Prelude.{String, ℕ, Bool, Option, List}
use the_pact.Text.{Text}
use the_pact.Identity.{Uuid, Time}

pub data ClaimMode : Type 0 where
  exclusive shared : ClaimMode

pub data ScopeKind : Type 0 where
  repository path file : ScopeKind

pub data IntentStatus : Type 0 where
  draft active blocked submitted completed cancelled abandoned : IntentStatus

pub data ClaimStatus : Type 0 where
  active released superseded : ClaimStatus

pub data WorktreeStatus : Type 0 where
  provisioning ready active frozen archived failed : WorktreeStatus

pub data HandoffStatus : Type 0 where
  offered accepted withdrawn expired : HandoffStatus

-- A scope as a request spells it.
pub record ScopeInput : Type 0 where
  pub kind : Text
  pub locator : Text
  pub mode : Text

-- A scope after normalizeScopes, and as the database keeps it.
pub record Scope : Type 0 where
  pub kind : ScopeKind
  pub locator : Text
  pub mode : ClaimMode

pub record ResourceRef : Type 0 where
  pub id : Uuid
  pub project : Uuid
  pub repository_id : Uuid
  pub kind : ScopeKind
  pub locator : Text

-- The row holds its resource, to which the table has a foreign key; resources never change.
pub record ScopeClaim : Type 0 where
  pub id : Uuid
  pub project : Uuid
  pub intent_id : Uuid
  pub session_id : Uuid
  pub resource : ResourceRef
  pub mode : ClaimMode
  pub status : ClaimStatus
  pub version : ℕ
  pub created_at : Time
  pub updated_at : Time
  pub last_renewed_at : Time
  pub expires_at : Time
  pub released_at : Option Time

pub record Intent : Type 0 where
  pub id : Uuid
  pub project : Uuid
  pub title : Text
  pub goal : Text
  pub success_criteria : List Text
  pub status : IntentStatus
  pub summary : Option Text
  -- the `reason` of the last change of status
  pub status_detail : Option Text
  pub base_revision : Text
  pub responsible_agent_id : Uuid
  pub created_by_actor_id : Uuid
  pub version : ℕ
  pub created_at : Time
  pub updated_at : Time
  pub status_changed_at : Time
  pub completed_at : Option Time

pub record Worktree : Type 0 where
  pub id : Uuid
  pub project : Uuid
  pub repository_id : Uuid
  pub intent_id : Uuid
  pub session_id : Uuid
  pub base_revision : Text
  pub path_ref : Text
  pub git_branch : Text
  pub status : WorktreeStatus
  pub version : ℕ
  pub created_at : Time
  pub updated_at : Time
  pub frozen_at : Option Time
  pub archived_at : Option Time

pub record ScopeOverlap : Type 0 where
  pub requested : Scope
  pub existing_claim_id : Uuid
  pub existing_intent_id : Uuid
  pub existing_title : Text
  pub existing_status : IntentStatus
  pub existing_actor_id : Uuid
  pub existing_actor : Text
  pub existing_scope : Scope
  pub blocking : Bool
  pub reason : String
  pub expires_at : Time

pub record ScopeCheckResult : Type 0 where
  pub scopes : List Scope
  pub overlaps : List ScopeOverlap
  pub blocked : Bool

-- What the service hands to the repository: texts trimmed and checked, scopes normalized.
pub record StartInput : Type 0 where
  pub session_id : Uuid
  pub title : Text
  pub goal : Text
  pub success_criteria : List Text
  pub base_revision : Text
  pub scopes : List Scope
  pub allow_overlap : Bool

pub record StartResult : Type 0 where
  pub intent : Intent
  pub claims : List ScopeClaim
  pub overlaps : List ScopeOverlap
  pub event_id : Uuid
  pub is_replay : Bool

pub record WorkspaceInput : Type 0 where
  pub session_id : Uuid
  pub base_revision : Text
  pub path_ref : Text
  pub git_branch : Text

pub record WorkspaceResult : Type 0 where
  pub workspace : Worktree
  pub event_id : Uuid
  pub is_replay : Bool

pub record StatusInput : Type 0 where
  pub session_id : Uuid
  pub status : IntentStatus
  pub expected_version : ℕ
  pub summary : Text
  pub reason : Text

pub record StatusResult : Type 0 where
  pub intent : Intent
  pub event_id : Uuid
  pub is_replay : Bool

pub record HandoffValidation : Type 0 where
  pub name : Text
  pub status : Text
  pub details : Text

pub record Handoff : Type 0 where
  pub id : Uuid
  pub workspace_id : Uuid
  pub project : Uuid
  pub intent_id : Uuid
  pub from_session_id : Uuid
  pub from_actor_id : Uuid
  pub to_session_id : Option Uuid
  pub to_actor_id : Option Uuid
  pub status : HandoffStatus
  pub summary : Text
  pub completed : List Text
  pub remaining_work : List Text
  pub blockers : List Text
  pub next_steps : List Text
  pub validations : List HandoffValidation
  pub version : ℕ
  pub offered_at : Time
  pub responded_at : Option Time
  pub expires_at : Time
  pub created_at : Time
  pub updated_at : Time

-- A handoff as the queries return it, with the names of its actors and its linked records.
pub record HandoffView : Type 0 where
  pub row : Handoff
  pub from_actor_name : Text
  pub to_actor_name : Option Text
  pub linked_record_ids : List Uuid

pub record OfferHandoffInput : Type 0 where
  pub session_id : Uuid
  pub summary : Text
  pub completed : List Text
  pub remaining_work : List Text
  pub blockers : List Text
  pub next_steps : List Text
  pub validations : List HandoffValidation
  pub linked_record_ids : List Uuid
  pub expires_in_hours : ℕ

pub record HandoffStatusInput : Type 0 where
  pub session_id : Uuid
  pub status : HandoffStatus
  pub expected_version : ℕ

pub record HandoffResult : Type 0 where
  pub handoff : HandoffView
  pub event_id : Uuid
  pub is_replay : Bool

-- The errors of the package (errors.go); `internal` stands for the wrapped ones, which the API
-- answers with status 500.
pub data Error : Type 0 where
  validation : String → String → Error
  scope_conflict : List ScopeOverlap → Error
  not_found repository_unavailable forbidden version_conflict invalid_transition : Error
  workspace_exists idempotency_conflict command_incomplete handoff_exists : Error
  invalid_handoff_status knowledge_record_not_found internal : Error
