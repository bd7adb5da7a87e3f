-- ===== src/Database.antt =====
-- The tables that the repositories of internal/coordination and internal/agentsession read and
-- write, for one organization: every statement of theirs filters by the organization of the
-- service. A table is a list of rows in the order of insertion. A transaction is a function from
-- the database to a result and the database that it commits; with an error nothing is committed.
use the_pact.Prelude.{ℕ, Bool, Option, List}
use the_pact.Text.{Text}
use the_pact.Identity.{Uuid, Time}
use the_pact.Coordination.Model.{
  ResourceRef, ScopeClaim, ScopeOverlap, Intent, Worktree, Handoff, HandoffView, StartResult,
  WorkspaceResult, StatusResult, HandoffResult,
}

pub data SessionStatus : Type 0 where
  starting active stale closed expired : SessionStatus

-- A project with its event counter, and the workspace that it belongs to.
pub record Project : Type 0 where
  pub id : Uuid
  pub workspace_id : Option Uuid
  pub root_repository_id : Option Uuid
  pub archived : Bool
  pub last_sequence : ℕ
  pub event_sequence : ℕ

pub data ActorStatus : Type 0 where
  active disabled retired : ActorStatus

pub record Actor : Type 0 where
  pub id : Uuid
  pub status : ActorStatus
  pub display_name : Text

pub record Agent : Type 0 where
  pub id : Uuid
  pub sponsor_principal_id : Uuid

pub record Node : Type 0 where
  pub id : Uuid
  pub name : Text
  pub online : Bool
  pub last_seen_at : Time
  pub version : ℕ

pub record Session : Type 0 where
  pub id : Uuid
  pub project : Uuid
  pub actor_id : Uuid
  pub node_id : Uuid
  pub status : SessionStatus
  pub started_at : Time
  pub last_seen_at : Time
  pub expires_at : Time
  pub ended_at : Option Time
  pub version : ℕ

-- A knowledge record, of which a handoff needs the workspace only.
pub record KnowledgeRecord : Type 0 where
  pub id : Uuid
  pub workspace_id : Uuid

-- A row of handoff_records.
pub record HandoffLink : Type 0 where
  pub handoff_id : Uuid
  pub record_id : Uuid

-- What an event says beside its columns.
pub data Payload : Type 0 where
  intent_started : Intent → List ScopeClaim → List ScopeOverlap → Bool → Payload
  workspace_ready : Worktree → Payload
  intent_changed : Intent → Text → Payload
  handoff_changed : HandoffView → Payload

pub record Event : Type 0 where
  pub id : Uuid
  pub project : Uuid
  pub project_sequence : ℕ
  pub event_type : Text
  pub aggregate_type : Text
  pub aggregate_id : Uuid
  pub aggregate_version : ℕ
  pub actor_id : Uuid
  pub session_id : Uuid
  pub intent_id : Uuid
  pub command_id : Uuid
  pub git_revision : Text
  pub payload : Payload

-- The JSON that a command stores for its repetition.
pub data Response : Type 0 where
  start_response : StartResult → Response
  workspace_response : WorkspaceResult → Response
  status_response : StatusResult → Response
  handoff_response : HandoffResult → Response

pub record Completion : Type 0 where
  pub response_status : ℕ
  pub response_body : Response
  pub event_id : Uuid
  pub aggregate_id : Uuid

pub record IdempotencyRecord : Type 0 where
  pub project : Uuid
  pub command_type : Text
  pub idempotency_key : Text
  pub request_hash : ℕ
  pub command_id : Uuid
  -- `none` while the command runs
  pub completion : Option Completion

pub record Db : Type 0 where
  pub projects : List Project
  pub actors : List Actor
  pub agents : List Agent
  pub nodes : List Node
  pub sessions : List Session
  pub knowledge_records : List KnowledgeRecord
  pub intents : List Intent
  pub resources : List ResourceRef
  pub claims : List ScopeClaim
  pub worktrees : List Worktree
  pub handoffs : List Handoff
  pub handoff_records : List HandoffLink
  pub commands : List IdempotencyRecord
  pub events : List Event
  pub outbox : List Uuid
  -- the identifiers below it are in use
  pub next_id : Uuid
