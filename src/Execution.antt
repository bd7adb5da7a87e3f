-- ===== src/Execution.antt =====
-- Commands in the order in which their transactions commit: internal/coordination and
-- internal/agentsession on one database, with the clock between them.
pub mod Safety
use the_pact.Prelude.{ℕ, ◌≤◌, ◌≡◌, Bool, false, ok}
use the_pact.Text.{Text}
use the_pact.Identity.{Uuid, Time}
use the_pact.Coordination.Model.{
  StartInput, StartResult, StatusInput, StatusResult, WorkspaceInput, WorkspaceResult,
}
use the_pact.Coordination.Start.{start}
use the_pact.Coordination.Status.{update_status}
use the_pact.Coordination.Attach.{attach_workspace}
use the_pact.AgentSession.{SessionView, heartbeat, close}
use the_pact.AgentSession.Exclusion.{Current}
use the_pact.Database.{Db}

-- A command that succeeds, or time. Work is started without the override, and a session beats
-- before its claims run out.
pub data Step : Db → Time → Db → Time → Type 0 where
  waits : {db : Db} {now later : Time} → now ≤ later → Step db now db later
  starts :
      {db d : Db} {now : Time} (principal : Uuid) (allow_all : Bool) (project : Uuid) (key : Text)
      (hash : ℕ) (input : StartInput) {result : StartResult}
      → input.allow_overlap ≡ false
      → start db now principal allow_all project key hash input ≡ ok (result, d)
      → Step db now d now
  changes_status :
      {db d : Db} {now : Time} (principal : Uuid) (allow_all : Bool) (intent : Uuid) (key : Text)
      (hash : ℕ) (input : StatusInput) {result : StatusResult}
      → update_status db now principal allow_all intent key hash input ≡ ok (result, d)
      → Step db now d now
  attaches :
      {db d : Db} {now : Time} (principal : Uuid) (allow_all : Bool) (intent : Uuid) (key : Text)
      (hash : ℕ) (input : WorkspaceInput) {result : WorkspaceResult}
      → attach_workspace db now principal allow_all intent key hash input ≡ ok (result, d)
      → Step db now d now
  beats :
      {db d : Db} {now : Time} (principal : Uuid) (allow_all : Bool) (session : Uuid)
      {view : SessionView}
      → Current db now session
      → heartbeat db now principal allow_all session ≡ ok (view, d)
      → Step db now d now
  closes :
      {db d : Db} {now : Time} (principal : Uuid) (allow_all : Bool) (session : Uuid) {u : Unit {0}}
      → close db now principal allow_all session ≡ ok (u, d)
      → Step db now d now

pub data Run : Db → Time → Db → Time → Type 0 where
  done : {db : Db} {now : Time} → Run db now db now
  next :
      {db d e : Db} {now later last : Time}
      → Step db now d later
      → Run d later e last
      → Run db now e last
