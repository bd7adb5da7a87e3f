-- ===== src/UserAdmin.antt =====
-- The administration of an organization's users: internal/useradmin. `Rules` is who may do what to
-- whom, `Checks` reads the requests, `Update`, `Permissions` and `Invitations` are the operations.
pub mod Rules
pub mod Checks
pub mod Update
pub mod Permissions
pub mod Invitations
use the_pact.Prelude.{String, ℕ, Option, List}
use the_pact.Text.{Text}
use the_pact.Identity.{Uuid}
use the_pact.Accounts.{AccountStatus, OrganizationRole, ProjectMember}

pub data AdminError : Type 0 where
  forbidden not_found account_exists invitation_exists last_owner : AdminError
  self_management global_project_role inactive_user : AdminError
  validation : String → String → AdminError
  -- a statement that the database refuses
  unavailable : AdminError

-- A user as the administration shows it, less names of projects and times.
pub record User : Type 0 where
  pub principal_id : Uuid
  pub display_name : Text
  pub email : Text
  pub username : Text
  pub status : AccountStatus
  pub organization_role : OrganizationRole
  pub project_roles : List ProjectMember
  pub active_sessions : ℕ
  pub active_devices : ℕ

-- What is left out stays as it is.
pub record UpdateUserInput : Type 0 where
  pub display_name : Option Text
  pub email : Option Text
  pub username : Option Text
  pub status : Option AccountStatus
  pub organization_role : Option OrganizationRole
