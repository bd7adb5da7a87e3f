-- ===== src/Accounts.antt =====
-- The accounts of an organization: the tables of schema identity that internal/access,
-- internal/authn and internal/useradmin read and write, beside those of the coordination. Times
-- of creation and change that only listings show are left out.
pub mod Roles
pub mod Joins
use the_pact.Prelude.{ℕ, ◌+◌, Bool, Option, List}
use the_pact.Text.{Text}
use the_pact.Identity.{Uuid, Time}
use the_pact.Database.{Db}

pub data OrganizationRole : Type 0 where
  owner admin member : OrganizationRole

pub data ProjectRole : Type 0 where
  owner maintainer contributor viewer : ProjectRole

-- Who asks, as the middleware read it from the tables.
pub record Principal : Type 0 where
  pub id : Uuid
  pub organization_id : Uuid
  pub display_name : Text
  pub principal_type : Text
  pub organization_role : OrganizationRole

-- A row of principals.
pub record PrincipalRow : Type 0 where
  pub id : Uuid
  pub principal_type : Text
  pub external_issuer : Text
  pub external_subject : Text

pub data AccountStatus : Type 0 where
  active disabled : AccountStatus

pub record LocalAccount : Type 0 where
  pub principal_id : Uuid
  pub email : Text
  pub username : Text
  pub password_hash : Text
  pub status : AccountStatus
  pub failed_login_attempts : ℕ
  pub locked_until : Option Time

pub record OrganizationMember : Type 0 where
  pub principal_id : Uuid
  pub role : OrganizationRole

pub record ProjectMember : Type 0 where
  pub project_id : Uuid
  pub principal_id : Uuid
  pub role : ProjectRole

pub record Workspace : Type 0 where
  pub id : Uuid
  pub archived : Bool

pub record WorkspaceMember : Type 0 where
  pub workspace_id : Uuid
  pub principal_id : Uuid
  pub role : ProjectRole

pub data InvitationStatus : Type 0 where
  pending accepted expired revoked : InvitationStatus

-- What an invitation gives of one project.
pub record ProjectGrant : Type 0 where
  pub project_id : Uuid
  pub role : ProjectRole

pub record Invitation : Type 0 where
  pub id : Uuid
  pub grant : Option ProjectGrant
  pub email : Text
  pub organization_role : OrganizationRole
  pub token_digest : ℕ
  pub status : InvitationStatus
  pub expires_at : Time
  pub created_by : Uuid
  pub accepted_by : Option Uuid
  pub accepted_at : Option Time
  pub revoked_at : Option Time

pub data CredentialStatus : Type 0 where
  active revoked : CredentialStatus

pub record WebSession : Type 0 where
  pub id : Uuid
  pub principal_id : Uuid
  pub session_digest : ℕ
  pub csrf_digest : ℕ
  pub user_agent : Text
  pub remote_address : Text
  pub status : CredentialStatus
  pub expires_at : Time
  pub last_used_at : Option Time
  pub revoked_at : Option Time

pub data AuthorizationStatus : Type 0 where
  pending approved denied consumed expired : AuthorizationStatus

pub record DeviceAuthorization : Type 0 where
  pub id : Uuid
  pub device_name : Text
  pub device_code_digest : ℕ
  pub user_code_digest : ℕ
  pub status : AuthorizationStatus
  pub principal_id : Option Uuid
  pub expires_at : Time
  pub approved_at : Option Time
  pub consumed_at : Option Time

pub record DeviceCredential : Type 0 where
  pub id : Uuid
  pub principal_id : Uuid
  pub name : Text
  pub credential_digest : ℕ
  pub status : CredentialStatus
  pub expires_at : Time
  pub last_used_at : Option Time
  pub revoked_at : Option Time

-- What user_admin_events says of an action, less the names that it copies.
pub data AdminAction : Type 0 where
  user_updated user_disabled user_reactivated sessions_revoked : AdminAction
  permission_set : Uuid → ProjectRole → AdminAction
  permission_removed : Uuid → AdminAction
  invitation_created invitation_revoked : Uuid → AdminAction

pub record AdminEvent : Type 0 where
  pub actor : Uuid
  pub target : Option Uuid
  pub action : AdminAction
  pub created_at : Time

pub record AccountDb : Type 0 where
  pub organization_id : Uuid
  -- projects, actors, agents and their sessions; the next identifier
  pub work : Db
  pub workspaces : List Workspace
  pub workspace_members : List WorkspaceMember
  pub principals : List PrincipalRow
  pub accounts : List LocalAccount
  pub organization_members : List OrganizationMember
  pub project_members : List ProjectMember
  pub invitations : List Invitation
  pub web_sessions : List WebSession
  pub device_authorizations : List DeviceAuthorization
  pub device_credentials : List DeviceCredential
  pub admin_events : List AdminEvent

-- What the service calls of other packages: the case table of Unicode and the folding of cases
-- from 128 on, mail.ParseAddress (the address of a text that parses), SHA-256, and the
-- Argon2 hash of a password with a salt and its test.
pub record Platform : Type 0 where
  pub lower : ℕ → ℕ
  pub upper : ℕ → ℕ
  pub fold : ℕ → ℕ
  pub parse_address : Text → Option Text
  pub sha256 : Text → ℕ
  pub hash_password : Text → Text → Text
  pub verify_password : Text → Text → Bool

-- DEFAULT uuidv7(): the identifier of the next row.
abbrev pub next_id : AccountDb → Uuid
next_id db = db.work.next_id

abbrev pub count_id : Db → Db
count_id work = record work { next_id = work.next_id + 1 }
