-- ===== src/UserAdmin/Checks.antt =====
-- Requests of the administration, read into values: normalizeUpdate and normalizeInvitation
-- (internal/useradmin/service.go).
use the_pact.Prelude.{
  ℕ, ◌&&◌, ◌||◌, not, Option, none, some, [], Result, ok, ◌>>=◌, ◌>>◌, require, or_fail, leb,
  if◌then◌else◌, length,
}
use the_pact.Text.{Text, text, text_eq, trim_space, to_lower}
use the_pact.Identity.{Uuid}
use the_pact.Coordination.Service.{ℤ}
use the_pact.Accounts.{AccountStatus, OrganizationRole, Platform, ProjectGrant}
use the_pact.Accounts.Roles.{is_member, parse_organization_role, parse_project_role}
use the_pact.Accounts.Joins.{is_some}
use the_pact.Authn.Checks.{is_address, is_username}
use the_pact.Access.Invitations.{invitation_lifetime}
use the_pact.UserAdmin.{AdminError, UpdateUserInput, validation}

pub record UpdateRequest : Type 0 where
  pub display_name : Option Text
  pub email : Option Text
  pub username : Option Text
  pub status : Option Text
  pub organization_role : Option Text

-- The check of a field that may be left out.
abbrev pub each_given :
    {A : Type 0} → (Text → Result AdminError A) → Option Text → Result AdminError (Option A)
each_given check none = ok none
each_given check (some s) = check s >>= λ a. ok (some a)

unfoldable pub checked_name : Text → Result AdminError Text
unfolding trim_space text_eq
checked_name s = do
  let value = trim_space s
  require (not (text_eq value []) && leb (length value) 200)
      (validation "display_name" "must contain 1 to 200 characters")
  ok value

unfoldable pub checked_email : Platform → Text → Result AdminError Text
unfolding trim_space to_lower is_address
checked_email p s = do
  let value = to_lower p.lower (trim_space s)
  require (is_address p value) (validation "email" "must be a valid email address")
  ok value

unfoldable pub checked_username : Platform → Text → Result AdminError Text
unfolding trim_space to_lower is_username
checked_username p s = do
  let value = to_lower p.lower (trim_space s)
  require (is_username value) (
      validation "username"
        "must contain 3 to 32 lowercase letters, numbers, dots, underscores, or hyphens")
  ok value

abbrev pub parse_account_status : Text → Option AccountStatus
parse_account_status s =
    if text_eq s (text "active")
    then some AccountStatus.active
    else if text_eq s (text "disabled")
    then some AccountStatus.disabled
    else none

unfoldable pub normalize_update : Platform → UpdateRequest → Result AdminError UpdateUserInput
unfolding checked_name checked_email checked_username trim_space to_lower text_eq
    parse_organization_role
normalize_update p r = do
  name ← each_given checked_name r.display_name
  email ← each_given (checked_email p) r.email
  username ← each_given (checked_username p) r.username
  status ←
      each_given
        (λ s.
          or_fail (parse_account_status (to_lower p.lower (trim_space s)))
            (validation "status" "must be active or disabled"))
        r.status
  role ←
      each_given
        (λ s.
          or_fail (parse_organization_role (to_lower p.lower (trim_space s)))
            (validation "organization_role" "must be owner, admin, or member"))
        r.organization_role
  ok (record {
    display_name = name;
    email = email;
    username = username;
    status = status;
    organization_role = role;
  })

-- The identifier of the project is none when the text is empty.
pub record InvitationRequest : Type 0 where
  pub email : Text
  pub organization_role : Text
  pub project_id : Option Uuid
  pub project_role : Text
  pub expires_after : ℤ

pub record InvitationInput : Type 0 where
  pub email : Text
  pub organization_role : OrganizationRole
  pub grant : Option ProjectGrant
  pub lifetime : ℕ

-- The project and the role, of which both or none are given.
unfoldable pub checked_grant : Option Uuid → Text → Result AdminError (Option ProjectGrant)
unfolding text_eq parse_project_role
checked_grant none role = do
  require (text_eq role [])
      (validation "project" "project_id and project_role must be provided together")
  ok none
checked_grant (some project) role = do
  require (not (text_eq role []))
      (validation "project" "project_id and project_role must be provided together")
  r ←
      or_fail (parse_project_role role)
        (validation "project_role" "must be owner, maintainer, contributor, or viewer")
  ok (some (record { project_id = project; role = r }))

unfoldable pub normalize_invitation :
    Platform → InvitationRequest → Result AdminError InvitationInput
unfolding trim_space to_lower is_address parse_organization_role checked_grant invitation_lifetime
normalize_invitation p r = do
  let email = to_lower p.lower (trim_space r.email)
  require (is_address p email) (validation "email" "must be a valid email address")
  role ←
      or_fail (parse_organization_role (to_lower p.lower (trim_space r.organization_role)))
        (validation "organization_role" "must be owner, admin, or member")
  grant ← checked_grant r.project_id (to_lower p.lower (trim_space r.project_role))
  require (is_member role || not (is_some grant)) (
      validation "project_id"
        "must be empty because owners and administrators already have global project access")
  lifetime ←
      or_fail (invitation_lifetime r.expires_after)
        (validation "expires_in_hours" "must be between 1 hour and 7 days")
  ok (record { email = email; organization_role = role; grant = grant; lifetime = lifetime })
