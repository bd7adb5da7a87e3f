-- ===== src/Access/Invitations.antt =====
-- Invitations of a project: Service.CreateInvitation, RevokeInvitation, normalizeEmail and
-- validateInvitationInput (internal/access/service.go), CreateInvitation and RevokeInvitation
-- (internal/access/postgres_repository.go).
pub mod Standing
pub mod Blocked
use mathlib.Core.Option
use Prim.Native.Nat.{◌/◌}
use the_pact.Prelude.{
  ℕ, ◌+◌, ◌*◌, Bool, false, ◌&&◌, ◌||◌, not, Option, none, some, [], Result, ok, require, or_fail,
  leb, ◌==◌, if◌then◌else◌, any_row, update_where, insert, ◌>>=◌, ◌>>◌,
}
use the_pact.Text.{Text, text, text_eq, trim_space, to_lower, byte_len}
use the_pact.Identity.{Uuid, Time, seconds}
use the_pact.Coordination.Commands.{is_project}
use the_pact.Coordination.Service.{ℤ, pos, negsuc}
use the_pact.Accounts.{
  AccountDb, Invitation, InvitationStatus, OrganizationRole, Platform, Principal, ProjectGrant,
  ProjectMember, ProjectRole, count_id, next_id,
}
use the_pact.Accounts.Roles.{
  administers, is_maintainer, is_owner, is_project_owner, parse_project_role,
}
use the_pact.Authn.Checks.{new_secret}
use the_pact.Authn.Invitations.{is_pending}
use the_pact.Access.{
  AccessError, forbidden, invitation_exists, not_found, project_role, unavailable, validation,
}

-- Durations are in nanoseconds.
pub record InvitationRequest : Type 0 where
  pub email : Text
  pub role : Text
  pub organization_role : Text
  pub expires_after : ℤ

-- A request that passed the checks.
pub record InvitationInput : Type 0 where
  pub email : Text
  pub role : ProjectRole
  pub organization_role : OrganizationRole
  pub lifetime : ℕ

abbrev pub hours : ℕ → ℕ
hours n = n * 3600000000000

-- 1 hour to 7 days; nothing stands for 24 hours
unfoldable pub invitation_lifetime : ℤ → Option ℕ
invitation_lifetime (negsuc n) = none
invitation_lifetime (pos n) =
    if n == 0
    then some (hours 24)
    else if leb (hours 1) n && leb n (hours 168)
    then some n
    else none

unfoldable pub normalize_email : Platform → Text → Text
unfolding trim_space to_lower
normalize_email p raw = elim (p.parse_address (trim_space raw)) [
  | none ↦ []
  | some address ↦ to_lower p.lower address
]

abbrev pub parse_invited_role : Text → Option OrganizationRole
parse_invited_role s =
    if text_eq s (text "owner")
    then some OrganizationRole.owner
    else if text_eq s (text "member")
    then some OrganizationRole.member
    else none

-- An empty organization role follows the role.
abbrev pub role_or_default : Text → Text → Text
role_or_default role organization =
    if text_eq organization []
    then (if text_eq role (text "owner") then text "owner" else text "member")
    else organization

-- validateInvitationInput, of the texts in lower case
unfoldable pub validate_invitation_input :
    Text → Text → Text → ℤ → Result AccessError InvitationInput
unfolding text_eq byte_len parse_project_role invitation_lifetime
validate_invitation_input email role organization expires_after = do
  require (not (text_eq email []) && leb (byte_len email) 320)
      (validation "email" "must be a valid email address")
  organization_role ←
      or_fail (parse_invited_role organization)
        (validation "organization_role" "must be owner or member")
  project_role ←
      or_fail (parse_project_role role)
        (validation "role" "must be owner, maintainer, contributor, or viewer")
  lifetime ←
      or_fail (invitation_lifetime expires_after)
        (validation "expires_after" "must be between 1 hour and 7 days")
  ok (record {
    email = email;
    role = project_role;
    organization_role = organization_role;
    lifetime = lifetime;
  })

unfoldable pub normalized_input : Platform → InvitationRequest → Result AccessError InvitationInput
unfolding normalize_email validate_invitation_input
normalized_input p r =
    let role = to_lower p.lower (trim_space r.role) in
    let organization = to_lower p.lower (trim_space r.organization_role) in
    validate_invitation_input (normalize_email p r.email) role (role_or_default role organization)
      r.expires_after

-- Who may give which roles.
unfoldable pub may_invite :
    Principal → ProjectRole → InvitationInput → Result AccessError (Unit {0})
may_invite principal actual input = do
  require (is_project_owner actual || is_maintainer actual) forbidden
  require (not (is_project_owner input.role && not (administers principal.organization_role)))
      forbidden
  require (not (is_owner input.organization_role && not (is_owner principal.organization_role)))
      forbidden
  require (not (is_maintainer actual && is_maintainer input.role)) forbidden

abbrev pub is_grant_of : Uuid → Option ProjectGrant → Bool
is_grant_of project none = false
is_grant_of project (some g) = g.project_id == project

unfoldable pub same_email : (ℕ → ℕ) → Text → Invitation → Bool
unfolding text_eq to_lower
same_email lower email i = text_eq (to_lower lower i.email) (to_lower lower email)

-- invitations_pending_email_uq: one invitation waits for an e-mail.
unfoldable pub is_waiting : (ℕ → ℕ) → Text → Invitation → Bool
unfolding same_email
is_waiting lower email i = same_email lower email i && is_pending i.status

-- A waiting invitation of the project whose time is over.
unfoldable pub is_stale : (ℕ → ℕ) → Time → Uuid → Text → Invitation → Bool
unfolding is_waiting
is_stale lower now project email i =
    is_grant_of project i.grant && is_waiting lower email i && leb i.expires_at now

unfoldable pub expired_invitation : Invitation → Invitation
expired_invitation i = record i { status = InvitationStatus.expired }

unfoldable pub has_token : ℕ → Invitation → Bool
has_token digest i = i.token_digest == digest

abbrev pub new_invitation :
    Uuid → Option ProjectGrant → Text → OrganizationRole → ℕ → Time → Uuid → Invitation
new_invitation id grant email role digest expires creator = record {
  id = id;
  grant = grant;
  email = email;
  organization_role = role;
  token_digest = digest;
  status = InvitationStatus.pending;
  expires_at = expires;
  created_by = creator;
  accepted_by = none;
  accepted_at = none;
  revoked_at = none;
}

unfoldable pub create_invitation_row :
    Platform
    → AccountDb
    → Time
    → Principal
    → Uuid
    → InvitationInput
    → ℕ
    → Result AccessError (Invitation × AccountDb)
unfolding is_stale is_waiting expired_invitation has_token any_row update_where
create_invitation_row p db now principal project input digest = do
  let invitations =
      update_where (is_stale p.lower now project input.email) expired_invitation db.invitations
  require (not (any_row (has_token digest) invitations)) unavailable
  require (not (any_row (is_waiting p.lower input.email) invitations)) invitation_exists
  require (any_row (is_project project) db.work.projects) unavailable
  let i =
      new_invitation (next_id db) (some (record { project_id = project; role = input.role }))
        input.email input.organization_role digest (now + seconds (input.lifetime / 1000000000))
        principal.id
  ok (i, record db { invitations = insert i invitations; work = count_id db.work })

-- The invitation with the secret that its holder shows; `encoded` is the random part.
unfoldable pub create_invitation :
    Platform
    → AccountDb
    → Time
    → Principal
    → Uuid
    → InvitationRequest
    → Text
    → Result AccessError ((Invitation × Text) × AccountDb)
unfolding normalized_input project_role may_invite create_invitation_row
create_invitation p db now principal project request encoded = do
  input ← normalized_input p request
  actual ← project_role db principal project
  may_invite principal actual input
  let secret = new_secret (text "pact_inv_") encoded
  (i, after) ← create_invitation_row p db now principal project input (p.sha256 secret)
  ok ((i, secret), after)

-- A membership that may revoke invitations of its project.
unfoldable pub runs_project : Uuid → Option ProjectGrant → ProjectMember → Bool
runs_project principal grant m =
    is_grant_of m.project_id grant
    && m.principal_id == principal
    && (is_project_owner m.role || is_maintainer m.role)

unfoldable pub may_revoke : AccountDb → Principal → Uuid → Invitation → Bool
unfolding runs_project any_row
may_revoke db principal id i =
    i.id == id
    && is_pending i.status
    && (administers principal.organization_role
        || any_row (runs_project principal.id i.grant) db.project_members)

unfoldable pub revoked_invitation : Time → Invitation → Invitation
revoked_invitation now i = record i { status = InvitationStatus.revoked; revoked_at = some now }

unfoldable pub revoke_invitation :
    AccountDb → Time → Principal → Uuid → Result AccessError (Unit {0} × AccountDb)
unfolding may_revoke revoked_invitation any_row update_where
revoke_invitation db now principal id = do
  require (any_row (may_revoke db principal id) db.invitations) not_found
  ok (
    tt,
    record db {
      invitations =
          update_where (may_revoke db principal id) (revoked_invitation now) db.invitations;
    },
  )
