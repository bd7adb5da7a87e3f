-- ===== src/UserAdmin/Rules.antt =====
-- Who may administer whom: requireAdministrator, canManageTarget and manageableProjectTarget
-- (internal/useradmin/service.go), GetUser, authorizeAdministrator, authorizeTarget, revokeUserAccess
-- and insertEvent (internal/useradmin/postgres_repository.go).
pub mod Laws
use mathlib.Core.Option
use the_pact.Prelude.{
  Bool, ◌&&◌, ◌||◌, not, Option, some, Result, ok, require, or_fail, ltb, leb, ◌==◌, if◌then◌else◌,
  find, any_row, count_where, rows_where, update_where, insert, ◌>>=◌, ◌>>◌,
}
use the_pact.Identity.{Uuid, Time}
use the_pact.Database.{Agent, Session, SessionStatus}
use the_pact.Coordination.Conflicts.{is_open_project, has_actor_id}
use the_pact.AgentSession.{is_open_session}
use the_pact.Accounts.{
  AccountDb, AccountStatus, AdminAction, DeviceCredential, OrganizationRole, Principal,
  ProjectMember, WebSession,
}
use the_pact.Accounts.Roles.{administers, is_member, is_owner}
use the_pact.Accounts.Joins.{has_principal_id, is_account_of, is_active_account, is_membership_of}
use the_pact.Authn.Sessions.{is_active_credential, revoked_session}
use the_pact.Authn.Passwords.{is_device_of, revoked_device}
use the_pact.UserAdmin.{AdminError, User, forbidden, global_project_role, inactive_user, not_found}

unfoldable pub is_live_session : Time → Uuid → WebSession → Bool
is_live_session now id s =
    s.principal_id == id && is_active_credential s.status && ltb now s.expires_at

unfoldable pub is_live_device : Time → Uuid → DeviceCredential → Bool
is_live_device now id d =
    d.principal_id == id && is_active_credential d.status && ltb now d.expires_at

abbrev pub is_shown_seat : AccountDb → Uuid → ProjectMember → Bool
is_shown_seat db id m =
    m.principal_id == id && any_row (is_open_project m.project_id) db.work.projects

-- The row of listUsers for one principal.
unfoldable pub get_user : AccountDb → Time → Uuid → Result AdminError User
unfolding is_account_of has_principal_id is_membership_of is_live_session is_live_device find
    any_row count_where rows_where
get_user db now id = do
  account ← or_fail (find (is_account_of id) db.accounts) not_found
  principal ← or_fail (find (has_principal_id id) db.principals) not_found
  actor ← or_fail (find (has_actor_id id) db.work.actors) not_found
  m ← or_fail (find (is_membership_of id) db.organization_members) not_found
  ok (record {
    principal_id = principal.id;
    display_name = actor.display_name;
    email = account.email;
    username = account.username;
    status = account.status;
    organization_role = m.role;
    project_roles = rows_where (is_shown_seat db id) db.project_members;
    active_sessions = count_where (is_live_session now id) db.web_sessions;
    active_devices = count_where (is_live_device now id) db.device_credentials;
  })

unfoldable pub require_administrator : AccountDb → Principal → Result AdminError (Unit {0})
require_administrator db actor =
    require (actor.organization_id == db.organization_id && administers actor.organization_role)
      forbidden

unfoldable pub can_manage_target : Principal → User → Result AdminError (Unit {0})
can_manage_target actor target =
    require
      (is_owner actor.organization_role
        || (administers actor.organization_role && is_member target.organization_role))
      forbidden

-- A user whom the actor may manage.
unfoldable pub manageable_user : AccountDb → Time → Principal → Uuid → Result AdminError User
unfolding require_administrator get_user can_manage_target
manageable_user db now actor id = do
  require_administrator db actor
  target ← get_user db now id
  can_manage_target actor target
  ok target

unfoldable pub manageable_project_target :
    AccountDb → Time → Principal → Uuid → Result AdminError User
unfolding manageable_user
manageable_project_target db now actor id = do
  target ← manageable_user db now actor id
  require (not (administers target.organization_role)) global_project_role
  require (is_active_account target.status) inactive_user
  ok target

-- organization_memberships ⋈ local_accounts
abbrev pub Standing : Type 0
Standing = OrganizationRole × AccountStatus

unfoldable pub standing : AccountDb → Uuid → Option Standing
unfolding is_membership_of is_account_of find Option.bind
standing db id =
    Option.bind (find (is_membership_of id) db.organization_members)
      λ m. Option.map (λ a. (m.role, a.status)) (find (is_account_of id) db.accounts)

unfoldable pub authorize_administrator : AccountDb → Uuid → Result AdminError OrganizationRole
unfolding standing
authorize_administrator db actor = do
  (role, status) ← or_fail (standing db actor) forbidden
  require (is_active_account status && administers role) forbidden
  ok role

unfoldable pub authorize_target : AccountDb → Uuid → Uuid → Result AdminError Standing
unfolding authorize_administrator
authorize_target db actor target = do
  actor_role ← authorize_administrator db actor
  (role, status) ← or_fail (standing db target) not_found
  require (is_owner actor_role || is_member role) forbidden
  ok (role, status)

unfoldable pub is_session_of : Uuid → WebSession → Bool
is_session_of id s = s.principal_id == id && is_active_credential s.status

abbrev pub is_agent_of : Uuid → Uuid → Agent → Bool
is_agent_of principal actor a = a.id == actor && a.sponsor_principal_id == principal

-- An open session of an agent that the principal sponsors.
unfoldable pub is_sponsored_session : AccountDb → Uuid → Session → Bool
unfolding any_row
is_sponsored_session db principal s =
    any_row (is_agent_of principal s.actor_id) db.work.agents && is_open_session s.status

abbrev pub least : Time → Time → Time
least a b = if leb a b then a else b

abbrev pub greatest : Time → Time → Time
greatest a b = if leb a b then b else a

unfoldable pub ended_session : Time → Session → Session
ended_session now s = record s {
  status = SessionStatus.closed;
  ended_at = some now;
  last_seen_at = least s.expires_at (greatest s.started_at now);
}

unfoldable pub revoke_user_access : AccountDb → Time → Uuid → AccountDb
unfolding is_session_of revoked_session is_device_of revoked_device is_sponsored_session
    ended_session update_where
revoke_user_access db now id = record db {
  web_sessions = update_where (is_session_of id) (revoked_session now) db.web_sessions;
  device_credentials = update_where (is_device_of id) (revoked_device now) db.device_credentials;
  work = record db.work {
    sessions = update_where (is_sponsored_session db id) (ended_session now) db.work.sessions;
  };
}

abbrev pub insert_admin_event : AccountDb → Uuid → Option Uuid → AdminAction → Time → AccountDb
insert_admin_event db actor target action now = record db {
  admin_events =
      insert (record { actor = actor; target = target; action = action; created_at = now })
        db.admin_events;
}
