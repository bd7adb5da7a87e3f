-- ===== src/UserAdmin/Update.antt =====
-- Changes of users: Service.UpdateUser and RevokeUserSessions (internal/useradmin/service.go) with the
-- repository's UpdateUser and RevokeUserSessions (internal/useradmin/postgres_repository.go).
pub mod ShutOut
pub mod Owners
use mathlib.Core.Option
use the_pact.Prelude.{
  Bool, true, false, ◌&&◌, ◌||◌, not, Option, none, some, Result, ok, require, ltb, ◌==◌,
  if◌then◌else◌, any_row, count_where, update_where, ◌>>=◌, ◌>>◌,
}
use the_pact.Identity.{Uuid, Time}
use the_pact.Database.{Actor, ActorStatus}
use the_pact.Coordination.Conflicts.{has_actor_id}
use the_pact.Accounts.{
  AccountDb, AccountStatus, AdminAction, LocalAccount, OrganizationMember, OrganizationRole,
  Platform, Principal, sessions_revoked, user_disabled, user_reactivated, user_updated,
}
use the_pact.Accounts.Roles.{is_admin, is_member, is_owner}
use the_pact.Accounts.Joins.{
  is_account_of, is_active_account, is_live_actor, is_membership_of, is_some,
}
use the_pact.Authn.Sessions.{is_active_account_of}
use the_pact.Authn.Setup.{clashes}
use the_pact.UserAdmin.{
  AdminError, UpdateUserInput, User, account_exists, forbidden, last_owner, self_management,
  validation,
}
use the_pact.UserAdmin.Rules.{
  authorize_target, get_user, insert_admin_event, manageable_user, revoke_user_access,
}
use the_pact.UserAdmin.Checks.{UpdateRequest, normalize_update}

-- COALESCE($1, column)
abbrev pub or_old : {A : Type 0} → Option A → A → A
or_old none old = old
or_old (some new) old = new

unfoldable pub role_eq : OrganizationRole → OrganizationRole → Bool
role_eq OrganizationRole.owner r = is_owner r
role_eq OrganizationRole.admin r = is_admin r
role_eq OrganizationRole.member r = is_member r

-- A membership of an owner who can work.
unfoldable pub is_active_owner : AccountDb → OrganizationMember → Bool
unfolding is_active_account_of is_live_actor any_row
is_active_owner db m =
    is_owner m.role
    && any_row (is_active_account_of m.principal_id) db.accounts
    && any_row (is_live_actor m.principal_id) db.work.actors

abbrev pub actor_status : AccountStatus → ActorStatus
actor_status AccountStatus.active = ActorStatus.active
actor_status AccountStatus.disabled = ActorStatus.disabled

unfoldable pub updated_actor : UpdateUserInput → Actor → Actor
updated_actor input a = record a {
  display_name = or_old input.display_name a.display_name;
  status = or_old (Option.map actor_status input.status) a.status;
}

-- Whether a given status is active, which clears the failed logins.
abbrev pub activates : Option AccountStatus → Bool
activates none = false
activates (some s) = is_active_account s

unfoldable pub updated_account : UpdateUserInput → LocalAccount → LocalAccount
updated_account input a = record a {
  email = or_old input.email a.email;
  username = or_old input.username a.username;
  status = or_old input.status a.status;
  failed_login_attempts = if activates input.status then 0 else a.failed_login_attempts;
  locked_until = if activates input.status then none else a.locked_until;
}

unfoldable pub updated_member : UpdateUserInput → OrganizationMember → OrganizationMember
updated_member input m = record m { role = or_old input.organization_role m.role }

-- An account of someone else with the new e-mail or the new name.
unfoldable pub clashes_with : Platform → Uuid → UpdateUserInput → LocalAccount → LocalAccount → Bool
unfolding clashes updated_account is_account_of
clashes_with p id input old other =
    is_account_of id old
    && not (is_account_of id other)
    && clashes p.lower (updated_account input old).email (updated_account input old).username other

unfoldable pub is_clash : Platform → AccountDb → Uuid → UpdateUserInput → Bool
unfolding clashes_with any_row
is_clash p db id input =
    any_row (λ old. any_row (clashes_with p id input old) db.accounts) db.accounts

unfoldable pub apply_update : AccountDb → Uuid → UpdateUserInput → AccountDb
unfolding updated_actor updated_account updated_member is_account_of is_membership_of update_where
apply_update db id input = record db {
  work = record db.work {
    actors = update_where (has_actor_id id) (updated_actor input) db.work.actors;
  };
  accounts = update_where (is_account_of id) (updated_account input) db.accounts;
  organization_members =
      update_where (is_membership_of id) (updated_member input) db.organization_members;
}

-- The switch of a status, which the event names.
abbrev pub update_action : AccountStatus → AccountStatus → AdminAction
update_action AccountStatus.active AccountStatus.disabled = user_disabled
update_action AccountStatus.disabled AccountStatus.active = user_reactivated
update_action _ _ = user_updated

abbrev pub disables : AccountStatus → AccountStatus → Bool
disables AccountStatus.active AccountStatus.disabled = true
disables _ _ = false

-- Whether an owner would be one no more.
unfoldable pub gives_up : OrganizationRole → OrganizationRole → AccountStatus → Bool
gives_up old new status = is_owner old && (not (is_owner new) || not (is_active_account status))

-- What the update writes, for a target of the status `old`.
unfoldable pub updated_db :
    AccountDb → Time → Uuid → Uuid → UpdateUserInput → AccountStatus → AccountDb
unfolding apply_update revoke_user_access
updated_db db now actor id input old =
    let next = or_old input.status old in
    let changed = apply_update db id input in
    insert_admin_event (if disables old next then revoke_user_access changed now id else changed)
      actor (some id) (update_action old next) now

unfoldable pub update_user_row :
    Platform
    → AccountDb
    → Time
    → Principal
    → Uuid
    → UpdateUserInput
    → Result AdminError (User × AccountDb)
unfolding authorize_target role_eq gives_up is_active_owner is_clash apply_update revoke_user_access
    get_user count_where
update_user_row p db now actor id input = do
  (role, status) ← authorize_target db actor.id id
  let next_role = or_old input.organization_role role
  let next_status = or_old input.status status
  require
      (not
        (actor.id == id && (not (is_active_account next_status) || not (role_eq next_role role))))
      self_management
  require
      (not (gives_up role next_role next_status)
        || ltb 1 (count_where (is_active_owner db) db.organization_members))
      last_owner
  require (not (is_clash p db id input)) account_exists
  let after = updated_db db now actor.id id input status
  user ← get_user after now id
  ok (user, after)

abbrev pub is_empty_update : UpdateUserInput → Bool
is_empty_update input = not (
    is_some input.status
    || is_some input.organization_role
    || is_some input.display_name
    || is_some input.email
    || is_some input.username)

-- What nobody may do to oneself, and what only an owner may give.
unfoldable pub check_update : Principal → User → UpdateUserInput → Result AdminError (Unit {0})
unfolding role_eq
check_update actor target input = do
  require (not (is_empty_update input))
      (validation "user" "must include at least one editable field")
  require
      (not (
        actor.id == target.principal_id
        && (not (is_active_account (or_old input.status AccountStatus.active))
            || not (
                role_eq (or_old input.organization_role target.organization_role)
                  target.organization_role))))
      self_management
  require
      (is_owner actor.organization_role
        || is_member (or_old input.organization_role OrganizationRole.member))
      forbidden

unfoldable pub update_user :
    Platform
    → AccountDb
    → Time
    → Principal
    → Uuid
    → UpdateRequest
    → Result AdminError (User × AccountDb)
unfolding manageable_user normalize_update check_update update_user_row
update_user p db now actor id request = do
  target ← manageable_user db now actor id
  input ← normalize_update p request
  check_update actor target input
  update_user_row p db now actor target.principal_id input

unfoldable pub revoke_user_sessions :
    AccountDb → Time → Principal → Uuid → Result AdminError (User × AccountDb)
unfolding manageable_user authorize_target revoke_user_access get_user
revoke_user_sessions db now actor id = do
  target ← manageable_user db now actor id
  require (not (actor.id == target.principal_id)) self_management
  (role, status) ← authorize_target db actor.id id
  let after =
      insert_admin_event (revoke_user_access db now id) actor.id (some id) sessions_revoked now
  user ← get_user after now id
  ok (user, after)
