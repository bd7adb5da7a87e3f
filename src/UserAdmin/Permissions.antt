-- ===== src/UserAdmin/Permissions.antt =====
-- Roles of users on projects: SetProjectPermission and RemoveProjectPermission
-- (internal/useradmin/service.go and postgres_repository.go).
use the_pact.Prelude.{
  not, some, List, Result, ok, ◌>>=◌, ◌>>◌, require, or_fail, any_row, rows_where,
}
use the_pact.Text.{Text, trim_space, to_lower}
use the_pact.Identity.{Uuid, Time}
use the_pact.Coordination.Conflicts.{is_open_project}
use the_pact.Accounts.{
  AccountDb, Platform, Principal, ProjectMember, ProjectRole, permission_removed, permission_set,
}
use the_pact.Accounts.Roles.{is_member, parse_project_role}
use the_pact.Accounts.Joins.{is_active_account}
use the_pact.Authn.Invitations.Upsert.{is_seat, upsert_seat}
use the_pact.UserAdmin.{AdminError, User, global_project_role, inactive_user, not_found, validation}
use the_pact.UserAdmin.Rules.{
  authorize_target, get_user, insert_admin_event, manageable_project_target,
}

abbrev pub with_role : ProjectRole → ProjectMember → ProjectMember
with_role role m = record m { role = role }

unfoldable pub set_project_permission_row :
    AccountDb → Time → Principal → Uuid → Uuid → ProjectRole → Result AdminError (User × AccountDb)
unfolding authorize_target upsert_seat get_user any_row
set_project_permission_row db now actor id project role = do
  (target_role, status) ← authorize_target db actor.id id
  require (is_member target_role) global_project_role
  require (is_active_account status) inactive_user
  require (any_row (is_open_project project) db.work.projects) not_found
  let members = upsert_seat (with_role role) project id role db.project_members
  let after =
      insert_admin_event (record db { project_members = members }) actor.id (some id)
        (permission_set project role) now
  user ← get_user after now id
  ok (user, after)

unfoldable pub set_project_permission :
    Platform
    → AccountDb
    → Time
    → Principal
    → Uuid
    → Uuid
    → Text
    → Result AdminError (User × AccountDb)
unfolding manageable_project_target trim_space to_lower parse_project_role
    set_project_permission_row
set_project_permission p db now actor id project raw = do
  target ← manageable_project_target db now actor id
  role ←
      or_fail (parse_project_role (to_lower p.lower (trim_space raw)))
        (validation "role" "must be owner, maintainer, contributor, or viewer")
  set_project_permission_row db now actor target.principal_id project role

-- DELETE … WHERE
unfoldable pub remove_seat : Uuid → Uuid → List ProjectMember → List ProjectMember
unfolding is_seat rows_where
remove_seat project principal members = rows_where (λ m. not (is_seat project principal m)) members

unfoldable pub remove_project_permission_row :
    AccountDb → Time → Principal → Uuid → Uuid → Result AdminError (User × AccountDb)
unfolding authorize_target is_seat remove_seat get_user any_row
remove_project_permission_row db now actor id project = do
  (target_role, status) ← authorize_target db actor.id id
  require (is_member target_role) global_project_role
  require (any_row (is_seat project id) db.project_members) not_found
  let members = remove_seat project id db.project_members
  let after =
      insert_admin_event (record db { project_members = members }) actor.id (some id)
        (permission_removed project) now
  user ← get_user after now id
  ok (user, after)

unfoldable pub remove_project_permission :
    AccountDb → Time → Principal → Uuid → Uuid → Result AdminError (User × AccountDb)
unfolding manageable_project_target remove_project_permission_row
remove_project_permission db now actor id project = do
  target ← manageable_project_target db now actor id
  remove_project_permission_row db now actor target.principal_id project
