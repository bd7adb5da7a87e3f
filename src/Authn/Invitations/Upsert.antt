-- ===== src/Authn/Invitations/Upsert.antt =====
-- upsertMemberships (internal/authn/postgres_repository.go): a role is never weakened.
pub mod Laws
use the_pact.Prelude.{
  Bool, ◌&&◌, Option, none, some, List, ◌==◌, if◌then◌else◌, any_row, update_where, insert,
}
use the_pact.Identity.{Uuid}
use the_pact.Accounts.{
  AccountDb, OrganizationMember, OrganizationRole, ProjectGrant, ProjectMember, ProjectRole,
}
use the_pact.Accounts.Roles.{stronger_organization_role, stronger_project_role}
use the_pact.Accounts.Joins.{is_membership_of}

unfoldable pub raised : OrganizationRole → OrganizationMember → OrganizationMember
unfolding stronger_organization_role
raised role m = record m { role = stronger_organization_role m.role role }

unfoldable pub upsert_organization_member :
    Uuid → OrganizationRole → List OrganizationMember → List OrganizationMember
unfolding is_membership_of raised any_row update_where
upsert_organization_member principal role members =
    if any_row (is_membership_of principal) members
    then update_where (is_membership_of principal) (raised role) members
    else insert (record { principal_id = principal; role = role }) members

unfoldable pub is_seat : Uuid → Uuid → ProjectMember → Bool
is_seat project principal m = m.project_id == project && m.principal_id == principal

unfoldable pub raised_seat : ProjectRole → ProjectMember → ProjectMember
unfolding stronger_project_role
raised_seat role m = record m { role = stronger_project_role m.role role }

-- INSERT … ON CONFLICT DO UPDATE
unfoldable pub upsert_seat :
    (ProjectMember → ProjectMember)
    → Uuid
    → Uuid
    → ProjectRole
    → List ProjectMember
    → List ProjectMember
unfolding is_seat any_row update_where
upsert_seat change project principal role members =
    if any_row (is_seat project principal) members
    then update_where (is_seat project principal) change members
    else insert (record { project_id = project; principal_id = principal; role = role }) members

unfoldable pub upsert_project_member :
    Uuid → Option ProjectGrant → List ProjectMember → List ProjectMember
unfolding upsert_seat raised_seat
upsert_project_member principal none members = members
upsert_project_member principal (some g) members =
    upsert_seat (raised_seat g.role) g.project_id principal g.role members

unfoldable pub upsert_memberships :
    AccountDb → Uuid → OrganizationRole → Option ProjectGrant → AccountDb
unfolding upsert_organization_member upsert_project_member
upsert_memberships db principal role grant = record db {
  organization_members = upsert_organization_member principal role db.organization_members;
  project_members = upsert_project_member principal grant db.project_members;
}
