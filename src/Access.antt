-- ===== src/Access.antt =====
-- Roles on projects and workspaces: internal/access. `Invitations` is how an invitation is made and
-- revoked there. The rosters of GetProjectAccess and GetWorkspaceAccess are listings.
pub mod Invitations
pub mod Candidates
pub mod Greatest
use mathlib.Core.Option
use the_pact.Prelude.{
  String, Bool, false, ◌&&◌, not, Option, none, some, List, [], ◌∷◌, ◌++◌, map, Result, ok, ◌>>=◌,
  ◌>>◌, require, or_fail, ltb, leb, ◌==◌, if◌then◌else◌, find, any_row, rows_where,
}
use the_pact.Identity.{Uuid}
use the_pact.Coordination.Conflicts.{is_open_project}
use the_pact.Database.{Project}
use the_pact.Accounts.{AccountDb, Principal, ProjectMember, ProjectRole, Workspace, WorkspaceMember}
use the_pact.Accounts.Roles.{administers, project_role_rank, role_rank}
use the_pact.Authn.Invitations.Upsert.{is_seat, upsert_seat}

pub data AccessError : Type 0 where
  forbidden invitation_exists not_found : AccessError
  validation : String → String → AccessError
  -- a statement that the database refuses
  unavailable : AccessError

-- A membership of a project that is not archived.
unfoldable pub is_open_seat : AccountDb → Uuid → Uuid → ProjectMember → Bool
unfolding is_seat any_row
is_open_seat db project principal m =
    is_seat project principal m && any_row (is_open_project project) db.work.projects

unfoldable pub member_role : AccountDb → Uuid → Uuid → Result AccessError ProjectRole
unfolding is_open_seat find
member_role db principal project = do
  m ← or_fail (find (is_open_seat db project principal) db.project_members) forbidden
  ok m.role

unfoldable pub project_role : AccountDb → Principal → Uuid → Result AccessError ProjectRole
unfolding member_role
project_role db principal project = do
  require (principal.organization_id == db.organization_id) forbidden
  if administers principal.organization_role
      then ok ProjectRole.owner
      else member_role db principal.id project

-- A role at least as high as `minimum`, which the handlers write as a constant.
abbrev pub at_least : ProjectRole → ProjectRole → Result AccessError (Unit {0})
at_least minimum actual =
    require (leb (project_role_rank (some minimum)) (project_role_rank (some actual))) forbidden

unfoldable pub require_project_role :
    AccountDb → Principal → Uuid → ProjectRole → Result AccessError (Unit {0})
unfolding project_role project_role_rank
require_project_role db principal project minimum =
    project_role db principal project >>= at_least minimum

abbrev pub is_open_workspace : Uuid → Workspace → Bool
is_open_workspace id w = w.id == id && not w.archived

unfoldable pub is_workspace_seat : Uuid → Uuid → WorkspaceMember → Bool
is_workspace_seat workspace principal m = m.workspace_id == workspace && m.principal_id == principal

abbrev pub lies_in : Uuid → Project → Bool
lies_in workspace p = elim p.workspace_id [ none ↦ false | some w ↦ w == workspace ]

abbrev pub is_project_of : Uuid → Uuid → Project → Bool
is_project_of workspace project p = p.id == project && lies_in workspace p

-- A membership of a project of the workspace.
unfoldable pub is_inner_seat : AccountDb → Uuid → Uuid → ProjectMember → Bool
unfolding any_row
is_inner_seat db workspace principal m =
    m.principal_id == principal && any_row (is_project_of workspace m.project_id) db.work.projects

-- The roles that count for a workspace: direct ones, and those of its projects.
unfoldable pub candidate_roles : AccountDb → Uuid → Uuid → List ProjectRole
unfolding is_workspace_seat is_inner_seat rows_where any_row
candidate_roles db principal workspace =
    if any_row (is_open_workspace workspace) db.workspaces
    then map (λ m. m.role) (rows_where (is_workspace_seat workspace principal) db.workspace_members)
      ++ map (λ m. m.role) (rows_where (is_inner_seat db workspace principal) db.project_members)
    else []

abbrev pub higher : ProjectRole → Option ProjectRole → ProjectRole
higher r none = r
higher r (some s) = if ltb (role_rank r) (role_rank s) then s else r

-- ORDER BY rank DESC LIMIT 1
unfoldable pub highest : List ProjectRole → Option ProjectRole
highest [] = none
highest (r ∷ rest) = some (higher r (highest rest))

unfoldable pub workspace_role : AccountDb → Principal → Uuid → Result AccessError ProjectRole
unfolding candidate_roles highest
workspace_role db principal workspace = do
  require (principal.organization_id == db.organization_id) forbidden
  if administers principal.organization_role
      then ok ProjectRole.owner
      else or_fail (highest (candidate_roles db principal.id workspace)) forbidden

unfoldable pub require_workspace_role :
    AccountDb → Principal → Uuid → ProjectRole → Result AccessError (Unit {0})
unfolding workspace_role project_role_rank
require_workspace_role db principal workspace minimum =
    workspace_role db principal workspace >>= at_least minimum

-- `none` stands for every project.
unfoldable pub visible_project_ids : AccountDb → Principal → Option (List Uuid)
unfolding rows_where
visible_project_ids db principal =
    if administers principal.organization_role
    then none
    else some (
        map (λ m. m.project_id)
          (rows_where (λ m. m.principal_id == principal.id) db.project_members))

unfoldable pub can_create_project : AccountDb → Principal → Bool
can_create_project db principal =
    principal.organization_id == db.organization_id && administers principal.organization_role

abbrev pub as_owner : ProjectMember → ProjectMember
as_owner m = record m { role = ProjectRole.owner }

unfoldable pub grant_project_owner : AccountDb → Uuid → Uuid → AccountDb
unfolding upsert_seat
grant_project_owner db project principal = record db {
  project_members = upsert_seat as_owner project principal ProjectRole.owner db.project_members;
}
