-- ===== src/Accounts/Roles.antt =====
-- Ranks of roles, their names, and the stronger of two: projectRoleRank (internal/access/service.go),
-- strongerOrganizationRole and the CASE expressions of upsertMemberships
-- (internal/authn/postgres_repository.go).
use the_pact.Prelude.{
  ℕ, ◌≤◌, ◌≡◌, refl, Bool, true, false, ◌||◌, Option, none, some, if◌then◌else◌, arith,
}
use the_pact.Text.{Text, text, text_eq}
use the_pact.Accounts.{OrganizationRole, ProjectRole}

abbrev pub is_owner : OrganizationRole → Bool
is_owner OrganizationRole.owner = true
is_owner _ = false

abbrev pub is_admin : OrganizationRole → Bool
is_admin OrganizationRole.admin = true
is_admin _ = false

abbrev pub is_member : OrganizationRole → Bool
is_member OrganizationRole.member = true
is_member _ = false

-- An owner or an administrator.
abbrev pub administers : OrganizationRole → Bool
administers r = is_owner r || is_admin r

abbrev pub is_project_owner : ProjectRole → Bool
is_project_owner ProjectRole.owner = true
is_project_owner _ = false

abbrev pub is_maintainer : ProjectRole → Bool
is_maintainer ProjectRole.maintainer = true
is_maintainer _ = false

abbrev pub is_contributor : ProjectRole → Bool
is_contributor ProjectRole.contributor = true
is_contributor _ = false

unfoldable pub project_role_name : ProjectRole → Text
project_role_name ProjectRole.owner = text "owner"
project_role_name ProjectRole.maintainer = text "maintainer"
project_role_name ProjectRole.contributor = text "contributor"
project_role_name ProjectRole.viewer = text "viewer"

-- The role of a text, for texts that validProjectRole admits.
unfoldable pub parse_project_role : Text → Option ProjectRole
unfolding text_eq
parse_project_role s =
    if text_eq s (text "owner")
    then some ProjectRole.owner
    else if text_eq s (text "maintainer")
    then some ProjectRole.maintainer
    else if text_eq s (text "contributor")
    then some ProjectRole.contributor
    else if text_eq s (text "viewer")
    then some ProjectRole.viewer
    else none

unfoldable pub organization_role_name : OrganizationRole → Text
organization_role_name OrganizationRole.owner = text "owner"
organization_role_name OrganizationRole.admin = text "admin"
organization_role_name OrganizationRole.member = text "member"

-- The role of a text, for texts that validOrganizationRole admits.
unfoldable pub parse_organization_role : Text → Option OrganizationRole
unfolding text_eq
parse_organization_role s =
    if text_eq s (text "owner")
    then some OrganizationRole.owner
    else if text_eq s (text "admin")
    then some OrganizationRole.admin
    else if text_eq s (text "member")
    then some OrganizationRole.member
    else none

abbrev pub role_rank : ProjectRole → ℕ
role_rank ProjectRole.owner = 4
role_rank ProjectRole.maintainer = 3
role_rank ProjectRole.contributor = 2
role_rank ProjectRole.viewer = 1

-- projectRoleRank
unfoldable pub project_role_rank : Option ProjectRole → ℕ
project_role_rank (some r) = role_rank r
project_role_rank none = 0

abbrev pub organization_rank : OrganizationRole → ℕ
organization_rank OrganizationRole.owner = 3
organization_rank OrganizationRole.admin = 2
organization_rank OrganizationRole.member = 1

unfoldable pub stronger_organization_role : OrganizationRole → OrganizationRole → OrganizationRole
stronger_organization_role current candidate =
    if is_owner current || is_owner candidate
    then OrganizationRole.owner
    else if is_admin current || is_admin candidate
    then OrganizationRole.admin
    else OrganizationRole.member

unfoldable pub stronger_project_role : ProjectRole → ProjectRole → ProjectRole
stronger_project_role current candidate =
    if is_project_owner current || is_project_owner candidate
    then ProjectRole.owner
    else if is_maintainer current || is_maintainer candidate
    then ProjectRole.maintainer
    else if is_contributor current || is_contributor candidate
    then ProjectRole.contributor
    else ProjectRole.viewer

pub stronger_organization_role_bounds :
    (a b : OrganizationRole)
    → (organization_rank a ≤ organization_rank (stronger_organization_role a b))
      × (organization_rank b ≤ organization_rank (stronger_organization_role a b))
unfolding stronger_organization_role
stronger_organization_role_bounds a b = ground arith

pub stronger_project_role_bounds :
    (a b : ProjectRole)
    → (role_rank a ≤ role_rank (stronger_project_role a b))
      × (role_rank b ≤ role_rank (stronger_project_role a b))
unfolding stronger_project_role
stronger_project_role_bounds a b = ground arith

pub parse-project_role_name : (r : ProjectRole) → parse_project_role (project_role_name r) ≡ some r
unfolding parse_project_role project_role_name
parse-project_role_name ProjectRole.owner = refl
parse-project_role_name ProjectRole.maintainer = refl
parse-project_role_name ProjectRole.contributor = refl
parse-project_role_name ProjectRole.viewer = refl

pub parse-organization_role_name :
    (r : OrganizationRole) → parse_organization_role (organization_role_name r) ≡ some r
unfolding parse_organization_role organization_role_name
parse-organization_role_name OrganizationRole.owner = refl
parse-organization_role_name OrganizationRole.admin = refl
parse-organization_role_name OrganizationRole.member = refl
