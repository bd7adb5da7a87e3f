-- ===== src/Access/Invitations/Standing.antt =====
-- Nobody gives a role above the own one.
use the_pact.Prelude.{
  ℕ, ◌≤◌, ◌≡◌, refl, true, false, some, ok, ◌>>=◌, Ensures, Ensures-bind, Ensures-or_fail,
  Ensures-require, Ensures-ok, arith,
}
use the_pact.Text.{Text, to_lower, trim_space}
use the_pact.Identity.{Uuid, Time}
use the_pact.Accounts.{
  AccountDb, Invitation, OrganizationRole, Platform, Principal, ProjectGrant, ProjectRole,
}
use the_pact.Accounts.Roles.{administers, is_admin, is_maintainer, organization_rank, role_rank}
use the_pact.Access.{project_role}
use the_pact.Access.Invitations.{
  InvitationInput, InvitationRequest, create_invitation, create_invitation_row, may_invite,
  normalized_input, parse_invited_role, role_or_default, validate_invitation_input,
}

-- An invitation that its author may make.
pub record Standing (actual : ProjectRole) (own : OrganizationRole) (project : Uuid)
    (i : Invitation) : Type 0 where
  pub grant : ProjectGrant
  pub given : i.grant ≡ some grant
  pub of_project : grant.project_id ≡ project
  pub project_rank : role_rank grant.role ≤ role_rank actual
  pub organization_rank : organization_rank i.organization_role ≤ organization_rank own

parse_invited_role-no_admin :
    (s : Text) (r : OrganizationRole) → parse_invited_role s ≡ some r → is_admin r ≡ false
parse_invited_role-no_admin s r h = ground arith

abbrev organization_text : Platform → InvitationRequest → Text
organization_text p r =
    role_or_default (to_lower p.lower (trim_space r.role))
      (to_lower p.lower (trim_space r.organization_role))

normalized_input-no_admin :
    (p : Platform) (r : InvitationRequest)
    → Ensures (λ input. is_admin input.organization_role ≡ false) (normalized_input p r)
unfolding normalized_input validate_invitation_input
normalized_input-no_admin p r = Ensures-require _ _ _ λ email. Ensures-or_fail _ _ _ λ role e.
    Ensures-or_fail _ _ _ λ project_role f.
      Ensures-or_fail _ _ _
        λ lifetime g. Ensures-ok _ (parse_invited_role-no_admin (organization_text p r) role e)

maintainer_no_admin :
    (db : AccountDb) (principal : Principal) (project : Uuid) (actual : ProjectRole)
    → project_role db principal project ≡ ok actual
    → is_maintainer actual ≡ true
    → administers principal.organization_role ≡ false
unfolding project_role ◌>>=◌
maintainer_no_admin db principal project actual h m = ground arith

may_invite_ranks :
    (principal : Principal) (actual : ProjectRole) (input : InvitationInput)
    → (is_maintainer actual ≡ true → administers principal.organization_role ≡ false)
    → is_admin input.organization_role ≡ false
    → may_invite principal actual input ≡ ok tt
    → (role_rank input.role ≤ role_rank actual)
      × (organization_rank input.organization_role ≤ organization_rank principal.organization_role)
unfolding may_invite ◌>>=◌
may_invite_ranks principal actual input no_admin low h = (ground arith, ground arith)

create_row-Standing :
    (p : Platform) (db : AccountDb) (now : Time) (principal : Principal) (project : Uuid)
    (input : InvitationInput) (digest : ℕ) (actual : ProjectRole)
    → (role_rank input.role ≤ role_rank actual)
      × (organization_rank input.organization_role ≤ organization_rank principal.organization_role)
    → Ensures
        (λ r. Standing actual principal.organization_role project r.0)
        (create_invitation_row p db now principal project input digest)
unfolding create_invitation_row
create_row-Standing p db now principal project input digest actual low =
    Ensures-require _ _ _ λ fresh. Ensures-require _ _ _ λ free. Ensures-require _ _ _ λ exists.
      Ensures-ok _ (record {
        grant = record { project_id = project; role = input.role };
        given = refl;
        of_project = refl;
        project_rank = low.0;
        organization_rank = low.1;
      })

-- Standing before the role of the author, whichever it is.
abbrev Stands : AccountDb → Principal → Uuid → Invitation → Type 0
Stands db principal project i =
    (actual : ProjectRole) × (project_role db principal project ≡ ok actual)
    × Standing actual principal.organization_role project i

create_invitation-Stands :
    (p : Platform) (db : AccountDb) (now : Time) (principal : Principal) (project : Uuid)
    (request : InvitationRequest) (encoded : Text)
    → Ensures
        (λ r. Stands db principal project r.0.0)
        (create_invitation p db now principal project request encoded)
unfolding create_invitation
create_invitation-Stands p db now principal project request encoded =
    Ensures-bind _ _ λ input valid. Ensures-bind _ _ λ actual role. Ensures-bind _ _ λ u may.
      Ensures-bind _ _ λ r made. Ensures-ok _ (
        actual,
        role,
        (create_row-Standing p db now principal project input _ actual (
              may_invite_ranks principal actual input
                (maintainer_no_admin db principal project actual role)
                ((normalized_input-no_admin p request).holds input valid) may)).holds
            r made,
      )

-- An invitation that was created is for the project that was asked for, with a role on it that is
-- at most the author's role there, and a role in the organization that is at most the author's.
pub create_invitation_within_rank :
    (p : Platform) (db after : AccountDb) (now : Time) (principal : Principal) (project : Uuid)
    (request : InvitationRequest) (encoded secret : Text) (i : Invitation)
    → create_invitation p db now principal project request encoded ≡ ok ((i, secret), after)
    → (actual : ProjectRole) × (project_role db principal project ≡ ok actual)
      × Standing actual principal.organization_role project i
create_invitation_within_rank p db after now principal project request encoded secret i h =
    (create_invitation-Stands p db now principal project request encoded).holds ((i, secret), after)
      h
