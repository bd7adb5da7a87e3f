-- ===== src/Tests/Accounts.antt =====
-- Passwords, devices, invitations and the administration of users at the company.
use the_pact.Prelude.{
  ◌∷◌, false, ◌⊎◌, ◌≡◌, ◌≢◌, refl, ap, inl, none, some, [], ok, err, ◌>>=◌, find, any_row,
  count_where, arith,
}
use the_pact.Text.{Text, text, trim_space}
use the_pact.Coordination.Service.{pos}
use the_pact.Accounts.{AccountDb, AccountStatus, OrganizationRole, ProjectRole}
use the_pact.Accounts.Joins.{is_membership_of}
use the_pact.Authn.{
  AccountInput, CreatedWebSession, WebSessionView, device_code_invalid, invitation_invalid,
}
use the_pact.Authn.Sessions.{authenticate_web_session}
use the_pact.Authn.Passwords.{ChangePasswordInput, change_password}
use the_pact.Authn.Passwords.Ends.{change_password_ends_devices, change_password_ends_sessions}
use the_pact.Authn.Devices.{authenticate_device_credential}
use the_pact.Authn.Devices.Exchange.{AuthorizedDevice, authorized, exchange_device}
use the_pact.Authn.Devices.Once.{exchange_device_once}
use the_pact.Authn.Invitations.{accept_invitation, preview_invitation, register_invitation}
use the_pact.Authn.Invitations.Once.{accept_invitation_once}
use the_pact.Access.{forbidden, invitation_exists, project_role, workspace_role}
use the_pact.Access.Candidates.{Counts}
use the_pact.Access.Greatest.{AtMost, workspace_role-Greatest}
use the_pact.Access.Invitations.Blocked.{InTheWay, create_invitation_blocked}
use the_pact.Access.Invitations.{
  InvitationRequest, create_invitation, has_token, is_waiting, InvitationInput, may_invite,
  normalized_input,
}
use the_pact.Access.Invitations.Standing.{Standing, create_invitation_within_rank}
use the_pact.UserAdmin.{UpdateUserInput}
use the_pact.UserAdmin.Checks.{UpdateRequest, normalize_update}
use the_pact.UserAdmin.Rules.{standing}
use the_pact.UserAdmin.Update.{is_active_owner, update_user, updated_db}
use the_pact.UserAdmin.Update.ShutOut.{ShutOut, update_user_shuts_out}
use the_pact.AccountExecution.{Run, done, exchanges_device, next, updates_user}
use the_pact.AccountExecution.Safety.{InOrder, Run-InOrder}
use the_pact.Tests.Company.{
  bens_invitation, Answered, ada, answered, ben, company, device_code, fingerprint,
  invitation_secret, metadata, platform, secrets,
}

abbrev adas_session : WebSessionView
adas_session = record { id = 60; principal = ada; expires_at = 90000000; csrf_digest = 601 }

abbrev new_password : ChangePasswordInput
new_password = record {
  current_password = text "difference engine";
  new_password = text "analytical engine";
}

changed : Answered (change_password platform company 100 adas_session new_password [])
unfolding change_password ◌>>=◌ find
changed = answered (change_password platform company 100 adas_session new_password []) tt

still_in : Answered (authenticate_web_session changed.1 200 600)
unfolding authenticate_web_session changed change_password ◌>>=◌ find
still_in = answered (authenticate_web_session changed.1 200 600) tt

ben_in : Answered (authenticate_device_credential changed.1 200 700)
unfolding authenticate_device_credential changed change_password ◌>>=◌ find
ben_in = answered (authenticate_device_credential changed.1 200 700) tt

change_password_ends_sessions_example : still_in.0.id ≡ 60
unfolding still_in authenticate_web_session changed change_password ◌>>=◌ find
change_password_ends_sessions_example =
    change_password_ends_sessions platform company changed.1 100 200 adas_session still_in.0
      new_password [] 600 still_in.1 changed.2 still_in.2 refl

change_password_ends_devices_example : ben_in.0.principal.id ≢ 50
unfolding ben_in authenticate_device_credential changed change_password ◌>>=◌ find
change_password_ends_devices_example =
    change_password_ends_devices platform company changed.1 100 200 adas_session new_password [] 700
      ben_in.0 ben_in.1 changed.2 ben_in.2

abbrev phone : AuthorizedDevice
phone = record { credential_id = 100; principal = ben; expires_at = 2592000000020 }

abbrev credential : Text
credential = text "0123456789abcdef0123456789abcdef"

with_phone : AccountDb
with_phone = (exchange_device platform company 20 device_code credential).0

exchanged :
    exchange_device platform company 20 device_code credential ≡ (with_phone, ok (authorized phone))
unfolding with_phone exchange_device fingerprint ◌>>=◌ find
exchanged = refl

exchange_device_once_example :
    (exchange_device platform with_phone 30 device_code credential).1 ≡ err device_code_invalid
exchange_device_once_example =
    exchange_device_once platform company with_phone 20 30 device_code credential credential phone
      exchanged

accepted : Answered (accept_invitation platform company 100 ben invitation_secret)
unfolding accept_invitation fingerprint ◌>>=◌ find
accepted = answered (accept_invitation platform company 100 ben invitation_secret) tt

abbrev carl : AccountInput
carl = record {
  display_name = text "Carl";
  email = text "ben@pact.dev";
  username = text "carl";
  password = text "battery staple";
}

abbrev a_created : CreatedWebSession
a_created = record { session = adas_session; session_secret = []; csrf_secret = [] }

accept_invitation_once_example :
    (preview_invitation platform accepted.1 200 invitation_secret ≡ err invitation_invalid)
    × (accept_invitation platform accepted.1 200 ben invitation_secret ≢ ok (accepted.0, company))
    × (register_invitation platform accepted.1 200 invitation_secret carl [] secrets metadata
        ≢ ok ((accepted.0, a_created), company))
unfolding has_token count_where fingerprint trim_space
accept_invitation_once_example =
    accept_invitation_once platform company accepted.1 100 200 ben ben invitation_secret accepted.0
      (accepted.0, company) carl [] secrets metadata ((accepted.0, a_created), company)
      (omega arith) accepted.2

abbrev an_invitation : InvitationRequest
an_invitation = record {
  email = text "eve@pact.dev";
  role = text "maintainer";
  organization_role = [];
  expires_after = pos 0;
}

abbrev random_part : Text
random_part = text "fedcba9876543210fedcba9876543210"

invited : Answered (create_invitation platform company 100 ada 1 an_invitation random_part)
unfolding create_invitation fingerprint ◌>>=◌
invited = answered (create_invitation platform company 100 ada 1 an_invitation random_part) tt

create_invitation_within_rank_example :
    (actual : ProjectRole) × (project_role company ada 1 ≡ ok actual)
    × Standing actual OrganizationRole.owner 1 invited.0.0
create_invitation_within_rank_example =
    create_invitation_within_rank platform company invited.1 100 ada 1 an_invitation random_part
      invited.0.1 invited.0.0 invited.2

abbrev disable : UpdateRequest
disable = record {
  display_name = none;
  email = none;
  username = none;
  status = some (text "disabled");
  organization_role = none;
}

abbrev disabling : UpdateUserInput
disabling = record {
  status = some AccountStatus.disabled;
  organization_role = none;
  display_name = none;
  email = none;
  username = none;
}

disabled : Answered (update_user platform company 100 ada 51 disable)
unfolding update_user updated_db ◌>>=◌ find
disabled = answered (update_user platform company 100 ada 51 disable) tt

update_user_shuts_out_example : ShutOut disabled.1 51
unfolding normalize_update standing ◌>>=◌ find
update_user_shuts_out_example =
    update_user_shuts_out platform company disabled.1 100 ada 51 disable disabling
      OrganizationRole.member disabled.0 refl refl refl disabled.2

company-InOrder : InOrder platform company
unfolding is_active_owner any_row count_where is_membership_of is_waiting
company-InOrder = record {
  owned = record {
    owner = record { principal_id = 50; role = OrganizationRole.owner };
    listed = inl refl;
    active = refl;
  };
  one_membership = λ id. ground arith;
  one_pending = λ email. ground arith;
}

-- Ben's phone gets a credential, and Ben is disabled.
disabled_later : Answered (update_user platform with_phone 100 ada 51 disable)
unfolding with_phone exchange_device fingerprint update_user updated_db ◌>>=◌ find
disabled_later = answered (update_user platform with_phone 100 ada 51 disable) tt

company-Run : Run platform company disabled_later.1
company-Run =
    next (next done (exchanges_device 20 device_code credential (ap (λ o. o.0) exchanged)))
      (updates_user 100 ada 51 disable disabled_later.2)

Run-InOrder_example : InOrder platform disabled_later.1
Run-InOrder_example = Run-InOrder platform company disabled_later.1 company-InOrder company-Run

abbrev with_seats : AccountDb
with_seats = record company {
  workspaces = record { id = 3; archived = false } ∷ [];
  workspace_members =
      record { workspace_id = 3; principal_id = 51; role = ProjectRole.viewer } ∷ [];
  project_members =
      record { project_id = 1; principal_id = 51; role = ProjectRole.contributor } ∷ [];
}

workspace_role-Greatest_example :
    ((workspace_role with_seats ben 3 ≡ err forbidden)
      × ((s : ProjectRole) → Counts with_seats 51 3 s → ⊥))
    ⊎ ((r : ProjectRole) × (workspace_role with_seats ben 3 ≡ ok r)
        × Counts with_seats 51 3 r
        × ((s : ProjectRole) → Counts with_seats 51 3 s → AtMost s r))
workspace_role-Greatest_example = workspace_role-Greatest with_seats ben 3 refl refl

abbrev ben_again : InvitationRequest
ben_again = record an_invitation { email = text "ben@pact.dev" }

abbrev asked : InvitationInput
asked = record {
  email = text "ben@pact.dev";
  role = ProjectRole.maintainer;
  organization_role = OrganizationRole.member;
  lifetime = 86400000000000;
}

in_the_way : InTheWay platform company 1 (text "ben@pact.dev")
unfolding is_waiting
in_the_way = record {
  invitation = bens_invitation;
  listed = inl refl;
  waits = refl;
  elsewhere = refl;
}

create_invitation_blocked_example :
    create_invitation platform company 99999999 ada 1 ben_again random_part ≡ err invitation_exists
unfolding normalized_input project_role may_invite has_token any_row fingerprint ◌>>=◌
create_invitation_blocked_example =
    create_invitation_blocked platform company 99999999 ada 1 ben_again random_part asked
      ProjectRole.owner refl refl refl refl in_the_way
