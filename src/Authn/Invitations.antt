-- ===== src/Authn/Invitations.antt =====
-- Invitations that are answered: PreviewInvitation, RegisterInvitation and AcceptInvitation
-- (internal/authn/service.go) with lockInvitation, consumeInvitation, findOrCreateInvitedPrincipal
-- and upsertMemberships (internal/authn/postgres_repository.go).
pub mod Upsert
pub mod Once
use the_pact.Prelude.{
  ℕ, ◌+◌, Bool, true, false, ◌&&◌, ◌||◌, not, Option, none, some, Result, ok, require, or_fail, ltb,
  ◌==◌, find, any_row, update_where, ◌>>=◌, ◌>>◌,
}
use the_pact.Text.{Text, text, text_eq, trim_space, to_lower, equal_fold}
use the_pact.Identity.{Uuid, Time}
use the_pact.Database.{Actor}
use the_pact.Accounts.{
  AccountDb, Invitation, InvitationStatus, LocalAccount, OrganizationRole, Platform, Principal,
  PrincipalRow, ProjectGrant,
}
use the_pact.Accounts.Roles.{stronger_organization_role}
use the_pact.Accounts.Joins.{has_principal_id, is_live_actor}
use the_pact.Authn.{
  AccountInput, AuthnError, CreatedWebSession, Secrets, SessionMetadata, account_exists,
  invitation_invalid, invitation_mismatch, web_session_lifetime,
}
use the_pact.Authn.Checks.{is_secret, normalize_and_validate_account, sanitize_metadata}
use the_pact.Authn.Sessions.{insert_web_session, is_active_account_of, start_session}
use the_pact.Authn.Setup.{create_local_principal, hashed, insert_account, local_principal}
use the_pact.Authn.Invitations.Upsert.{upsert_memberships}

abbrev pub is_pending : InvitationStatus → Bool
is_pending InvitationStatus.pending = true
is_pending _ = false

-- The invitation of a secret, while it can be answered.
unfoldable pub is_open_invitation : Time → ℕ → Invitation → Bool
is_open_invitation now digest i =
    i.token_digest == digest && is_pending i.status && ltb now i.expires_at

unfoldable pub lock_invitation : AccountDb → Time → ℕ → Result AuthnError Invitation
unfolding is_open_invitation find
lock_invitation db now digest =
    or_fail (find (is_open_invitation now digest) db.invitations) invitation_invalid

unfoldable pub is_pending_invitation : Uuid → Invitation → Bool
is_pending_invitation id i = i.id == id && is_pending i.status

unfoldable pub consumed : Time → Uuid → Invitation → Invitation
consumed now principal i = record i {
  status = InvitationStatus.accepted;
  accepted_by = some principal;
  accepted_at = some now;
}

unfoldable pub consume_invitation : AccountDb → Time → Uuid → Uuid → Result AuthnError AccountDb
unfolding is_pending_invitation consumed any_row update_where
consume_invitation db now id principal = do
  require (any_row (is_pending_invitation id) db.invitations) invitation_invalid
  ok (record db {
    invitations = update_where (is_pending_invitation id) (consumed now principal) db.invitations;
  })

pub record InvitationAcceptance : Type 0 where
  pub principal : Principal
  pub organization_role : OrganizationRole
  pub grant : Option ProjectGrant
  pub expires_at : Time

abbrev pub acceptance : Principal → Invitation → InvitationAcceptance
acceptance principal i = record {
  principal = principal;
  organization_role = i.organization_role;
  grant = i.grant;
  expires_at = i.expires_at;
}

-- The memberships that an invitation gives, and its end.
unfoldable pub apply_invitation : AccountDb → Time → Invitation → Uuid → Result AuthnError AccountDb
unfolding upsert_memberships consume_invitation
apply_invitation db now i principal =
    consume_invitation (upsert_memberships db principal i.organization_role i.grant) now i.id
      principal

-- The e-mail of the account that answers.
unfoldable pub accept_invitation_row :
    Platform
    → AccountDb
    → Time
    → Principal
    → ℕ
    → Result AuthnError (InvitationAcceptance × AccountDb)
unfolding is_active_account_of equal_fold find lock_invitation apply_invitation
    stronger_organization_role
accept_invitation_row p db now principal digest = do
  account ← or_fail (find (is_active_account_of principal.id) db.accounts) invitation_mismatch
  i ← lock_invitation db now digest
  require (equal_fold p.fold i.email account.email) invitation_mismatch
  after ← apply_invitation db now i principal.id
  let role = stronger_organization_role principal.organization_role i.organization_role
  ok (acceptance (record principal { organization_role = role }) i, after)

unfoldable pub accept_invitation :
    Platform
    → AccountDb
    → Time
    → Principal
    → Text
    → Result AuthnError (InvitationAcceptance × AccountDb)
unfolding trim_space is_secret accept_invitation_row
accept_invitation p db now principal secret = do
  require (is_secret (text "pact_inv_") 40 (trim_space secret)) invitation_invalid
  accept_invitation_row p db now principal (p.sha256 (trim_space secret))

-- A principal that an earlier invitation left, while its actor is active.
unfoldable pub is_invited : Platform → AccountDb → Text → PrincipalRow → Bool
unfolding text_eq to_lower is_live_actor any_row
is_invited p db email row =
    text_eq row.external_issuer (text "pact.invitation")
    && text_eq (to_lower p.lower row.external_subject) (to_lower p.lower email)
    && any_row (is_live_actor row.id) db.work.actors

unfoldable pub named_actor : Text → Actor → Actor
named_actor name a = record a { display_name = name }

unfoldable pub as_local : Text → PrincipalRow → PrincipalRow
as_local email row = record row { external_issuer = text "pact.local"; external_subject = email }

abbrev pub has_actor_row_id : Uuid → Actor → Bool
has_actor_row_id id a = a.id == id

-- findOrCreateInvitedPrincipal for a principal that was found
unfoldable pub convert_principal :
    Platform → AccountDb → PrincipalRow → AccountInput → Result AuthnError (Uuid × AccountDb)
unfolding text_eq named_actor as_local has_principal_id insert_account any_row update_where
convert_principal p db row input = do
  require
      (not (
        any_row
          (λ q.
            text_eq q.external_issuer (text "pact.local") && text_eq q.external_subject input.email)
          db.principals))
      account_exists
  after ←
      insert_account p
        (record db {
          work = record db.work {
            actors =
                update_where (has_actor_row_id row.id) (named_actor input.display_name)
                  db.work.actors;
          };
          principals = update_where (has_principal_id row.id) (as_local input.email) db.principals;
        })
        row.id input
  ok (row.id, after)

unfoldable pub find_or_create_invited_principal :
    Platform → AccountDb → AccountInput → Result AuthnError (Uuid × AccountDb)
unfolding is_invited convert_principal create_local_principal
find_or_create_invited_principal p db input =
    elim (find (is_invited p db input.email) db.principals) [
      | none ↦ create_local_principal p db input
      | some row ↦ convert_principal p db row input
    ]

unfoldable pub is_taken : Text → Text → LocalAccount → Bool
unfolding text_eq
is_taken email username a = text_eq a.email email || text_eq a.username username

unfoldable pub register_invitation_row :
    Platform
    → AccountDb
    → Time
    → AccountInput
    → ℕ
    → Secrets
    → SessionMetadata
    → Result AuthnError ((InvitationAcceptance × CreatedWebSession) × AccountDb)
unfolding lock_invitation equal_fold is_taken any_row find_or_create_invited_principal
    apply_invitation start_session insert_web_session sanitize_metadata
register_invitation_row p db now input digest secrets metadata = do
  i ← lock_invitation db now digest
  require (equal_fold p.fold i.email input.email) invitation_mismatch
  require (not (any_row (is_taken input.email input.username) db.accounts)) account_exists
  (id, created) ← find_or_create_invited_principal p db input
  joined ← apply_invitation created now i id
  let principal = local_principal db id input i.organization_role
  (session, after) ←
      start_session p
        (λ session_digest csrf.
          insert_web_session joined principal session_digest csrf (now + web_session_lifetime)
            (sanitize_metadata metadata))
        secrets
  ok ((acceptance principal i, session), after)

unfoldable pub register_invitation :
    Platform
    → AccountDb
    → Time
    → Text
    → AccountInput
    → Text
    → Secrets
    → SessionMetadata
    → Result AuthnError ((InvitationAcceptance × CreatedWebSession) × AccountDb)
unfolding trim_space is_secret normalize_and_validate_account register_invitation_row
register_invitation p db now secret input salt secrets metadata = do
  require (is_secret (text "pact_inv_") 40 (trim_space secret)) invitation_invalid
  account ← normalize_and_validate_account p input
  register_invitation_row p db now (hashed p salt account) (p.sha256 (trim_space secret)) secrets
      metadata

pub record InvitationPreview : Type 0 where
  pub email : Text
  pub organization_role : OrganizationRole
  pub grant : Option ProjectGrant
  pub expires_at : Time

unfoldable pub preview_invitation :
    Platform → AccountDb → Time → Text → Result AuthnError InvitationPreview
unfolding trim_space is_secret lock_invitation
preview_invitation p db now secret = do
  require (is_secret (text "pact_inv_") 40 (trim_space secret)) invitation_invalid
  i ← lock_invitation db now (p.sha256 (trim_space secret))
  ok (record {
    email = i.email;
    organization_role = i.organization_role;
    grant = i.grant;
    expires_at = i.expires_at;
  })
