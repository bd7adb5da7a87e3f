-- ===== src/UserAdmin/Invitations.antt =====
-- Invitations of the administration: CreateInvitation and RevokeInvitation
-- (internal/useradmin/service.go and postgres_repository.go).
use Prim.Native.Nat.{◌/◌}
use the_pact.Prelude.{
  ℕ, ◌+◌, Bool, true, ◌&&◌, ◌||◌, not, Option, none, some, Result, ok, ◌>>=◌, ◌>>◌, require,
  or_fail, ltb, leb, ◌==◌, find, any_row, update_where, insert,
}
use the_pact.Text.{Text, text, text_eq, to_lower}
use the_pact.Identity.{Uuid, Time}
use the_pact.Coordination.Conflicts.{is_open_project}
use the_pact.Accounts.{
  AccountDb, Invitation, LocalAccount, Platform, Principal, ProjectGrant, count_id,
  invitation_created, invitation_revoked, next_id,
}
use the_pact.Accounts.Roles.{is_member, is_owner}
use the_pact.Authn.Checks.{new_secret}
use the_pact.Authn.Invitations.{is_pending}
use the_pact.Access.Invitations.{
  expired_invitation, has_token, is_waiting, new_invitation, revoked_invitation,
}
use the_pact.UserAdmin.{
  AdminError, account_exists, forbidden, invitation_exists, not_found, unavailable,
}
use the_pact.UserAdmin.Rules.{authorize_administrator, insert_admin_event, require_administrator}
use the_pact.UserAdmin.Checks.{InvitationInput, InvitationRequest, normalize_invitation}

abbrev pub has_email : (ℕ → ℕ) → Text → LocalAccount → Bool
has_email lower email a = text_eq (to_lower lower a.email) (to_lower lower email)

-- A waiting invitation whose time is over.
unfoldable pub is_over : (ℕ → ℕ) → Time → Text → Invitation → Bool
unfolding is_waiting
is_over lower now email i = is_waiting lower email i && leb i.expires_at now

abbrev pub project_is_open : AccountDb → Option ProjectGrant → Bool
project_is_open db none = true
project_is_open db (some g) = any_row (is_open_project g.project_id) db.work.projects

unfoldable pub invite_row :
    Platform
    → AccountDb
    → Time
    → Principal
    → InvitationInput
    → ℕ
    → Result AdminError (Invitation × AccountDb)
unfolding authorize_administrator text_eq to_lower is_over is_waiting expired_invitation has_token
    any_row update_where
invite_row p db now actor input digest = do
  actor_role ← authorize_administrator db actor.id
  require (is_owner actor_role || is_member input.organization_role) forbidden
  require (not (any_row (has_email p.lower input.email) db.accounts)) account_exists
  let invitations = update_where (is_over p.lower now input.email) expired_invitation db.invitations
  require (project_is_open db input.grant) not_found
  require (not (any_row (has_token digest) invitations)) unavailable
  require (not (any_row (is_waiting p.lower input.email) invitations)) invitation_exists
  let i =
      new_invitation (next_id db) input.grant input.email input.organization_role digest
        (now + input.lifetime / 1000) actor.id
  ok (
    i,
    insert_admin_event (record db { invitations = insert i invitations; work = count_id db.work })
        actor.id none (invitation_created i.id) now,
  )

-- The invitation with the secret that its holder shows; `encoded` is the random part.
unfoldable pub invite :
    Platform
    → AccountDb
    → Time
    → Principal
    → InvitationRequest
    → Text
    → Result AdminError ((Invitation × Text) × AccountDb)
unfolding require_administrator normalize_invitation invite_row
invite p db now actor request encoded = do
  require_administrator db actor
  input ← normalize_invitation p request
  require (is_owner actor.organization_role || is_member input.organization_role) forbidden
  let secret = new_secret (text "pact_inv_") encoded
  (i, after) ← invite_row p db now actor input (p.sha256 secret)
  ok ((i, secret), after)

unfoldable pub is_revocable : Time → Uuid → Invitation → Bool
is_revocable now id i = i.id == id && is_pending i.status && ltb now i.expires_at

abbrev pub has_invitation_id : Uuid → Invitation → Bool
has_invitation_id id i = i.id == id

unfoldable pub withdraw :
    AccountDb → Time → Principal → Uuid → Result AdminError (Unit {0} × AccountDb)
unfolding require_administrator authorize_administrator is_revocable revoked_invitation find
    update_where
withdraw db now actor id = do
  require_administrator db actor
  actor_role ← authorize_administrator db actor.id
  i ← or_fail (find (is_revocable now id) db.invitations) not_found
  require (is_owner actor_role || is_member i.organization_role) forbidden
  ok (
    tt,
    insert_admin_event
        (record db {
          invitations = update_where (has_invitation_id id) (revoked_invitation now) db.invitations;
        })
        actor.id none (invitation_revoked id) now,
  )
