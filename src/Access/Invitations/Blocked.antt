-- ===== src/Access/Invitations/Blocked.antt =====
-- An invitation that waits for an e-mail and is not of the project blocks a new one, also when its time
-- is over.
use the_pact.Prelude.{
  ℕ, ◌≡◌, refl, ◌∙◌, true, false, ok, err, ◌>>=◌, In, any_row, any_row-update_where, any_row_of_In,
  update_where, update_where-In,
}
use the_pact.Text.{Text, text}
use the_pact.Identity.{Uuid, Time}
use the_pact.Accounts.{AccountDb, Invitation, Platform, Principal, ProjectRole}
use the_pact.Authn.Checks.{new_secret}
use the_pact.Access.{invitation_exists, project_role}
use the_pact.Access.Invitations.{
  InvitationInput, InvitationRequest, create_invitation, create_invitation_row, expired_invitation,
  has_token, is_grant_of, is_stale, is_waiting, may_invite, normalized_input,
}

-- What stands in the way.
pub record InTheWay (p : Platform) (db : AccountDb) (project : Uuid) (email : Text) : Type 0 where
  pub invitation : Invitation
  pub listed : In invitation db.invitations
  pub waits : is_waiting p.lower email invitation ≡ true
  pub elsewhere : is_grant_of project invitation.grant ≡ false

stale_elsewhere :
    (lower : ℕ → ℕ) (now : Time) (project : Uuid) (email : Text) (i : Invitation)
    → is_grant_of project i.grant ≡ false
    → is_stale lower now project email i ≡ false
unfolding is_stale
stale_elsewhere lower now project email i elsewhere = rw elsewhere refl

still_waits :
    (p : Platform) (db : AccountDb) (now : Time) (project : Uuid) (email : Text)
    → InTheWay p db project email
    → any_row
        (is_waiting p.lower email)
        (update_where (is_stale p.lower now project email) expired_invitation db.invitations)
      ≡ true
still_waits p db now project email w =
    any_row_of_In (is_waiting p.lower email) _ w.invitation
      (rw (stale_elsewhere p.lower now project email w.invitation w.elsewhere) at (
        update_where-In (is_stale p.lower now project email) expired_invitation db.invitations
          w.invitation w.listed))
      w.waits

blocked_row :
    (p : Platform) (db : AccountDb) (now : Time) (principal : Principal) (project : Uuid)
    (input : InvitationInput) (digest : ℕ)
    → InTheWay p db project input.email
    → any_row (has_token digest) db.invitations ≡ false
    → create_invitation_row p db now principal project input digest ≡ err invitation_exists
unfolding create_invitation_row has_token expired_invitation ◌>>=◌
blocked_row p db now principal project input digest w fresh =
    rw
      (
        any_row-update_where (has_token digest) (is_stale p.lower now project input.email)
              expired_invitation db.invitations (λ i. refl)
            ∙ fresh,
        still_waits p db now project input.email w,
      )
      refl

-- If an invitation waits for an e-mail and is not one of the project, then a request to invite
-- that e-mail to the project that passes the checks, by an author who may make it and with a
-- secret whose digest is unused, is refused because an invitation exists, at any time, even when
-- the time of the waiting one is over.
pub create_invitation_blocked :
    (p : Platform) (db : AccountDb) (now : Time) (principal : Principal) (project : Uuid)
    (request : InvitationRequest) (encoded : Text) (input : InvitationInput) (actual : ProjectRole)
    → normalized_input p request ≡ ok input
    → project_role db principal project ≡ ok actual
    → may_invite principal actual input ≡ ok tt
    → any_row (has_token (p.sha256 (new_secret (text "pact_inv_") encoded))) db.invitations ≡ false
    → InTheWay p db project input.email
    → create_invitation p db now principal project request encoded ≡ err invitation_exists
unfolding create_invitation ◌>>=◌
create_invitation_blocked p db now principal project request encoded input actual valid role may
      fresh w =
    rw
      (
        valid,
        role,
        may,
        blocked_row p db now principal project input
            (p.sha256 (new_secret (text "pact_inv_") encoded)) w fresh,
      )
      refl
