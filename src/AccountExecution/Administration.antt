-- ===== src/AccountExecution/Administration.antt =====
-- Invitations that are made and taken back, permissions, and the revocation of sessions.
use mathlib.Core.Path.{subst}
use the_pact.Prelude.{
  ℕ, ◌≡◌, refl, Bool, true, false, not, ◌&&◌, and_elim, List, Ensures-bind, Ensures-or_fail,
  Ensures-require, Ensures-ok, any_row, count_where-insert, update_where, insert, arith,
}
use the_pact.Text.{Text, text_eq, to_lower}
use the_pact.Text.Laws.{eq_of_text_eq}
use the_pact.Identity.{Uuid, Time}
use the_pact.Accounts.{AccountDb, Invitation, Platform, Principal, count_id}
use the_pact.Authn.Invitations.{is_pending}
use the_pact.Access.{grant_project_owner}
use the_pact.Access.Invitations.{
  InvitationInput, InvitationRequest, create_invitation, create_invitation_row, expired_invitation,
  is_stale, is_waiting, may_revoke, revoke_invitation, revoked_invitation,
}
use the_pact.UserAdmin.Checks as Checks
use the_pact.UserAdmin.Invitations.{has_invitation_id, invite, invite_row, is_over, withdraw}
use the_pact.UserAdmin.Permissions.{remove_project_permission, set_project_permission}
use the_pact.UserAdmin.Update.{revoke_user_sessions}
use the_pact.AccountExecution.Moves.{Commits, Holds-itself, Moves, Moves-trans, untouched}
use the_pact.AccountExecution.Invitations.{settled-Moves}

-- Who waits for an e-mail depends on it up to case only.
waiting_alike :
    (lower : ℕ → ℕ) (a b : Text) (invitations : List Invitation)
    → to_lower lower a ≡ to_lower lower b
    → any_row (is_waiting lower a) invitations ≡ false
    → any_row (is_waiting lower b) invitations ≡ false
unfolding is_waiting
waiting_alike lower a b invitations same h =
    subst
      (λ (l : Text).
        any_row (λ i. text_eq (to_lower lower i.email) l && is_pending i.status) invitations
        ≡ false)
      same h

waiting_email :
    (lower : ℕ → ℕ) (email : Text) (i : Invitation)
    → is_waiting lower email i ≡ true
    → to_lower lower i.email ≡ to_lower lower email
unfolding is_waiting
waiting_email lower email i h = eq_of_text_eq _ _ (and_elim _ _ h).0

negated_test : {b : Bool} → not b ≡ true → b ≡ false
negated_test {b} h = ground arith

module _ (p : Platform) where
  -- An invitation for an e-mail for which none waits.
  invited-Moves :
      (db : AccountDb) (i : Invitation)
      → any_row (is_waiting p.lower i.email) db.invitations ≡ false
      → Moves p db (record db { invitations = insert i db.invitations; work = count_id db.work })
  invited-Moves db i free = record {
    members = Holds-itself db.organization_members;
    accounts = λ q h. h;
    actors = λ q h. h;
    one = λ h. h;
    pending = λ h email.
        count_where-insert (is_waiting p.lower email) db.invitations i (h email) (λ w.
          waiting_alike p.lower i.email email db.invitations (waiting_email p.lower email i w)
            free);
  }

  expired-Moves :
      (db : AccountDb) (test : Invitation → Bool)
      → Moves p db (record db { invitations = update_where test expired_invitation db.invitations })
  unfolding expired_invitation is_waiting
  expired-Moves db test =
      settled-Moves p db test expired_invitation (λ email i w. absurd (ground arith))

  revoked-Moves :
      (db : AccountDb) (test : Invitation → Bool) (now : Time)
      → Moves p db
          (record db { invitations = update_where test (revoked_invitation now) db.invitations })
  unfolding revoked_invitation is_waiting
  revoked-Moves db test now =
      settled-Moves p db test (revoked_invitation now) (λ email i w. absurd (ground arith))

  create_invitation_row-Commits :
      (db : AccountDb) (now : Time) (principal : Principal) (project : Uuid)
      (input : InvitationInput) (digest : ℕ)
      → Commits p db (create_invitation_row p db now principal project input digest)
  unfolding create_invitation_row
  create_invitation_row-Commits db now principal project input digest =
      Ensures-require _ _ _ λ fresh. Ensures-require _ _ _ λ free. Ensures-require _ _ _ λ exists.
        Ensures-ok _ (
          Moves-trans p db _ _ (expired-Moves db (is_stale p.lower now project input.email))
            (invited-Moves _ _ (negated_test free)))

  pub create_invitation-Commits :
      (db : AccountDb) (now : Time) (principal : Principal) (project : Uuid)
      (request : InvitationRequest) (encoded : Text)
      → Commits p db (create_invitation p db now principal project request encoded)
  unfolding create_invitation
  create_invitation-Commits db now principal project request encoded =
      Ensures-bind _ _ λ input valid. Ensures-bind _ _ λ actual role. Ensures-bind _ _ λ u may.
        Ensures-bind _ _ λ r made.
          Ensures-ok _
            ((create_invitation_row-Commits db now principal project input _).holds r made)

  pub revoke_invitation-Commits :
      (db : AccountDb) (now : Time) (principal : Principal) (id : Uuid)
      → Commits p db (revoke_invitation db now principal id)
  unfolding revoke_invitation
  revoke_invitation-Commits db now principal id =
      Ensures-require _ _ _ λ may. Ensures-ok _ (revoked-Moves db (may_revoke db principal id) now)

  pub grant_project_owner-Moves :
      (db : AccountDb) (project principal : Uuid)
      → Moves p db (grant_project_owner db project principal)
  unfolding grant_project_owner
  grant_project_owner-Moves db project principal = untouched p db _ refl refl refl refl

  invite_row-Commits :
      (db : AccountDb) (now : Time) (actor : Principal) (input : Checks.InvitationInput)
      (digest : ℕ)
      → Commits p db (invite_row p db now actor input digest)
  unfolding invite_row
  invite_row-Commits db now actor input digest = Ensures-bind _ _ λ role authorized.
      Ensures-require _ _ _ λ may. Ensures-require _ _ _ λ unknown. Ensures-require _ _ _ λ project.
        Ensures-require _ _ _ λ fresh. Ensures-require _ _ _ λ free. Ensures-ok _ (
          Moves-trans p db _ _
            (Moves-trans p db _ _ (expired-Moves db (is_over p.lower now input.email))
              (invited-Moves _ _ (negated_test free)))
            (untouched p _ _ refl refl refl refl))

  pub invite-Commits :
      (db : AccountDb) (now : Time) (actor : Principal) (request : Checks.InvitationRequest)
      (encoded : Text)
      → Commits p db (invite p db now actor request encoded)
  unfolding invite
  invite-Commits db now actor request encoded = Ensures-bind _ _ λ u administrator.
      Ensures-bind _ _ λ input valid. Ensures-require _ _ _ λ may.
        Ensures-bind _ _
          λ r made. Ensures-ok _ ((invite_row-Commits db now actor input _).holds r made)

  pub withdraw-Commits :
      (db : AccountDb) (now : Time) (actor : Principal) (id : Uuid)
      → Commits p db (withdraw db now actor id)
  unfolding withdraw
  withdraw-Commits db now actor id = Ensures-bind _ _ λ u administrator.
      Ensures-bind _ _ λ role authorized. Ensures-or_fail _ _ _ λ i found.
        Ensures-require _ _ _ λ may. Ensures-ok _ (
          Moves-trans p db _ _ (revoked-Moves db (has_invitation_id id) now)
            (untouched p _ _ refl refl refl refl))

  pub revoke_user_sessions-Commits :
      (db : AccountDb) (now : Time) (actor : Principal) (id : Uuid)
      → Commits p db (revoke_user_sessions db now actor id)
  unfolding revoke_user_sessions
  revoke_user_sessions-Commits db now actor id = Ensures-bind _ _ λ target found.
      Ensures-require _ _ _ λ other. Ensures-bind _ _ λ s authorized.
        Ensures-bind _ _ λ user shown. Ensures-ok _ (untouched p db _ refl refl refl refl)

  pub set_project_permission-Commits :
      (db : AccountDb) (now : Time) (actor : Principal) (id project : Uuid) (raw : Text)
      → Commits p db (set_project_permission p db now actor id project raw)
  unfolding set_project_permission
  set_project_permission-Commits db now actor id project raw = Ensures-bind _ _ λ target found.
      Ensures-or_fail _ _ _ λ role valid. Ensures-bind _ _ λ s authorized.
        Ensures-require _ _ _ λ member. Ensures-require _ _ _ λ active.
          Ensures-require _ _ _ λ exists.
            Ensures-bind _ _ λ user shown. Ensures-ok _ (untouched p db _ refl refl refl refl)

  pub remove_project_permission-Commits :
      (db : AccountDb) (now : Time) (actor : Principal) (id project : Uuid)
      → Commits p db (remove_project_permission db now actor id project)
  unfolding remove_project_permission
  remove_project_permission-Commits db now actor id project = Ensures-bind _ _ λ target found.
      Ensures-bind _ _ λ s authorized. Ensures-require _ _ _ λ member.
        Ensures-require _ _ _ λ seated.
          Ensures-bind _ _ λ user shown. Ensures-ok _ (untouched p db _ refl refl refl refl)
