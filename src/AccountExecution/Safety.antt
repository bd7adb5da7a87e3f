-- ===== src/AccountExecution/Safety.antt =====
-- What holds behind every step, and so in every state that the operations reach.
use the_pact.Prelude.{
  ◌≤◌, Ensures, Ensures-bind, Ensures-require, Ensures-ok, Bool-cases, inl, inr, count_where,
  count_where-update_where, arith,
}
use the_pact.Identity.{Uuid, Time}
use the_pact.Accounts.{AccountDb, AccountStatus, Platform, Principal}
use the_pact.Accounts.Joins.{is_membership_of}
use the_pact.UserAdmin.{UpdateUserInput}
use the_pact.UserAdmin.Checks.{UpdateRequest}
use the_pact.UserAdmin.Rules.{revoke_user_access}
use the_pact.UserAdmin.Update.{
  apply_update, disables, or_old, update_user, update_user_row, updated_db, updated_member,
}
use the_pact.UserAdmin.Update.Owners.{HasOwner, OneMembership, update_user_row-HasOwner}
use the_pact.AccountExecution.{
  Run, Step, accepts, approves_device, begins_device, changes_password, done, exchanges_device,
  grants_owner, invites, invites_to_project, logs_in, logs_out, next, registers, removes_permission,
  revokes_device, revokes_invitation, revokes_sessions, sets_permission, sets_up, shows_device,
  shows_secret, updates_user, withdraws,
}
use the_pact.AccountExecution.Moves.{Moves, Moves-HasOwner, OnePending}
use the_pact.AccountExecution.Sessions.{
  authenticate_web-Commits, change_password-Commits, login-Moves, logout_web-Commits,
}
use the_pact.AccountExecution.Devices.{
  approve_device-Commits, authenticate_device-Commits, begin_device-Commits, exchange_device-Moves,
  revoke_device-Commits,
}
use the_pact.AccountExecution.Invitations.{
  accept_invitation-Commits, register_invitation-Commits, setup-Commits,
}
use the_pact.AccountExecution.Administration.{
  create_invitation-Commits, grant_project_owner-Moves, invite-Commits,
  remove_project_permission-Commits, revoke_invitation-Commits, revoke_user_sessions-Commits,
  set_project_permission-Commits, withdraw-Commits,
}

-- An active owner, one membership for each principal, and one invitation that waits for an e-mail.
pub record InOrder (p : Platform) (db : AccountDb) : Type 0 where
  pub owned : HasOwner db
  pub one_membership : OneMembership db
  pub one_pending : OnePending p db

moved : (p : Platform) (d e : AccountDb) → Moves p d e → InOrder p d → InOrder p e
moved p d e m h = record {
  owned = Moves-HasOwner p d e m h.owned;
  one_membership = m.one h.one_membership;
  one_pending = m.pending h.one_pending;
}

-- The two indices, behind an update.
updated_db-indices :
    (p : Platform) (db : AccountDb) (now : Time) (actor id : Uuid) (input : UpdateUserInput)
    (old : AccountStatus)
    → OneMembership db
    → OnePending p db
    → OneMembership (updated_db db now actor id input old)
      × OnePending p (updated_db db now actor id input old)
unfolding updated_db revoke_user_access updated_member is_membership_of
updated_db-indices p db now actor id input old one pending =
    elim (Bool-cases (disables old (or_old input.status old))) [
      | inl e ↦ rw e (fewer, pending)
      | inr e ↦ rw e (fewer, pending)
    ]
  where
    fewer :
        (q : Uuid)
        → count_where (is_membership_of q) (apply_update db id input).organization_members ≤ 1
    fewer q = omega (
      arith,
      count_where-update_where (is_membership_of q) (is_membership_of id) (updated_member input)
          db.organization_members (λ m own t. t),
      one q,
    )

update_user_row-indices :
    (p : Platform) (db : AccountDb) (now : Time) (actor : Principal) (id : Uuid)
    (input : UpdateUserInput)
    → OneMembership db
    → OnePending p db
    → Ensures (λ r. OneMembership r.1 × OnePending p r.1) (update_user_row p db now actor id input)
unfolding update_user_row
update_user_row-indices p db now actor id input one pending = Ensures-bind _ _ λ s authorized.
    Ensures-require _ _ _ λ other. Ensures-require _ _ _ λ last. Ensures-require _ _ _ λ free.
      Ensures-bind _ _
        λ user shown. Ensures-ok _ (updated_db-indices p db now actor.id id input s.1 one pending)

update_user-InOrder :
    (p : Platform) (db : AccountDb) (now : Time) (actor : Principal) (id : Uuid)
    (request : UpdateRequest)
    → InOrder p db
    → Ensures (λ r. InOrder p r.1) (update_user p db now actor id request)
unfolding update_user
update_user-InOrder p db now actor id request h = Ensures-bind _ _ λ target found.
    Ensures-bind _ _ λ given checked. Ensures-bind _ _ λ u may. record {
      holds = λ r e.
          let indices =
            (update_user_row-indices p db now actor target.principal_id given h.one_membership
                h.one_pending).holds
              r e in
          record {
            owned =
                (update_user_row-HasOwner p db now actor target.principal_id given h.one_membership
                    h.owned).holds
                  r e;
            one_membership = indices.0;
            one_pending = indices.1;
          };
    }

Step-InOrder : (p : Platform) (d e : AccountDb) → Step p d e → InOrder p d → InOrder p e
Step-InOrder p d e (sets_up config now input salt secrets metadata s) =
    moved p d e ((setup-Commits p config d now input salt secrets metadata).holds _ s)
Step-InOrder p d e (logs_in now input secrets metadata s) =
    moved p d e (rw (← s) (login-Moves p d now input secrets metadata))
Step-InOrder p d e (shows_secret now raw s) =
    moved p d e ((authenticate_web-Commits p d now raw).holds _ s)
Step-InOrder p d e (logs_out now session s) =
    moved p d e ((logout_web-Commits p d now session).holds _ s)
Step-InOrder p d e (changes_password now session input salt s) =
    moved p d e ((change_password-Commits p d now session input salt).holds _ s)
Step-InOrder p d e (accepts now principal secret s) =
    moved p d e ((accept_invitation-Commits p d now principal secret).holds _ s)
Step-InOrder p d e (registers now secret input salt secrets metadata s) =
    moved p d e ((register_invitation-Commits p d now secret input salt secrets metadata).holds _ s)
Step-InOrder p d e (begins_device now name encoded code s) =
    moved p d e ((begin_device-Commits p d now name encoded code).holds _ s)
Step-InOrder p d e (approves_device now principal code s) =
    moved p d e ((approve_device-Commits p d now principal code).holds _ s)
Step-InOrder p d e (exchanges_device now code encoded s) =
    moved p d e (rw (← s) (exchange_device-Moves p d now code encoded))
Step-InOrder p d e (shows_device now raw s) =
    moved p d e ((authenticate_device-Commits p d now raw).holds _ s)
Step-InOrder p d e (revokes_device now principal id s) =
    moved p d e ((revoke_device-Commits p d now principal id).holds _ s)
Step-InOrder p d e (grants_owner project principal s) =
    moved p d e (rw (← s) (grant_project_owner-Moves p d project principal))
Step-InOrder p d e (invites_to_project now principal project request encoded s) =
    moved p d e ((create_invitation-Commits p d now principal project request encoded).holds _ s)
Step-InOrder p d e (revokes_invitation now principal id s) =
    moved p d e ((revoke_invitation-Commits p d now principal id).holds _ s)
Step-InOrder p d e (invites now actor request encoded s) =
    moved p d e ((invite-Commits p d now actor request encoded).holds _ s)
Step-InOrder p d e (withdraws now actor id s) =
    moved p d e ((withdraw-Commits p d now actor id).holds _ s)
Step-InOrder p d e (updates_user now actor id request s) =
    λ h. (update_user-InOrder p d now actor id request h).holds _ s
Step-InOrder p d e (revokes_sessions now actor id s) =
    moved p d e ((revoke_user_sessions-Commits p d now actor id).holds _ s)
Step-InOrder p d e (sets_permission now actor id project role s) =
    moved p d e ((set_project_permission-Commits p d now actor id project role).holds _ s)
Step-InOrder p d e (removes_permission now actor id project s) =
    moved p d e ((remove_project_permission-Commits p d now actor id project).holds _ s)

-- Every order of the operations on accounts, sessions, devices, invitations and users leaves an
-- organization with an active owner, at most one membership for each principal, and at most one
-- waiting invitation for each e-mail, if it starts with these.
pub Run-InOrder : (p : Platform) (d e : AccountDb) → InOrder p d → Run p d e → InOrder p e
Run-InOrder p d _ h done = h
Run-InOrder p d f h (next {e} run step) = Step-InOrder p e f step (Run-InOrder p d e h run)
