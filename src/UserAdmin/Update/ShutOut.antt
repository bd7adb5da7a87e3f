-- ===== src/UserAdmin/Update/ShutOut.antt =====
-- A user who is disabled is shut out, and so are the agents that the user sponsors.
use mathlib.Core.Path.{subst}
use the_pact.Prelude.{
  ◌≡◌, ◌∙◌, false, Option, some, Result, ok, Ensures, Ensures-bind, Ensures-require, Ensures-ok, In,
  In-update_where_clears, arith,
}
use the_pact.Identity.{Uuid, Time}
use the_pact.Database.{Session}
use the_pact.Accounts.{
  AccountDb, AccountStatus, DeviceCredential, OrganizationRole, Platform, Principal, WebSession,
}
use the_pact.Authn.Sessions.{revoked_session}
use the_pact.Authn.Passwords.{is_device_of, revoked_device}
use the_pact.UserAdmin.{AdminError, UpdateUserInput, User}
use the_pact.UserAdmin.Rules.{
  ended_session, is_session_of, is_sponsored_session, revoke_user_access, standing, Standing,
}
use the_pact.UserAdmin.Rules.Laws.{authorize_target-Authorized, manageable_user-id}
use the_pact.UserAdmin.Checks.{UpdateRequest, normalize_update}
use the_pact.UserAdmin.Update.{apply_update, update_user, update_user_row, updated_db}

-- No web session, no device and no session of a sponsored agent is alive.
pub record ShutOut (db : AccountDb) (id : Uuid) : Type 0 where
  pub sessions : (s : WebSession) → In s db.web_sessions → is_session_of id s ≡ false
  pub devices : (d : DeviceCredential) → In d db.device_credentials → is_device_of id d ≡ false
  pub agents : (s : Session) → In s db.work.sessions → is_sponsored_session db id s ≡ false

pub revoke_user_access-ShutOut :
    (db : AccountDb) (now : Time) (id : Uuid) → ShutOut (revoke_user_access db now id) id
unfolding revoke_user_access
revoke_user_access-ShutOut db now id = record {
  sessions = λ s m.
      In-update_where_clears (is_session_of id) (revoked_session now) db.web_sessions s
        (λ (x : WebSession). ground arith) m;
  devices = λ d m.
      In-update_where_clears (is_device_of id) (revoked_device now) db.device_credentials d
        (λ (x : DeviceCredential). ground arith) m;
  agents = λ s m.
      In-update_where_clears (is_sponsored_session db id) (ended_session now) db.work.sessions s
        (λ (x : Session). ground arith) m;
}

updated_db-ShutOut :
    (db : AccountDb) (now : Time) (actor id : Uuid) (input : UpdateUserInput)
    → input.status ≡ some AccountStatus.disabled
    → ShutOut (updated_db db now actor id input AccountStatus.active) id
unfolding updated_db
updated_db-ShutOut db now actor id input disabled =
    let s = revoke_user_access-ShutOut (apply_update db id input) now id in
    rw disabled (record { sessions = s.sessions; devices = s.devices; agents = s.agents })

old_status :
    (o : Option Standing) (role : OrganizationRole) (s : Standing)
    → o ≡ some (role, AccountStatus.active)
    → o ≡ some s
    → AccountStatus.active ≡ s.1
old_status o role s a b = ground arith

row_shuts_out :
    (p : Platform) (db : AccountDb) (now : Time) (actor : Principal) (id : Uuid)
    (input : UpdateUserInput) (role : OrganizationRole)
    → standing db id ≡ some (role, AccountStatus.active)
    → input.status ≡ some AccountStatus.disabled
    → Ensures (λ r. ShutOut r.1 id) (update_user_row p db now actor id input)
unfolding update_user_row
row_shuts_out p db now actor id input role stands disabled = Ensures-bind _ _ λ s hs.
    Ensures-require _ _ _ λ other. Ensures-require _ _ _ λ last. Ensures-require _ _ _ λ free.
      Ensures-bind _ _ λ user hu. Ensures-ok _ (
        subst (λ (old : AccountStatus). ShutOut (updated_db db now actor.id id input old) id)
          (old_status (standing db id) role s stands
            ((authorize_target-Authorized db actor.id id).holds s hs).target_stands)
          (updated_db-ShutOut db now actor.id id input disabled))

same_input :
    {m : Result AdminError UpdateUserInput} {a b : UpdateUserInput}
    → m ≡ ok a
    → m ≡ ok b
    → b.status ≡ a.status
same_input {m} {a} {b} ha hb = ground arith

update_user-ShutOut :
    (p : Platform) (db : AccountDb) (now : Time) (actor : Principal) (id : Uuid)
    (request : UpdateRequest) (input : UpdateUserInput) (role : OrganizationRole)
    → normalize_update p request ≡ ok input
    → input.status ≡ some AccountStatus.disabled
    → standing db id ≡ some (role, AccountStatus.active)
    → Ensures (λ r. ShutOut r.1 id) (update_user p db now actor id request)
unfolding update_user
update_user-ShutOut p db now actor id request input role normal disabled stands =
    Ensures-bind _ _ λ target ht. Ensures-bind _ _ λ given hg. Ensures-bind _ _ λ u checked.
      rw ((manageable_user-id db now actor id).holds target ht)
        (row_shuts_out p db now actor id given role stands (same_input normal hg ∙ disabled))

-- An update that disables an active user and succeeds leaves no active web session and no active
-- device of the user, and no open session of an agent that the user sponsors.
pub update_user_shuts_out :
    (p : Platform) (db after : AccountDb) (now : Time) (actor : Principal) (id : Uuid)
    (request : UpdateRequest) (input : UpdateUserInput) (role : OrganizationRole) (user : User)
    → normalize_update p request ≡ ok input
    → input.status ≡ some AccountStatus.disabled
    → standing db id ≡ some (role, AccountStatus.active)
    → update_user p db now actor id request ≡ ok (user, after)
    → ShutOut after id
update_user_shuts_out p db after now actor id request input role user normal disabled stands h =
    (update_user-ShutOut p db now actor id request input role normal disabled stands).holds
      (user, after) h
