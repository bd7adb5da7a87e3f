-- ===== src/Authn/Passwords/Ends.antt =====
-- Behind a change of password the session that made it is the only way in that is left.
use the_pact.Prelude.{
  ℕ, ◌≡◌, false, ok, Ensures, Ensures-bind, Ensures-or_fail, Ensures-require, Ensures-ok, ◌≢◌, In,
  In-update_where_clears, arith,
}
use the_pact.Text.{Text}
use the_pact.Identity.{Uuid, Time}
use the_pact.Accounts.{AccountDb, DeviceCredential, Platform, WebSession}
use the_pact.Authn.{WebSessionView}
use the_pact.Authn.Sessions.{authenticate_web_session, revoked_session}
use the_pact.Authn.Sessions.Rows
use the_pact.Authn.Devices.{DevicePrincipal, authenticate_device_credential}
use the_pact.Authn.Devices.Rows as DeviceRows
use the_pact.Authn.Passwords.{
  ChangePasswordInput, change_password, is_device_of, is_other_session, revoked_device,
  store_password,
}

-- What is left of the ways in of a principal.
pub record OnlyWayIn (after : AccountDb) (principal current : Uuid) : Type 0 where
  pub sessions :
      (s : WebSession) → In s after.web_sessions → is_other_session principal current s ≡ false
  pub devices :
      (d : DeviceCredential) → In d after.device_credentials → is_device_of principal d ≡ false

abbrev Leaves : Uuid → Uuid → Unit {0} × AccountDb → Type 0
Leaves principal current r = OnlyWayIn r.1 principal current

store_password-Leaves :
    (db : AccountDb) (now : Time) (principal current : Uuid) (hash : Text)
    → Ensures (Leaves principal current) (store_password db now principal current hash)
unfolding store_password is_other_session is_device_of revoked_session revoked_device
store_password-Leaves db now principal current hash = Ensures-require _ _ _ λ exists.
    Ensures-ok _ (record {
      sessions = λ s m.
          In-update_where_clears (is_other_session principal current) (revoked_session now)
            db.web_sessions s (λ x. ground arith) m;
      devices = λ d m.
          In-update_where_clears (is_device_of principal) (revoked_device now) db.device_credentials
            d (λ x. ground arith) m;
    })

change_password-Leaves :
    (p : Platform) (db : AccountDb) (now : Time) (session : WebSessionView)
    (input : ChangePasswordInput) (salt : Text)
    → Ensures (Leaves session.principal.id session.id) (change_password p db now session input salt)
unfolding change_password
change_password-Leaves p db now session input salt = Ensures-bind _ _ λ u valid.
    Ensures-or_fail _ _ _ λ account found. Ensures-require _ _ _ λ right.
      Ensures-require _ _ _ λ different.
        store_password-Leaves db now session.principal.id session.id
          (p.hash_password salt input.new_password)

-- Behind a change of password a web session of the same principal that authenticates is the one
-- that made the change.
pub change_password_ends_sessions :
    (p : Platform) (db after : AccountDb) (now later : Time) (session view : WebSessionView)
    (input : ChangePasswordInput) (salt : Text) (digest : ℕ) (used : AccountDb)
    → change_password p db now session input salt ≡ ok (tt, after)
    → authenticate_web_session after later digest ≡ ok (view, used)
    → view.principal.id ≡ session.principal.id
    → view.id ≡ session.id
unfolding is_other_session
change_password_ends_sessions p db after now later session view input salt digest used h hw own =
    let left = (change_password-Leaves p db now session input salt).holds (tt, after) h in
    let w = Rows.authenticate_web_session-Behind after later digest view used hw in
    ground (arith, left.sessions w.row w.listed, w.active, w.own, w.same_id)

-- Behind a change of password no device of the same principal authenticates.
pub change_password_ends_devices :
    (p : Platform) (db after : AccountDb) (now later : Time) (session : WebSessionView)
    (input : ChangePasswordInput) (salt : Text) (credential : ℕ) (device : DevicePrincipal)
    (used : AccountDb)
    → change_password p db now session input salt ≡ ok (tt, after)
    → authenticate_device_credential after later credential ≡ ok (device, used)
    → device.principal.id ≢ session.principal.id
unfolding is_device_of
change_password_ends_devices p db after now later session input salt credential device used h hd
      same =
    let left = (change_password-Leaves p db now session input salt).holds (tt, after) h in
    let d =
      DeviceRows.authenticate_device_credential-Behind after later credential device used hd in
    ground (arith, left.devices d.row d.listed, d.active, d.own)
