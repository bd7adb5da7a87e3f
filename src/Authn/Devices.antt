-- ===== src/Authn/Devices.antt =====
-- Devices: BeginDevice, ApproveDevice, AuthenticateDevice, RevokeDevice and RevokeCurrentDevice
-- (internal/authn/service.go) with CreateDeviceAuthorization, ApproveDeviceAuthorization,
-- AuthenticateDevice and revokeDevice (internal/authn/postgres_repository.go).
pub mod Rows
pub mod Once
pub mod Exchange
use the_pact.Prelude.{
  ℕ, ◌+◌, Bool, true, false, ◌&&◌, ◌||◌, not, none, some, [], Result, ok, require, or_fail, ltb,
  leb, ◌==◌, length, find, any_row, update_where, insert, ◌>>=◌, ◌>>◌,
}
use the_pact.Text.{Text, text, text_eq, trim_space, byte_len}
use the_pact.Identity.{Uuid, Time}
use the_pact.Accounts.{
  AccountDb, AuthorizationStatus, DeviceAuthorization, DeviceCredential, Platform, Principal,
  next_id, count_id,
}
use the_pact.Accounts.Joins.{identity_of, is_some}
use the_pact.Authn.{
  AuthnError, device_code_invalid, device_code_lifetime, not_found, unauthorized, unavailable,
  validation,
}
use the_pact.Authn.Checks.{is_secret, new_secret}
use the_pact.Authn.Sessions.{is_active_account_of, is_active_credential}
use the_pact.Authn.Passwords.{revoked_device}
use the_pact.Authn.UserCode.{normalize_user_code}

-- What a device shows and keeps.
pub record DeviceCode : Type 0 where
  pub device_code : Text
  pub user_code : Text
  pub expires_at : Time

-- device_authorizations_device_digest_uq and device_authorizations_user_digest_uq
unfoldable pub has_code : ℕ → ℕ → DeviceAuthorization → Bool
has_code device user a = a.device_code_digest == device || a.user_code_digest == user

abbrev pub new_authorization : Uuid → Text → ℕ → ℕ → Time → DeviceAuthorization
new_authorization id name device user expires = record {
  id = id;
  device_name = name;
  device_code_digest = device;
  user_code_digest = user;
  status = AuthorizationStatus.pending;
  principal_id = none;
  expires_at = expires;
  approved_at = none;
  consumed_at = none;
}

unfoldable pub create_device_authorization :
    AccountDb → Text → ℕ → ℕ → Time → Result AuthnError AccountDb
unfolding has_code any_row
create_device_authorization db name device user expires = do
  require (not (any_row (has_code device user) db.device_authorizations)) unavailable
  ok (record db {
    device_authorizations =
        insert (new_authorization (next_id db) name device user expires) db.device_authorizations;
    work = count_id db.work;
  })

-- `encoded` and `user_code` are the random parts.
unfoldable pub begin_device :
    Platform → AccountDb → Time → Text → Text → Text → Result AuthnError (DeviceCode × AccountDb)
unfolding trim_space text_eq create_device_authorization
begin_device p db now device_name encoded user_code = do
  let name = trim_space device_name
  require (not (text_eq name []) && leb (length name) 200)
      (validation "device_name" "must contain 1 to 200 characters")
  let device_code = new_secret (text "pact_device_code_") encoded
  let expires = now + device_code_lifetime
  after ← create_device_authorization db name (p.sha256 device_code) (p.sha256 user_code) expires
  let shown : DeviceCode = record {
    device_code = device_code;
    user_code = user_code;
    expires_at = expires;
  }
  ok (shown, after)

abbrev pub is_pending_authorization : AuthorizationStatus → Bool
is_pending_authorization AuthorizationStatus.pending = true
is_pending_authorization _ = false

abbrev pub is_approved : AuthorizationStatus → Bool
is_approved AuthorizationStatus.approved = true
is_approved _ = false

unfoldable pub may_approve : Time → ℕ → DeviceAuthorization → Bool
may_approve now user a =
    a.user_code_digest == user && is_pending_authorization a.status && ltb now a.expires_at

unfoldable pub approved_by : Time → Uuid → DeviceAuthorization → DeviceAuthorization
approved_by now principal a = record a {
  status = AuthorizationStatus.approved;
  principal_id = some principal;
  approved_at = some now;
}

unfoldable pub approve_device_authorization :
    AccountDb → Time → Uuid → ℕ → Result AuthnError (Unit {0} × AccountDb)
unfolding may_approve approved_by any_row update_where
approve_device_authorization db now principal user = do
  require (any_row (may_approve now user) db.device_authorizations) device_code_invalid
  ok (
    tt,
    record db {
      device_authorizations =
          update_where (may_approve now user) (approved_by now principal) db.device_authorizations;
    },
  )

unfoldable pub approve_device :
    Platform → AccountDb → Time → Principal → Text → Result AuthnError (Unit {0} × AccountDb)
unfolding normalize_user_code byte_len approve_device_authorization
approve_device p db now principal raw = do
  code ← or_fail (normalize_user_code p.upper raw) device_code_invalid
  require (byte_len code == 9) device_code_invalid
  approve_device_authorization db now principal.id (p.sha256 code)

unfoldable pub has_credential_digest : ℕ → DeviceCredential → Bool
has_credential_digest digest d = d.credential_digest == digest

pub record DevicePrincipal : Type 0 where
  pub credential_id : Uuid
  pub principal : Principal

unfoldable pub is_usable_credential : AccountDb → Time → ℕ → DeviceCredential → Bool
unfolding has_credential_digest is_active_account_of any_row identity_of
is_usable_credential db now digest d =
    has_credential_digest digest d
    && is_active_credential d.status
    && ltb now d.expires_at
    && any_row (is_active_account_of d.principal_id) db.accounts
    && is_some (identity_of db d.principal_id)

unfoldable pub used_credential : Time → DeviceCredential → DeviceCredential
used_credential now d = record d { last_used_at = some now }

unfoldable pub authenticate_device_credential :
    AccountDb → Time → ℕ → Result AuthnError (DevicePrincipal × AccountDb)
unfolding is_usable_credential used_credential find update_where
authenticate_device_credential db now digest = do
  d ← or_fail (find (is_usable_credential db now digest) db.device_credentials) unauthorized
  principal ← or_fail (identity_of db d.principal_id) unauthorized
  ok (
    record { credential_id = d.id; principal = principal },
    record db {
      device_credentials =
          update_where (is_usable_credential db now digest) (used_credential now)
            db.device_credentials;
    },
  )

unfoldable pub authenticate_device :
    Platform → AccountDb → Time → Text → Result AuthnError (DevicePrincipal × AccountDb)
unfolding trim_space is_secret authenticate_device_credential
authenticate_device p db now raw = do
  require (is_secret (text "pact_device_") 40 (trim_space raw)) unauthorized
  authenticate_device_credential db now (p.sha256 (trim_space raw))

unfoldable pub is_own_device : Uuid → Uuid → DeviceCredential → Bool
is_own_device principal id d =
    d.principal_id == principal && d.id == id && is_active_credential d.status

unfoldable pub revoke_device :
    AccountDb → Time → Uuid → Uuid → Result AuthnError (Unit {0} × AccountDb)
unfolding is_own_device revoked_device any_row update_where
revoke_device db now principal id = do
  require (any_row (is_own_device principal id) db.device_credentials) not_found
  ok (
    tt,
    record db {
      device_credentials =
          update_where (is_own_device principal id) (revoked_device now) db.device_credentials;
    },
  )
