-- ===== src/Authn/Devices/Exchange.antt =====
-- The exchange of a device code for a credential: ExchangeDevice (internal/authn/service.go) and
-- ExchangeDeviceAuthorization (internal/authn/postgres_repository.go). The two clocks of an exchange, the
-- service's and the database's, are one.
use the_pact.Prelude.{
  ℕ, ◌+◌, Bool, ◌&&◌, ◌||◌, not, Option, none, some, Result, ok, err, ◌>>=◌, ◌>>◌, require, or_fail,
  ltb, ◌==◌, if◌then◌else◌, find, any_row, update_where, insert,
}
use the_pact.Text.{Text, text, trim_space}
use the_pact.Identity.{Uuid, Time}
use the_pact.Accounts.{
  AccountDb, AuthorizationStatus, CredentialStatus, DeviceAuthorization, DeviceCredential, Platform,
  Principal, next_id, count_id,
}
use the_pact.Accounts.Joins.{find_account}
use the_pact.Authn.{
  AuthnError, Outcome, authorization_denied, device_code_invalid, device_lifetime, not_found,
  transaction, unavailable,
}
use the_pact.Authn.Checks.{is_secret, new_secret}
use the_pact.Authn.Sessions.{is_active_account_of}
use the_pact.Authn.Devices.{has_credential_digest, is_pending_authorization, is_approved}

unfoldable pub has_device_code : ℕ → DeviceAuthorization → Bool
has_device_code device a = a.device_code_digest == device

abbrev pub has_authorization_id : Uuid → DeviceAuthorization → Bool
has_authorization_id id a = a.id == id

unfoldable pub expired_authorization : DeviceAuthorization → DeviceAuthorization
expired_authorization a = record a { status = AuthorizationStatus.expired }

unfoldable pub is_undecided : AuthorizationStatus → Bool
is_undecided s = is_pending_authorization s || is_approved s

unfoldable pub expire_authorization : AccountDb → DeviceAuthorization → AccountDb
unfolding is_undecided expired_authorization update_where
expire_authorization db a =
    if is_undecided a.status
    then record db {
      device_authorizations =
          update_where (has_authorization_id a.id) expired_authorization db.device_authorizations;
    }
    else db

unfoldable pub consumed_authorization : Time → DeviceAuthorization → DeviceAuthorization
consumed_authorization now a = record a {
  status = AuthorizationStatus.consumed;
  consumed_at = some now;
}

unfoldable pub is_approved_authorization : Uuid → DeviceAuthorization → Bool
is_approved_authorization id a = a.id == id && is_approved a.status

abbrev pub new_credential : Uuid → Uuid → Text → ℕ → Time → DeviceCredential
new_credential id principal name digest expires = record {
  id = id;
  principal_id = principal;
  name = name;
  credential_digest = digest;
  status = CredentialStatus.active;
  expires_at = expires;
  last_used_at = none;
  revoked_at = none;
}

pub record AuthorizedDevice : Type 0 where
  pub credential_id : Uuid
  pub principal : Principal
  pub expires_at : Time

pub data ExchangeRecord : Type 0 where
  waiting : ExchangeRecord
  authorized : AuthorizedDevice → ExchangeRecord

-- The credential of an authorization that a principal approved.
unfoldable pub grant_credential :
    AccountDb
    → Time
    → DeviceAuthorization
    → Uuid
    → ℕ
    → Time
    → Result AuthnError (ExchangeRecord × AccountDb)
unfolding find_account is_active_account_of has_credential_digest is_approved_authorization
    consumed_authorization any_row update_where
grant_credential db now a principal credential expires = do
  account ← or_fail (find_account db (is_active_account_of principal)) not_found
  require (not (any_row (has_credential_digest credential) db.device_credentials)) unavailable
  let device : AuthorizedDevice = record {
    credential_id = next_id db;
    principal = account.principal;
    expires_at = expires;
  }
  ok (
    authorized device,
    record db {
      device_credentials =
          insert (new_credential (next_id db) principal a.device_name credential expires)
            db.device_credentials;
      device_authorizations =
          update_where (is_approved_authorization a.id) (consumed_authorization now)
            db.device_authorizations;
      work = count_id db.work;
    },
  )

-- The switch on the status of an authorization that has not expired.
unfoldable pub exchange_status :
    AccountDb
    → Time
    → DeviceAuthorization
    → AuthorizationStatus
    → Option Uuid
    → ℕ
    → Time
    → Result AuthnError (ExchangeRecord × AccountDb)
unfolding grant_credential
exchange_status db now a AuthorizationStatus.pending principal credential expires = ok (waiting, db)
exchange_status db now a AuthorizationStatus.denied principal credential expires =
    err authorization_denied
exchange_status db now a AuthorizationStatus.approved none credential expires =
    err device_code_invalid
exchange_status db now a AuthorizationStatus.approved (some principal) credential expires =
    grant_credential db now a principal credential expires
exchange_status db now a _ principal credential expires = err device_code_invalid

unfoldable pub exchange_device_authorization :
    AccountDb → Time → ℕ → ℕ → Time → Outcome ExchangeRecord
unfolding has_device_code expire_authorization exchange_status transaction
exchange_device_authorization db now device credential expires =
    elim (find (has_device_code device) db.device_authorizations) [
      | none ↦ (db, err device_code_invalid)
      | some a ↦
          if not (ltb now a.expires_at)
          then (expire_authorization db a, err device_code_invalid)
          else transaction db (exchange_status db now a a.status a.principal_id credential expires)
    ]

-- `encoded` is the random part of the credential.
unfoldable pub exchange_device : Platform → AccountDb → Time → Text → Text → Outcome ExchangeRecord
unfolding trim_space is_secret exchange_device_authorization
exchange_device p db now device_code encoded =
    let code = trim_space device_code in
    if is_secret (text "pact_device_code_") 48 code
    then exchange_device_authorization db now (p.sha256 code)
        (p.sha256 (new_secret (text "pact_device_") encoded)) (now + device_lifetime)
    else (db, err device_code_invalid)
