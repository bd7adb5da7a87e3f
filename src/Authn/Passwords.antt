-- ===== src/Authn/Passwords.antt =====
-- The change of a password: Service.ChangePassword (internal/authn/service.go) and
-- PostgresRepository.ChangePassword (internal/authn/postgres_repository.go).
pub mod Ends
use the_pact.Prelude.{
  Bool, ◌&&◌, not, some, Result, ok, require, or_fail, ◌==◌, any_row, update_where, ◌>>=◌, ◌>>◌,
}
use the_pact.Text.{Text}
use the_pact.Identity.{Uuid, Time}
use the_pact.Accounts.{
  AccountDb, CredentialStatus, DeviceCredential, LocalAccount, Platform, WebSession,
}
use the_pact.Accounts.Joins.{find_account, is_account_of}
use the_pact.Authn.{AuthnError, WebSessionView, invalid_credentials, not_found, validation}
use the_pact.Authn.Checks.{validate_password}
use the_pact.Authn.Sessions.{
  clear_failures, is_active_account_of, is_active_credential, revoked_session,
}

pub record ChangePasswordInput : Type 0 where
  pub current_password : Text
  pub new_password : Text

unfoldable pub is_other_session : Uuid → Uuid → WebSession → Bool
is_other_session principal current s =
    s.principal_id == principal && not (s.id == current) && is_active_credential s.status

unfoldable pub is_device_of : Uuid → DeviceCredential → Bool
is_device_of principal d = d.principal_id == principal && is_active_credential d.status

unfoldable pub revoked_device : Time → DeviceCredential → DeviceCredential
revoked_device now d = record d { status = CredentialStatus.revoked; revoked_at = some now }

unfoldable pub with_password : Text → LocalAccount → LocalAccount
unfolding clear_failures
with_password hash a = record (clear_failures a) { password_hash = hash }

unfoldable pub store_password :
    AccountDb → Time → Uuid → Uuid → Text → Result AuthnError (Unit {0} × AccountDb)
unfolding is_active_account_of with_password is_other_session revoked_session is_device_of
    revoked_device any_row update_where
store_password db now principal current hash = do
  require (any_row (is_active_account_of principal) db.accounts) not_found
  ok (
    tt,
    record db {
      accounts = update_where (is_active_account_of principal) (with_password hash) db.accounts;
      web_sessions =
          update_where (is_other_session principal current) (revoked_session now) db.web_sessions;
      device_credentials =
          update_where (is_device_of principal) (revoked_device now) db.device_credentials;
    },
  )

unfoldable pub change_password :
    Platform
    → AccountDb
    → Time
    → WebSessionView
    → ChangePasswordInput
    → Text
    → Result AuthnError (Unit {0} × AccountDb)
unfolding validate_password find_account is_account_of store_password
change_password p db now session input salt = do
  validate_password input.new_password
  account ← or_fail (find_account db (is_account_of session.principal.id)) not_found
  require (p.verify_password input.current_password account.row.password_hash) invalid_credentials
  require (not (p.verify_password input.new_password account.row.password_hash))
      (validation "new_password" "must be different from the current password")
  store_password db now session.principal.id session.id (p.hash_password salt input.new_password)
