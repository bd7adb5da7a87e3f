-- ===== src/Authn/Sessions.antt =====
-- Web sessions: insertWebSession, CreateWebSession, AuthenticateWebSession and RevokeWebSession
-- (internal/authn/postgres_repository.go), AuthenticateWeb, ValidateCSRF and LogoutWeb
-- (internal/authn/service.go).
pub mod Fresh
pub mod Rows
use mathlib.Core.Option
use the_pact.Prelude.{
  ℕ, Bool, true, false, ◌&&◌, not, none, some, Result, ok, ◌>>=◌, ◌>>◌, require, or_fail, ltb, ◌==◌,
  find, any_row, update_where, insert,
}
use the_pact.Text.{Text, text, trim_space}
use the_pact.Identity.{Uuid, Time}
use the_pact.Accounts.{
  AccountDb, CredentialStatus, LocalAccount, Platform, Principal, WebSession, next_id, count_id,
}
use the_pact.Accounts.Joins.{find_account, identity_of, is_account_of, is_active_account, is_some}
use the_pact.Authn.{
  AuthnError, CreatedWebSession, Secrets, WebSessionView, not_found, unauthorized, unavailable,
}
use the_pact.Authn.Checks.{StoredMetadata, is_secret, new_secret}

abbrev pub is_active_credential : CredentialStatus → Bool
is_active_credential CredentialStatus.active = true
is_active_credential CredentialStatus.revoked = false

unfoldable pub has_session_digest : ℕ → WebSession → Bool
has_session_digest digest s = s.session_digest == digest

-- The row that insertWebSession writes.
abbrev pub new_web_session : Uuid → Principal → ℕ → ℕ → Time → Text → Text → WebSession
new_web_session id principal digest csrf expires user_agent remote_address = record {
  id = id;
  principal_id = principal.id;
  session_digest = digest;
  csrf_digest = csrf;
  user_agent = user_agent;
  remote_address = remote_address;
  status = CredentialStatus.active;
  expires_at = expires;
  last_used_at = none;
  revoked_at = none;
}

abbrev pub session_view : Principal → WebSession → WebSessionView
session_view principal s = record {
  id = s.id;
  principal = principal;
  expires_at = s.expires_at;
  csrf_digest = s.csrf_digest;
}

abbrev pub with_web_session : AccountDb → WebSession → AccountDb
with_web_session db s = record db {
  web_sessions = insert s db.web_sessions;
  work = count_id db.work;
}

unfoldable pub insert_web_session :
    AccountDb
    → Principal
    → ℕ
    → ℕ
    → Time
    → StoredMetadata
    → Result AuthnError (WebSessionView × AccountDb)
unfolding has_session_digest any_row
insert_web_session db principal digest csrf expires metadata = do
  user_agent ← or_fail metadata.user_agent unavailable
  remote_address ← or_fail metadata.remote_address unavailable
  require (not (any_row (has_session_digest digest) db.web_sessions)) unavailable
  let s : WebSession =
      new_web_session (next_id db) principal digest csrf expires user_agent remote_address
  ok (session_view principal s, with_web_session db s)

unfoldable pub clear_failures : LocalAccount → LocalAccount
clear_failures a = record a { failed_login_attempts = 0; locked_until = none }

unfoldable pub is_active_account_of : Uuid → LocalAccount → Bool
unfolding is_account_of
is_active_account_of id a = is_account_of id a && is_active_account a.status

unfoldable pub create_web_session :
    AccountDb
    → Uuid
    → ℕ
    → ℕ
    → Time
    → StoredMetadata
    → Result AuthnError (WebSessionView × AccountDb)
unfolding clear_failures is_active_account_of find_account insert_web_session
create_web_session db principal digest csrf expires metadata = do
  account ← or_fail (find_account db (is_active_account_of principal)) not_found
  insert_web_session
      (record db { accounts = update_where (is_account_of principal) clear_failures db.accounts })
      account.principal digest csrf expires metadata

-- A session that `create` makes, with the secrets that only the caller gets.
unfoldable pub start_session :
    Platform
    → (ℕ → ℕ → Result AuthnError (WebSessionView × AccountDb))
    → Secrets
    → Result AuthnError (CreatedWebSession × AccountDb)
start_session p create secrets =
    let session = new_secret (text "pact_web_") secrets.session in
    let csrf = new_secret (text "pact_csrf_") secrets.csrf in
    create (p.sha256 session) (p.sha256 csrf) >>= λ (view, after).
    ok (record { session = view; session_secret = session; csrf_secret = csrf }, after)

unfoldable pub is_usable_session : AccountDb → Time → ℕ → WebSession → Bool
unfolding has_session_digest is_active_account_of any_row identity_of
is_usable_session db now digest s =
    has_session_digest digest s
    && is_active_credential s.status
    && ltb now s.expires_at
    && any_row (is_active_account_of s.principal_id) db.accounts
    && is_some (identity_of db s.principal_id)

unfoldable pub used_session : Time → WebSession → WebSession
used_session now s = record s { last_used_at = some now }

unfoldable pub authenticate_web_session :
    AccountDb → Time → ℕ → Result AuthnError (WebSessionView × AccountDb)
unfolding is_usable_session used_session find update_where
authenticate_web_session db now digest = do
  s ← or_fail (find (is_usable_session db now digest) db.web_sessions) unauthorized
  principal ← or_fail (identity_of db s.principal_id) unauthorized
  ok (
    session_view principal s,
    record db {
      web_sessions =
          update_where (is_usable_session db now digest) (used_session now) db.web_sessions;
    },
  )

unfoldable pub authenticate_web :
    Platform → AccountDb → Time → Text → Result AuthnError (WebSessionView × AccountDb)
unfolding trim_space is_secret authenticate_web_session
authenticate_web p db now raw = do
  require (is_secret (text "pact_web_") 40 (trim_space raw)) unauthorized
  authenticate_web_session db now (p.sha256 (trim_space raw))

unfoldable pub validate_csrf : Platform → WebSessionView → Text → Bool
unfolding trim_space
validate_csrf p session raw = p.sha256 (trim_space raw) == session.csrf_digest

unfoldable pub revoked_session : Time → WebSession → WebSession
revoked_session now s = record s { status = CredentialStatus.revoked; revoked_at = some now }

unfoldable pub is_own_session : Uuid → Uuid → WebSession → Bool
is_own_session principal id s =
    s.principal_id == principal && s.id == id && is_active_credential s.status

unfoldable pub revoke_web_session :
    AccountDb → Time → Uuid → Uuid → Result AuthnError (Unit {0} × AccountDb)
unfolding is_own_session revoked_session any_row update_where
revoke_web_session db now principal id = do
  require (any_row (is_own_session principal id) db.web_sessions) not_found
  ok (
    tt,
    record db {
      web_sessions =
          update_where (is_own_session principal id) (revoked_session now) db.web_sessions;
    },
  )

unfoldable pub logout_web :
    AccountDb → Time → WebSessionView → Result AuthnError (Unit {0} × AccountDb)
unfolding revoke_web_session
logout_web db now session = revoke_web_session db now session.principal.id session.id
