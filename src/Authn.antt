-- ===== src/Authn.antt =====
-- Accounts, their sessions and their devices: internal/authn. `Checks` is what the service looks at
-- before the repository, `Sessions` the setup, the login and the web sessions, `Invitations` how an
-- invitation becomes an account or a membership, `Devices` the authorization of devices.
pub mod Checks
pub mod Sessions
pub mod Login
pub mod Setup
pub mod Passwords
pub mod Invitations
pub mod UserCode
pub mod Devices
use the_pact.Prelude.{String, ℕ, Result, ok, err}
use the_pact.Text.{Text}
use the_pact.Identity.{Uuid, Time, seconds}
use the_pact.Accounts.{AccountDb, Principal}

pub data AuthnError : Type 0 where
  unauthorized invalid_credentials setup_unavailable already_configured : AuthnError
  account_exists invitation_invalid invitation_mismatch device_code_invalid : AuthnError
  authorization_denied not_found : AuthnError
  validation : String → String → AuthnError
  -- a statement that the database refuses
  unavailable : AuthnError

pub record AccountInput : Type 0 where
  pub display_name : Text
  pub email : Text
  pub username : Text
  pub password : Text

pub record LoginInput : Type 0 where
  pub login : Text
  pub password : Text

pub record SessionMetadata : Type 0 where
  pub user_agent : Text
  pub remote_address : Text

pub record WebSessionView : Type 0 where
  pub id : Uuid
  pub principal : Principal
  pub expires_at : Time
  pub csrf_digest : ℕ

pub record CreatedWebSession : Type 0 where
  pub session : WebSessionView
  pub session_secret : Text
  pub csrf_secret : Text

-- The random parts of the two secrets of a web session.
pub record Secrets : Type 0 where
  pub session : Text
  pub csrf : Text

abbrev pub web_session_lifetime : Time
web_session_lifetime = seconds 43200

abbrev pub device_lifetime : Time
device_lifetime = seconds 2592000

abbrev pub device_code_lifetime : Time
device_code_lifetime = seconds 600

abbrev pub maximum_failed_logins : ℕ
maximum_failed_logins = 5

abbrev pub login_lock_duration : Time
login_lock_duration = seconds 900

-- What an operation answers, and the database behind it, where an error may have written too.
abbrev pub Outcome : Type 0 → Type 0
Outcome A = AccountDb × Result AuthnError A

-- A transaction that an error rolls back.
unfoldable pub transaction :
    {A : Type 0} → AccountDb → Result AuthnError (A × AccountDb) → Outcome A
transaction db (ok (a, after)) = (after, ok a)
transaction db (err e) = (db, err e)
