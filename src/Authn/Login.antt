-- ===== src/Authn/Login.antt =====
-- The login and its lock: Service.Login (internal/authn/service.go), FindAccountByLogin and
-- RecordFailedLogin (internal/authn/postgres_repository.go).
pub mod Lock
pub mod Race
pub mod Progress
use the_pact.Prelude.{
  ℕ, ◌+◌, Bool, false, ◌||◌, not, Option, none, some, [], err, ltb, leb, if◌then◌else◌,
  update_where,
}
use the_pact.Text.{Text, text_eq, trim_space, to_lower}
use the_pact.Identity.{Uuid, Time}
use the_pact.Accounts.{AccountDb, LocalAccount, Platform}
use the_pact.Accounts.Joins.{Account, find_account, is_account_of, is_active_account}
use the_pact.Authn.{
  CreatedWebSession, LoginInput, Outcome, Secrets, SessionMetadata, invalid_credentials,
  login_lock_duration, maximum_failed_logins, transaction, web_session_lifetime,
}
use the_pact.Authn.Checks.{sanitize_metadata}
use the_pact.Authn.Sessions.{create_web_session, start_session}

unfoldable pub failed : ℕ → Option Time → LocalAccount → LocalAccount
failed attempts until a = record a { failed_login_attempts = attempts; locked_until = until }

unfoldable pub record_failed_login : AccountDb → Uuid → ℕ → Option Time → AccountDb
unfolding failed update_where is_account_of
record_failed_login db principal attempts until = record db {
  accounts = update_where (is_account_of principal) (failed attempts until) db.accounts;
}

unfoldable pub is_locked : Time → LocalAccount → Bool
is_locked now a = elim a.locked_until [ none ↦ false | some until ↦ ltb now until ]

-- The fifth failure locks the account for a while.
unfoldable pub lock_after : Time → ℕ → Option Time
lock_after now attempts =
    if leb maximum_failed_logins attempts then some (now + login_lock_duration) else none

unfoldable pub refuse_password : AccountDb → Time → Account → AccountDb
unfolding record_failed_login lock_after
refuse_password db now account =
    let attempts = account.row.failed_login_attempts + 1 in
    record_failed_login db account.principal.id attempts (lock_after now attempts)

-- The login from the account that was read; what it writes meets the database of that moment.
unfoldable pub finish_login :
    Platform
    → AccountDb
    → Time
    → Account
    → Text
    → Secrets
    → SessionMetadata
    → Outcome CreatedWebSession
unfolding is_locked refuse_password start_session create_web_session transaction sanitize_metadata
finish_login p db now account password secrets metadata =
    if not (is_active_account account.row.status) || is_locked now account.row
    then (db, err invalid_credentials)
    else if not (p.verify_password password account.row.password_hash)
    then (refuse_password db now account, err invalid_credentials)
    else transaction db (
        start_session p
          (λ digest csrf.
            create_web_session db account.principal.id digest csrf (now + web_session_lifetime)
              (sanitize_metadata metadata))
          secrets)

unfoldable pub is_login : Text → LocalAccount → Bool
unfolding text_eq
is_login name a = text_eq a.email name || text_eq a.username name

unfoldable pub login_name : Platform → LoginInput → Text
unfolding trim_space to_lower
login_name p input = to_lower p.lower (trim_space input.login)

unfoldable pub login :
    Platform → AccountDb → Time → LoginInput → Secrets → SessionMetadata → Outcome CreatedWebSession
unfolding login_name is_login find_account finish_login
login p db now input secrets metadata =
    let name = login_name p input in
    if text_eq name [] || text_eq input.password []
    then (db, err invalid_credentials)
    else elim (find_account db (is_login name)) [
      | none ↦ (db, err invalid_credentials)
      | some account ↦ finish_login p db now account input.password secrets metadata
    ]
