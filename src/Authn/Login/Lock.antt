-- ===== src/Authn/Login/Lock.antt =====
-- Failed logins and the lock of an account.
use the_pact.Prelude.{
  ℕ, ◌+◌, ◌≤◌, ◌<◌, ◌≡◌, refl, inl, inr, true, false, ◌||◌, Option, some, [], err, Bool-cases,
  arith,
}
use the_pact.Text.{Text, text_eq}
use the_pact.Identity.{Time}
use the_pact.Accounts.{AccountDb, LocalAccount, Platform}
use the_pact.Accounts.Joins.{Account, find_account, is_account_of, is_active_account}
use the_pact.Accounts.Joins.Laws.{find_account-Found, find_account-update}
use the_pact.Authn.{LoginInput, Secrets, SessionMetadata, invalid_credentials, login_lock_duration}
use the_pact.Authn.Login.{
  failed, finish_login, is_locked, is_login, lock_after, login, login_name, record_failed_login,
  refuse_password,
}

-- An account that is locked is refused, whatever is typed.
pub login-is_locked :
    (p : Platform) (db : AccountDb) (now : Time) (input : LoginInput) (secrets : Secrets)
    (metadata : SessionMetadata) (account : Account)
    → find_account db (is_login (login_name p input)) ≡ some account
    → is_locked now account.row ≡ true
    → login p db now input secrets metadata ≡ (db, err invalid_credentials)
unfolding login finish_login
login-is_locked p db now input secrets metadata account found locked =
    elim (Bool-cases (text_eq (login_name p input) [] || text_eq input.password [])) [
      | inl blank ↦ rw blank refl
      | inr typed ↦
          rw (typed, found)
            (elim (Bool-cases (is_active_account account.row.status)) [
              | inl a ↦ rw (a, locked) refl
              | inr a ↦ rw a refl
            ])
    ]

-- The refusal of a wrong password is recorded in the account's row.
pub login_refused :
    (p : Platform) (db : AccountDb) (now : Time) (input : LoginInput) (secrets : Secrets)
    (metadata : SessionMetadata) (account : Account)
    → text_eq (login_name p input) [] ≡ false
    → text_eq input.password [] ≡ false
    → find_account db (is_login (login_name p input)) ≡ some account
    → is_active_account account.row.status ≡ true
    → is_locked now account.row ≡ false
    → p.verify_password input.password account.row.password_hash ≡ false
    → login p db now input secrets metadata
      ≡ (refuse_password db now account, err invalid_credentials)
unfolding login finish_login
login_refused p db now input secrets metadata account named typed found active unlocked wrong =
    rw (named, typed, found, active, unlocked, wrong) refl

pub find_account-record_failed_login :
    (db : AccountDb) (name : Text) (account : Account) (attempts : ℕ) (until : Option Time)
    → find_account db (is_login name) ≡ some account
    → find_account (record_failed_login db account.principal.id attempts until) (is_login name)
      ≡ some (record account { row = failed attempts until account.row })
unfolding record_failed_login is_login failed
find_account-record_failed_login db name account attempts until found =
    rw
      (find_account-update db (is_account_of account.principal.id) (failed attempts until)
        (is_login name) (λ a. refl) (λ a. refl) account found)
      (rw own refl)
  where
    own : is_account_of account.principal.id account.row ≡ true
    own = ground (arith, (find_account-Found db (is_login name) account found).own)

-- The fifth wrong password in a row, or a later one.
pub record WrongAgain (p : Platform) (db : AccountDb) (now : Time) (input : LoginInput)
    (account : Account) : Type 0 where
  pub named : text_eq (login_name p input) [] ≡ false
  pub typed : text_eq input.password [] ≡ false
  pub found : find_account db (is_login (login_name p input)) ≡ some account
  pub active : is_active_account account.row.status ≡ true
  pub unlocked : is_locked now account.row ≡ false
  pub fifth : 4 ≤ account.row.failed_login_attempts
  pub wrong : p.verify_password input.password account.row.password_hash ≡ false

lock_after_fifth :
    (now later : Time) (attempts : ℕ) (row : LocalAccount)
    → 4 ≤ attempts
    → later < now + login_lock_duration
    → is_locked later (failed (attempts + 1) (lock_after now (attempts + 1)) row) ≡ true
unfolding is_locked failed lock_after
lock_after_fifth now later attempts row fifth soon = ground arith

-- A wrong password that is not empty, for an active account that is not locked and has at least
-- four failures, is refused, and every login for the same name that starts within the next fifteen
-- minutes is refused with the same error and writes nothing, also with the right password.
pub login_locks :
    (p : Platform) (db : AccountDb) (now later : Time) (input again : LoginInput)
    (secrets other : Secrets) (metadata from : SessionMetadata) (account : Account)
    → WrongAgain p db now input account
    → login_name p again ≡ login_name p input
    → later < now + login_lock_duration
    → (after : AccountDb) × (login p db now input secrets metadata
        ≡ (after, err invalid_credentials))
      × (login p after later again other from ≡ (after, err invalid_credentials))
unfolding refuse_password
login_locks p db now later input again secrets other metadata from account w same soon = (
  refuse_password db now account,
  login_refused p db now input secrets metadata account w.named w.typed w.found w.active w.unlocked
      w.wrong,
  login-is_locked p (refuse_password db now account) later again other from
      (record account { row = refused })
      (rw same (find_account-record_failed_login db (login_name p input) account _ _ w.found))
      (lock_after_fifth now later account.row.failed_login_attempts account.row w.fifth soon),
)
  where
    refused : LocalAccount
    refused =
        failed (account.row.failed_login_attempts + 1)
          (lock_after now (account.row.failed_login_attempts + 1)) account.row
