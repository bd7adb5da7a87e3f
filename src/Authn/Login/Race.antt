-- ===== src/Authn/Login/Race.antt =====
-- Logins that read the account before any of them has written: the count of failures is written from
-- what was read.
use the_pact.Prelude.{◌+◌, ◌<◌, ◌≡◌, refl, ap, ◌∙◌, true, false, some, List, [], ◌∷◌, All, arith}
use the_pact.Text.{Text}
use the_pact.Identity.{Time}
use the_pact.Accounts.{AccountDb, Platform}
use the_pact.Accounts.Joins.{Account, find_account, is_active_account}
use the_pact.Authn.{Secrets, SessionMetadata}
use the_pact.Authn.Login.{failed, finish_login, is_locked, is_login, lock_after, refuse_password}
use the_pact.Authn.Login.Lock.{find_account-record_failed_login}

-- The passwords of requests that all read `account`, in the order of their writes.
unfoldable pub finish_all :
    Platform → AccountDb → Time → Account → Secrets → SessionMetadata → List Text → AccountDb
unfolding finish_login
finish_all p db now account secrets metadata [] = db
finish_all p db now account secrets metadata (password ∷ rest) =
    finish_all p (finish_login p db now account password secrets metadata).0 now account secrets
      metadata rest

refused_row : Time → Account → Account
refused_row now account = record account {
  row =
      failed (account.row.failed_login_attempts + 1)
        (lock_after now (account.row.failed_login_attempts + 1)) account.row;
}

find_account-refuse_password :
    (db : AccountDb) (now : Time) (name : Text) (account seen : Account)
    → seen.principal.id ≡ account.principal.id
    → find_account db (is_login name) ≡ some seen
    → find_account (refuse_password db now account) (is_login name)
      ≡ some (record seen {
        row =
            failed
              (account.row.failed_login_attempts + 1)
              (lock_after now (account.row.failed_login_attempts + 1))
              seen.row;
      })
unfolding refuse_password
find_account-refuse_password db now name account seen same found =
    rw (← same) (find_account-record_failed_login db name seen _ _ found)

finish_login_wrong :
    (p : Platform) (db : AccountDb) (now : Time) (account : Account) (password : Text)
    (secrets : Secrets) (metadata : SessionMetadata)
    → is_active_account account.row.status ≡ true
    → is_locked now account.row ≡ false
    → p.verify_password password account.row.password_hash ≡ false
    → (finish_login p db now account password secrets metadata).0 ≡ refuse_password db now account
unfolding finish_login
finish_login_wrong p db now account password secrets metadata active unlocked wrong =
    rw (active, unlocked, wrong) refl

module _ (p : Platform) (now : Time) (name : Text) (account : Account) (secrets : Secrets)
    (metadata : SessionMetadata) where
  -- What is found behind one more wrong password.
  found_behind :
      (db : AccountDb) (guess : Text) (guesses : List Text)
      → is_active_account account.row.status ≡ true
      → is_locked now account.row ≡ false
      → p.verify_password guess account.row.password_hash ≡ false
      → find_account
          (finish_all p db now account secrets metadata (guess ∷ guesses))
          (is_login name)
        ≡ find_account
            (finish_all p (refuse_password db now account) now account secrets metadata guesses)
            (is_login name)
  unfolding finish_all
  found_behind db guess guesses active unlocked wrong =
      ap
        (λ (d : AccountDb).
          find_account (finish_all p d now account secrets metadata guesses) (is_login name))
        (finish_login_wrong p db now account guess secrets metadata active unlocked wrong)

  still_refused :
      (db : AccountDb) (guesses : List Text)
      → is_active_account account.row.status ≡ true
      → is_locked now account.row ≡ false
      → All (λ g. p.verify_password g account.row.password_hash ≡ false) guesses
      → find_account db (is_login name) ≡ some (refused_row now account)
      → find_account (finish_all p db now account secrets metadata guesses) (is_login name)
        ≡ some (refused_row now account)
  unfolding finish_all refused_row failed
  still_refused db [] active unlocked wrong found = found
  still_refused db (g ∷ guesses) active unlocked wrong found =
      found_behind db g guesses active unlocked wrong.0
      ∙ still_refused (refuse_password db now account) guesses active unlocked wrong.1
          (find_account-refuse_password db now name account (refused_row now account) refl found)

  -- However many wrong passwords are tried for an active account that is not locked, all from one
  -- reading of it that shows fewer than four failures, a single failure is counted and the account
  -- is not locked.
  pub guesses_at_once :
      (db : AccountDb) (later : Time) (guess : Text) (guesses : List Text)
      → is_active_account account.row.status ≡ true
      → is_locked now account.row ≡ false
      → account.row.failed_login_attempts < 4
      → All (λ g. p.verify_password g account.row.password_hash ≡ false) (guess ∷ guesses)
      → find_account db (is_login name) ≡ some account
      → (seen : Account) × (find_account
            (finish_all p db now account secrets metadata (guess ∷ guesses))
            (is_login name)
          ≡ some seen)
        × (seen.row.failed_login_attempts ≡ account.row.failed_login_attempts + 1)
        × (is_locked later seen.row ≡ false)
  unfolding refused_row failed is_locked lock_after
  guesses_at_once db later guess guesses active unlocked few wrong found = (
    refused_row now account,
    found_behind db guess guesses active unlocked wrong.0
        ∙ still_refused (refuse_password db now account) guesses active unlocked wrong.1
            (find_account-refuse_password db now name account account refl found),
    refl,
    ground arith,
  )
