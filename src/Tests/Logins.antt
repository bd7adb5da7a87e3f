-- ===== src/Tests/Logins.antt =====
-- Logins and passwords at the company.
use the_pact.Prelude.{ℕ, ◌≡◌, refl, true, false, some, [], ◌∷◌, ok, err, find, any_row, arith}
use the_pact.Text.{text, text_eq, byte_len, is_space}
use the_pact.Text.Laws.{Visible}
use the_pact.Accounts.{AccountDb}
use the_pact.Accounts.Joins.{Account, find_account}
use the_pact.Authn.{CreatedWebSession, WebSessionView, invalid_credentials}
use the_pact.Authn.Checks.{new_secret, sanitize_metadata}
use the_pact.Authn.Sessions.{authenticate_web, has_session_digest}
use the_pact.Authn.Sessions.Fresh.{Storable}
use the_pact.Authn.Login.{is_locked, is_login, login, login_name}
use the_pact.Authn.Login.Lock.{WrongAgain, login_locks}
use the_pact.Authn.Login.Race.{finish_all, guesses_at_once}
use the_pact.Authn.Login.Progress.{RightPassword, login_authenticates}
use the_pact.Authn.UserCode.{new_user_code, normalize_user_code}
use the_pact.Authn.UserCode.RoundTrip.{typed_code, user_code_round_trip}
use the_pact.Tests.Company.{
  ada_account, ben, ben_account, company, fingerprint, metadata, platform, secrets, typed,
}

wrong_again : WrongAgain platform company 100 (typed (text "ada") (text "steam engine")) ada_account
unfolding login_name is_login find_account find is_locked text_eq
wrong_again = record {
  named = refl;
  typed = refl;
  found = refl;
  active = refl;
  unlocked = refl;
  fifth = omega arith;
  wrong = refl;
}

login_locks_example :
    (after : AccountDb) × (login platform company 100
        (typed (text "ada") (text "steam engine"))
        secrets
        metadata
      ≡ (after, err invalid_credentials))
    × (login platform after 200 (typed (text "ada") (text "difference engine")) secrets metadata
        ≡ (after, err invalid_credentials))
unfolding login_name
login_locks_example =
    login_locks platform company 100 200 (typed (text "ada") (text "steam engine"))
      (typed (text "ada") (text "difference engine")) secrets secrets metadata metadata ada_account
      wrong_again refl (omega arith)

guesses_at_once_example :
    (seen : Account) × (find_account
        (finish_all platform company 100 ben_account secrets metadata
          (text "a" ∷ text "b" ∷ text "c" ∷ text "d" ∷ text "e" ∷ text "f" ∷ []))
        (is_login (text "ben"))
      ≡ some seen)
    × (seen.row.failed_login_attempts ≡ 1)
    × (is_locked 101 seen.row ≡ false)
unfolding is_login find_account find is_locked text_eq
guesses_at_once_example =
    guesses_at_once platform 100 (text "ben") ben_account secrets metadata company 101 (text "a")
      (text "b" ∷ text "c" ∷ text "d" ∷ text "e" ∷ text "f" ∷ []) refl refl (omega arith)
      (refl, (refl, (refl, (refl, (refl, (refl, tt)))))) refl

right_password :
    RightPassword platform company 100 (typed (text "ben") (text "correct horse")) ben_account
unfolding login_name is_login find_account find is_locked text_eq
right_password = record {
  named = refl;
  typed = refl;
  found = refl;
  active = refl;
  unlocked = refl;
  right = refl;
}

web_digest : ℕ
web_digest = platform.sha256 (new_secret (text "pact_web_") secrets.session)

storable : Storable company web_digest (sanitize_metadata metadata)
unfolding any_row sanitize_metadata web_digest fingerprint has_session_digest
storable = record {
  user_agent = text "browser";
  agent_is_text = refl;
  remote_address = text "::1";
  address_is_text = refl;
  fresh = refl;
}

shown_secret : Visible secrets.session
unfolding is_space
shown_secret = (
  refl,
  (
    refl,
    (
      refl,
      (
        refl,
        (
          refl,
          (
            refl,
            (
              refl,
              (
                refl,
                (
                  refl,
                  (
                    refl,
                    (
                      refl,
                      (
                        refl,
                        (
                          refl,
                          (
                            refl,
                            (
                              refl,
                              (
                                refl,
                                (
                                  refl,
                                  (
                                    refl,
                                    (
                                      refl,
                                      (
                                        refl,
                                        (
                                          refl,
                                          (
                                            refl,
                                            (
                                              refl,
                                              (
                                                refl,
                                                (
                                                  refl,
                                                  (
                                                    refl,
                                                    (
                                                      refl,
                                                      (refl, (refl, (refl, (refl, (refl, tt))))),
                                                    ),
                                                  ),
                                                ),
                                              ),
                                            ),
                                          ),
                                        ),
                                      ),
                                    ),
                                  ),
                                ),
                              ),
                            ),
                          ),
                        ),
                      ),
                    ),
                  ),
                ),
              ),
            ),
          ),
        ),
      ),
    ),
  ),
)

login_authenticates_example :
    (created : CreatedWebSession) × (after : AccountDb) × (view : WebSessionView)
    × (last : AccountDb) × (login platform company 100
          (typed (text "ben") (text "correct horse"))
          secrets
          metadata
        ≡ (after, ok created))
    × (authenticate_web platform after 1000 created.session_secret ≡ ok (view, last))
    × (view.principal ≡ ben)
    × (view.csrf_digest ≡ platform.sha256 created.csrf_secret)
unfolding byte_len web_digest
login_authenticates_example =
    login_authenticates platform company 100 1000 (typed (text "ben") (text "correct horse"))
      secrets metadata ben_account right_password storable shown_secret (omega arith) (omega arith)

user_code_round_trip_example :
    normalize_user_code (λ c. c) (typed_code (λ c. c) true false 200 14 90 255 3)
    ≡ some (new_user_code 200 14 90 255 3)
user_code_round_trip_example =
    user_code_round_trip (λ c. c) (λ c. c) true false 200 14 90 255 3 (omega arith) (omega arith)
      (omega arith) (omega arith) (omega arith)
