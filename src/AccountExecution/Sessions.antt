-- ===== src/AccountExecution/Sessions.antt =====
-- Logins, sessions, passwords and devices take nothing away.
use the_pact.Prelude.{
  ℕ, ◌+◌, ◌≡◌, refl, ◌∙◌, inl, inr, Bool, Bool-cases, not, ◌||◌, [], Result, Ensures-bind,
  Ensures-or_fail, Ensures-require, Ensures-ok, any_row-update_where_mono, Option-cases,
  update_where,
}
use the_pact.Text.{Text, text_eq}
use the_pact.Identity.{Uuid, Time}
use the_pact.Accounts.{AccountDb, LocalAccount, Platform, Principal}
use the_pact.Accounts.Joins.{Account, find_account, is_account_of, is_active_account}
use the_pact.Authn.{
  LoginInput, Secrets, SessionMetadata, WebSessionView, AuthnError, web_session_lifetime,
}
use the_pact.Authn.Checks.{StoredMetadata, sanitize_metadata}
use the_pact.Authn.Sessions.{
  authenticate_web, clear_failures, create_web_session, insert_web_session, is_active_account_of,
  logout_web, start_session,
}
use the_pact.Authn.Login.{
  failed, finish_login, is_locked, is_login, login, login_name, refuse_password,
}
use the_pact.Authn.Passwords.{ChangePasswordInput, change_password, with_password}
use the_pact.AccountExecution.Moves.{
  Commits, Moves, Moves-refl, Moves-trans, Quiet, Quiet-Moves, transaction-Moves, untouched,
}

-- Changes of accounts that keep who is active.
updated_accounts-Quiet :
    (db : AccountDb) (p : LocalAccount → Bool) (f : LocalAccount → LocalAccount)
    → ((id : Uuid) (a : LocalAccount) → is_active_account_of id (f a) ≡ is_active_account_of id a)
    → Quiet db (record db { accounts = update_where p f db.accounts })
updated_accounts-Quiet db p f same = record {
  same_members = refl;
  accounts = λ id h.
      any_row-update_where_mono (is_active_account_of id) p f db.accounts (λ a own t. same id a ∙ t)
        h;
  same_actors = refl;
  same_invitations = refl;
}

module _ (p : Platform) where
  pub insert_web_session-Commits :
      (db : AccountDb) (principal : Principal) (digest csrf : ℕ) (expires : Time)
      (metadata : StoredMetadata)
      → Commits p db (insert_web_session db principal digest csrf expires metadata)
  unfolding insert_web_session
  insert_web_session-Commits db principal digest csrf expires metadata =
      Ensures-or_fail _ _ _ λ agent a. Ensures-or_fail _ _ _ λ address b.
        Ensures-require _ _ _ λ fresh. Ensures-ok _ (untouched p db _ refl refl refl refl)

  create_web_session-Commits :
      (db : AccountDb) (principal : Uuid) (digest csrf : ℕ) (expires : Time)
      (metadata : StoredMetadata)
      → Commits p db (create_web_session db principal digest csrf expires metadata)
  unfolding create_web_session clear_failures is_active_account_of
  create_web_session-Commits db principal digest csrf expires metadata =
      Ensures-or_fail _ _ _ λ account found. record {
        holds = λ r e.
            Moves-trans p db _ r.1
              (Quiet-Moves p db _
                (updated_accounts-Quiet db (is_account_of principal) clear_failures (λ id a. refl)))
              ((insert_web_session-Commits _ account.principal digest csrf expires metadata).holds r
                e);
      }

  pub start_session-Commits :
      (db : AccountDb) (create : ℕ → ℕ → Result AuthnError (WebSessionView × AccountDb))
      (secrets : Secrets)
      → ((digest csrf : ℕ) → Commits p db (create digest csrf))
      → Commits p db (start_session p create secrets)
  unfolding start_session
  start_session-Commits db create secrets h =
      Ensures-bind _ _ λ r e. Ensures-ok _ ((h _ _).holds r e)

  refuse_password-Moves :
      (db : AccountDb) (now : Time) (account : Account)
      → Moves p db (refuse_password db now account)
  unfolding refuse_password failed is_active_account_of
  refuse_password-Moves db now account =
      Quiet-Moves p db _
        (updated_accounts-Quiet db (is_account_of account.principal.id) (failed _ _) (λ id a. refl))

  finish_login-Moves :
      (db : AccountDb) (now : Time) (account : Account) (password : Text) (secrets : Secrets)
      (metadata : SessionMetadata)
      → Moves p db (finish_login p db now account password secrets metadata).0
  unfolding finish_login
  finish_login-Moves db now account password secrets metadata =
      elim (Bool-cases (not (is_active_account account.row.status) || is_locked now account.row)) [
        | inl barred ↦ rw barred (Moves-refl p db)
        | inr open_account ↦
            elim (Bool-cases (p.verify_password password account.row.password_hash)) [
              | inl right ↦
                  rw (open_account, right)
                    (transaction-Moves p db _ (
                      start_session-Commits db _ secrets (λ digest csrf.
                        create_web_session-Commits db account.principal.id digest csrf
                          (now + web_session_lifetime) (sanitize_metadata metadata))))
              | inr wrong ↦ rw (open_account, wrong) (refuse_password-Moves db now account)
            ]
      ]

  pub login-Moves :
      (db : AccountDb) (now : Time) (input : LoginInput) (secrets : Secrets)
      (metadata : SessionMetadata)
      → Moves p db (login p db now input secrets metadata).0
  unfolding login
  login-Moves db now input secrets metadata =
      elim (Bool-cases (text_eq (login_name p input) [] || text_eq input.password [])) [
        | inl blank ↦ rw blank (Moves-refl p db)
        | inr typed ↦ elim (Option-cases (find_account db (is_login (login_name p input)))) [
          | inl e ↦ rw (typed, e) (Moves-refl p db)
          | inr (account, e) ↦
              rw (typed, e) (finish_login-Moves db now account input.password secrets metadata)
        ]
      ]

  pub authenticate_web-Commits :
      (db : AccountDb) (now : Time) (raw : Text) → Commits p db (authenticate_web p db now raw)
  unfolding authenticate_web
  authenticate_web-Commits db now raw = Ensures-require _ _ _ λ secret.
      Ensures-or_fail _ _ _ λ s found.
        Ensures-or_fail _ _ _ λ principal known. Ensures-ok _ (untouched p db _ refl refl refl refl)

  pub logout_web-Commits :
      (db : AccountDb) (now : Time) (session : WebSessionView)
      → Commits p db (logout_web db now session)
  unfolding logout_web
  logout_web-Commits db now session =
      Ensures-require _ _ _ λ own. Ensures-ok _ (untouched p db _ refl refl refl refl)

  pub change_password-Commits :
      (db : AccountDb) (now : Time) (session : WebSessionView) (input : ChangePasswordInput)
      (salt : Text)
      → Commits p db (change_password p db now session input salt)
  unfolding change_password with_password is_active_account_of
  change_password-Commits db now session input salt = Ensures-bind _ _ λ u valid.
      Ensures-or_fail _ _ _ λ account found. Ensures-require _ _ _ λ right.
        Ensures-require _ _ _ λ different. Ensures-require _ _ _ λ exists. Ensures-ok _ (
          Quiet-Moves p db _ (record {
            same_members = refl;
            accounts = λ id h.
                any_row-update_where_mono (is_active_account_of id)
                  (is_active_account_of session.principal.id)
                  (with_password (p.hash_password salt input.new_password)) db.accounts
                  (λ a own t. t) h;
            same_actors = refl;
            same_invitations = refl;
          }))
