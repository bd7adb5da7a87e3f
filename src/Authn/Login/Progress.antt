-- ===== src/Authn/Login/Progress.antt =====
-- The right password of an account that is not locked: the login hands out a secret, and the secret
-- authenticates.
use the_pact.Prelude.{
  ℕ, ◌+◌, ◌≤◌, ◌<◌, ◌≡◌, refl, ◌∙◌, ap, Bool, true, false, some, [], ok, ◌>>=◌, All-append, any_row,
  any_row-update_where, any_row_of_In, update_where, arith,
}
use the_pact.Text.{Text, text, text_eq, trim_space, byte_len, is_space}
use the_pact.Text.Laws.{Visible, trim_space-Visible, byte_len-append, has_prefix-append}
use the_pact.Identity.{Uuid, Time}
use the_pact.Accounts.{AccountDb, LocalAccount, Platform, Principal, WebSession}
use the_pact.Accounts.Joins.{Account, find_account, identity_of, is_account_of, is_active_account}
use the_pact.Accounts.Joins.Laws.{Found, find_account-Found, find_account-total}
use the_pact.Authn.{
  CreatedWebSession, LoginInput, Secrets, SessionMetadata, WebSessionView, web_session_lifetime,
}
use the_pact.Authn.Checks.{StoredMetadata, is_secret, new_secret, sanitize_metadata}
use the_pact.Authn.Sessions.{
  authenticate_web, authenticate_web_session, clear_failures, insert_web_session,
  is_active_account_of, session_view, validate_csrf, with_web_session,
}
use the_pact.Authn.Sessions.Fresh.{
  Storable, authenticate-with_web_session, insert_web_session_lem, stored,
}
use the_pact.Authn.Login.{finish_login, is_locked, is_login, login, login_name}

pub record RightPassword (p : Platform) (db : AccountDb) (now : Time) (input : LoginInput)
    (account : Account) : Type 0 where
  pub named : text_eq (login_name p input) [] ≡ false
  pub typed : text_eq input.password [] ≡ false
  pub found : find_account db (is_login (login_name p input)) ≡ some account
  pub active : is_active_account account.row.status ≡ true
  pub unlocked : is_locked now account.row ≡ false
  pub right : p.verify_password input.password account.row.password_hash ≡ true

-- A secret that can be shown: long enough, and without space.
pub web_secret-is_secret :
    (encoded : Text)
    → 31 ≤ byte_len encoded
    → is_secret (text "pact_web_") 40 (new_secret (text "pact_web_") encoded) ≡ true
unfolding is_secret
web_secret-is_secret encoded long = ground (
  arith,
  has_prefix-append (text "pact_web_") encoded,
  byte_len-append (text "pact_web_") encoded,
  prefix_bytes,
)
  where
    prefix_bytes : byte_len (text "pact_web_") ≡ 9
    prefix_bytes = refl

web_prefix_Visible : Visible (text "pact_web_")
unfolding is_space
web_prefix_Visible = (refl, (refl, (refl, (refl, (refl, (refl, (refl, (refl, (refl, tt)))))))))

pub trim_space-web_secret :
    (encoded : Text)
    → Visible encoded
    → trim_space (new_secret (text "pact_web_") encoded) ≡ new_secret (text "pact_web_") encoded
trim_space-web_secret encoded h =
    trim_space-Visible _ (All-append _ (text "pact_web_") encoded web_prefix_Visible h)

web_csrf-trim :
    (p : Platform) (view : WebSessionView) (csrf : Text)
    → trim_space csrf ≡ csrf
    → view.csrf_digest ≡ p.sha256 csrf
    → validate_csrf p view csrf ≡ true
unfolding validate_csrf
web_csrf-trim p view csrf t e = rw (t, e) (ground arith)

abbrev cleared : AccountDb → Uuid → AccountDb
cleared db id = record db { accounts = update_where (is_account_of id) clear_failures db.accounts }

same_principal :
    (db : AccountDb) (id other : Uuid) (a b : Principal)
    → identity_of db id ≡ some a
    → identity_of db other ≡ some b
    → id ≡ other
    → a ≡ b
same_principal db id other a b ha hb e = cc

-- The account by which the session is made has the identity that logged in.
session_account :
    (db : AccountDb) (name : Text) (account : Account)
    → find_account db (is_login name) ≡ some account
    → is_active_account account.row.status ≡ true
    → (again : Account) × (find_account db (is_active_account_of account.principal.id) ≡ some again)
      × (again.principal ≡ account.principal)
unfolding is_active_account_of
session_account db name account found active =
    let f = find_account-Found db (is_login name) account found in
    let (again, e) =
      find_account-total db (is_active_account_of account.principal.id) account.row
        account.principal f.listed (ground (arith, f.own)) f.identity in
    let g = find_account-Found db (is_active_account_of account.principal.id) again e in
    let same : again.row.principal_id ≡ account.row.principal_id =
      ground (arith, g.passes, f.own) in
    (again, e, same_principal db _ _ again.principal account.principal g.identity f.identity same)

-- What the login of the right password returns.
login_lem :
    (p : Platform) (db : AccountDb) (now : Time) (input : LoginInput) (secrets : Secrets)
    (metadata : SessionMetadata) (account again : Account) (view : WebSessionView)
    (after : AccountDb)
    → RightPassword p db now input account
    → find_account db (is_active_account_of account.principal.id) ≡ some again
    → insert_web_session
        (cleared db account.principal.id)
        again.principal
        (p.sha256 (new_secret (text "pact_web_") secrets.session))
        (p.sha256 (new_secret (text "pact_csrf_") secrets.csrf))
        (now + web_session_lifetime)
        (sanitize_metadata metadata)
      ≡ ok (view, after)
    → login p db now input secrets metadata ≡ (
      after,
      ok (record {
        session = view;
        session_secret = new_secret (text "pact_web_") secrets.session;
        csrf_secret = new_secret (text "pact_csrf_") secrets.csrf;
      }),
    )
unfolding login finish_login ◌>>=◌
login_lem p db now input secrets metadata account again view after w found inserted =
    rw (w.named, w.typed, w.found, w.active, w.unlocked, w.right, found, inserted) refl

cleared-Storable :
    (db : AccountDb) (id : Uuid) (digest : ℕ) (metadata : StoredMetadata)
    → Storable db digest metadata
    → Storable (cleared db id) digest metadata
cleared-Storable db id digest metadata s = record {
  user_agent = s.user_agent;
  agent_is_text = s.agent_is_text;
  remote_address = s.remote_address;
  address_is_text = s.address_is_text;
  fresh = s.fresh;
}

cleared-active :
    (db : AccountDb) (id : Uuid) (again : Account)
    → Found db (is_active_account_of id) again
    → again.principal.id ≡ id
    → any_row (is_active_account_of again.principal.id) (cleared db id).accounts ≡ true
unfolding clear_failures is_active_account_of
cleared-active db id again g same =
    any_row-update_where (is_active_account_of again.principal.id) (is_account_of id) clear_failures
      db.accounts (λ a. refl)
    ∙ any_row_of_In (is_active_account_of again.principal.id) db.accounts again.row g.listed
        (rw same g.passes)

cleared-identity :
    (db : AccountDb) (id : Uuid) (test : LocalAccount → Bool) (again : Account)
    → Found db test again
    → identity_of (cleared db id) again.principal.id ≡ some again.principal
unfolding identity_of
cleared-identity db id test again g = ap (identity_of db) g.own ∙ g.identity

authenticate_web_lem :
    (p : Platform) (db : AccountDb) (now : Time) (encoded : Text) {r : WebSessionView × AccountDb}
    → Visible encoded
    → 31 ≤ byte_len encoded
    → authenticate_web_session db now (p.sha256 (new_secret (text "pact_web_") encoded)) ≡ ok r
    → authenticate_web p db now (new_secret (text "pact_web_") encoded) ≡ ok r
unfolding authenticate_web ◌>>=◌
authenticate_web_lem p db now encoded h long e =
    rw (trim_space-web_secret encoded h, web_secret-is_secret encoded long) e

-- A login with the right password for an active account that is not locked succeeds, if the
-- metadata can be stored, the digest of the new secret is unused, and the random part has no space
-- and at least 31 bytes; the secret that it returns authenticates for the same principal during
-- the session's lifetime, with the CSRF digest of the secret that was returned.
pub login_authenticates :
    (p : Platform) (db : AccountDb) (now later : Time) (input : LoginInput) (secrets : Secrets)
    (metadata : SessionMetadata) (account : Account)
    → RightPassword p db now input account
    → Storable db
        (p.sha256 (new_secret (text "pact_web_") secrets.session))
        (sanitize_metadata metadata)
    → Visible secrets.session
    → 31 ≤ byte_len secrets.session
    → later < now + web_session_lifetime
    → (created : CreatedWebSession) × (after : AccountDb) × (view : WebSessionView)
      × (last : AccountDb) × (login p db now input secrets metadata ≡ (after, ok created))
      × (authenticate_web p after later created.session_secret ≡ ok (view, last))
      × (view.principal ≡ account.principal)
      × (view.csrf_digest ≡ p.sha256 created.csrf_secret)
login_authenticates p db now later input secrets metadata account w storable visible long soon =
    let (again, found, same) = session_account db (login_name p input) account w.found w.active in
    let id : Uuid = account.principal.id in
    let digest : ℕ = p.sha256 (new_secret (text "pact_web_") secrets.session) in
    let csrf : ℕ = p.sha256 (new_secret (text "pact_csrf_") secrets.csrf) in
    let ready : Storable (cleared db id) digest (sanitize_metadata metadata) =
      cleared-Storable db id digest (sanitize_metadata metadata) storable in
    let row : WebSession =
      stored (cleared db id) again.principal digest csrf (now + web_session_lifetime)
        (sanitize_metadata metadata) ready in
    let g = find_account-Found db (is_active_account_of id) again found in
    let (last, authenticated) =
      authenticate-with_web_session (cleared db id) later row again.principal ready.fresh refl soon
        (cleared-active db id again g (ap (λ (q : Principal). q.id) same))
        (cleared-identity db id (is_active_account_of id) again g) in
    (
      record {
        session = session_view again.principal row;
        session_secret = new_secret (text "pact_web_") secrets.session;
        csrf_secret = new_secret (text "pact_csrf_") secrets.csrf;
      },
      with_web_session (cleared db id) row,
      session_view again.principal row,
      last,
      login_lem p db now input secrets metadata account again (session_view again.principal row)
          (with_web_session (cleared db id) row) w found
          (insert_web_session_lem (cleared db id) again.principal digest csrf
            (now + web_session_lifetime) (sanitize_metadata metadata) ready),
      authenticate_web_lem p (with_web_session (cleared db id) row) later secrets.session visible
          long authenticated,
      same,
      refl,
    )
