-- ===== src/Authn/Sessions/Fresh.antt =====
-- A session that was just made authenticates its principal.
use the_pact.Prelude.{
  ℕ, ◌<◌, ◌≡◌, refl, ◌∙◌, Bool, true, false, some, [], ◌∷◌, ok, ◌>>=◌, find, find-append_none,
  find-none_of_any_row, any_row, update_where, arith,
}
use the_pact.Text.{Text}
use the_pact.Identity.{Uuid, Time}
use the_pact.Accounts.{AccountDb, CredentialStatus, Principal, WebSession}
use the_pact.Accounts.Joins.{identity_of}
use the_pact.Authn.Checks.{StoredMetadata}
use the_pact.Authn.Sessions.{
  authenticate_web_session, has_session_digest, insert_web_session, is_active_account_of,
  is_usable_session, new_web_session, session_view, used_session, with_web_session,
}

-- What the database demands of a new session.
pub record Storable (db : AccountDb) (digest : ℕ) (metadata : StoredMetadata) : Type 0 where
  pub user_agent : Text
  pub agent_is_text : metadata.user_agent ≡ some user_agent
  pub remote_address : Text
  pub address_is_text : metadata.remote_address ≡ some remote_address
  pub fresh : any_row (has_session_digest digest) db.web_sessions ≡ false

-- The row of a new session.
abbrev pub stored :
    (db : AccountDb) (principal : Principal) (digest csrf : ℕ) (expires : Time)
    (metadata : StoredMetadata)
    → Storable db digest metadata
    → WebSession
stored db principal digest csrf expires metadata s =
    new_web_session db.work.next_id principal digest csrf expires s.user_agent s.remote_address

pub insert_web_session_lem :
    (db : AccountDb) (principal : Principal) (digest csrf : ℕ) (expires : Time)
    (metadata : StoredMetadata) (s : Storable db digest metadata)
    → insert_web_session db principal digest csrf expires metadata
      ≡ ok (
        session_view principal (stored db principal digest csrf expires metadata s),
        with_web_session db (stored db principal digest csrf expires metadata s),
      )
unfolding insert_web_session ◌>>=◌
insert_web_session_lem db principal digest csrf expires metadata s =
    rw (s.agent_is_text, s.address_is_text, s.fresh) refl

usable-digest :
    (db : AccountDb) (now : Time) (digest : ℕ) (x : WebSession)
    → is_usable_session db now digest x ≡ true
    → has_session_digest digest x ≡ true
unfolding is_usable_session
usable-digest db now digest x t = ground arith

identity_of-with_web_session :
    (db : AccountDb) (s : WebSession) (id : Uuid)
    → identity_of (with_web_session db s) id ≡ identity_of db id
unfolding identity_of
identity_of-with_web_session db s id = refl

new_session_is_usable :
    (db : AccountDb) (now : Time) (s : WebSession) (principal : Principal)
    → s.status ≡ CredentialStatus.active
    → now < s.expires_at
    → any_row (is_active_account_of s.principal_id) db.accounts ≡ true
    → identity_of db s.principal_id ≡ some principal
    → is_usable_session (with_web_session db s) now s.session_digest s ≡ true
unfolding is_usable_session
new_session_is_usable db now s principal active soon own identity =
    ground (arith, identity_of-with_web_session db s s.principal_id)

authenticate_web_session_lem :
    (db : AccountDb) (now : Time) (digest : ℕ) (s : WebSession) (principal : Principal)
    → find (is_usable_session db now digest) db.web_sessions ≡ some s
    → identity_of db s.principal_id ≡ some principal
    → (after : AccountDb) × (authenticate_web_session db now digest
        ≡ ok (session_view principal s, after))
unfolding authenticate_web_session ◌>>=◌
authenticate_web_session_lem db now digest s principal found identity = (
  record db {
    web_sessions =
        update_where (is_usable_session db now digest) (used_session now) db.web_sessions;
  },
  rw (found, identity) refl,
)

-- Behind the insertion the new row is the one that its digest finds.
pub authenticate-with_web_session :
    (db : AccountDb) (now : Time) (s : WebSession) (principal : Principal)
    → any_row (has_session_digest s.session_digest) db.web_sessions ≡ false
    → s.status ≡ CredentialStatus.active
    → now < s.expires_at
    → any_row (is_active_account_of s.principal_id) db.accounts ≡ true
    → identity_of db s.principal_id ≡ some principal
    → (after : AccountDb) × (authenticate_web_session (with_web_session db s) now s.session_digest
        ≡ ok (session_view principal s, after))
unfolding find
authenticate-with_web_session db now s principal fresh active soon own identity =
    authenticate_web_session_lem (with_web_session db s) now s.session_digest s principal
      (find-append_none usable db.web_sessions (s ∷ []) (
          find-none_of_any_row (has_session_digest s.session_digest) usable db.web_sessions
            (usable-digest (with_web_session db s) now s.session_digest) fresh)
        ∙ rw (new_session_is_usable db now s principal active soon own identity) refl)
      (identity_of-with_web_session db s s.principal_id ∙ identity)
  where
    usable : WebSession → Bool
    usable = is_usable_session (with_web_session db s) now s.session_digest
