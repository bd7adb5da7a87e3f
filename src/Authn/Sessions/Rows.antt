-- ===== src/Authn/Sessions/Rows.antt =====
-- The row behind a session that authenticates.
use mathlib.Core.Path.{subst}
use the_pact.Prelude.{
  ℕ, ◌≡◌, refl, true, ◌<◌, inl, inr, some, Option-cases, Result, ok, ◌>>=◌, find, find-In, In,
  arith,
}
use the_pact.Identity.{Time}
use the_pact.Accounts.{AccountDb, WebSession}
use the_pact.Accounts.Joins.{identity_of}
use the_pact.Accounts.Joins.Laws.{identity_of-id}
use the_pact.Authn.{AuthnError, WebSessionView}
use the_pact.Authn.Sessions.{
  authenticate_web_session, is_active_credential, is_usable_session, session_view,
}

pub record Behind (db : AccountDb) (now : Time) (digest : ℕ) (view : WebSessionView) : Type 0 where
  pub row : WebSession
  pub listed : In row db.web_sessions
  pub digest_of : row.session_digest ≡ digest
  pub active : is_active_credential row.status ≡ true
  pub unexpired : now < row.expires_at
  pub identity : identity_of db row.principal_id ≡ some view.principal
  pub same_id : view.id ≡ row.id
  pub own : view.principal.id ≡ row.principal_id

usable_facts :
    (db : AccountDb) (now : Time) (digest : ℕ) (s : WebSession)
    → is_usable_session db now digest s ≡ true
    → (s.session_digest ≡ digest) × (is_active_credential s.status ≡ true) × (now < s.expires_at)
unfolding is_usable_session
usable_facts db now digest s h = ground arith

ok_fst :
    (a b : WebSessionView) (x y : AccountDb)
    → Path (Result AuthnError (WebSessionView × AccountDb)) (ok (a, x)) (ok (b, y))
    → a ≡ b
ok_fst a b x y h = ground arith

pub authenticate_web_session-Behind :
    (db : AccountDb) (now : Time) (digest : ℕ) (view : WebSessionView) (after : AccountDb)
    → authenticate_web_session db now digest ≡ ok (view, after)
    → Behind db now digest view
unfolding authenticate_web_session ◌>>=◌
authenticate_web_session-Behind db now digest view after h =
    elim (Option-cases (find (is_usable_session db now digest) db.web_sessions)) [
      | inl e ↦ absurd (cc (rw e at h))
      | inr (s, e) ↦ elim (Option-cases (identity_of db s.principal_id)) [
        | inl n ↦ absurd (cc (rw (e, n) at h))
        | inr (q, i) ↦
            let (m, t) = find-In (is_usable_session db now digest) db.web_sessions s e in
            let (d, a, u) = usable_facts db now digest s t in
            subst (Behind db now digest) (ok_fst (session_view q s) view _ after (rw (e, i) at h))
              (record {
                row = s;
                listed = m;
                digest_of = d;
                active = a;
                unexpired = u;
                identity = i;
                same_id = refl;
                own = identity_of-id db s.principal_id q i;
              })
      ]
    ]
