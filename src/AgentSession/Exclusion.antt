-- ===== src/AgentSession/Exclusion.antt =====
-- Heartbeats, the end of a session and the exclusion of scopes.
use mathlib.Core.Path.{subst}
use the_pact.Prelude.{
  ◌<◌, ◌≡◌, refl, sym, ap, inl, inr, Bool, true, false, arith, Bool-cases, and_elim, find-In, In,
  In-update_where, Ensures, Ensures-or_fail, Ensures-ok, ok, ==_iff,
}
use the_pact.Identity.{Uuid, Time}
use the_pact.Coordination.Model.{ScopeClaim}
use the_pact.Coordination.Exclusion.{Exclusive, WellFormed}
use the_pact.Coordination.Exclusion.Narrower.{Narrower, Exclusive-Narrower}
use the_pact.AgentSession.Leases.{
  Touches-Narrower, Touches-WellFormed, renew-SameClaim, release_claim-SameClaim,
  keep_alive-Touches, end_session-Touches,
}
use the_pact.AgentSession.{
  SessionView, has_session_id, may_renew, may_close, carries, renew, release_claim, keep_alive,
  heartbeat, end_session, close,
}
use the_pact.Database.{Db, Session}

-- No active claim of the session has run out.
pub record Current (db : Db) (now : Time) (id : Uuid) : Type 0 where
  pub running : (c : ScopeClaim) → In c db.claims → carries id c ≡ true → now < c.expires_at

may_renew-id :
    (db : Db) (principal : Uuid) (allow_all : Bool) (id : Uuid) (s : Session)
    → may_renew db principal allow_all id s ≡ true
    → s.id ≡ id
unfolding may_renew has_session_id
may_renew-id db principal allow_all id s h =
    (==_iff _ _).0 (and_elim _ _ (and_elim _ _ (and_elim _ _ (and_elim _ _ h).0).0).0).0

may_close-id :
    (db : Db) (principal : Uuid) (allow_all : Bool) (id : Uuid) (s : Session)
    → may_close db principal allow_all id s ≡ true
    → s.id ≡ id
unfolding may_close has_session_id
may_close-id db principal allow_all id s h = (==_iff _ _).0 (and_elim _ _ (and_elim _ _ h).0).0

keep_alive-Narrower :
    (db : Db) (now : Time) (principal : Uuid) (allow_all : Bool) (s : Session)
    → Current db now s.id
    → Narrower db (keep_alive db now principal allow_all s) now
unfolding keep_alive renew
keep_alive-Narrower db now principal allow_all s current =
    Touches-Narrower db _ s.id (renew now) (keep_alive-Touches db now principal allow_all s) now
      (renew-SameClaim now)
      λ c m t h. record {
        listed = m;
        active = h.active;
        unexpired = current.running c m t;
        intent = h.intent;
        of_intent = h.of_intent;
        unfinished = h.unfinished;
      }

end_session-Narrower :
    (db : Db) (now : Time) (principal : Uuid) (allow_all : Bool) (s : Session)
    → Narrower db (end_session db now principal allow_all s) now
unfolding end_session release_claim
end_session-Narrower db now principal allow_all s =
    Touches-Narrower db _ s.id (release_claim now)
      (end_session-Touches db now principal allow_all s) now (release_claim-SameClaim now)
      λ c m t h. absurd (released h.active)
  where
    released : false ≡ true → ⊥
    released e = cc

-- A successful heartbeat is the renewal of the session that was named.
pub heartbeat-keep_alive :
    (db : Db) (now : Time) (principal : Uuid) (allow_all : Bool) (id : Uuid)
    → Ensures
        (λ r. (s : Session) × (s.id ≡ id) × (r.1 ≡ keep_alive db now principal allow_all s))
        (heartbeat db now principal allow_all id)
unfolding heartbeat
heartbeat-keep_alive db now principal allow_all id = Ensures-or_fail _ _ _ λ s hs.
    Ensures-or_fail _ _ _ λ a ha.
      Ensures-or_fail _ _ _ λ n hn.
        Ensures-ok _ (s, may_renew-id db principal allow_all id s (find-In _ _ s hs).1, refl)

pub close-end_session :
    (db : Db) (now : Time) (principal : Uuid) (allow_all : Bool) (id : Uuid)
    → Ensures
        (λ r. (s : Session) × (s.id ≡ id) × (r.1 ≡ end_session db now principal allow_all s))
        (close db now principal allow_all id)
unfolding close
close-end_session db now principal allow_all id =
    Ensures-or_fail _ _ _
      λ s hs. Ensures-ok _ (s, may_close-id db principal allow_all id s (find-In _ _ s hs).1, refl)

-- A heartbeat of a session none of whose active claims has run out keeps the exclusion of scopes.
pub heartbeat-Exclusive :
    (db e : Db) (now : Time) (principal : Uuid) (allow_all : Bool) (id : Uuid) (view : SessionView)
    → Current db now id
    → Exclusive db now
    → heartbeat db now principal allow_all id ≡ ok (view, e)
    → Exclusive e now
heartbeat-Exclusive db e now principal allow_all id view current x h =
    let (s, same, eq) = (heartbeat-keep_alive db now principal allow_all id).holds (view, e) h in
    rw eq (
      Exclusive-Narrower db (keep_alive db now principal allow_all s) now
        (keep_alive-Narrower db now principal allow_all s
          (subst (Current db now) (sym same) current))
        x)

pub heartbeat-WellFormed :
    (db e : Db) (now : Time) (principal : Uuid) (allow_all : Bool) (id : Uuid) (view : SessionView)
    → WellFormed db
    → heartbeat db now principal allow_all id ≡ ok (view, e)
    → WellFormed e
unfolding renew
heartbeat-WellFormed db e now principal allow_all id view w h =
    let (s, same, eq) = (heartbeat-keep_alive db now principal allow_all id).holds (view, e) h in
    rw eq (
      Touches-WellFormed db _ s.id (renew now) (keep_alive-Touches db now principal allow_all s)
        (λ c. refl) w)

pub close-WellFormed :
    (db e : Db) (now : Time) (principal : Uuid) (allow_all : Bool) (id : Uuid) (u : Unit {0})
    → WellFormed db
    → close db now principal allow_all id ≡ ok (u, e)
    → WellFormed e
unfolding release_claim
close-WellFormed db e now principal allow_all id u w h =
    let (s, same, eq) = (close-end_session db now principal allow_all id).holds (u, e) h in
    rw eq (
      Touches-WellFormed db _ s.id (release_claim now)
        (end_session-Touches db now principal allow_all s) (λ c. refl) w)

-- The end of a session keeps the exclusion of scopes, and leaves the session no active claim.
pub close-Exclusive :
    (db e : Db) (now : Time) (principal : Uuid) (allow_all : Bool) (id : Uuid) (u : Unit {0})
    → Exclusive db now
    → close db now principal allow_all id ≡ ok (u, e)
    → Exclusive e now × ((c : ScopeClaim) → In c e.claims → carries id c ≡ false)
unfolding carries release_claim
close-Exclusive db e now principal allow_all id u x h =
    let (s, same, eq) = (close-end_session db now principal allow_all id).holds (u, e) h in
    (
      rw eq (
          Exclusive-Narrower db (end_session db now principal allow_all s) now
            (end_session-Narrower db now principal allow_all s) x),
      λ c m. subst (λ i. carries i c ≡ false) same (gone s c (rw eq at m)),
    )
  where
    gone :
        (s : Session) (c : ScopeClaim)
        → In c (end_session db now principal allow_all s).claims
        → carries s.id c ≡ false
    gone s c m =
        let (b, mb, eq) =
          In-update_where (carries s.id) (release_claim now) db.claims c
            (rw (end_session-Touches db now principal allow_all s).same_claims at m) in
        elim (Bool-cases (carries s.id b)) [
          | inl t ↦ subst (λ a. carries s.id a ≡ false) (sym (rw t at eq)) (ground arith)
          | inr t ↦ subst (λ a. carries s.id a ≡ false) (sym (rw t at eq)) t
        ]

pub heartbeat-worktrees :
    (db e : Db) (now : Time) (principal : Uuid) (allow_all : Bool) (id : Uuid) (view : SessionView)
    → heartbeat db now principal allow_all id ≡ ok (view, e)
    → e.worktrees ≡ db.worktrees
unfolding keep_alive
heartbeat-worktrees db e now principal allow_all id view h =
    let (s, same, eq) = (heartbeat-keep_alive db now principal allow_all id).holds (view, e) h in
    ap (λ (d : Db). d.worktrees) eq

pub close-worktrees :
    (db e : Db) (now : Time) (principal : Uuid) (allow_all : Bool) (id : Uuid) (u : Unit {0})
    → close db now principal allow_all id ≡ ok (u, e)
    → e.worktrees ≡ db.worktrees
unfolding end_session
close-worktrees db e now principal allow_all id u h =
    let (s, same, eq) = (close-end_session db now principal allow_all id).holds (u, e) h in
    ap (λ (d : Db). d.worktrees) eq
