-- ===== src/Coordination/Commands/Authorization.antt =====
-- Who may act through a session.
use the_pact.Prelude.{
  ◌<◌, ◌≡◌, refl, sym, ◌∙◌, ◌⊎◌, inl, inr, Bool, true, Option, none, some, arith, Option-cases,
  find, find-In, find-none, any_row, any_row-In, any_row_of_In, In, Ensures, Ensures-ok,
  Ensures-or_fail, or_fail, ok, err, ◌>>=◌,
}
use the_pact.Identity.{Uuid, Time}
use the_pact.Coordination.Model.{Error, forbidden}
use the_pact.Coordination.Commands.{is_active_session, sponsors, admits, authorize_session}
use the_pact.Database.{Db, Agent, Session}

-- A live session of the project, whose agent the principal sponsors unless all are allowed.
pub record MayAct (db : Db) (now : Time) (principal : Uuid) (allow_all : Bool)
    (project session actor : Uuid) : Type 0 where
  pub row : Session
  pub listed : In row db.sessions
  pub of_project : row.project ≡ project
  pub of_id : row.id ≡ session
  pub active : is_active_session row.status ≡ true
  pub live : now < row.expires_at
  pub of_actor : row.actor_id ≡ actor
  pub agent : Agent
  pub agent_listed : In agent db.agents
  pub agent_id : agent.id ≡ actor
  pub sponsored : (allow_all ≡ true) ⊎ (agent.sponsor_principal_id ≡ principal)

module _ (db : Db) (now : Time) (principal : Uuid) (allow_all : Bool) (project session : Uuid) where
  abbrev admitted : Session → Bool
  admitted = admits db now principal allow_all project session

  admitted_parts :
      (s : Session)
      → admitted s ≡ true
      → (s.project ≡ project)
        × (s.id ≡ session)
        × (is_active_session s.status ≡ true)
        × (now < s.expires_at)
        × (any_row (sponsors principal allow_all s.actor_id) db.agents ≡ true)
  unfolding admits
  admitted_parts s h = ground arith

  sponsored_parts :
      (actor : Uuid) (a : Agent)
      → sponsors principal allow_all actor a ≡ true
      → (a.id ≡ actor) × ((allow_all ≡ true) ⊎ (a.sponsor_principal_id ≡ principal))
  unfolding sponsors
  sponsored_parts actor a h = ground arith

  MayAct-of_admitted :
      (s : Session)
      → In s db.sessions
      → admitted s ≡ true
      → MayAct db now principal allow_all project session s.actor_id
  MayAct-of_admitted s m h =
      let (p, i, active, live, any) = admitted_parts s h in
      let (a, ma, t) = any_row-In _ db.agents any in
      let (e, spons) = sponsored_parts s.actor_id a t in
      record {
        row = s;
        listed = m;
        of_project = p;
        of_id = i;
        active = active;
        live = live;
        of_actor = refl;
        agent = a;
        agent_listed = ma;
        agent_id = e;
        sponsored = spons;
      }

  pub authorize_session-MayAct :
      Ensures
        (MayAct db now principal allow_all project session)
        (authorize_session db now principal allow_all project session)
  unfolding authorize_session
  authorize_session-MayAct = Ensures-or_fail _ _ _ λ s found.
      let (m, t) = find-In admitted db.sessions s found in Ensures-ok _ (MayAct-of_admitted s m t)

  sponsors_of :
      (actor : Uuid) (a : Agent)
      → a.id ≡ actor
      → (allow_all ≡ true) ⊎ (a.sponsor_principal_id ≡ principal)
      → sponsors principal allow_all actor a ≡ true
  unfolding sponsors
  sponsors_of actor a e (inl h) = ground arith
  sponsors_of actor a e (inr h) = ground arith

  admitted_of_MayAct :
      (actor : Uuid) (h : MayAct db now principal allow_all project session actor)
      → admitted h.row ≡ true
  unfolding admits
  admitted_of_MayAct actor h = ground (
    arith,
    any_row_of_In (sponsors principal allow_all h.row.actor_id) db.agents h.agent h.agent_listed
        (sponsors_of h.row.actor_id h.agent (h.agent_id ∙ sym h.of_actor) h.sponsored),
  )

  accepts :
      (actor : Uuid)
      → MayAct db now principal allow_all project session actor
      → (b : Uuid) × (authorize_session db now principal allow_all project session ≡ ok b)
  unfolding authorize_session ◌>>=◌
  accepts actor may = elim (Option-cases (find admitted db.sessions)) [
    | inl e ↦
        absurd
          (cc (find-none admitted db.sessions may.row e may.listed, admitted_of_MayAct actor may))
    | inr (s, e) ↦ (s.actor_id, rw e refl)
  ]

  only_forbidden :
      (o : Option Session) (e : Error)
      → (or_fail o forbidden >>= λ s. ok s.actor_id) ≡ err e
      → e ≡ forbidden
  unfolding ◌>>=◌
  only_forbidden none e h = cc
  only_forbidden (some s) e h = absurd (cc)

  -- A session is authorized exactly if it is a live session of the project whose agent the
  -- principal sponsors, or any agent where all are allowed; the actor is the session's, and every
  -- refusal is ErrForbidden.
  pub authorize_session_iff :
      ((actor : Uuid)
        → authorize_session db now principal allow_all project session ≡ ok actor
        → MayAct db now principal allow_all project session actor)
      × ((actor : Uuid)
          → MayAct db now principal allow_all project session actor
          → (b : Uuid) × (authorize_session db now principal allow_all project session ≡ ok b))
      × ((e : Error)
          → authorize_session db now principal allow_all project session ≡ err e
          → e ≡ forbidden)
  unfolding authorize_session
  authorize_session_iff = (
    authorize_session-MayAct.holds,
    accepts,
    (λ e h. only_forbidden (find admitted db.sessions) e h),
  )
