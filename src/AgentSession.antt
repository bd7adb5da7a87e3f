-- ===== src/AgentSession.antt =====
-- Sessions of agents and the leases that they carry: PostgresRepository.Heartbeat and
-- PostgresRepository.Close (internal/agentsession/postgres_repository.go).
pub mod Leases
pub mod Exclusion
pub mod Revival
use the_pact.Prelude.{
  ◌+◌, Bool, true, false, ◌&&◌, ◌||◌, some, List, Result, ok, or_fail, ltb, ◌==◌, if◌then◌else◌,
  find, any_row, update_where, ◌>>=◌, ◌>>◌,
}
use the_pact.Text.{Text}
use the_pact.Identity.{Uuid, Time, seconds}
use the_pact.Coordination.Model.{ScopeClaim, ClaimStatus}
use the_pact.Coordination.Conflicts.{is_active_claim, has_actor_id}
use the_pact.Coordination.Start.{scope_lease}
use the_pact.Coordination.Commands.{sponsors, is_active_session}
use the_pact.Database.{Db, Node, Session, SessionStatus}

pub data SessionError : Type 0 where
  not_found : SessionError

abbrev pub session_ttl : Time
session_ttl = seconds 45

-- What the caller gets: the row with the names of its actor and its node.
pub record SessionView : Type 0 where
  pub session : Session
  pub actor_name : Text
  pub node_name : Text

unfoldable pub has_session_id : Uuid → Session → Bool
has_session_id id s = s.id == id

abbrev pub has_node_id : Uuid → Node → Bool
has_node_id id n = n.id == id

-- The session that the principal may keep alive. Its expiry is not looked at.
unfoldable pub may_renew : Db → Uuid → Bool → Uuid → Session → Bool
may_renew db principal allow_all id s =
    has_session_id id s
    && is_active_session s.status
    && any_row (has_actor_id s.actor_id) db.actors
    && any_row (sponsors principal allow_all s.actor_id) db.agents
    && any_row (has_node_id s.node_id) db.nodes

unfoldable pub renewed_session : Time → Session → Session
renewed_session now s = record s {
  last_seen_at = now;
  expires_at = now + session_ttl;
  version = s.version + 1;
}

unfoldable pub seen_node : Time → Node → Node
seen_node now n = record n { online = true; last_seen_at = now; version = n.version + 1 }

-- Every active claim of the session, expired or not.
unfoldable pub carries : Uuid → ScopeClaim → Bool
carries id c = c.session_id == id && is_active_claim c.status

unfoldable pub renew : Time → ScopeClaim → ScopeClaim
renew now c = record c {
  last_renewed_at = now;
  expires_at = now + scope_lease;
  updated_at = now;
  version = c.version + 1;
}

unfoldable pub keep_alive : Db → Time → Uuid → Bool → Session → Db
keep_alive db now principal allow_all s = record db {
  sessions = update_where (may_renew db principal allow_all s.id) (renewed_session now) db.sessions;
  nodes = update_where (has_node_id s.node_id) (seen_node now) db.nodes;
  claims = update_where (carries s.id) (renew now) db.claims;
}

unfoldable pub heartbeat : Db → Time → Uuid → Bool → Uuid → Result SessionError (SessionView × Db)
heartbeat db now principal allow_all id = do
  s ← or_fail (find (may_renew db principal allow_all id) db.sessions) not_found
  actor ← or_fail (find (has_actor_id s.actor_id) db.actors) not_found
  node ← or_fail (find (has_node_id s.node_id) db.nodes) not_found
  let view : SessionView = record {
    session = renewed_session now s;
    actor_name = actor.display_name;
    node_name = node.name;
  }
  ok (view, keep_alive db now principal allow_all s)

abbrev pub is_open_session : SessionStatus → Bool
is_open_session SessionStatus.starting = true
is_open_session SessionStatus.active = true
is_open_session SessionStatus.stale = true
is_open_session _ = false

unfoldable pub may_close : Db → Uuid → Bool → Uuid → Session → Bool
may_close db principal allow_all id s =
    has_session_id id s
    && is_open_session s.status
    && (allow_all || any_row (sponsors principal false s.actor_id) db.agents)

unfoldable pub closed_session : Time → Session → Session
closed_session now s = record s {
  status = SessionStatus.closed;
  ended_at = some now;
  last_seen_at = now;
  version = s.version + 1;
}

-- A session that keeps its node online.
unfoldable pub is_on : Time → Uuid → Session → Bool
is_on now node s = s.node_id == node && is_active_session s.status && ltb now s.expires_at

unfoldable pub left_node : Node → Node
left_node n = record n { online = false; version = n.version + 1 }

unfoldable pub nodes_after : Time → Uuid → List Session → List Node → List Node
nodes_after now node sessions nodes =
    if any_row (is_on now node) sessions
    then nodes
    else update_where (has_node_id node) left_node nodes

unfoldable pub release_claim : Time → ScopeClaim → ScopeClaim
release_claim now c = record c {
  status = ClaimStatus.released;
  released_at = some now;
  updated_at = now;
  version = c.version + 1;
}

unfoldable pub end_session : Db → Time → Uuid → Bool → Session → Db
end_session db now principal allow_all s =
    let sessions =
      update_where (may_close db principal allow_all s.id) (closed_session now) db.sessions in
    record db {
      sessions = sessions;
      nodes = nodes_after now s.node_id sessions db.nodes;
      claims = update_where (carries s.id) (release_claim now) db.claims;
    }

unfoldable pub close : Db → Time → Uuid → Bool → Uuid → Result SessionError (Unit {0} × Db)
close db now principal allow_all id = do
  s ← or_fail (find (may_close db principal allow_all id) db.sessions) not_found
  ok (tt, end_session db now principal allow_all s)
