-- ===== src/Coordination/Commands.antt =====
-- What every command of the repository does around its own work: authorizeSession, reserveCommand,
-- completeCommand and appendEvent (internal/coordination/postgres_repository.go).
pub mod Frame
pub mod Authorization
pub mod Replay
pub mod Progress
use the_pact.Prelude.{
  ℕ, ◌+◌, Bool, true, false, ◌&&◌, ◌||◌, not, Option, none, some, Result, ok, err, require, or_fail,
  ltb, ◌==◌, if◌then◌else◌, find, any_row, update_where, count_where, insert, ◌>>=◌, ◌>>◌,
}
use the_pact.Text.{Text, text_eq}
use the_pact.Identity.{Uuid, Time}
use the_pact.Coordination.Model.{
  Error, forbidden, idempotency_conflict, command_incomplete, internal,
}
use the_pact.Database.{
  Db, Project, Agent, Session, SessionStatus, Event, Payload, Response, Completion,
  IdempotencyRecord,
}

abbrev pub is_active_session : SessionStatus → Bool
is_active_session SessionStatus.active = true
is_active_session _ = false

unfoldable pub sponsors : Uuid → Bool → Uuid → Agent → Bool
sponsors principal allow_all actor agent =
    agent.id == actor && (allow_all || agent.sponsor_principal_id == principal)

unfoldable pub admits : Db → Time → Uuid → Bool → Uuid → Uuid → Session → Bool
unfolding sponsors
admits db now principal allow_all project session s =
    s.project == project
    && s.id == session
    && is_active_session s.status
    && ltb now s.expires_at
    && any_row (sponsors principal allow_all s.actor_id) db.agents

-- The actor of a live session that the principal may use.
unfoldable pub authorize_session : Db → Time → Uuid → Bool → Uuid → Uuid → Result Error Uuid
authorize_session db now principal allow_all project session = do
  s ← or_fail (find (admits db now principal allow_all project session) db.sessions) forbidden
  ok s.actor_id

-- The unique key of idempotency_records.
unfoldable pub same_command : Uuid → Text → Text → IdempotencyRecord → Bool
same_command project command_type key r =
    r.project == project && text_eq r.command_type command_type && text_eq r.idempotency_key key

pub data Reservation : Type 0 where
  reserved : Uuid → Db → Reservation
  replayed : Response → Reservation

abbrev pub reservation : Db → Uuid → Text → Text → ℕ → IdempotencyRecord
reservation db project command_type key hash = record {
  project = project;
  command_type = command_type;
  idempotency_key = key;
  request_hash = hash;
  command_id = db.next_id;
  completion = none;
}

replay : Option Completion → Result Error Reservation
replay none = err command_incomplete
replay (some c) = ok (replayed c.response_body)

unfoldable pub stored_result : IdempotencyRecord → ℕ → Result Error Reservation
unfolding replay
stored_result r hash =
    if not (r.request_hash == hash) then err idempotency_conflict else replay r.completion

pub reserve_row : Db → Uuid → Text → Text → ℕ → Option IdempotencyRecord → Result Error Reservation
reserve_row db project command_type key hash none = ok (
    reserved db.next_id (record db {
      commands = insert (reservation db project command_type key hash) db.commands;
      next_id = db.next_id + 1;
    }))
reserve_row db project command_type key hash (some r) = stored_result r hash

unfoldable pub reserve_command : Db → Uuid → Text → Text → ℕ → Result Error Reservation
unfolding reserve_row
reserve_command db project command_type key hash =
    reserve_row db project command_type key hash
      (find (same_command project command_type key) db.commands)

unfoldable pub is_reservation : Uuid → Text → Text → Uuid → IdempotencyRecord → Bool
is_reservation project command_type key command r =
    same_command project command_type key r && r.command_id == command

-- Stores the response; fails if the reservation is not there exactly once.
unfoldable pub complete_command : Db → Uuid → Text → Text → Uuid → Completion → Result Error Db
complete_command db project command_type key command done = do
  require (count_where (is_reservation project command_type key command) db.commands == 1) internal
  ok (record db {
    commands =
        update_where (is_reservation project command_type key command)
          (λ r. record r { completion = some done }) db.commands;
  })

pub record EventInput : Type 0 where
  pub project : Uuid
  pub command_id : Uuid
  pub actor_id : Uuid
  pub session_id : Uuid
  pub intent_id : Uuid
  pub event_type : Text
  pub aggregate_type : Text
  pub aggregate_id : Uuid
  pub aggregate_version : ℕ
  pub git_revision : Text
  pub payload : Payload

pub event_row : Uuid → ℕ → EventInput → Event
event_row id sequence e = record {
  id = id;
  project = e.project;
  project_sequence = sequence;
  event_type = e.event_type;
  aggregate_type = e.aggregate_type;
  aggregate_id = e.aggregate_id;
  aggregate_version = e.aggregate_version;
  actor_id = e.actor_id;
  session_id = e.session_id;
  intent_id = e.intent_id;
  command_id = e.command_id;
  git_revision = e.git_revision;
  payload = e.payload;
}

abbrev pub is_project : Uuid → Project → Bool
is_project id p = p.id == id

abbrev pub count_up : ℕ → Project → Project
count_up n p = record p { last_sequence = n; event_sequence = n }

-- The next number of the project's counter, the event under it, and its entry in the outbox.
unfoldable pub append_event : Db → EventInput → Result Error (Uuid × Db)
unfolding event_row
append_event db e = do
  p ← or_fail (find (is_project e.project) db.projects) internal
  ok (
    db.next_id,
    record db {
      projects = update_where (is_project e.project) (count_up (p.last_sequence + 1)) db.projects;
      events = insert (event_row db.next_id (p.last_sequence + 1) e) db.events;
      outbox = insert db.next_id db.outbox;
      next_id = db.next_id + 1;
    },
  )
