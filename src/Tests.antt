-- ===== src/Tests.antt =====
-- A small organization on which the commands are run.
mod Runs
mod Office
mod Work
mod Leases
mod Requests
mod Handoffs
mod Service
mod Company
mod Logins
mod Accounts
use the_pact.Prelude.{◌≡◌, refl, true, false, none, some, List, [], ◌∷◌, Result, ok, err}
use the_pact.Text.{Text, text}
use the_pact.Identity.{Uuid}
use the_pact.Coordination.Model.{Scope, file, ClaimMode, StartInput}
use the_pact.Database.{Db, ActorStatus, Session, SessionStatus}

abbrev pub a_session : Uuid → Uuid → Session
a_session id actor = record {
  id = id;
  project = 1;
  actor_id = actor;
  node_id = 30;
  status = SessionStatus.active;
  started_at = 0;
  last_seen_at = 0;
  expires_at = 45000000;
  ended_at = none;
  version = 1;
}

-- One project, and two agents with their sessions.
abbrev pub office : Db
office = record {
  projects =
      record {
        id = 1;
        workspace_id = some 3;
        root_repository_id = some 2;
        archived = false;
        last_sequence = 0;
        event_sequence = 0;
      }
      ∷ [];
  actors =
      record { id = 10; status = ActorStatus.active; display_name = text "Codex" }
      ∷ record { id = 11; status = ActorStatus.active; display_name = text "Claude" }
      ∷ [];
  agents =
      record { id = 10; sponsor_principal_id = 20 }
      ∷ record { id = 11; sponsor_principal_id = 21 }
      ∷ [];
  nodes =
      record { id = 30; name = text "laptop"; online = true; last_seen_at = 0; version = 1 } ∷ [];
  sessions = a_session 40 10 ∷ a_session 41 11 ∷ [];
  knowledge_records = [];
  intents = [];
  resources = [];
  claims = [];
  worktrees = [];
  handoffs = [];
  handoff_records = [];
  commands = [];
  events = [];
  outbox = [];
  next_id = 100;
}

abbrev pub exclusive_file : Text → Scope
exclusive_file name = record { kind = file; locator = name; mode = ClaimMode.exclusive }

abbrev pub work_on : Uuid → List Scope → StartInput
work_on session scopes = record {
  session_id = session;
  title = text "Fix the parser";
  goal = text "No crash on empty input";
  success_criteria = text "Tests pass" ∷ [];
  base_revision = text "0123456789abcdef";
  scopes = scopes;
  allow_overlap = false;
}

-- A command that succeeds, with what it returns.
abbrev pub Ran : {E A : Type 0} → Result E (A × Db) → Type 0
Ran {A = A} m = (a : A) × (d : Db) × (m ≡ ok (a, d))

abbrev pub Succeeds : {E A : Type 0} → Result E A → Type 0
Succeeds (ok a) = Unit
Succeeds (err e) = ⊥

abbrev pub ran : {E A : Type 0} → (m : Result E (A × Db)) → Succeeds m → Ran m
ran (ok (a, d)) h = (a, d, refl)
ran (err e) h = absurd h
