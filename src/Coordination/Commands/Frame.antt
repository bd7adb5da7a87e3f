-- ===== src/Coordination/Commands/Frame.antt =====
-- What the bookkeeping of a command leaves alone.
use the_pact.Prelude.{
  ℕ, ◌≤◌, ◌≡◌, refl, not, Option, none, some, arith, Ensures, Ensures-ok, Ensures-or_fail,
  Ensures-require, Ensures-if, ◌==◌,
}
use the_pact.Text.{Text}
use the_pact.Identity.{Uuid}
use the_pact.Database.{Db, IdempotencyRecord, Completion}
use the_pact.Coordination.Commands.{
  EventInput, append_event, complete_command, Reservation, reserved, replayed, reserve_command,
  replay, stored_result, reserve_row,
}

-- `e` is `d` but for its commands, events, outbox and counters.
pub record SameWork (d e : Db) : Type 0 where
  pub same_sessions : e.sessions ≡ d.sessions
  pub same_agents : e.agents ≡ d.agents
  pub same_actors : e.actors ≡ d.actors
  pub same_intents : e.intents ≡ d.intents
  pub same_resources : e.resources ≡ d.resources
  pub same_claims : e.claims ≡ d.claims
  pub same_worktrees : e.worktrees ≡ d.worktrees
  pub same_handoffs : e.handoffs ≡ d.handoffs
  pub more_ids : d.next_id ≤ e.next_id

pub SameWork-trans : {d e f : Db} → SameWork d e → SameWork e f → SameWork d f
SameWork-trans h k = ground arith

pub append_event-SameWork :
    (db : Db) (e : EventInput) → Ensures (λ r. SameWork db r.1) (append_event db e)
unfolding append_event
append_event-SameWork db e = Ensures-or_fail _ _ _ λ p hp. Ensures-ok _ (ground arith)

pub complete_command-SameWork :
    (db : Db) (project : Uuid) (kind key : Text) (command : Uuid) (done : Completion)
    → Ensures (SameWork db) (complete_command db project kind key command done)
unfolding complete_command
complete_command-SameWork db project kind key command done =
    Ensures-require _ _ _ λ _. Ensures-ok _ (ground arith)

pub append_event-commands :
    (db : Db) (e : EventInput) → Ensures (λ r. r.1.commands ≡ db.commands) (append_event db e)
unfolding append_event
append_event-commands db e = Ensures-or_fail _ _ _ λ p hp. Ensures-ok _ refl

-- A reservation is new work on the same tables; a repetition returns what was stored.
abbrev pub Reserves : Db → Reservation → Type 0
Reserves db (reserved command e) = SameWork db e
Reserves db (replayed body) = Unit

stored_result-Reserves :
    (db : Db) (r : IdempotencyRecord) (hash : ℕ) → Ensures (Reserves db) (stored_result r hash)
unfolding stored_result
stored_result-Reserves db r hash =
    Ensures-if (not (r.request_hash == hash)) _ _ (λ _. record { holds = λ a e. cc })
      (λ _. replays r.completion)
  where
    replays : (c : Option Completion) → Ensures (Reserves db) (replay c)
    replays none = record { holds = λ a e. cc }
    replays (some c) = Ensures-ok _ tt

reserve_row-Reserves :
    (db : Db) (project : Uuid) (kind key : Text) (hash : ℕ) (row : Option IdempotencyRecord)
    → Ensures (Reserves db) (reserve_row db project kind key hash row)
unfolding reserve_row
reserve_row-Reserves db project kind key hash none = Ensures-ok _ (ground arith)
reserve_row-Reserves db project kind key hash (some r) = stored_result-Reserves db r hash

pub reserve_command-Reserves :
    (db : Db) (project : Uuid) (kind key : Text) (hash : ℕ)
    → Ensures (Reserves db) (reserve_command db project kind key hash)
unfolding reserve_command
reserve_command-Reserves db project kind key hash = reserve_row-Reserves db project kind key hash _
