-- ===== src/Coordination/Commands/Replay.antt =====
-- Repeated commands: what a completed reservation answers.
use the_pact.Prelude.{
  ℕ, ◌≡◌, refl, sym, ap, ◌∙◌, inl, inr, true, Option, none, some, [], ◌∷◌, ◌++◌, arith, Bool-cases,
  and_elim, find, find-append_none, find-update_where, update_where, count_where,
  count_where-append, count_where-none, ◌==◌, if◌then◌else◌, Ensures, Ensures-ok, Ensures-require,
  Result, ok, err,
}
use the_pact.Text.{Text}
use the_pact.Text.Laws.{text_eq_refl}
use the_pact.Identity.{Uuid}
use the_pact.Coordination.Model.{Error, idempotency_conflict}
use the_pact.Coordination.Commands.{
  same_command, Reservation, reserved, replayed, reservation, replay, stored_result, reserve_row,
  reserve_command, is_reservation, complete_command,
}
use the_pact.Database.{Db, IdempotencyRecord, Completion, Response}

-- A new reservation: no command ran under the key.
pub record Reserved (db : Db) (project : Uuid) (kind key : Text) (hash : ℕ) (command : Uuid)
    (e : Db) : Type 0 where
  pub unused : find (same_command project kind key) db.commands ≡ none
  pub numbered : command ≡ db.next_id
  pub added : e.commands ≡ db.commands ++ reservation db project kind key hash ∷ []

abbrev command_of : Result Error Reservation → Uuid
command_of (ok (reserved command e)) = command
command_of _ = 0

abbrev db_of : Db → Result Error Reservation → Db
db_of db (ok (reserved command e)) = e
db_of db _ = db

stored_result_old :
    (r : IdempotencyRecord) (hash : ℕ) (command : Uuid) (e : Db)
    → stored_result r hash ≡ ok (reserved command e)
    → ⊥
unfolding stored_result
stored_result_old r hash command e h = elim (Bool-cases (r.request_hash == hash)) [
  | inl same ↦ old r.completion (rw same at h)
  | inr other ↦ refused (rw other at h)
]
  where
    refused :
        ◌≡◌ {A = Result Error Reservation} (err idempotency_conflict) (ok (reserved command e)) → ⊥
    refused h = cc

    old : (c : Option Completion) → replay c ≡ ok (reserved command e) → ⊥
    old none h = cc
    old (some c) h = ground arith

reserve_row-Reserved :
    (db e : Db) (project : Uuid) (kind key : Text) (hash : ℕ) (command : Uuid)
    (row : Option IdempotencyRecord)
    → find (same_command project kind key) db.commands ≡ row
    → reserve_row db project kind key hash row ≡ ok (reserved command e)
    → Reserved db project kind key hash command e
unfolding reserve_row
reserve_row-Reserved db e project kind key hash command none free h = record {
  unused = free;
  numbered = sym (ap command_of h);
  added = ap (λ (d : Db). d.commands) (sym (ap (db_of db) h));
}
reserve_row-Reserved db e project kind key hash command (some r) used h =
    absurd (stored_result_old r hash command e h)

pub reserve_command-Reserved :
    (db e : Db) (project : Uuid) (kind key : Text) (hash : ℕ) (command : Uuid)
    → reserve_command db project kind key hash ≡ ok (reserved command e)
    → Reserved db project kind key hash command e
unfolding reserve_command
reserve_command-Reserved db e project kind key hash command h =
    reserve_row-Reserved db e project kind key hash command _ refl h

module _ (db : Db) (project : Uuid) (kind key : Text) (hash : ℕ) where
  abbrev row : IdempotencyRecord
  row = reservation db project kind key hash

  row_matches : same_command project kind key row ≡ true
  unfolding same_command
  row_matches = ground (arith, text_eq_refl kind, text_eq_refl key)

  row_reserved : is_reservation project kind key db.next_id row ≡ true
  unfolding is_reservation
  row_reserved = ground (arith, row_matches)

  narrower :
      (command : Uuid) (r : IdempotencyRecord)
      → is_reservation project kind key command r ≡ true
      → same_command project kind key r ≡ true
  unfolding is_reservation
  narrower command r h = (and_elim _ _ h).0

  -- The reservation is there once, so completing it does not fail.
  pub reserved_once :
      find (same_command project kind key) db.commands ≡ none
      → count_where (is_reservation project kind key db.next_id) (db.commands ++ row ∷ []) ≡ 1
  unfolding count_where
  reserved_once free = omega (
    arith,
    count_where-append (is_reservation project kind key db.next_id) db.commands (row ∷ []),
    count_where-none (same_command project kind key) (is_reservation project kind key db.next_id)
        db.commands (narrower db.next_id) free,
    one,
  )
    where
      one : count_where (is_reservation project kind key db.next_id) (row ∷ []) ≡ 1
      one = rw row_reserved refl

  abbrev completed : Completion → IdempotencyRecord → IdempotencyRecord
  completed done r = record r { completion = some done }

  completed_commands :
      (f : Db) (command : Uuid) (done : Completion)
      → Ensures
          (λ (g : Db).
            g.commands
            ≡ update_where (is_reservation project kind key command) (completed done) f.commands)
          (complete_command f project kind key command done)
  unfolding complete_command
  completed_commands f command done = Ensures-require _ _ _ λ _. Ensures-ok _ refl

  found_completed :
      (command : Uuid) (done : Completion)
      → find (same_command project kind key) db.commands ≡ none
      → command ≡ db.next_id
      → find (same_command project kind key) (
          update_where
            (is_reservation project kind key command)
            (completed done)
            (db.commands ++ row ∷ []))
        ≡ some (completed done row)
  unfolding same_command
  found_completed command done free e =
      find-update_where (same_command project kind key) (is_reservation project kind key command)
        (completed done) (db.commands ++ row ∷ []) (λ x. refl)
      ∙ rw (find-append_none (same_command project kind key) db.commands (row ∷ []) free)
          (rw (found_row, e, row_reserved) refl)
    where
      found_row : find (same_command project kind key) (row ∷ []) ≡ some row
      found_row = unfold find in rw row_matches refl

  completed_answers :
      (again : ℕ) (done : Completion)
      → stored_result (completed done row) again
        ≡ (if hash == again then ok (replayed done.response_body) else err idempotency_conflict)
  unfolding stored_result
  completed_answers again done = ground arith

  -- A command that has completed answers its repetitions, under any hash, from what it stored.
  pub reserve_complete :
      (again : ℕ) (command : Uuid) (e f g : Db) (done : Completion)
      → reserve_command db project kind key hash ≡ ok (reserved command e)
      → f.commands ≡ e.commands
      → complete_command f project kind key command done ≡ ok g
      → reserve_command g project kind key again
        ≡ (if hash == again then ok (replayed done.response_body) else err idempotency_conflict)
  reserve_complete again command e f g done hr same hc =
      let r = reserve_command-Reserved db e project kind key hash command hr in
      let commands =
        (completed_commands f command done).holds g hc
        ∙ ap (update_where (is_reservation project kind key command) (completed done))
            (same ∙ r.added) in
      let found =
        ap (find (same_command project kind key)) commands
        ∙ found_completed command done r.unused r.numbered in
      answers g found ∙ completed_answers again done
    where
      answers :
          (g : Db)
          → find (same_command project kind key) g.commands ≡ some (completed done row)
          → reserve_command g project kind key again ≡ stored_result (completed done row) again
      answers g found = unfold reserve_command reserve_row in rw found refl

-- How a command ended: with its response stored, and the tables of commands otherwise untouched.
pub record Completed (e : Db) (project : Uuid) (kind key : Text) (command : Uuid) (body : Response)
    (d : Db) : Type 0 where
  pub middle : Db
  pub same_commands : middle.commands ≡ e.commands
  pub done : Completion
  pub stored : done.response_body ≡ body
  pub completes : complete_command middle project kind key command done ≡ ok d

pub reserve_again :
    (db e d : Db) (project : Uuid) (kind key : Text) (hash again : ℕ) (command : Uuid)
    (body : Response)
    → reserve_command db project kind key hash ≡ ok (reserved command e)
    → Completed e project kind key command body d
    → reserve_command d project kind key again
      ≡ (if hash == again then ok (replayed body) else err idempotency_conflict)
reserve_again db e d project kind key hash again command body hr c =
    reserve_complete db project kind key hash again command e c.middle d c.done hr c.same_commands
      c.completes
    ∙ ap (λ (b : Response). if hash == again then ok (replayed b) else err idempotency_conflict)
        c.stored
