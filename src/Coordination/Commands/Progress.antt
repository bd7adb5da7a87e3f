-- ===== src/Coordination/Commands/Progress.antt =====
-- When the bookkeeping of a command succeeds.
use the_pact.Prelude.{
  ℕ, ◌+◌, ◌≡◌, refl, inl, inr, none, some, find, insert, count_where, ok, ◌>>=◌, Result-cases,
  ok_not_err,
}
use the_pact.Text.{Text}
use the_pact.Identity.{Uuid}
use the_pact.Coordination.Commands.{
  reserved, reservation, same_command, reserve_row, reserve_command, is_reservation,
  complete_command, EventInput, append_event, is_project,
}
use the_pact.Database.{Db, Project, Completion}

-- The database behind a new reservation.
abbrev pub noted : Db → Uuid → Text → Text → ℕ → Db
noted db project kind key hash = record db {
  commands = insert (reservation db project kind key hash) db.commands;
  next_id = db.next_id + 1;
}

pub reserve_command-noted :
    (db : Db) (project : Uuid) (kind key : Text) (hash : ℕ)
    → find (same_command project kind key) db.commands ≡ none
    → reserve_command db project kind key hash
      ≡ ok (reserved db.next_id (noted db project kind key hash))
unfolding reserve_command reserve_row
reserve_command-noted db project kind key hash unused = rw unused refl

pub append_event_total :
    (db : Db) (e : EventInput) (p : Project)
    → find (is_project e.project) db.projects ≡ some p
    → (r : Uuid × Db) × (append_event db e ≡ ok r)
unfolding append_event ◌>>=◌
append_event_total db e p h = elim (Result-cases (append_event db e)) [
  | inl r ↦ r
  | inr (er, x) ↦ absurd (ok_not_err (rw h at x))
]

pub complete_command_total :
    (db : Db) (project : Uuid) (kind key : Text) (command : Uuid) (done : Completion)
    → count_where (is_reservation project kind key command) db.commands ≡ 1
    → (d : Db) × (complete_command db project kind key command done ≡ ok d)
unfolding complete_command ◌>>=◌
complete_command_total db project kind key command done h =
    elim (Result-cases (complete_command db project kind key command done)) [
      | inl r ↦ r
      | inr (er, x) ↦ absurd (ok_not_err (rw h at x))
    ]
