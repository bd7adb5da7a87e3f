-- ===== src/Coordination/Start/Worktrees.antt =====
-- Starting work leaves the worktrees alone.
use the_pact.Prelude.{
  ℕ, ◌≡◌, refl, ◌∙◌, Bool, List, Ensures, Ensures-bind, Ensures-require, Ensures-ok, ok,
}
use the_pact.Text.{Text, text}
use the_pact.Identity.{Uuid, Time}
use the_pact.Coordination.Model.{StartInput, StartResult, ScopeOverlap}
use the_pact.Coordination.Commands.{
  authorize_session, Reservation, reserved, replayed, reserve_command,
}
use the_pact.Coordination.Commands.Frame.{
  append_event-SameWork, complete_command-SameWork, Reserves, reserve_command-Reserves,
}
use the_pact.Coordination.Start.{claimant, create_rows, create_work, run_start, start}
use the_pact.Coordination.Start.Rows.{insert_claims-Inserted}
use the_pact.Database.{Db}

create_rows-worktrees :
    (db : Db) (now : Time) (project actor repo : Uuid) (input : StartInput)
    → Ensures (λ r. r.2.worktrees ≡ db.worktrees) (create_rows db now project actor repo input)
unfolding create_rows
create_rows-worktrees db now project actor repo input = Ensures-require _ _ _ λ fits.
    Ensures-bind _ _ λ r hr. Ensures-ok _ (
      ((insert_claims-Inserted _ (claimant db now project repo input) input.scopes).holds r
        hr).kept.same_worktrees)

create_work-worktrees :
    (db : Db) (now : Time) (project : Uuid) (key : Text) (actor command repo : Uuid)
    (overlaps : List ScopeOverlap) (input : StartInput)
    → Ensures
        (λ r. r.1.worktrees ≡ db.worktrees)
        (create_work db now project key actor command repo overlaps input)
unfolding create_work
create_work-worktrees db now project key actor command repo overlaps input =
    Ensures-bind _ _ λ q hq. Ensures-bind _ _ λ r hr. Ensures-bind _ _ λ d hd. Ensures-ok _ (
      ((complete_command-SameWork _ _ _ _ _ _).holds d hd).same_worktrees
      ∙ (((append_event-SameWork _ _).holds r hr).same_worktrees
          ∙ (create_rows-worktrees db now project actor repo input).holds q hq))

run_start-worktrees :
    (db : Db) (now : Time) (project : Uuid) (key : Text) (actor : Uuid) (input : StartInput)
    (r : Reservation)
    → Reserves db r
    → Ensures (λ s. s.1.worktrees ≡ db.worktrees) (run_start db now project key actor input r)
unfolding run_start
run_start-worktrees db now project key actor input (replayed body) h =
    Ensures-bind _ _ λ r hr. Ensures-ok _ refl
run_start-worktrees db now project key actor input (reserved command e) h =
    Ensures-bind _ _ λ repo hr. Ensures-require _ _ _ λ passed. record {
      holds = λ s hs.
          (create_work-worktrees e now project key actor command repo _ input).holds s hs
          ∙ h.same_worktrees;
    }

pub start-worktrees :
    (db d : Db) (now : Time) (principal : Uuid) (allow_all : Bool) (project : Uuid) (key : Text)
    (hash : ℕ) (input : StartInput) (result : StartResult)
    → start db now principal allow_all project key hash input ≡ ok (result, d)
    → d.worktrees ≡ db.worktrees
unfolding start
start-worktrees db d now principal allow_all project key hash input result h =
    (Ensures-bind (authorize_session db now principal allow_all project input.session_id) _
        λ actor ha. Ensures-bind (reserve_command db project (text "work.start") key hash) _ λ r hr.
          run_start-worktrees db now project key actor input r
            ((reserve_command-Reserves db project (text "work.start") key hash).holds r hr)).holds
      (result, d) h
