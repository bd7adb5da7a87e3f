-- ===== src/Coordination/Attach/Safety.antt =====
-- Registering a worktree leaves the leases alone.
use the_pact.Prelude.{
  ℕ, ◌≡◌, Bool, arith, Ensures, Ensures-bind, Ensures-or_fail, Ensures-require, Ensures-ok, ok,
}
use the_pact.Text.{Text, text}
use the_pact.Identity.{Uuid, Time}
use the_pact.Coordination.Model.{WorkspaceInput, WorkspaceResult}
use the_pact.Coordination.Commands.{Reservation, reserved, replayed}
use the_pact.Coordination.Commands.Frame.{
  SameWork, SameWork-trans, append_event-SameWork, complete_command-SameWork, Reserves,
  reserve_command-Reserves,
}
use the_pact.Coordination.Exclusion.Keeps.{SameLeases}
use the_pact.Coordination.Attach.{insert_worktree, run_attach, attach_workspace}
use the_pact.Database.{Db}

insert_worktree-SameLeases :
    (db : Db) (now : Time) (project repo intent : Uuid) (input : WorkspaceInput)
    → Ensures (λ r. SameLeases db r.1) (insert_worktree db now project repo intent input)
unfolding insert_worktree
insert_worktree-SameLeases db now project repo intent input =
    Ensures-require _ _ _ λ vacant. Ensures-ok _ (ground arith)

joined : {db e f d : Db} → SameWork db e → SameLeases e f → SameWork f d → SameLeases db d
joined h k l = ground arith

run_attach-SameLeases :
    (db : Db) (now : Time) (key : Text) (actor project repo intent : Uuid) (input : WorkspaceInput)
    (r : Reservation)
    → Reserves db r
    → Ensures (λ s. SameLeases db s.1) (run_attach db now key actor project repo intent input r)
unfolding run_attach
run_attach-SameLeases db now key actor project repo intent input (replayed body) h =
    Ensures-bind _ _ λ r hr. Ensures-ok _ (ground arith)
run_attach-SameLeases db now key actor project repo intent input (reserved command e) h =
    Ensures-bind _ _ λ r hr. Ensures-bind _ _ λ v hv. Ensures-bind _ _ λ d hd. Ensures-ok _ (
      joined h ((insert_worktree-SameLeases e now project repo intent input).holds r hr) (
        SameWork-trans ((append_event-SameWork _ _).holds v hv)
          ((complete_command-SameWork _ _ _ _ _ _).holds d hd)))

pub attach_workspace-SameLeases :
    (db d : Db) (now : Time) (principal : Uuid) (allow_all : Bool) (intent : Uuid) (key : Text)
    (hash : ℕ) (input : WorkspaceInput) (result : WorkspaceResult)
    → attach_workspace db now principal allow_all intent key hash input ≡ ok (result, d)
    → SameLeases db d
unfolding attach_workspace
attach_workspace-SameLeases db d now principal allow_all intent key hash input result ran =
    (Ensures-or_fail _ _ _ λ i hi. Ensures-or_fail _ _ _ λ p hp. Ensures-or_fail _ _ _ λ repo hr.
        Ensures-bind _ _ λ actor ha. Ensures-require _ _ _ λ may. Ensures-bind _ _ λ r hv.
          run_attach-SameLeases db now key actor i.project repo intent input r (
            (reserve_command-Reserves db i.project (text "workspace.attach") key hash).holds r
              hv)).holds
      (result, d) ran
