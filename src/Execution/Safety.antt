-- ===== src/Execution/Safety.antt =====
-- The invariants of the database along every order of commands.
use the_pact.Prelude.{◌≡◌}
use the_pact.Identity.{Time}
use the_pact.Coordination.Exclusion.{Exclusive, Exclusive-later, WellFormed}
use the_pact.Coordination.Exclusion.Keeps.{WellFormed-SameLeases, Exclusive-SameLeases}
use the_pact.Coordination.Start.Safety.{start-Exclusive, start-WellFormed}
use the_pact.Coordination.Start.Worktrees.{start-worktrees}
use the_pact.Coordination.Status.Safety.{update_status-Exclusive, update_status-WellFormed}
use the_pact.Coordination.Status.OneLive.{update_status-OneLive}
use the_pact.Coordination.Attach.OneLive.{OneLive, attach_workspace-OneLive}
use the_pact.Coordination.Attach.Safety.{attach_workspace-SameLeases}
use the_pact.AgentSession.Exclusion.{
  heartbeat-Exclusive, heartbeat-WellFormed, heartbeat-worktrees, close-Exclusive, close-WellFormed,
  close-worktrees,
}
use the_pact.Execution.{
  Step, waits, starts, changes_status, attaches, beats, closes, Run, done, next,
}
use the_pact.Database.{Db}

-- The foreign keys, the exclusion of scopes, and one live worktree for an intent.
pub record Safe (db : Db) (now : Time) : Type 0 where
  pub well_formed : WellFormed db
  pub exclusive : Exclusive db now
  pub one_live : OneLive db

same_live : (d e : Db) → e.worktrees ≡ d.worktrees → OneLive d → OneLive e
same_live d e h x = λ p i. rw h (x p i)

Step-Safe : {db d : Db} {now later : Time} → Step db now d later → Safe db now → Safe d later
Step-Safe {db} {d} (waits {now = now} {later = later} le) s = record {
  well_formed = s.well_formed;
  exclusive = Exclusive-later db now later le s.exclusive;
  one_live = s.one_live;
}
Step-Safe {db} {d} {now}
      (starts principal allow_all project key hash input {result = result} strict ran) s =
    record {
      well_formed =
          start-WellFormed db d now principal allow_all project key hash input result s.well_formed
            ran;
      exclusive =
          start-Exclusive db d now principal allow_all project key hash input result s.well_formed
            s.exclusive strict ran;
      one_live =
          same_live db d
            (start-worktrees db d now principal allow_all project key hash input result ran)
            s.one_live;
    }
Step-Safe {db} {d} {now}
      (changes_status principal allow_all intent key hash input {result = result} ran) s =
    record {
      well_formed =
          update_status-WellFormed db d now principal allow_all intent key hash input result ran
            s.well_formed;
      exclusive =
          update_status-Exclusive db d now principal allow_all intent key hash input result ran
            s.exclusive;
      one_live =
          update_status-OneLive db d now principal allow_all intent key hash input result s.one_live
            ran;
    }
Step-Safe {db} {d} {now} (attaches principal allow_all intent key hash input {result = result} ran)
      s =
    let h =
      attach_workspace-SameLeases db d now principal allow_all intent key hash input result ran in
    record {
      well_formed = WellFormed-SameLeases db d h s.well_formed;
      exclusive = Exclusive-SameLeases db d now h s.exclusive;
      one_live =
          attach_workspace-OneLive db d now principal allow_all intent key hash input result
            s.one_live ran;
    }
Step-Safe {db} {d} {now} (beats principal allow_all session {view = view} current ran) s = record {
  well_formed = heartbeat-WellFormed db d now principal allow_all session view s.well_formed ran;
  exclusive = heartbeat-Exclusive db d now principal allow_all session view current s.exclusive ran;
  one_live =
      same_live db d (heartbeat-worktrees db d now principal allow_all session view ran) s.one_live;
}
Step-Safe {db} {d} {now} (closes principal allow_all session {u = u} ran) s = record {
  well_formed = close-WellFormed db d now principal allow_all session u s.well_formed ran;
  exclusive = (close-Exclusive db d now principal allow_all session u s.exclusive ran).0;
  one_live = same_live db d (close-worktrees db d now principal allow_all session u ran) s.one_live;
}

-- Every order of starts without override, changes of status, worktrees, closed sessions,
-- heartbeats in time and waiting keeps the foreign keys, the exclusion of scopes, and one live
-- worktree at most for each intent.
pub Run-Safe : {db d : Db} {now later : Time} → Run db now d later → Safe db now → Safe d later
Run-Safe done s = s
Run-Safe (next step rest) s = Run-Safe rest (Step-Safe step s)
