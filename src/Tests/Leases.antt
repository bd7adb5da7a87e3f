-- ===== src/Tests/Leases.antt =====
-- The theorems on heartbeats and the end of sessions, at runs of the commands.
use the_pact.Prelude.{◌<◌, ◌≤◌, refl, inl, inr, false, In, arith, find}
use the_pact.Text.{text, text_eq}
use the_pact.Coordination.Model.{ScopeClaim}
use the_pact.Coordination.Exclusion.{Exclusive}
use the_pact.AgentSession.{carries}
use the_pact.AgentSession.Exclusion.{Current, heartbeat-Exclusive}
use the_pact.AgentSession.Revival.{heartbeat_revives}
use the_pact.Execution.{waits, starts, done, next}
use the_pact.Execution.Safety.{Safe, Run-Safe}
use the_pact.Tests.Office.{office-Safe}
use the_pact.Tests.Runs.{parser, started, beaten, waiting, taken_over, revived}

started-Safe : Safe started.1 20000000
started-Safe =
    Run-Safe (next (starts 20 false 1 (text "k1") 7 parser refl started.2) (next (waits le) done))
      (office-Safe 1000000)
  where
    le : 1000000 ≤ 20000000
    le = omega arith

started-Current : Current started.1 20000000 40
unfolding started
started-Current = record { running = λ c m t. in_time c m }
  where
    in_time : (c : ScopeClaim) → In c started.1.claims → 20000000 < c.expires_at
    in_time c (inl e) = rw e (omega arith)
    in_time c (inr never) = absurd never

heartbeat-Exclusive_example : Exclusive beaten.1 20000000
heartbeat-Exclusive_example =
    heartbeat-Exclusive started.1 beaten.1 20000000 20 false 40 beaten.0 started-Current
      started-Safe.exclusive beaten.2

heartbeat_revives_example : ¬ Exclusive revived.1 63000000
unfolding started waiting taken_over carries find text_eq
heartbeat_revives_example =
    heartbeat_revives taken_over.1 revived.1 63000000 20 false 40 revived.0 _ _ _ (inl refl) refl
      refl refl
      (record {
        listed = inr (inl refl);
        active = refl;
        unexpired = omega arith;
        intent = _;
        of_intent = refl;
        unfinished = refl;
      })
      refl
      (record {
        other_intent = λ e. omega (arith, e);
        one_project = refl;
        one_repository = refl;
        common_path = (text "a.go", refl, refl);
      })
      (λ shared. cc (shared.0)) revived.2
