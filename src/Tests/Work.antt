-- ===== src/Tests/Work.antt =====
-- The theorems on starting, changing and registering work, at runs of the commands.
use the_pact.Prelude.{
  ◌≤◌, ◌≡◌, refl, true, false, All, ◌&&◌, not, ◌⊎◌, ok, err, ◌==◌, if◌then◌else◌, arith, ◌>>=◌,
  find, any_row,
}
use the_pact.Text.{contains_rune, is_padding, text}
use the_pact.Identity.{Uuid}
use the_pact.Coordination.Model.{
  Error, forbidden, internal, scope_conflict, idempotency_conflict, IntentStatus, StartResult,
}
use the_pact.Coordination.Exclusion.{Exclusive}
use the_pact.Coordination.Start.{start, fits_intents}
use the_pact.Coordination.Start.Targets.{distinct_targets}
use the_pact.Coordination.Start.Progress.{Storable, start_decides}
use the_pact.Coordination.Conflicts.{load_scope_overlaps, has_blocking_overlap}
use the_pact.Coordination.Start.Safety.{start-Exclusive}
use the_pact.Coordination.Start.Repeat.{start_again}
use the_pact.Coordination.Commands.{authorize_session, admits, sponsors}
use the_pact.Coordination.Commands.Authorization.{MayAct, authorize_session_iff}
use the_pact.Coordination.Status.{releases, archives, freezes}
use the_pact.Coordination.Status.Safety.{update_status-Exclusive}
use the_pact.Coordination.Status.Effects.{
  Applied, update_status-Applied, update_status-finished, update_status-submitted,
  update_status-next_version,
}
use the_pact.Coordination.Attach.OneLive.{OneLive, attach_workspace-OneLive}
use the_pact.Execution.{waits, starts, changes_status, attaches, done, next}
use the_pact.Execution.Safety.{Safe, Run-Safe}
use the_pact.Database.{Db}
use the_pact.Tests.{office}
use the_pact.Tests.Office.{office-WellFormed, office-Exclusive, office-Safe, office-Keyed}
use the_pact.Tests.Runs.{
  parser, twice, commands, tree, to_status, started, attached, submitted, completed,
}

started-Safe : Safe started.1 1000000
started-Safe =
    Run-Safe (next (starts 20 false 1 (text "k1") 7 parser refl started.2) done)
      (office-Safe 1000000)

attached-Safe : Safe attached.1 3000000
attached-Safe =
    Run-Safe
      (next (waits (lt_1))
        (next (attaches 20 false 101 (text "k3") 9 tree attached.2) (next (waits (lt_2)) done)))
      started-Safe
  where
    lt_1 : 1000000 ≤ 2000000
    lt_1 = omega arith

    lt_2 : 2000000 ≤ 3000000
    lt_2 = omega arith

start-Exclusive_example : Exclusive started.1 1000000
start-Exclusive_example =
    start-Exclusive office started.1 1000000 20 false 1 (text "k1") 7 parser started.0
      office-WellFormed (office-Exclusive 1000000) refl started.2

start_again_example : start started.1 2000000 20 false 1 (text "k1") 7 parser ≡ (
    if 7 == 7
    then ok (record started.0 { is_replay = true }, started.1)
    else err idempotency_conflict)
unfolding started authorize_session admits sponsors find any_row ◌>>=◌
start_again_example =
    start_again office started.1 1000000 2000000 20 20 false false 1 (text "k1") 7 7 parser parser
      started.0 10 started.2 refl refl

authorize_session_iff_example :
    ((actor : Uuid)
      → authorize_session office 1000000 20 false 1 40 ≡ ok actor
      → MayAct office 1000000 20 false 1 40 actor)
    × ((actor : Uuid)
        → MayAct office 1000000 20 false 1 40 actor
        → (b : Uuid) × (authorize_session office 1000000 20 false 1 40 ≡ ok b))
    × ((e : Error) → authorize_session office 1000000 20 false 1 40 ≡ err e → e ≡ forbidden)
authorize_session_iff_example = authorize_session_iff office 1000000 20 false 1 40

update_status-Exclusive_example : Exclusive submitted.1 3000000
update_status-Exclusive_example =
    update_status-Exclusive attached.1 submitted.1 3000000 20 false 101 (text "k4") 10
      (to_status IntentStatus.submitted 1) submitted.0 submitted.2 attached-Safe.exclusive

update_status-Applied_example :
    Applied attached.1 3000000 101 (to_status IntentStatus.submitted 1) submitted.0 submitted.1
unfolding submitted
update_status-Applied_example =
    update_status-Applied attached.1 submitted.1 3000000 20 false 101 (text "k4") 10
      (to_status IntentStatus.submitted 1) submitted.0 submitted.2 refl

update_status-submitted_example :
    All (λ t. freezes submitted.0.intent t ≡ false) submitted.1.worktrees
unfolding submitted
update_status-submitted_example =
    update_status-submitted attached.1 submitted.1 3000000 20 false 101 (text "k4") 10
      (to_status IntentStatus.submitted 1) submitted.0 submitted.2 refl refl

update_status-finished_example :
    All (λ c. releases completed.0.intent c ≡ false) completed.1.claims
    × All (λ t. archives completed.0.intent t ≡ false) completed.1.worktrees
unfolding completed
update_status-finished_example =
    update_status-finished submitted.1 completed.1 4000000 20 false 101 (text "k5") 11
      (to_status IntentStatus.completed 2) completed.0 completed.2 refl refl

update_status-next_version_example : (to_status IntentStatus.completed 2).expected_version ≡ 2
unfolding submitted completed
update_status-next_version_example =
    update_status-next_version attached.1 submitted.1 completed.1 3000000 4000000 20 20 false false
      101 (text "k4") (text "k5") 10 11 (to_status IntentStatus.submitted 1)
      (to_status IntentStatus.completed 2) submitted.0 completed.0 submitted.2 refl completed.2 refl

attach_workspace-OneLive_example : OneLive attached.1
attach_workspace-OneLive_example =
    attach_workspace-OneLive started.1 attached.1 2000000 20 false 101 (text "k3") 9 tree attached.0
      started-Safe.one_live attached.2

Run-Safe_example : Safe completed.1 4000000
Run-Safe_example =
    Run-Safe
      (next (starts 20 false 1 (text "k1") 7 parser refl started.2) (
        next (waits le_1) (
          next (attaches 20 false 101 (text "k3") 9 tree attached.2) (
            next (waits le_2) (
              next
                (changes_status 20 false 101 (text "k4") 10 (to_status IntentStatus.submitted 1)
                  submitted.2)
                (next (waits le_3) (
                  next
                    (changes_status 20 false 101 (text "k5") 11 (to_status IntentStatus.completed 2)
                      completed.2)
                    done)))))))
      (office-Safe 1000000)
  where
    le_1 : 1000000 ≤ 2000000
    le_1 = omega arith

    le_2 : 2000000 ≤ 3000000
    le_2 = omega arith

    le_3 : 3000000 ≤ 4000000
    le_3 = omega arith

twice-Storable : Storable (text "k1") twice
unfolding is_padding contains_rune
twice-Storable = record {
  key_fits = (refl, omega arith, refl);
  texts_fit = (refl, (refl, (refl, (refl, tt))));
  locators_fit = ((refl, omega arith, refl), ((refl, omega arith, refl), tt));
}

start_decides_example :
    (((has_blocking_overlap (load_scope_overlaps office 1000000 1 2 twice.scopes)
          && not twice.allow_overlap)
        ≡ true)
      × (start office 1000000 20 false 1 (text "k1") 7 twice
          ≡ err (scope_conflict (load_scope_overlaps office 1000000 1 2 twice.scopes))))
    ⊎ ((((has_blocking_overlap (load_scope_overlaps office 1000000 1 2 twice.scopes)
              && not twice.allow_overlap)
            ≡ false)
          × ((fits_intents twice && distinct_targets twice.scopes) ≡ false)
          × (start office 1000000 20 false 1 (text "k1") 7 twice ≡ err internal))
        ⊎ (((has_blocking_overlap (load_scope_overlaps office 1000000 1 2 twice.scopes)
                && not twice.allow_overlap)
              ≡ false)
            × ((fits_intents twice && distinct_targets twice.scopes) ≡ true)
            × ((r : StartResult × Db) × (start office 1000000 20 false 1 (text "k1") 7 twice ≡ ok r)
                × (r.0.is_replay ≡ false))))
unfolding authorize_session admits sponsors find any_row ◌>>=◌
start_decides_example =
    start_decides office 1000000 1 (text "k1") 7 10 2 twice _ refl refl refl 20 false twice-Storable
      office-WellFormed office-Keyed refl

-- The file is claimed once, and the second claim on it is refused.
twice_refused : start office 1000000 20 false 1 (text "k1") 7 twice ≡ err internal
unfolding commands
twice_refused = refl
