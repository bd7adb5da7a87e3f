-- ===== src/Coordination/Start/Repeat.antt =====
-- Repeating work.start: the stored result, or a conflict.
use the_pact.Prelude.{
  ℕ, ◌≡◌, refl, sym, ap, ◌∙◌, Bool, true, false, List, ok, err, Result, ◌>>=◌, >>=-eq-ok, Ensures,
  Ensures-ok, Ensures-bind, Ensures-require, ◌==◌, if◌then◌else◌,
}
use the_pact.Text.{Text, text}
use the_pact.Identity.{Uuid, Time}
use the_pact.Coordination.Model.{Error, idempotency_conflict, StartInput, StartResult, ScopeOverlap}
use the_pact.Coordination.Commands.{
  authorize_session, Reservation, reserved, replayed, reserve_command,
}
use the_pact.Coordination.Commands.Replay.{Completed, reserve_again}
use the_pact.Coordination.Commands.Frame.{append_event-commands}
use the_pact.Coordination.Start.{create_work, replay_start, run_start, start}
use the_pact.Coordination.Start.Rows.{create_rows-commands}
use the_pact.Database.{Db, Response, start_response}

create_work-Completed :
    (db : Db) (now : Time) (project : Uuid) (key : Text) (actor command repo : Uuid)
    (overlaps : List ScopeOverlap) (input : StartInput)
    → Ensures
        (λ r.
          Completed db project (text "work.start") key command (start_response r.0) r.1
          × (r.0.is_replay ≡ false))
        (create_work db now project key actor command repo overlaps input)
unfolding create_work
create_work-Completed db now project key actor command repo overlaps input =
    Ensures-bind _ _ λ q hq. Ensures-bind _ _ λ r hr. Ensures-bind _ _ λ d hd. Ensures-ok _ (
      record {
        middle = r.1;
        same_commands =
            (append_event-commands _ _).holds r hr
            ∙ (create_rows-commands db now project actor repo input).holds q hq;
        done = _;
        stored = refl;
        completes = hd;
      },
      refl,
    )

-- What a start did, by its reservation.
abbrev Ran : Uuid → Text → Reservation → StartResult × Db → Type 0
Ran project key (replayed body) r = r.0.is_replay ≡ true
Ran project key (reserved command e) r =
    Completed e project (text "work.start") key command (start_response r.0) r.1

replay_start-marked : (b : Response) (r : StartResult) → replay_start b ≡ ok r → r.is_replay ≡ true
unfolding replay_start
replay_start-marked (start_response s) r h = sym (ap (marked r) h)
  where
    marked : StartResult → Result Error StartResult → Bool
    marked r (ok t) = t.is_replay
    marked r (err e) = true
replay_start-marked _ r h = cc

run_start-Ran :
    (db : Db) (now : Time) (project : Uuid) (key : Text) (actor : Uuid) (input : StartInput)
    (r : Reservation)
    → Ensures (Ran project key r) (run_start db now project key actor input r)
unfolding run_start
run_start-Ran db now project key actor input (replayed body) =
    Ensures-bind _ _ λ r hr. Ensures-ok _ (replay_start-marked body r hr)
run_start-Ran db now project key actor input (reserved command e) = Ensures-bind _ _ λ repo hr.
    Ensures-require _ _ _ λ passed. record {
      holds =
          λ r h. ((create_work-Completed e now project key actor command repo _ input).holds r h).0;
    }

module _ (db d : Db) (now later : Time) (project : Uuid) (key : Text) (hash again : ℕ)
    (input input' : StartInput) (result : StartResult) (actor actor' : Uuid) where
  abbrev answer : Result Error (StartResult × Db)
  answer =
      if hash == again then ok (record result { is_replay = true }, d) else err idempotency_conflict

  answers :
      (t : Bool)
      → (hash == again) ≡ t
      → reserve_command d project (text "work.start") key again ≡ (
          if hash == again then ok (replayed (start_response result)) else err idempotency_conflict)
      → (reserve_command d project (text "work.start") key again
          >>= run_start d later project key actor' input')
        ≡ answer
  unfolding ◌>>=◌ run_start replay_start
  answers true same h = rw (h, same) refl
  answers false other h = rw (h, other) refl

  again_after :
      (r : Reservation)
      → reserve_command db project (text "work.start") key hash ≡ ok r
      → run_start db now project key actor input r ≡ ok (result, d)
      → result.is_replay ≡ false
      → (reserve_command d project (text "work.start") key again
          >>= run_start d later project key actor' input')
        ≡ answer
  again_after (replayed body) hr h fresh = absurd (
      differ (
        sym fresh
        ∙ (run_start-Ran db now project key actor input (replayed body)).holds (result, d) h))
    where
      differ : false ≡ true → ⊥
      differ e = cc
  again_after (reserved command e) hr h fresh = answers _ refl (
      reserve_again db e d project (text "work.start") key hash again command
        (start_response result) hr
        ((run_start-Ran db now project key actor input (reserved command e)).holds (result, d) h))

-- The same command again, under the same key: with the same request it returns the stored result,
-- marked as a repetition, and changes nothing; with another it is refused.
pub start_again :
    (db d : Db) (now later : Time) (principal other : Uuid) (allow_all allow : Bool)
    (project : Uuid) (key : Text) (hash again : ℕ) (input input' : StartInput)
    (result : StartResult) (actor : Uuid)
    → start db now principal allow_all project key hash input ≡ ok (result, d)
    → result.is_replay ≡ false
    → authorize_session d later other allow project input'.session_id ≡ ok actor
    → start d later other allow project key again input' ≡ (
        if hash == again
        then ok (record result { is_replay = true }, d)
        else err idempotency_conflict)
unfolding start run_start ◌>>=◌
start_again db d now later principal other allow_all allow project key hash again input input'
      result actor h fresh auth =
    let (a, ha, h1) =
      >>=-eq-ok (authorize_session db now principal allow_all project input.session_id) _ h in
    let (r, hr, h2) = >>=-eq-ok (reserve_command db project (text "work.start") key hash) _ h1 in
    ap (λ m. m >>= rest) auth
    ∙ again_after db d now later project key hash again input input' result a actor r hr h2 fresh
  where
    rest : Uuid → Result Error (StartResult × Db)
    rest a =
        reserve_command d project (text "work.start") key again
        >>= run_start d later project key a input'
