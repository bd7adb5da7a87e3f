-- ===== src/Coordination/Status/Outcome.antt =====
-- The two ways in which a change of status succeeds: a repetition, or a change of one row.
use the_pact.Prelude.{
  ℕ, ◌≡◌, refl, sym, ap, ◌⊎◌, inl, inr, Bool, true, some, ==_iff, find, Ensures, Ensures-bind,
  Ensures-or_fail, Ensures-require, Ensures-ok, ok, err, Result,
}
use the_pact.Text.{Text, text}
use the_pact.Identity.{Uuid, Time}
use the_pact.Coordination.Model.{Error, Intent, StatusInput, StatusResult}
use the_pact.Coordination.Conflicts.{has_intent_id}
use the_pact.Coordination.Lifecycle.{valid_transition}
use the_pact.Coordination.Commands.{Reservation, reserved, replayed}
use the_pact.Coordination.Commands.Frame.{
  SameWork, SameWork-trans, append_event-SameWork, complete_command-SameWork, Reserves,
  reserve_command-Reserves,
}
use the_pact.Coordination.Status.{
  changed_intent, apply_status, replay_status, run_status, update_status,
}
use the_pact.Database.{Db, Response, status_response}

-- The row had the expected version, and exactly it was changed.
pub record Changed (db : Db) (now : Time) (intent_id : Uuid) (input : StatusInput)
    (result : StatusResult) (d : Db) : Type 0 where
  pub row : Intent
  pub found : find (has_intent_id intent_id) db.intents ≡ some row
  pub expected : row.version ≡ input.expected_version
  pub allowed : valid_transition row.status input.status ≡ true
  pub returned : result.intent ≡ changed_intent now input row
  pub work : Db
  pub before : SameWork db work
  pub after : SameWork (apply_status work now row input) d

abbrev pub Outcome : Db → Time → Uuid → StatusInput → StatusResult × Db → Type 0
Outcome db now intent_id input r =
    ((r.0.is_replay ≡ true) × (r.1 ≡ db)) ⊎ Changed db now intent_id input r.0 r.1

replay_status-marked :
    (b : Response) (r : StatusResult) → replay_status b ≡ ok r → r.is_replay ≡ true
unfolding replay_status
replay_status-marked (status_response s) r h = sym (ap (marked r) h)
  where
    marked : StatusResult → Result Error StatusResult → Bool
    marked r (ok t) = t.is_replay
    marked r (err e) = true
replay_status-marked _ r h = cc

run_status-Outcome :
    (db : Db) (now : Time) (key : Text) (actor intent_id : Uuid) (i : Intent) (input : StatusInput)
    (r : Reservation)
    → find (has_intent_id intent_id) db.intents ≡ some i
    → Reserves db r
    → Ensures (Outcome db now intent_id input) (run_status db now key actor i input r)
unfolding run_status
run_status-Outcome db now key actor intent_id i input (replayed body) found h =
    Ensures-bind _ _ λ r hr. Ensures-ok _ (inl (replay_status-marked body r hr, refl))
run_status-Outcome db now key actor intent_id i input (reserved command work) found h =
    Ensures-require _ _ _ λ version. Ensures-require _ _ _ λ allowed. Ensures-require _ _ _ λ fits.
      Ensures-bind _ _ λ r hr. Ensures-bind _ _ λ d hd. Ensures-ok _ (
        inr record {
          row = i;
          found = found;
          expected = (==_iff _ _).0 version;
          allowed = allowed;
          returned = refl;
          work = work;
          before = h;
          after =
              SameWork-trans ((append_event-SameWork _ _).holds r hr)
                ((complete_command-SameWork _ _ _ _ _ _).holds d hd);
        })

pub update_status-Outcome :
    (db : Db) (now : Time) (principal : Uuid) (allow_all : Bool) (intent_id : Uuid) (key : Text)
    (hash : ℕ) (input : StatusInput)
    → Ensures
        (Outcome db now intent_id input)
        (update_status db now principal allow_all intent_id key hash input)
unfolding update_status
update_status-Outcome db now principal allow_all intent_id key hash input =
    Ensures-or_fail _ _ _ λ i found. Ensures-bind _ _ λ actor ha. Ensures-require _ _ _ λ may.
      Ensures-bind _ _ λ r hr.
        run_status-Outcome db now key actor intent_id i input r found
          ((reserve_command-Reserves db i.project (text "intent.status") key hash).holds r hr)
