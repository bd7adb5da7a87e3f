-- ===== src/Coordination/Handoff/Answers.antt =====
-- The answer to an offer.
use the_pact.Prelude.{
  ℕ, ◌<◌, ◌≤◌, ◌≡◌, refl, sym, ap, ◌∙◌, ◌⊎◌, inl, inr, Bool, true, false, ◌&&◌, not, Option, none,
  some, List, arith, ◌==◌, ==_iff, and_elim, find, find-update_where, update_where, count_where,
  count_where-update_where, if◌then◌else◌, Ensures, Ensures-bind, Ensures-or_fail, Ensures-require,
  Ensures-ok, ok, err, Result, ltb,
}
use the_pact.Text.{Text, text}
use the_pact.Identity.{Uuid, Time}
use the_pact.Coordination.Model.{Error, Handoff, HandoffStatusInput, HandoffResult}
use the_pact.Coordination.Commands.{authorize_session, Reservation, reserved, replayed}
use the_pact.Coordination.Commands.Frame.{
  append_event-SameWork, complete_command-SameWork, Reserves, reserve_command-Reserves,
}
use the_pact.Coordination.Handoff.{
  is_handoff, is_offered, is_accepted, is_withdrawn, open_offer, replay_handoff,
}
use the_pact.Coordination.Handoff.Reply.{answered, answers, run_answer, update_handoff_status}
use the_pact.Coordination.Handoff.OneOffer.{OneOffer}
use the_pact.Database.{Db, Response, handoff_response}

-- The offer that was answered, and the change of its row.
pub record Answered (db : Db) (now : Time) (principal : Uuid) (allow_all : Bool)
    (project intent id : Uuid) (input : HandoffStatusInput) (d : Db) : Type 0 where
  pub row : Handoff
  pub found : find (is_handoff project intent id) db.handoffs ≡ some row
  pub expected : row.version ≡ input.expected_version
  pub was_open : is_offered row.status ≡ true
  pub in_time : now < row.expires_at
  pub actor : Uuid
  pub authorized : authorize_session db now principal allow_all project input.session_id ≡ ok actor
  pub accepted_by_other : (is_accepted input.status && actor == row.from_actor_id) ≡ false
  pub withdrawn_by_offerer :
      (is_withdrawn input.status && not (actor == row.from_actor_id) && not allow_all) ≡ false
  pub changed : d.handoffs ≡ update_where (answers row input) (answered now actor input) db.handoffs

abbrev Outcome :
    Db → Time → Uuid → Bool → Uuid → Uuid → Uuid → HandoffStatusInput → HandoffResult × Db → Type 0
Outcome db now principal allow_all project intent id input r =
    ((r.0.is_replay ≡ true) × (r.1 ≡ db))
    ⊎ Answered db now principal allow_all project intent id input r.1

replay_handoff-marked :
    (b : Response) (r : HandoffResult) → replay_handoff b ≡ ok r → r.is_replay ≡ true
unfolding replay_handoff
replay_handoff-marked (handoff_response s) r h = sym (ap (marked r) h)
  where
    marked : HandoffResult → Result Error HandoffResult → Bool
    marked r (ok t) = t.is_replay
    marked r (err e) = true
replay_handoff-marked _ r h = cc

refuted : (b : Bool) → not b ≡ true → b ≡ false
refuted true h = cc
refuted false h = refl

run_answer-Outcome :
    (db : Db) (now : Time) (principal : Uuid) (allow_all : Bool) (key : Text) (actor : Uuid)
    (h : Handoff) (base_revision : Text) (input : HandoffStatusInput) (project intent id : Uuid)
    (r : Reservation)
    → authorize_session db now principal allow_all project input.session_id ≡ ok actor
    → find (is_handoff project intent id) db.handoffs ≡ some h
    → Reserves db r
    → Ensures
        (Outcome db now principal allow_all project intent id input)
        (run_answer db now allow_all key actor h base_revision input r)
unfolding run_answer
run_answer-Outcome db now principal allow_all key actor h base_revision input project intent id
      (replayed body) acts found k =
    Ensures-bind _ _ λ r hr. Ensures-ok _ (inl (replay_handoff-marked body r hr, refl))
run_answer-Outcome db now principal allow_all key actor h base_revision input project intent id
      (reserved command e) acts found k =
    Ensures-require _ _ _ λ version. Ensures-require _ _ _ λ opened. Ensures-require _ _ _ λ may.
      Ensures-require _ _ _ λ other. Ensures-require _ _ _ λ one. Ensures-bind _ _ λ v hv.
        Ensures-bind _ _ λ r hr. Ensures-bind _ _ λ d hd. Ensures-ok _ (
          inr record {
            row = h;
            found = found;
            expected = (==_iff _ _).0 version;
            was_open = (and_elim _ _ opened).0;
            in_time = unexpired (and_elim _ _ opened).1;
            actor = actor;
            authorized = acts;
            accepted_by_other = refuted _ other;
            withdrawn_by_offerer = refuted _ may;
            changed =
                ((complete_command-SameWork _ _ _ _ _ _).holds d hd).same_handoffs
                ∙ (((append_event-SameWork _ _).holds r hr).same_handoffs
                    ∙ ap (update_where (answers h input) (answered now actor input))
                        k.same_handoffs);
          })
  where
    unexpired : ltb now h.expires_at ≡ true → now < h.expires_at
    unexpired t = ground arith

update_handoff_status-Outcome :
    (db : Db) (now : Time) (principal : Uuid) (allow_all : Bool) (project intent id : Uuid)
    (key : Text) (hash : ℕ) (input : HandoffStatusInput)
    → Ensures
        (Outcome db now principal allow_all project intent id input)
        (update_handoff_status db now principal allow_all project intent id key hash input)
unfolding update_handoff_status
update_handoff_status-Outcome db now principal allow_all project intent id key hash input =
    Ensures-or_fail _ _ _ λ h found. Ensures-or_fail _ _ _ λ i hi. Ensures-bind _ _ λ actor ha.
      Ensures-bind _ _ λ r hr.
        run_answer-Outcome db now principal allow_all key actor h i.base_revision input project
          intent id r ha found
          ((reserve_command-Reserves db project (text "handoff.status") key hash).holds r hr)

pub update_handoff_status-Answered :
    (db d : Db) (now : Time) (principal : Uuid) (allow_all : Bool) (project intent id : Uuid)
    (key : Text) (hash : ℕ) (input : HandoffStatusInput) (result : HandoffResult)
    → update_handoff_status db now principal allow_all project intent id key hash input
      ≡ ok (result, d)
    → result.is_replay ≡ false
    → Answered db now principal allow_all project intent id input d
update_handoff_status-Answered db d now principal allow_all project intent id key hash input result
      ran fresh =
    elim ((update_handoff_status-Outcome db now principal allow_all project intent id key hash
        input).holds
      (result, d) ran) [ inl (marked, same) ↦ absurd (differ (sym fresh ∙ marked)) | inr h ↦ h ]
  where
    differ : false ≡ true → ⊥
    differ e = cc

answered_found :
    (db d : Db) (now : Time) (principal : Uuid) (allow_all : Bool) (project intent id : Uuid)
    (input : HandoffStatusInput) (a : Answered db now principal allow_all project intent id input d)
    → find (is_handoff project intent id) d.handoffs ≡ some (answered now a.actor input a.row)
unfolding is_handoff answered answers
answered_found db d now principal allow_all project intent id input a =
    ap (find (is_handoff project intent id)) a.changed
    ∙ (find-update_where (is_handoff project intent id) (answers a.row input)
          (answered now a.actor input) db.handoffs (λ h. refl)
        ∙ rw a.found (itself a.row a.expected a.was_open))
  where
    itself :
        (h : Handoff)
        → h.version ≡ input.expected_version
        → is_offered h.status ≡ true
        → some (if answers h input h then answered now a.actor input h else h)
          ≡ some (answered now a.actor input h)
    itself h v o = ground arith

-- An offer that was accepted or withdrawn is answered no more: a later answer that succeeds is the
-- repetition of a command that had run.
pub update_handoff_status_once :
    (db d : Db) (now later : Time) (principal other : Uuid) (allow_all allow : Bool)
    (project intent id : Uuid) (key key' : Text) (hash hash' : ℕ)
    (input input' : HandoffStatusInput) (result result' : HandoffResult) (e : Db)
    → is_offered input.status ≡ false
    → update_handoff_status db now principal allow_all project intent id key hash input
      ≡ ok (result, d)
    → result.is_replay ≡ false
    → update_handoff_status d later other allow project intent id key' hash' input'
      ≡ ok (result', e)
    → result'.is_replay ≡ true
unfolding answered
update_handoff_status_once db d now later principal other allow_all allow project intent id key key'
      hash hash' input input' result result' e closes ran fresh ran' =
    elim ((update_handoff_status-Outcome d later other allow project intent id key' hash'
        input').holds
      (result', e) ran') [
        | inl (marked, same) ↦ marked
        | inr b ↦
            let a =
              update_handoff_status-Answered db d now principal allow_all project intent id key hash
                input result ran fresh in
            absurd (
              shut (
                sym closes
                ∙ (ap (status_of) (
                      sym (answered_found db d now principal allow_all project intent id input a)
                      ∙ b.found)
                    ∙ b.was_open)))
      ]
  where
    status_of : Option Handoff → Bool
    status_of none = true
    status_of (some h) = is_offered h.status

    shut : false ≡ true → ⊥
    shut e = cc

answered-count :
    (now : Time) (actor : Uuid) (input : HandoffStatusInput) (row : Handoff) (p i : Uuid)
    (hs : List Handoff)
    → count_where (open_offer p i) (update_where (answers row input) (answered now actor input) hs)
      ≤ count_where (open_offer p i) hs
unfolding answered answers open_offer
answered-count now actor input row p i hs =
    count_where-update_where (open_offer p i) (answers row input) (answered now actor input) hs
      λ h t o. still h t o
  where
    still :
        (h : Handoff)
        → answers row input h ≡ true
        → open_offer p i (answered now actor input h) ≡ true
        → open_offer p i h ≡ true
    still h t o = ground arith

-- Answering an offer leaves every intent with one open offer at most, if there was no more before.
pub update_handoff_status-OneOffer :
    (db d : Db) (now : Time) (principal : Uuid) (allow_all : Bool) (project intent id : Uuid)
    (key : Text) (hash : ℕ) (input : HandoffStatusInput) (result : HandoffResult)
    → OneOffer db
    → update_handoff_status db now principal allow_all project intent id key hash input
      ≡ ok (result, d)
    → OneOffer d
update_handoff_status-OneOffer db d now principal allow_all project intent id key hash input result
      x ran =
    elim ((update_handoff_status-Outcome db now principal allow_all project intent id key hash
        input).holds
      (result, d) ran) [
        | inl (marked, same) ↦ rw same x
        | inr a ↦ λ p i.
            rw a.changed
              (omega (arith, answered-count now a.actor input a.row p i db.handoffs, x p i))
      ]
