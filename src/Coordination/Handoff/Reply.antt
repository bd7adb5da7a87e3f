-- ===== src/Coordination/Handoff/Reply.antt =====
-- Answering an offer: UpdateHandoffStatus (internal/coordination/handoff_postgres.go).
use the_pact.Prelude.{
  ℕ, ◌+◌, Bool, false, ◌&&◌, not, none, some, ◌++◌, Result, ok, ◌>>=◌, ◌>>◌, require, or_fail, ltb,
  ◌==◌, if◌then◌else◌, find, update_where, count_where,
}
use the_pact.Text.{Text, text}
use the_pact.Identity.{Uuid, Time}
use the_pact.Coordination.Model.{
  Error, validation, not_found, forbidden, version_conflict, invalid_handoff_status, Intent,
  Handoff, HandoffStatusInput, HandoffResult,
}
use the_pact.Coordination.Commands.{
  authorize_session, Reservation, reserved, replayed, reserve_command, complete_command,
  append_event,
}
use the_pact.Coordination.Handoff.{
  is_offered, is_accepted, is_withdrawn, handoff_status_name, is_handoff, load_handoff,
  handoff_event, replay_handoff,
}
use the_pact.Database.{Db, handoff_response}

unfoldable pub answered : Time → Uuid → HandoffStatusInput → Handoff → Handoff
answered now actor input h = record h {
  status = input.status;
  to_session_id = if is_accepted input.status then some input.session_id else none;
  to_actor_id = if is_accepted input.status then some actor else none;
  responded_at = some now;
  updated_at = now;
  version = h.version + 1;
}

unfoldable pub answers : Handoff → HandoffStatusInput → Handoff → Bool
answers h input g =
    is_handoff h.project h.intent_id h.id g
    && g.version == input.expected_version
    && is_offered g.status

-- The part behind the reservation; `h` is the row that was locked.
unfoldable pub run_answer :
    Db
    → Time
    → Bool
    → Text
    → Uuid
    → Handoff
    → Text
    → HandoffStatusInput
    → Reservation
    → Result Error (HandoffResult × Db)
unfolding replay_handoff
run_answer db now allow_all key actor h base_revision input (replayed body) = do
  r ← replay_handoff body
  ok (r, db)
run_answer db now allow_all key actor h base_revision input (reserved command db1) = do
  require (h.version == input.expected_version) version_conflict
  require (is_offered h.status && ltb now h.expires_at) invalid_handoff_status
  require (not (is_withdrawn input.status && not (actor == h.from_actor_id) && not allow_all))
      forbidden
  require (not (is_accepted input.status && actor == h.from_actor_id))
      (validation "session_id" "the offering actor cannot accept its own handoff")
  require (count_where (answers h input) db1.handoffs == 1) version_conflict
  let db2 : Db = record db1 {
    handoffs = update_where (answers h input) (answered now actor input) db1.handoffs;
  }
  v ← load_handoff db2 now h.project h.intent_id h.id
  (event, db3) ← append_event db2 (
      handoff_event command actor input.session_id
        (text "pact.handoff." ++ (handoff_status_name input.status ++ text ".v1")) base_revision v)
  let result : HandoffResult = record { handoff = v; event_id = event; is_replay = false }
  db4 ← complete_command db3 h.project (text "handoff.status") key command (record {
    response_status = 200;
    response_body = handoff_response result;
    event_id = event;
    aggregate_id = h.id;
  })
  ok (result, db4)

unfoldable pub has_intent_row : Uuid → Uuid → Intent → Bool
has_intent_row project intent i = i.project == project && i.id == intent

unfoldable pub update_handoff_status :
    Db
    → Time
    → Uuid
    → Bool
    → Uuid
    → Uuid
    → Uuid
    → Text
    → ℕ
    → HandoffStatusInput
    → Result Error (HandoffResult × Db)
update_handoff_status db now principal allow_all project intent id key hash input = do
  h ← or_fail (find (is_handoff project intent id) db.handoffs) not_found
  i ← or_fail (find (has_intent_row project intent) db.intents) not_found
  actor ← authorize_session db now principal allow_all project input.session_id
  reservation ← reserve_command db project (text "handoff.status") key hash
  run_answer db now allow_all key actor h i.base_revision input reservation
