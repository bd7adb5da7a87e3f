-- ===== src/Coordination/Handoff/Offer.antt =====
-- Offers of handoffs: OfferHandoff (internal/coordination/handoff_postgres.go).
use the_pact.Prelude.{
  ℕ, ◌+◌, ◌*◌, Bool, false, ◌&&◌, ◌||◌, not, Option, none, some, List, [], ◌∷◌, Result, ok, require,
  or_fail, leb, ◌==◌, find, any_row, insert, update_where, ◌>>=◌, ◌>>◌,
}
use the_pact.Text.{Text, text}
use the_pact.Identity.{Uuid, Time, seconds}
use the_pact.Coordination.Model.{
  Error, not_found, forbidden, handoff_exists, knowledge_record_not_found, internal, Intent,
  Handoff, HandoffStatus, OfferHandoffInput, HandoffResult,
}
use the_pact.Coordination.Commands.{
  authorize_session, Reservation, reserved, replayed, reserve_command, complete_command,
  append_event, is_project,
}
use the_pact.Database.{Db, KnowledgeRecord, HandoffLink, handoff_response}
use the_pact.Coordination.Handoff.{
  replay_handoff, may_hand_off, open_offer, load_handoff, handoff_event,
}

unfoldable pub has_lapsed : Time → Uuid → Uuid → Handoff → Bool
has_lapsed now project intent h = open_offer project intent h && leb h.expires_at now

unfoldable pub expire : Time → Handoff → Handoff
expire now h = record h {
  status = HandoffStatus.expired;
  responded_at = some now;
  updated_at = now;
  version = h.version + 1;
}

-- Tells of an offer that has run out, if there was one.
unfoldable pub tell_expired :
    Db → Time → Uuid → Uuid → Uuid → Intent → Option Handoff → Result Error Db
unfolding load_handoff
tell_expired db now command actor session i none = ok db
tell_expired db now command actor session i (some h) = do
  v ← load_handoff db now i.project i.id h.id
  (event, db1) ←
      append_event db
        (handoff_event command actor session (text "pact.handoff.expired.v1") i.base_revision v)
  ok db1

unfoldable pub expire_previous : Db → Time → Uuid → Uuid → Uuid → Intent → Result Error Db
unfolding tell_expired
expire_previous db now command actor session i =
    tell_expired
      (record db {
        handoffs = update_where (has_lapsed now i.project i.id) (expire now) db.handoffs;
      })
      now command actor session i (find (has_lapsed now i.project i.id) db.handoffs)

unfoldable pub new_handoff : Uuid → Time → Uuid → Uuid → Intent → OfferHandoffInput → Handoff
new_handoff id now workspace actor i input = record {
  id = id;
  workspace_id = workspace;
  project = i.project;
  intent_id = i.id;
  from_session_id = input.session_id;
  from_actor_id = actor;
  to_session_id = none;
  to_actor_id = none;
  status = HandoffStatus.offered;
  summary = input.summary;
  completed = input.completed;
  remaining_work = input.remaining_work;
  blockers = input.blockers;
  next_steps = input.next_steps;
  validations = input.validations;
  version = 1;
  offered_at = now;
  responded_at = none;
  expires_at = now + input.expires_in_hours * seconds 3600;
  created_at = now;
  updated_at = now;
}

unfoldable pub insert_handoff :
    Db → Time → Uuid → Uuid → Intent → OfferHandoffInput → Result Error (Handoff × Db)
insert_handoff db now workspace actor i input = do
  require (not (any_row (open_offer i.project i.id) db.handoffs)) handoff_exists
  let h = new_handoff db.next_id now workspace actor i input
  ok (h, record db { handoffs = insert h db.handoffs; next_id = db.next_id + 1 })

is_record_of : Uuid → Uuid → KnowledgeRecord → Bool
is_record_of workspace id r = r.workspace_id == workspace && r.id == id

is_link : Uuid → Uuid → HandoffLink → Bool
is_link handoff id l = l.handoff_id == handoff && l.record_id == id

-- The records must be there; the primary key refuses one that is linked twice.
unfoldable pub link_records : Db → Uuid → Uuid → List Uuid → Result Error Db
unfolding is_record_of is_link
link_records db workspace handoff [] = ok db
link_records db workspace handoff (id ∷ rest) = do
  require (any_row (is_record_of workspace id) db.knowledge_records) knowledge_record_not_found
  require (not (any_row (is_link handoff id) db.handoff_records)) internal
  link_records
      (record db {
        handoff_records =
            insert (record { handoff_id = handoff; record_id = id }) db.handoff_records;
      })
      workspace handoff rest

unfoldable pub run_offer :
    Db
    → Time
    → Text
    → Uuid
    → Uuid
    → Intent
    → OfferHandoffInput
    → Reservation
    → Result Error (HandoffResult × Db)
unfolding replay_handoff
run_offer db now key workspace actor i input (replayed body) = do
  r ← replay_handoff body
  ok (r, db)
run_offer db now key workspace actor i input (reserved command db1) = do
  db2 ← expire_previous db1 now command actor input.session_id i
  (h, db3) ← insert_handoff db2 now workspace actor i input
  db4 ← link_records db3 workspace h.id input.linked_record_ids
  v ← load_handoff db4 now i.project i.id h.id
  (event, db5) ← append_event db4 (
      handoff_event command actor input.session_id (text "pact.handoff.offered.v1") i.base_revision
        v)
  let result : HandoffResult = record { handoff = v; event_id = event; is_replay = false }
  db6 ← complete_command db5 i.project (text "handoff.offer") key command (record {
    response_status = 201;
    response_body = handoff_response result;
    event_id = event;
    aggregate_id = h.id;
  })
  ok (result, db6)

unfoldable pub offer_handoff :
    Db
    → Time
    → Uuid
    → Bool
    → Uuid
    → Uuid
    → Text
    → ℕ
    → OfferHandoffInput
    → Result Error (HandoffResult × Db)
offer_handoff db now principal allow_all project intent key hash input = do
  i ← or_fail (find (may_hand_off project intent) db.intents) not_found
  p ← or_fail (find (is_project project) db.projects) not_found
  workspace ← or_fail p.workspace_id not_found
  actor ← authorize_session db now principal allow_all project input.session_id
  require (actor == i.responsible_agent_id || allow_all) forbidden
  reservation ← reserve_command db project (text "handoff.offer") key hash
  run_offer db now key workspace actor i input reservation
