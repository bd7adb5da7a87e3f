-- ===== src/Coordination/Handoff.antt =====
-- Handoffs of work: the states of an offer and loadHandoff (internal/coordination/handoff_postgres.go).
pub mod OneOffer
pub mod Reply
pub mod Answers
pub mod Offer
use the_pact.Prelude.{
  Bool, true, false, ◌&&◌, not, Option, none, some, List, [], ◌∷◌, Result, ok, err, or_fail, leb,
  ◌==◌, if◌then◌else◌, find, ◌>>=◌, ◌>>◌,
}
use the_pact.Text.{Text, text}
use the_pact.Identity.{Uuid, Time}
use the_pact.Coordination.Model.{
  Error, not_found, internal, Intent, IntentStatus, Handoff, HandoffStatus, HandoffView,
  HandoffResult,
}
use the_pact.Coordination.Conflicts.{has_actor_id}
use the_pact.Coordination.Commands.{EventInput}
use the_pact.Database.{Db, HandoffLink, Response, handoff_response, handoff_changed}

abbrev pub is_offered : HandoffStatus → Bool
is_offered HandoffStatus.offered = true
is_offered _ = false

abbrev pub is_accepted : HandoffStatus → Bool
is_accepted HandoffStatus.accepted = true
is_accepted _ = false

abbrev pub is_withdrawn : HandoffStatus → Bool
is_withdrawn HandoffStatus.withdrawn = true
is_withdrawn _ = false

abbrev pub handoff_status_name : HandoffStatus → Text
handoff_status_name HandoffStatus.offered = text "offered"
handoff_status_name HandoffStatus.accepted = text "accepted"
handoff_status_name HandoffStatus.withdrawn = text "withdrawn"
handoff_status_name HandoffStatus.expired = text "expired"

abbrev pub is_given_up : IntentStatus → Bool
is_given_up IntentStatus.cancelled = true
is_given_up IntentStatus.abandoned = true
is_given_up _ = false

-- Completed work can be handed off too.
unfoldable pub may_hand_off : Uuid → Uuid → Intent → Bool
may_hand_off project intent i = i.project == project && i.id == intent && not (is_given_up i.status)

unfoldable pub is_handoff : Uuid → Uuid → Uuid → Handoff → Bool
is_handoff project intent id h = h.project == project && h.intent_id == intent && h.id == id

-- The index handoffs_one_offered_intent_idx.
unfoldable pub open_offer : Uuid → Uuid → Handoff → Bool
open_offer project intent h = h.project == project && h.intent_id == intent && is_offered h.status

-- What loadHandoff selects: an offer that has run out reads as expired.
unfoldable pub shown : Time → Handoff → Handoff
shown now h =
    if is_offered h.status && leb h.expires_at now
    then record h { status = HandoffStatus.expired; responded_at = some h.expires_at }
    else h

-- ORDER BY record_id: the links of a handoff are made in one transaction.
insert_id : Uuid → List Uuid → List Uuid
insert_id id [] = id ∷ []
insert_id id (x ∷ rest) =
    let later = insert_id id rest in if leb id x then id ∷ (x ∷ rest) else x ∷ later

record_ids : Uuid → List HandoffLink → List Uuid
unfolding insert_id
record_ids handoff [] = []
record_ids handoff (l ∷ rest) =
    let others = record_ids handoff rest in
    if l.handoff_id == handoff then insert_id l.record_id others else others

-- LEFT JOIN on the recipient
name_of : Db → Option Uuid → Option Text
name_of db none = none
name_of db (some id) = elim (find (has_actor_id id) db.actors) [
  | none ↦ none
  | some a ↦ some a.display_name
]

unfoldable pub load_handoff : Db → Time → Uuid → Uuid → Uuid → Result Error HandoffView
unfolding shown record_ids name_of is_handoff
load_handoff db now project intent id = do
  h ← or_fail (find (is_handoff project intent id) db.handoffs) not_found
  source ← or_fail (find (has_actor_id h.from_actor_id) db.actors) not_found
  ok (record {
    row = shown now h;
    from_actor_name = source.display_name;
    to_actor_name = name_of db h.to_actor_id;
    linked_record_ids = record_ids h.id db.handoff_records;
  })

unfoldable pub handoff_event : Uuid → Uuid → Uuid → Text → Text → HandoffView → EventInput
handoff_event command actor session event_type base_revision v = record {
  project = v.row.project;
  command_id = command;
  actor_id = actor;
  session_id = session;
  intent_id = v.row.intent_id;
  event_type = event_type;
  aggregate_type = text "handoff";
  aggregate_id = v.row.id;
  aggregate_version = v.row.version;
  git_revision = base_revision;
  payload = handoff_changed v;
}

replay_handoff : Response → Result Error HandoffResult
replay_handoff (handoff_response r) = ok (record r { is_replay = true })
replay_handoff _ = err internal
