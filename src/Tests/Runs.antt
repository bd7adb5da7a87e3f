-- ===== src/Tests/Runs.antt =====
-- Runs of the commands on the small organization.
use the_pact.Prelude.{ℕ, false, [], ◌∷◌, ◌>>=◌, find, update_where, count_where, any_row}
use the_pact.Text.{is_padding, text, text_eq, has_prefix}
use the_pact.Coordination.Model.{
  StartInput, WorkspaceInput, StatusInput, IntentStatus, OfferHandoffInput, HandoffStatusInput,
  HandoffStatus, ClaimMode, file,
}
use the_pact.Coordination.Overlap.{scopes_overlap, blocks}
use the_pact.Coordination.Lifecycle.{valid_transition}
use the_pact.Coordination.Commands.{
  authorize_session, admits, sponsors, reserve_command, complete_command, append_event,
  same_command, is_reservation, stored_result,
}
use the_pact.Coordination.Conflicts.{
  load_scope_overlaps, all_overlaps, overlaps_of, overlap_with, existing_claims, join_claim,
  is_candidate, has_blocking_overlap, project_repository,
}
use the_pact.Coordination.Start.{
  start, run_start, create_work, create_rows, insert_claims, insert_claim, upsert_resource_ref,
  same_resource, new_claim, new_intent, started_event, is_claim_on, fits_intents,
}
use the_pact.Coordination.Status.{
  update_status, run_status, fits_summary, apply_status, changed_intent, worktrees_after,
  claims_after, releases, release, is_version_of, freezes, freeze, archives, archive, status_event,
}
use the_pact.Coordination.Attach.{
  attach_workspace, run_attach, insert_worktree, new_worktree, ready_event, occupies,
}
use the_pact.AgentSession.{
  heartbeat, may_renew, has_session_id, keep_alive, renewed_session, seen_node, carries, renew,
  close, may_close, end_session, closed_session, is_on, left_node, nodes_after, release_claim,
}
use the_pact.Coordination.Handoff.{
  may_hand_off, is_handoff, shown, load_handoff, handoff_event, open_offer,
}
use the_pact.Coordination.Handoff.Offer.{
  has_lapsed, expire, expire_previous, new_handoff, insert_handoff, link_records, run_offer,
  offer_handoff,
}
use the_pact.Coordination.Handoff.Reply.{
  answered, answers, run_answer, update_handoff_status, has_intent_row,
}
use the_pact.Tests.{office, exclusive_file, work_on, Ran, ran}

abbrev pub parser : StartInput
parser = work_on 40 (exclusive_file (text "a.go") ∷ [])

-- One file, asked for in both modes.
abbrev pub twice : StartInput
twice = work_on 40 (
    exclusive_file (text "a.go")
    ∷ record { kind = file; locator = text "a.go"; mode = ClaimMode.shared }
    ∷ [])

abbrev pub printer : StartInput
printer = work_on 41 (exclusive_file (text "b.go") ∷ [])

abbrev pub rival : StartInput
rival = work_on 41 (exclusive_file (text "a.go") ∷ [])

abbrev pub tree : WorkspaceInput
tree = record {
  session_id = 40;
  base_revision = text "0123456789abcdef";
  path_ref = text "../tree";
  git_branch = text "fix";
}

abbrev pub to_status : IntentStatus → ℕ → StatusInput
to_status status version = record {
  session_id = 40;
  status = status;
  expected_version = version;
  summary = text "Done";
  reason = [];
}

abbrev pub rest_of_work : OfferHandoffInput
rest_of_work = record {
  session_id = 40;
  summary = text "Half done";
  completed = [];
  remaining_work = text "Tests" ∷ [];
  blockers = [];
  next_steps = [];
  validations = [];
  linked_record_ids = [];
  expires_in_hours = 72;
}

abbrev pub accepting : HandoffStatusInput
accepting = record { session_id = 41; status = HandoffStatus.accepted; expected_version = 1 }

-- Opening this opens the commands.
unfoldable pub commands : Unit {0}
unfolding start ◌>>=◌ find authorize_session admits sponsors reserve_command any_row run_start
    project_repository load_scope_overlaps all_overlaps overlaps_of overlap_with existing_claims
    join_claim is_candidate scopes_overlap blocks has_blocking_overlap create_work create_rows
    insert_claims insert_claim upsert_resource_ref same_resource new_claim new_intent append_event
    complete_command update_where count_where same_command is_reservation text_eq has_prefix
    started_event is_claim_on fits_intents fits_summary is_padding heartbeat may_renew
    has_session_id keep_alive renewed_session seen_node carries renew close may_close end_session
    closed_session is_on left_node nodes_after release_claim attach_workspace run_attach
    insert_worktree new_worktree ready_event occupies update_status run_status apply_status
    changed_intent worktrees_after claims_after releases release is_version_of freezes freeze
    archives archive status_event valid_transition may_hand_off is_handoff shown load_handoff
    handoff_event has_lapsed open_offer expire expire_previous new_handoff insert_handoff
    link_records run_offer offer_handoff answered answers run_answer update_handoff_status
    has_intent_row stored_result
commands = tt

-- Work on a.go at second 1.
unfoldable pub started : Ran (start office 1000000 20 false 1 (text "k1") 7 parser)
unfolding commands
started = ran (start office 1000000 20 false 1 (text "k1") 7 parser) tt

-- Work on b.go beside it.
unfoldable pub started_both : Ran (start started.1 1500000 21 false 1 (text "k2") 8 printer)
unfolding commands started
started_both = ran (start started.1 1500000 21 false 1 (text "k2") 8 printer) tt

-- A heartbeat in time.
unfoldable pub beaten : Ran (heartbeat started.1 20000000 20 false 40)
unfolding commands started
beaten = ran (heartbeat started.1 20000000 20 false 40) tt

-- The end of the session.
unfoldable pub ended : Ran (close started.1 20000000 20 false 40)
unfolding commands started
ended = ran (close started.1 20000000 20 false 40) tt

-- A worktree for the work.
unfoldable pub attached : Ran (attach_workspace started.1 2000000 20 false 101 (text "k3") 9 tree)
unfolding commands started
attached = ran (attach_workspace started.1 2000000 20 false 101 (text "k3") 9 tree) tt

-- The work is submitted.
unfoldable pub submitted : Ran (
    update_status attached.1 3000000 20 false 101
      (text "k4")
      10
      (to_status IntentStatus.submitted 1))
unfolding commands started attached
submitted =
    ran
      (update_status attached.1 3000000 20 false 101 (text "k4") 10
        (to_status IntentStatus.submitted 1))
      tt

-- And completed.
unfoldable pub completed : Ran (
    update_status submitted.1 4000000 20 false 101
      (text "k5")
      11
      (to_status IntentStatus.completed 2))
unfolding commands started attached submitted
completed =
    ran
      (update_status submitted.1 4000000 20 false 101 (text "k5") 11
        (to_status IntentStatus.completed 2))
      tt

-- The other session lives on while the first is silent.
unfoldable pub waiting : Ran (heartbeat started.1 40000000 21 false 41)
unfolding commands started
waiting = ran (heartbeat started.1 40000000 21 false 41) tt

-- The lease on a.go has run out, and the other session takes it.
unfoldable pub taken_over : Ran (start waiting.1 62000000 21 false 1 (text "k6") 12 rival)
unfolding commands started waiting
taken_over = ran (start waiting.1 62000000 21 false 1 (text "k6") 12 rival) tt

-- The first session is back.
unfoldable pub revived : Ran (heartbeat taken_over.1 63000000 20 false 40)
unfolding commands started waiting taken_over
revived = ran (heartbeat taken_over.1 63000000 20 false 40) tt

-- A handoff is offered.
unfoldable pub offered :
    Ran (offer_handoff started.1 2000000 20 false 1 101 (text "k7") 13 rest_of_work)
unfolding commands started
offered = ran (offer_handoff started.1 2000000 20 false 1 101 (text "k7") 13 rest_of_work) tt

-- And taken by the other agent.
unfoldable pub taken :
    Ran (update_handoff_status offered.1 3000000 21 false 1 101 106 (text "k8") 14 accepting)
unfolding commands started offered
taken = ran (update_handoff_status offered.1 3000000 21 false 1 101 106 (text "k8") 14 accepting) tt

-- The same answer again.
unfoldable pub taken_again :
    Ran (update_handoff_status taken.1 4000000 21 false 1 101 106 (text "k8") 14 accepting)
unfolding commands started offered taken
taken_again =
    ran (update_handoff_status taken.1 4000000 21 false 1 101 106 (text "k8") 14 accepting) tt
