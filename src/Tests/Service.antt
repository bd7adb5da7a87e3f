-- ===== src/Tests/Service.antt =====
-- The theorems on the service, at requests that lead to runs of the commands.
use the_pact.Prelude.{ℕ, false, [], ◌∷◌, ◌>>=◌, if◌then◌else◌}
use the_pact.Text.{
  Text, text, text_eq, has_prefix, contains_rune, to_lower, trim_space, replace_rune, byte_len,
}
use the_pact.FilePath.{clean}
use the_pact.Identity.{Uuid, valid_uuid}
use the_pact.Coordination.Scopes.{normalize_scopes}
use the_pact.Coordination.Service.{
  pos, CommandInput, StartRequest, StatusRequest, compact_strings, all_revision_digits, is_revision,
  all_at_most, validate_idempotency_key, validate_ids, validate_command_identity, check_start,
  target_status, at_least_one,
}
use the_pact.Coordination.Service.Commands.{
  trimmed_start, start_input, start_trimmed, service_start, trimmed_status, status_input,
  status_trimmed, service_update_status,
}
use the_pact.Coordination.Service.Checks.{Passed, service_start-Passed}
use the_pact.Coordination.Service.Targets.{PassedStatus, service_update_status-PassedStatus}
use the_pact.Tests.{office}
use the_pact.Tests.Runs.{started, attached, submitted}

abbrev principal_id : Text
principal_id = text "01890a5d-ac96-774b-bcce-b30209900020"

abbrev project_id : Text
project_id = text "01890a5d-ac96-774b-bcce-b30209900001"

abbrev intent_id : Text
intent_id = text "01890a5d-ac96-774b-bcce-b30209900101"

abbrev session_id : Text
session_id = text "01890a5d-ac96-774b-bcce-b30209900040"

uuid_of : Text → Uuid
uuid_of s =
    if text_eq s principal_id
    then 20
    else if text_eq s project_id
    then 1
    else if text_eq s intent_id
    then 101
    else 40

command_hash : ℕ → Text → Text → CommandInput → ℕ
command_hash n operation aggregate input = n

abbrev request : StartRequest
request = record {
  session_id = session_id;
  title = text " Fix the parser";
  goal = text "No crash on empty input ";
  success_criteria = text "Tests pass" ∷ text " " ∷ [];
  base_revision = text "0123456789ABCDEF";
  scopes = record { kind = text "file"; locator = text "./a.go"; mode = [] } ∷ [];
  allow_overlap = false;
}

service_start-Passed_example :
    Passed
      (λ c. c)
      uuid_of
      (command_hash 7)
      office
      1000000
      false
      principal_id
      project_id
      session_id
      (text "k1")
      (started.0, started.1)
unfolding uuid_of command_hash service_start start_trimmed trimmed_start start_input
    validate_command_identity validate_ids validate_idempotency_key check_start is_revision
    all_revision_digits compact_strings all_at_most valid_uuid text_eq has_prefix contains_rune
    to_lower trim_space replace_rune byte_len clean normalize_scopes ◌>>=◌
service_start-Passed_example =
    service_start-Passed (λ c. c) uuid_of (command_hash 7) office started.1 1000000 principal_id
      false project_id (text "k1") request started.0 started.2

abbrev status_request : StatusRequest
status_request = record {
  session_id = session_id;
  status = text "Submitted ";
  expected_version = pos 1;
  summary = text "Done";
  reason = [];
}

service_update_status-PassedStatus_example :
    PassedStatus
      (λ c. c)
      uuid_of
      (command_hash 10)
      attached.1
      3000000
      false
      principal_id
      intent_id
      session_id
      (text "k4")
      (pos 1)
      (submitted.0, submitted.1)
unfolding uuid_of command_hash service_update_status status_trimmed trimmed_status status_input
    validate_ids validate_idempotency_key target_status at_least_one valid_uuid text_eq to_lower
    trim_space byte_len ◌>>=◌
service_update_status-PassedStatus_example =
    service_update_status-PassedStatus (λ c. c) uuid_of (command_hash 10) attached.1 submitted.1
      3000000 principal_id false intent_id (text "k4") status_request submitted.0 submitted.2
