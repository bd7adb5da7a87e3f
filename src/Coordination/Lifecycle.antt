-- ===== src/Coordination/Lifecycle.antt =====
-- The states of an intent (validTransition and isTerminalStatus,
-- internal/coordination/postgres_repository.go).
pub mod Reachable
use the_pact.Prelude.{Bool, true, false}
use the_pact.Text.{Text, text}
use the_pact.Coordination.Model.{IntentStatus}

pub status_name : IntentStatus → Text
status_name IntentStatus.draft = text "draft"
status_name IntentStatus.active = text "active"
status_name IntentStatus.blocked = text "blocked"
status_name IntentStatus.submitted = text "submitted"
status_name IntentStatus.completed = text "completed"
status_name IntentStatus.cancelled = text "cancelled"
status_name IntentStatus.abandoned = text "abandoned"

-- The map `allowed`: a state without an entry allows nothing, and none allows itself.
unfoldable pub valid_transition : IntentStatus → IntentStatus → Bool
valid_transition IntentStatus.draft IntentStatus.active = true
valid_transition IntentStatus.draft IntentStatus.cancelled = true
valid_transition IntentStatus.draft IntentStatus.abandoned = true
valid_transition IntentStatus.active IntentStatus.blocked = true
valid_transition IntentStatus.active IntentStatus.submitted = true
valid_transition IntentStatus.active IntentStatus.cancelled = true
valid_transition IntentStatus.active IntentStatus.abandoned = true
valid_transition IntentStatus.blocked IntentStatus.active = true
valid_transition IntentStatus.blocked IntentStatus.submitted = true
valid_transition IntentStatus.blocked IntentStatus.cancelled = true
valid_transition IntentStatus.blocked IntentStatus.abandoned = true
valid_transition IntentStatus.submitted IntentStatus.completed = true
valid_transition IntentStatus.submitted IntentStatus.blocked = true
valid_transition IntentStatus.submitted IntentStatus.cancelled = true
valid_transition _ _ = false

abbrev pub is_terminal_status : IntentStatus → Bool
is_terminal_status IntentStatus.completed = true
is_terminal_status IntentStatus.cancelled = true
is_terminal_status IntentStatus.abandoned = true
is_terminal_status _ = false

abbrev pub is_submitted : IntentStatus → Bool
is_submitted IntentStatus.submitted = true
is_submitted _ = false

abbrev pub is_completed : IntentStatus → Bool
is_completed IntentStatus.completed = true
is_completed _ = false
