-- ===== src/Coordination/Service.antt =====
-- The checks in front of the repository, and the requests that they read: validateIdempotencyKey,
-- validateCommandIdentity, compactStrings and allowedTargetStatuses (internal/coordination/service.go).
pub mod Checks
pub mod Targets
pub mod Commands
use the_pact.Prelude.{
  String, ℕ, zero, suc, Bool, true, ◌&&◌, ◌||◌, not, Option, none, some, List, [], ◌∷◌, Result,
  require, ltb, leb, if◌then◌else◌, length, ◌>>=◌, ◌>>◌,
}
use the_pact.Text.{Text, text, text_eq, byte_len}
use the_pact.Identity.{valid_uuid}
use the_pact.Coordination.Model.{Error, validation, Scope, ScopeInput, IntentStatus}

-- Integers of a request, which may be negative.
pub data ℤ : Type 0 where
  pos negsuc : ℕ → ℤ

pub record StartRequest : Type 0 where
  pub session_id : Text
  pub title : Text
  pub goal : Text
  pub success_criteria : List Text
  pub base_revision : Text
  pub scopes : List ScopeInput
  pub allow_overlap : Bool

pub record WorkspaceRequest : Type 0 where
  pub session_id : Text
  pub base_revision : Text
  pub path_ref : Text
  pub git_branch : Text

pub record StatusRequest : Type 0 where
  pub session_id : Text
  pub status : Text
  pub expected_version : ℤ
  pub summary : Text
  pub reason : Text

-- What commandHash encodes and hashes, beside the operation and the aggregate.
pub data CommandInput : Type 0 where
  start_command : StartRequest → List Scope → CommandInput
  workspace_command : WorkspaceRequest → CommandInput
  status_command : StatusRequest → CommandInput

unfoldable pub compact_strings : List Text → List Text
compact_strings [] = []
compact_strings (s ∷ rest) =
    let others = compact_strings rest in if text_eq s [] then others else s ∷ others

unfoldable pub is_revision_digit : ℕ → Bool
is_revision_digit c = (leb b'0' c && leb c b'9') || (leb b'a' c && leb c b'f')

unfoldable pub all_revision_digits : Text → Bool
unfolding is_revision_digit
all_revision_digits [] = true
all_revision_digits (c ∷ s) = is_revision_digit c && all_revision_digits s

-- revisionPattern: ^[0-9a-f]{7,64}$
unfoldable pub is_revision : Text → Bool
is_revision s = leb 7 (length s) && leb (length s) 64 && all_revision_digits s

unfoldable pub all_at_most : ℕ → List Text → Bool
all_at_most n [] = true
all_at_most n (s ∷ rest) = leb (length s) n && all_at_most n rest

unfoldable pub validate_idempotency_key : Text → Result Error (Unit {0})
validate_idempotency_key value = do
  require (not (text_eq value [])) (validation "Idempotency-Key" "header is required")
  require (leb (byte_len value) 200)
      (validation "Idempotency-Key" "must contain at most 200 characters")

-- The three fields of a command that are UUIDs, in the order in which they are looked at.
unfoldable pub validate_ids : Text → String → Text → Text → Result Error (Unit {0})
validate_ids principal field id session = do
  require (valid_uuid principal) (validation "principal_id" "must be a UUID")
  require (valid_uuid id) (validation field "must be a UUID")
  require (valid_uuid session) (validation "session_id" "must be a UUID")

unfoldable pub validate_command_identity : Text → Text → Text → Text → Result Error (Unit {0})
validate_command_identity principal project session key = do
  validate_ids principal "project_id" project session
  validate_idempotency_key key

unfoldable pub check_start : StartRequest → Result Error (Unit {0})
check_start r = do
  require (not (text_eq r.title [])) (validation "title" "is required")
  require (leb (length r.title) 300) (validation "title" "must contain at most 300 characters")
  require (not (text_eq r.goal [])) (validation "goal" "is required")
  require (leb (length r.goal) 10000) (validation "goal" "must contain at most 10000 characters")
  require (is_revision r.base_revision)
      (validation "base_revision" "must be a hexadecimal Git object ID with 7 to 64 characters")
  require (leb (length r.success_criteria) 50)
      (validation "success_criteria" "must contain at most 50 items")
  require (all_at_most 1000 r.success_criteria)
      (validation "success_criteria" "items must contain at most 1000 characters")

pub check_workspace : WorkspaceRequest → Result Error (Unit {0})
check_workspace r = do
  require (is_revision r.base_revision)
      (validation "base_revision" "must be a hexadecimal Git object ID with 7 to 64 characters")
  require (not (text_eq r.path_ref [] || ltb 4096 (byte_len r.path_ref)))
      (validation "path_ref" "must contain between 1 and 4096 characters")
  require (not (text_eq r.git_branch [] || ltb 255 (byte_len r.git_branch)))
      (validation "git_branch" "must contain between 1 and 255 characters")

-- allowedTargetStatuses
unfoldable pub target_status : Text → Option IntentStatus
target_status s =
    if text_eq s (text "active")
    then some IntentStatus.active
    else if text_eq s (text "blocked")
    then some IntentStatus.blocked
    else if text_eq s (text "submitted")
    then some IntentStatus.submitted
    else if text_eq s (text "completed")
    then some IntentStatus.completed
    else if text_eq s (text "cancelled")
    then some IntentStatus.cancelled
    else if text_eq s (text "abandoned")
    then some IntentStatus.abandoned
    else none

unfoldable pub at_least_one : ℤ → Option ℕ
at_least_one (pos zero) = none
at_least_one (pos (suc n)) = some (suc n)
at_least_one (negsuc n) = none
