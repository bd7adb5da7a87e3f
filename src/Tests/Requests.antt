-- ===== src/Tests/Requests.antt =====
-- The theorems on requests and on single rows, at concrete values.
use the_pact.Prelude.{
  ◌≤◌, ◌≡◌, ◌↔◌, refl, ◌⊎◌, inl, true, false, List, [], ◌∷◌, In, All, ok, ◌>>=◌, arith, find,
}
use the_pact.Text.{Text, text, to_lower, trim_space, replace_rune, byte_len}
use the_pact.FilePath.{clean}
use the_pact.Identity.{valid_uuid}
use the_pact.Identity.Shape.{UuidShape, valid_uuid_iff}
use the_pact.Database.{ActorStatus}
use the_pact.Coordination.Model.{
  Scope, ScopeInput, repository, path, file, exclusive, shared, IntentStatus, ScopeClaim,
  ScopeOverlap,
}
use the_pact.Coordination.Overlap.{scopes_overlap}
use the_pact.Coordination.Overlap.Regions.{Covers, scopes_overlap_iff}
use the_pact.Coordination.Lifecycle.{valid_transition, is_terminal_status}
use the_pact.Coordination.Lifecycle.Reachable.{
  History, start, change, terminal_iff_stuck, completed_after_submitted,
}
use the_pact.Coordination.Scopes.{normalize_scope, normalize_scopes}
use the_pact.Coordination.Scopes.Normal.{IsNormal, normalize_scopes-IsNormal}
use the_pact.Coordination.Scopes.Distinct.{Distinct, normalize_scopes-Distinct}
use the_pact.Coordination.Conflicts.{load_scope_overlaps, overlap_with}
use the_pact.Coordination.Conflicts.Reports.{
  Contends, Reports, load_scope_overlaps_sound, load_scope_overlaps_complete,
}
use the_pact.Coordination.Start.{new_claim, new_intent}
use the_pact.Execution.{waits, starts, done, next}
use the_pact.Execution.Safety.{Safe, Run-Safe}
use the_pact.Tests.{exclusive_file}
use the_pact.Tests.Office.{office-Safe}
use the_pact.Tests.Runs.{parser, started}

abbrev requested : List ScopeInput
requested =
    record { kind = text " PATH "; locator = text "internal\\api/../api"; mode = [] }
    ∷ record { kind = text "path"; locator = text "internal/api"; mode = text "exclusive" }
    ∷ record { kind = text "repository"; locator = text "ignored"; mode = text "shared" }
    ∷ []

abbrev api : Scope
api = record { kind = path; locator = text "internal/api"; mode = exclusive }

abbrev normalized : List Scope
normalized = api ∷ record { kind = repository; locator = text "."; mode = shared } ∷ []

normalized_requests : normalize_scopes (λ c. c) requested ≡ ok normalized
unfolding normalize_scopes ◌>>=◌ clean to_lower trim_space replace_rune byte_len
normalized_requests = refl

normalize_scopes-IsNormal_example : All IsNormal normalized
normalize_scopes-IsNormal_example =
    normalize_scopes-IsNormal (λ c. c) requested normalized normalized_requests

normalize_scopes-Distinct_example :
    Distinct normalized
    × ((t : Scope)
        → In t normalized
        → (s : ScopeInput) × In s requested × (normalize_scope (λ c. c) s ≡ ok t))
    × ((s : ScopeInput)
        → In s requested
        → (t : Scope) × (normalize_scope (λ c. c) s ≡ ok t) × In t normalized)
normalize_scopes-Distinct_example =
    normalize_scopes-Distinct (λ c. c) requested normalized normalized_requests

scopes_overlap_iff_example :
    (scopes_overlap api (exclusive_file (text "internal/api/a.go")) ≡ true)
    ↔ ((f : Text) × Covers api f × Covers (exclusive_file (text "internal/api/a.go")) f)
scopes_overlap_iff_example = scopes_overlap_iff api (exclusive_file (text "internal/api/a.go"))

terminal_iff_stuck_example :
    (is_terminal_status IntentStatus.completed ≡ true)
    ↔ ((t : IntentStatus) → valid_transition IntentStatus.completed t ≡ false)
terminal_iff_stuck_example = terminal_iff_stuck IntentStatus.completed

abbrev through_review : List IntentStatus
through_review = IntentStatus.submitted ∷ IntentStatus.completed ∷ []

reviewed : History IntentStatus.active through_review IntentStatus.completed
unfolding valid_transition
reviewed = change refl (change refl start)

completed_after_submitted_example :
    (IntentStatus.active ≡ IntentStatus.completed)
    ⊎ In IntentStatus.submitted (IntentStatus.active ∷ through_review)
completed_after_submitted_example = completed_after_submitted reviewed

valid_uuid_iff_example :
    (valid_uuid (text "01890a5d-ac96-774b-bcce-b302099a8057") ≡ true)
    ↔ UuidShape (text "01890a5d-ac96-774b-bcce-b302099a8057")
valid_uuid_iff_example = valid_uuid_iff (text "01890a5d-ac96-774b-bcce-b302099a8057")

started-Safe : Safe started.1 2000000
started-Safe =
    Run-Safe (next (starts 20 false 1 (text "k1") 7 parser refl started.2) (next (waits le) done))
      (office-Safe 1000000)
  where
    le : 1000000 ≤ 2000000
    le = omega arith

abbrev wanted : Scope
wanted = record { kind = path; locator = text "."; mode = shared }

abbrev lease : ScopeClaim
lease =
    new_claim
      (record { now = 1000000; project = 1; repository_id = 2; intent_id = 101; session_id = 40 })
      103 (record { id = 102; project = 1; repository_id = 2; kind = file; locator = text "a.go" })
      (exclusive_file (text "a.go"))

abbrev report : ScopeOverlap
report = overlap_with wanted (record {
  claim = lease;
  intent = new_intent 101 1000000 1 10 parser;
  actor = record { id = 10; status = ActorStatus.active; display_name = text "Codex" };
})

contending : Contends started.1 2000000 1 2 wanted lease
unfolding started new_claim find
contending = record {
  lease = record {
    listed = inl refl;
    active = refl;
    unexpired = omega arith;
    intent = _;
    of_intent = refl;
    unfinished = refl;
  };
  of_project = refl;
  of_repository = refl;
  common_path = (text "a.go", inl refl, refl);
}

load_scope_overlaps_complete_example :
    (o : ScopeOverlap) × In o (load_scope_overlaps started.1 2000000 1 2 (wanted ∷ []))
    × Reports wanted lease o
load_scope_overlaps_complete_example =
    load_scope_overlaps_complete started.1 2000000 1 2 (wanted ∷ []) wanted lease
      started-Safe.well_formed (inl refl) contending

load_scope_overlaps_sound_example :
    (s : Scope) × (c : ScopeClaim) × In s (wanted ∷ [])
    × Contends started.1 2000000 1 2 s c
    × Reports s c report
unfolding started
load_scope_overlaps_sound_example =
    load_scope_overlaps_sound started.1 2000000 1 2 (wanted ∷ []) report (inl refl)
