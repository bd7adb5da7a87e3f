-- ===== src/Coordination/Overlap.antt =====
-- Which scopes overlap (scopesOverlap and its helpers, internal/coordination/postgres_repository.go).
pub mod Regions
use the_pact.Prelude.{String, Bool, true, false, ◌&&◌, ◌||◌, ◌++◌, if◌then◌else◌}
use the_pact.Text.{Text, text, text_eq, has_prefix}
use the_pact.Coordination.Model.{
  Scope, ScopeKind, repository, path, file, ClaimMode, exclusive, shared,
}

abbrev pub is_repository : ScopeKind → Bool
is_repository repository = true
is_repository _ = false

abbrev pub is_path : ScopeKind → Bool
is_path path = true
is_path _ = false

abbrev pub is_file : ScopeKind → Bool
is_file file = true
is_file _ = false

abbrev pub is_exclusive : ClaimMode → Bool
is_exclusive exclusive = true
is_exclusive shared = false

path_contains : Text → Text → Bool
path_contains parent child =
    text_eq parent (text ".") || text_eq child parent || has_prefix (parent ++ text "/") child

unfoldable pub scopes_overlap : Scope → Scope → Bool
unfolding path_contains
scopes_overlap left right =
    if is_repository left.kind || is_repository right.kind
    then true
    else if is_file left.kind && is_file right.kind
    then text_eq left.locator right.locator
    else if is_path left.kind && is_path right.kind
    then path_contains left.locator right.locator || path_contains right.locator left.locator
    else if is_path left.kind
    then path_contains left.locator right.locator
    else path_contains right.locator left.locator

unfoldable pub overlap_reason : Scope → Scope → String
overlap_reason left right =
    if is_repository left.kind || is_repository right.kind
    then "repository_scope"
    else if text_eq left.locator right.locator
    then "exact_scope"
    else "path_hierarchy"

-- `blocking` of loadScopeOverlaps: one side wants the scope for itself.
unfoldable pub blocks : Scope → Scope → Bool
blocks candidate active = is_exclusive candidate.mode || is_exclusive active.mode
