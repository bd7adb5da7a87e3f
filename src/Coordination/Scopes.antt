-- ===== src/Coordination/Scopes.antt =====
-- normalizeScopes of internal/coordination/service.go: requested scopes in canonical form.
pub mod Normal
pub mod Distinct
use the_pact.Prelude.{
  String, ℕ, Bool, false, ◌||◌, not, List, [], ◌∷◌, ◌++◌, Result, ok, ◌>>=◌, ◌>>◌, require, or_fail,
  Option, none, some, length, leb, ltb, ◌==◌, if◌then◌else◌,
}
use the_pact.Text.{
  Text, text, text_eq, has_prefix, contains_rune, replace_rune, trim_space, to_lower, byte_len,
}
use the_pact.FilePath.{clean}
use the_pact.Coordination.Model.{
  Error, validation, Scope, ScopeInput, ScopeKind, repository, path, file, ClaimMode, exclusive,
  shared,
}

pub kind_name : ScopeKind → Text
kind_name repository = text "repository"
kind_name path = text "path"
kind_name file = text "file"

pub mode_name : ClaimMode → Text
mode_name exclusive = text "exclusive"
mode_name shared = text "shared"

scopes_error : String → Error
scopes_error message = validation "scopes" message

parse_kind : Text → Option ScopeKind
parse_kind kind =
    if text_eq kind (text "repository")
    then some repository
    else if text_eq kind (text "path")
    then some path
    else if text_eq kind (text "file")
    then some file
    else none

-- The empty mode is the exclusive one.
parse_mode : Text → Option ClaimMode
parse_mode mode =
    if text_eq mode [] || text_eq mode (text "exclusive")
    then some exclusive
    else if text_eq mode (text "shared")
    then some shared
    else none

leaves_repository : Text → Bool
unfolding text_eq has_prefix contains_rune
leaves_repository locator =
    text_eq locator (text ".")
    || text_eq locator (text "..")
    || has_prefix (text "../") locator
    || contains_rune 0 locator

relative_locator : Text → Result Error Text
unfolding leaves_repository scopes_error
relative_locator locator = do
  require (not (text_eq locator [] || has_prefix (text "/") locator))
      (scopes_error "scope locators must be relative repository paths")
  require (not (leaves_repository (clean locator)))
      (scopes_error "scope locators must stay inside the repository")
  ok (clean locator)

normalize_locator : ScopeKind → Text → Result Error Text
unfolding relative_locator
normalize_locator repository locator = ok (text ".")
normalize_locator path locator = relative_locator locator
normalize_locator file locator = relative_locator locator

scope_key : Scope → Text
unfolding kind_name mode_name
scope_key s = kind_name s.kind ++ (0 ∷ (s.locator ++ (0 ∷ mode_name s.mode)))

seen_key : Text → List Text → Bool
unfolding text_eq
seen_key k [] = false
seen_key k (j ∷ seen) = text_eq k j || seen_key k seen

-- The case table is Unicode's, from code point 128 on.
module _ (table : ℕ → ℕ) where
  pub normalize_scope : ScopeInput → Result Error Scope
  unfolding parse_kind parse_mode normalize_locator scopes_error
  normalize_scope s = do
    kind ←
        or_fail (parse_kind (to_lower table (trim_space s.kind)))
          (scopes_error "scope kinds must be repository, path, or file")
    mode ←
        or_fail (parse_mode (to_lower table (trim_space s.mode)))
          (scopes_error "scope modes must be exclusive or shared")
    locator ← normalize_locator kind (replace_rune 92 b'/' (trim_space s.locator))
    require (leb (byte_len locator) 4096)
        (scopes_error "scope locators must contain at most 4096 characters")
    ok (record { kind = kind; locator = locator; mode = mode })

  pub normalize_from : List Text → List ScopeInput → Result Error (List Scope)
  unfolding normalize_scope seen_key scope_key
  normalize_from seen [] = ok []
  normalize_from seen (s ∷ rest) = do
    scope ← normalize_scope s
    let skipped = normalize_from seen rest
    let kept = normalize_from (scope_key scope ∷ seen) rest
    if seen_key (scope_key scope) seen then skipped else kept >>= λ scopes. ok (scope ∷ scopes)

  unfoldable pub normalize_scopes : List ScopeInput → Result Error (List Scope)
  unfolding normalize_from scopes_error
  normalize_scopes scopes = do
    require (not (length scopes == 0 || ltb 50 (length scopes)))
        (scopes_error "must contain between 1 and 50 items")
    normalize_from [] scopes
