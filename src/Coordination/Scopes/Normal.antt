-- ===== src/Coordination/Scopes/Normal.antt =====
-- Normalized scopes stay inside the repository.
use the_pact.Prelude.{
  ℕ, ◌≤◌, ◌≡◌, false, List, [], ◌∷◌, ok, ◌>>=◌, arith, Ensures, Ensures-or_fail, Ensures-bind,
  Ensures-require, Ensures-ok, Ensures-if, All,
}
use the_pact.Text.{Text, text, has_prefix, byte_len}
use the_pact.Text.Laws.{Lacks, Lacks-of_contains_rune}
use the_pact.FilePath.{clean}
use the_pact.FilePath.Inside.{Inside, clean-Inside}
use the_pact.Coordination.Model.{Scope, ScopeInput, ScopeKind, repository, path, file}
use the_pact.Coordination.Scopes.{
  leaves_repository, relative_locator, normalize_locator, normalize_scope, normalize_from,
  normalize_scopes, seen_key, scope_key,
}

-- The whole repository is `.`; any other scope is a path strictly below its root.
abbrev pub Placed : ScopeKind → Text → Type 0
Placed repository locator = locator ≡ text "."
Placed path locator = Inside locator × Lacks 0 locator
Placed file locator = Inside locator × Lacks 0 locator

pub record IsNormal (s : Scope) : Type 0 where
  pub placed : Placed s.kind s.locator
  pub fits : byte_len s.locator ≤ 4096

relative_locator_checks :
    (l m : Text)
    → relative_locator l ≡ ok m
    → (has_prefix (text "/") l ≡ false) × (leaves_repository (clean l) ≡ false) × (clean l ≡ m)
unfolding relative_locator ◌>>=◌
relative_locator_checks l m h = ground arith

stays-Inside :
    (l : Text)
    → has_prefix (text "/") l ≡ false
    → leaves_repository (clean l) ≡ false
    → Inside (clean l) × Lacks 0 (clean l)
unfolding leaves_repository
stays-Inside l relative h = (
  clean-Inside l relative (ground arith) (ground arith) (ground arith),
  Lacks-of_contains_rune 0 (clean l) (ground arith),
)

relative_locator-Placed : (l m : Text) → relative_locator l ≡ ok m → Inside m × Lacks 0 m
relative_locator-Placed l m h =
    let (relative, inside, e) = relative_locator_checks l m h in
    rw (← e) (stays-Inside l relative inside)

normalize_locator-Placed : (k : ScopeKind) (l m : Text) → normalize_locator k l ≡ ok m → Placed k m
unfolding normalize_locator
normalize_locator-Placed repository l m h = ground arith
normalize_locator-Placed path l m h = relative_locator-Placed l m h
normalize_locator-Placed file l m h = relative_locator-Placed l m h

module _ (table : ℕ → ℕ) where
  pub normalize_scope-Ensures : (s : ScopeInput) → Ensures IsNormal (normalize_scope table s)
  unfolding normalize_scope
  normalize_scope-Ensures s = Ensures-or_fail _ _ _ λ kind hk. Ensures-or_fail _ _ _ λ mode hm.
      Ensures-bind _ _ λ locator hl. Ensures-require _ _ _ λ fits.
        Ensures-ok _
          (record { placed = normalize_locator-Placed kind _ locator hl; fits = ground arith })

  normalize_from-Ensures :
      (seen : List Text) (inputs : List ScopeInput)
      → Ensures (All IsNormal) (normalize_from table seen inputs)
  unfolding normalize_from
  normalize_from-Ensures seen [] = Ensures-ok [] tt
  normalize_from-Ensures seen (s ∷ rest) = Ensures-bind (normalize_scope table s) _ λ scope hs.
      Ensures-if (seen_key (scope_key scope) seen) _ _ (λ _. normalize_from-Ensures seen rest)
        (λ _. Ensures-bind (normalize_from table (scope_key scope ∷ seen) rest) _ λ scopes hr.
          Ensures-ok (scope ∷ scopes) (
            (normalize_scope-Ensures s).holds scope hs,
            (normalize_from-Ensures (scope_key scope ∷ seen) rest).holds scopes hr,
          ))

  -- Every scope that normalizeScopes returns is the whole repository, written `.`, or a path of at
  -- most 4096 bytes that names something strictly below the repository's root.
  pub normalize_scopes-IsNormal :
      (inputs : List ScopeInput) (out : List Scope)
      → normalize_scopes table inputs ≡ ok out
      → All IsNormal out
  unfolding normalize_scopes
  normalize_scopes-IsNormal inputs out h =
      (Ensures-require _ _ _ (λ _. normalize_from-Ensures [] inputs)).holds out h
