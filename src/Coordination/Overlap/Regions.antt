-- ===== src/Coordination/Overlap/Regions.antt =====
-- Scopes as sets of file paths: an overlap is a common path.
use mathlib.Core.List.{append_assoc}
use the_pact.Prelude.{
  ◌≡◌, refl, sym, ◌∙◌, ◌↔◌, ◌⊎◌, inl, inr, Bool, true, ◌||◌, [], ◌∷◌, ◌++◌, arith, Bool-cases,
  or_elim,
}
use the_pact.Text.{Text, text, text_eq, has_prefix}
use the_pact.Text.Laws.{text_eq_refl, eq_of_text_eq, rest_of_has_prefix, has_prefix-append}
use the_pact.Coordination.Model.{Scope, ClaimMode, ScopeKind, repository, path, file}
use the_pact.Coordination.Overlap.{path_contains, scopes_overlap}

-- The paths of a directory: itself and all below it.
abbrev Below : Text → Text → Type 0
Below parent child =
    (parent ≡ text ".") ⊎ (child ≡ parent) ⊎ ((rest : Text) × (child ≡ parent ++ b'/' ∷ rest))

abbrev pub Region : ScopeKind → Text → Text → Type 0
Region repository locator f = Unit
Region path locator f = Below locator f
Region file locator f = f ≡ locator

-- The path `f` lies in the scope.
abbrev pub Covers : Scope → Text → Type 0
Covers s f = Region s.kind s.locator f

Below-of_path_contains : (p c : Text) → path_contains p c ≡ true → Below p c
unfolding path_contains
Below-of_path_contains p c h = elim (Bool-cases (text_eq p (text "."))) [
  | inl e ↦ inl (eq_of_text_eq p _ e)
  | inr root ↦ elim (Bool-cases (text_eq c p)) [
    | inl e ↦ inr (inl (eq_of_text_eq c p e))
    | inr same ↦
        let (rest, e) = rest_of_has_prefix (p ++ text "/") c (ground arith) in
        inr (inr (rest, e ∙ append_assoc p (text "/") rest))
  ]
]

path_contains_of_Below : (p c : Text) → Below p c → path_contains p c ≡ true
unfolding path_contains
path_contains_of_Below p c (inl e) = rw e (ground (arith, text_eq_refl (text ".")))
path_contains_of_Below p c (inr (inl e)) = rw e (ground (arith, text_eq_refl p))
path_contains_of_Below p c (inr (inr (rest, e))) = ground (arith, prefixed)
  where
    prefixed : has_prefix (p ++ text "/") c ≡ true
    prefixed = rw (e, ← append_assoc p (text "/") rest) (has_prefix-append (p ++ text "/") rest)

-- Of two directories above one path, one holds the other.
nested :
    (p q x y : Text)
    → p ++ b'/' ∷ x ≡ q ++ b'/' ∷ y
    → (p ≡ q) ⊎ ((r : Text) × (q ≡ p ++ b'/' ∷ r)) ⊎ ((r : Text) × (p ≡ q ++ b'/' ∷ r))
nested [] [] x y e = inl refl
nested [] (d ∷ q) x y e = inr (inl (q, ground arith))
nested (c ∷ p) [] x y e = inr (inr (p, ground arith))
nested (c ∷ p) (d ∷ q) x y e = elim (nested p q x y (ground arith)) [
  | inl h ↦ inl (ground arith)
  | inr (inl (r, h)) ↦ inr (inl (r, ground arith))
  | inr (inr (r, h)) ↦ inr (inr (r, ground arith))
]

-- A common path of two directories comes from one holding the other.
contains_of_common :
    (p q f : Text) → Below p f → Below q f → (path_contains p q || path_contains q p) ≡ true
contains_of_common p q f (inl e) bq = ground (arith, path_contains_of_Below p q (inl e))
contains_of_common p q f bp (inl e) = ground (arith, path_contains_of_Below q p (inl e))
contains_of_common p q f (inr (inl e)) bq = ground (arith, path_contains_of_Below q p (rw (← e) bq))
contains_of_common p q f bp (inr (inl e)) = ground (arith, path_contains_of_Below p q (rw (← e) bp))
contains_of_common p q f (inr (inr (x, ex))) (inr (inr (y, ey))) =
    elim (nested p q x y (sym ex ∙ ey)) [
      | inl e ↦ ground (arith, path_contains_of_Below p q (inr (inl (sym e))))
      | inr (inl (r, e)) ↦ ground (arith, path_contains_of_Below p q (inr (inr (r, e))))
      | inr (inr (r, e)) ↦ ground (arith, path_contains_of_Below q p (inr (inr (r, e))))
    ]

Region-locator : (k : ScopeKind) (a : Text) → Region k a a
Region-locator repository a = tt
Region-locator path a = inr (inl refl)
Region-locator file a = refl

module _ (m n : ClaimMode) where
  abbrev kinds_overlap : ScopeKind → Text → ScopeKind → Text → Bool
  kinds_overlap k a j b =
      scopes_overlap (record { kind = k; locator = a; mode = m })
        (record { kind = j; locator = b; mode = n })

  common_path :
      (k j : ScopeKind) (a b : Text)
      → kinds_overlap k a j b ≡ true
      → (f : Text) × Region k a f × Region j b f
  unfolding scopes_overlap
  common_path repository j a b h = (b, tt, Region-locator j b)
  common_path path repository a b h = (a, Region-locator path a, tt)
  common_path file repository a b h = (a, refl, tt)
  common_path file file a b h = (a, refl, eq_of_text_eq a b h)
  common_path path file a b h = (b, Below-of_path_contains a b h, refl)
  common_path file path a b h = (a, refl, Below-of_path_contains b a h)
  common_path path path a b h = elim (or_elim _ _ h) [
    | inl e ↦ (b, Below-of_path_contains a b e, Region-locator path b)
    | inr e ↦ (a, Region-locator path a, Below-of_path_contains b a e)
  ]

  overlap_of_common_path :
      (k j : ScopeKind) (a b f : Text) → Region k a f → Region j b f → kinds_overlap k a j b ≡ true
  unfolding scopes_overlap
  overlap_of_common_path repository j a b f p q = refl
  overlap_of_common_path path repository a b f p q = refl
  overlap_of_common_path file repository a b f p q = refl
  overlap_of_common_path file file a b f p q = rw (← p, ← q) (text_eq_refl f)
  overlap_of_common_path path file a b f p q = path_contains_of_Below a b (rw (← q) p)
  overlap_of_common_path file path a b f p q = path_contains_of_Below b a (rw (← p) q)
  overlap_of_common_path path path a b f p q = contains_of_common a b f p q

-- Two scopes overlap exactly when some file path lies in both, whatever their kinds.
pub scopes_overlap_iff :
    (l r : Scope) → (scopes_overlap l r ≡ true) ↔ ((f : Text) × Covers l f × Covers r f)
scopes_overlap_iff l r = (
  common_path l.mode r.mode l.kind r.kind l.locator r.locator,
  (λ (f, p, q). overlap_of_common_path l.mode r.mode l.kind r.kind l.locator r.locator f p q),
)
