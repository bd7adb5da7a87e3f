-- ===== src/Access/Greatest.antt =====
-- The role on a workspace is the greatest of the roles that count for it, in an order of its own.
use mathlib.Core.Path.{subst}
use the_pact.Prelude.{
  ◌≤◌, ◌≡◌, refl, ◌⊎◌, inl, inr, true, false, none, some, List, [], ◌∷◌, All, All-In, In, ok, err,
  ◌>>=◌, ltb, ◌==◌, Bool-cases, arith,
}
use the_pact.Identity.{Uuid}
use the_pact.Accounts.{AccountDb, Principal, ProjectRole}
use the_pact.Accounts.Roles.{administers, role_rank}
use the_pact.Access.Candidates.{Counts, candidate_roles-Counts, candidate_roles_complete}
use the_pact.Access.{candidate_roles, forbidden, higher, highest, workspace_role}

-- The greatest of a list.
record Greatest (roles : List ProjectRole) (r : ProjectRole) : Type 0 where
  listed : In r roles
  above : All (λ s. role_rank s ≤ role_rank r) roles

All-weaker :
    (roles : List ProjectRole) (a b : ProjectRole)
    → role_rank a ≤ role_rank b
    → All (λ s. role_rank s ≤ role_rank a) roles
    → All (λ s. role_rank s ≤ role_rank b) roles
All-weaker [] a b le h = tt
All-weaker (x ∷ rest) a b le h = (omega (arith, h.0), All-weaker rest a b le h.1)

-- One role more.
Greatest-cons :
    (r s : ProjectRole) (rest : List ProjectRole)
    → Greatest rest s
    → Greatest (r ∷ rest) (higher r (some s))
Greatest-cons r s rest g = elim (Bool-cases (ltb (role_rank r) (role_rank s))) [
  | inl e ↦ rw e (record { listed = inr g.listed; above = (ground (arith, e), g.above) })
  | inr e ↦ rw e (record {
    listed = inl refl;
    above = (omega arith, All-weaker rest s r (ground (arith, e)) g.above);
  })
]

highest-Greatest :
    (roles : List ProjectRole)
    → ((highest roles ≡ none) × (roles ≡ []))
      ⊎ ((r : ProjectRole) × (highest roles ≡ some r) × Greatest roles r)
unfolding highest
highest-Greatest [] = inl (refl, refl)
highest-Greatest (r ∷ rest) = elim (highest-Greatest rest) [
  | inl (e, empty) ↦
      inr (r, rw e refl, record { listed = inl refl; above = (omega arith, rw empty tt) })
  | inr (s, e, g) ↦ inr (higher r (some s), rw e refl, Greatest-cons r s rest g)
]

-- viewer below contributor below maintainer below owner
abbrev pub AtMost : ProjectRole → ProjectRole → Type 0
AtMost ProjectRole.viewer r = Unit {0}
AtMost ProjectRole.contributor ProjectRole.viewer = ⊥
AtMost ProjectRole.contributor r = Unit {0}
AtMost ProjectRole.maintainer ProjectRole.viewer = ⊥
AtMost ProjectRole.maintainer ProjectRole.contributor = ⊥
AtMost ProjectRole.maintainer r = Unit {0}
AtMost ProjectRole.owner ProjectRole.owner = Unit {0}
AtMost ProjectRole.owner r = ⊥

role_rank-AtMost : (s r : ProjectRole) → role_rank s ≤ role_rank r → AtMost s r
role_rank-AtMost ProjectRole.viewer r h = tt
role_rank-AtMost ProjectRole.contributor ProjectRole.viewer h = absurd (omega (arith, h))
role_rank-AtMost ProjectRole.contributor ProjectRole.contributor h = tt
role_rank-AtMost ProjectRole.contributor ProjectRole.maintainer h = tt
role_rank-AtMost ProjectRole.contributor ProjectRole.owner h = tt
role_rank-AtMost ProjectRole.maintainer ProjectRole.viewer h = absurd (omega (arith, h))
role_rank-AtMost ProjectRole.maintainer ProjectRole.contributor h = absurd (omega (arith, h))
role_rank-AtMost ProjectRole.maintainer ProjectRole.maintainer h = tt
role_rank-AtMost ProjectRole.maintainer ProjectRole.owner h = tt
role_rank-AtMost ProjectRole.owner ProjectRole.viewer h = absurd (omega (arith, h))
role_rank-AtMost ProjectRole.owner ProjectRole.contributor h = absurd (omega (arith, h))
role_rank-AtMost ProjectRole.owner ProjectRole.maintainer h = absurd (omega (arith, h))
role_rank-AtMost ProjectRole.owner ProjectRole.owner h = tt

-- For a principal of the organization that does not administer it, the role on a workspace is one
-- that counts for it, given by a membership of the open workspace or of a project in it, and no
-- role that counts is above it; where none counts, access is forbidden.
pub workspace_role-Greatest :
    (db : AccountDb) (principal : Principal) (workspace : Uuid)
    → (principal.organization_id == db.organization_id) ≡ true
    → administers principal.organization_role ≡ false
    → ((workspace_role db principal workspace ≡ err forbidden)
        × ((s : ProjectRole) → Counts db principal.id workspace s → ⊥))
      ⊎ ((r : ProjectRole) × (workspace_role db principal workspace ≡ ok r)
          × Counts db principal.id workspace r
          × ((s : ProjectRole) → Counts db principal.id workspace s → AtMost s r))
unfolding workspace_role ◌>>=◌
workspace_role-Greatest db principal workspace own below =
    elim (highest-Greatest (candidate_roles db principal.id workspace)) [
      | inl (e, empty) ↦ inl (
        rw (own, below, e) refl,
        λ s c. subst (In s) empty (candidate_roles_complete db principal.id workspace s c),
      )
      | inr (r, e, g) ↦ inr (
        r,
        rw (own, below, e) refl,
        candidate_roles-Counts db principal.id workspace r g.listed,
        λ s c. role_rank-AtMost s r (
            All-In (λ t. role_rank t ≤ role_rank r) s (candidate_roles db principal.id workspace)
              g.above (candidate_roles_complete db principal.id workspace s c)),
      )
    ]
