-- ===== src/Authn/Invitations/Upsert/Laws.antt =====
-- Memberships behind an upsert: none is weakened, the given role is there, and each principal still
-- has one.
use the_pact.Prelude.{
  ◌≤◌, ◌≡◌, refl, inl, inr, true, Bool-cases, List, In, In-append_left, In-append_right, any_row,
  any_row-In, count_where, count_where-insert, count_where-update_where, update_where-In, ◌==◌,
  arith,
}
use the_pact.Identity.{Uuid}
use the_pact.Accounts.{OrganizationMember, OrganizationRole}
use the_pact.Accounts.Roles.{organization_rank, stronger_organization_role_bounds}
use the_pact.Accounts.Joins.{is_membership_of}
use the_pact.Authn.Invitations.Upsert.{raised, upsert_organization_member}

-- A membership of the principal that is at least as strong as the role.
pub record Holds (members : List OrganizationMember) (principal : Uuid) (role : OrganizationRole)
    : Type 0 where
  pub member : OrganizationMember
  pub listed : In member members
  pub own : member.principal_id ≡ principal
  pub strong : organization_rank role ≤ organization_rank member.role

raised_bounds :
    (role : OrganizationRole) (m : OrganizationMember)
    → (organization_rank m.role ≤ organization_rank (raised role m).role)
      × (organization_rank role ≤ organization_rank (raised role m).role)
unfolding raised
raised_bounds role m = stronger_organization_role_bounds m.role role

pub upsert-keeps :
    (principal : Uuid) (role : OrganizationRole) (members : List OrganizationMember)
    (m : OrganizationMember)
    → In m members
    → Holds (upsert_organization_member principal role members) m.principal_id m.role
unfolding upsert_organization_member
upsert-keeps principal role members m listed =
    elim (Bool-cases (any_row (is_membership_of principal) members)) [
      | inl e ↦ rw e (elim (Bool-cases (is_membership_of principal m)) [
        | inl own ↦ record {
          member = raised role m;
          listed =
              rw own at
                (update_where-In (is_membership_of principal) (raised role) members m listed);
          own = refl;
          strong = (raised_bounds role m).0;
        }
        | inr other ↦ record {
          member = m;
          listed =
              rw other at
                (update_where-In (is_membership_of principal) (raised role) members m listed);
          own = refl;
          strong = omega arith;
        }
      ])
      | inr e ↦ rw e (record {
        member = m;
        listed = In-append_left m members _ listed;
        own = refl;
        strong = omega arith;
      })
    ]

pub upsert-gives :
    (principal : Uuid) (role : OrganizationRole) (members : List OrganizationMember)
    → Holds (upsert_organization_member principal role members) principal role
unfolding upsert_organization_member is_membership_of
upsert-gives principal role members =
    elim (Bool-cases (any_row (is_membership_of principal) members)) [
      | inl e ↦
          let (m, listed, own) = any_row-In (is_membership_of principal) members e in
          rw e (record {
            member = raised role m;
            listed =
                rw own at
                  (update_where-In (is_membership_of principal) (raised role) members m listed);
            own = ground (arith, own);
            strong = (raised_bounds role m).1;
          })
      | inr e ↦ rw e (record {
        member = record { principal_id = principal; role = role };
        listed = In-append_right _ members _ (inl refl);
        own = refl;
        strong = omega arith;
      })
    ]

eq_of_test : (a b : Uuid) → (a == b) ≡ true → b ≡ a
eq_of_test a b h = ground arith

pub upsert-one :
    (principal id : Uuid) (role : OrganizationRole) (members : List OrganizationMember)
    → count_where (is_membership_of id) members ≤ 1
    → count_where (is_membership_of id) (upsert_organization_member principal role members) ≤ 1
unfolding upsert_organization_member is_membership_of raised
upsert-one principal id role members few =
    elim (Bool-cases (any_row (is_membership_of principal) members)) [
      | inl e ↦ rw e (
          omega (
            arith,
            count_where-update_where (is_membership_of id) (is_membership_of principal)
                (raised role) members (λ m own t. t),
          ))
      | inr e ↦ rw e (
          count_where-insert (is_membership_of id) members
            (record { principal_id = principal; role = role }) few
            (λ t. rw (eq_of_test principal id t) e))
    ]
