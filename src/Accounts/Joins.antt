-- ===== src/Accounts/Joins.antt =====
-- The joins that the repositories share: a principal with its actor and its membership, and the
-- account of a principal (scanAccount of internal/authn/postgres_repository.go).
pub mod Laws
use mathlib.Core.Option
use the_pact.Prelude.{Bool, true, false, ◌&&◌, Option, none, some, ◌==◌, find}
use the_pact.Identity.{Uuid}
use the_pact.Database.{Actor, ActorStatus}
use the_pact.Accounts.{
  AccountDb, AccountStatus, LocalAccount, OrganizationMember, Principal, PrincipalRow,
}

abbrev pub is_active_actor : ActorStatus → Bool
is_active_actor ActorStatus.active = true
is_active_actor _ = false

abbrev pub is_active_account : AccountStatus → Bool
is_active_account AccountStatus.active = true
is_active_account _ = false

unfoldable pub is_live_actor : Uuid → Actor → Bool
is_live_actor id a = a.id == id && is_active_actor a.status

unfoldable pub has_principal_id : Uuid → PrincipalRow → Bool
has_principal_id id p = p.id == id

unfoldable pub is_membership_of : Uuid → OrganizationMember → Bool
is_membership_of id m = m.principal_id == id

unfoldable pub is_account_of : Uuid → LocalAccount → Bool
is_account_of id a = a.principal_id == id

abbrev pub principal_of : Uuid → PrincipalRow → Actor → OrganizationMember → Principal
principal_of organization p a m = record {
  id = p.id;
  organization_id = organization;
  display_name = a.display_name;
  principal_type = p.principal_type;
  organization_role = m.role;
}

-- principals ⋈ actors ⋈ organization_memberships, for an actor that is active
unfoldable pub identity_of : AccountDb → Uuid → Option Principal
unfolding Option.bind has_principal_id is_live_actor is_membership_of
identity_of db id = Option.bind (find (has_principal_id id) db.principals) λ p.
    Option.bind (find (is_live_actor id) db.work.actors) λ a.
      Option.map (principal_of db.organization_id p a)
        (find (is_membership_of id) db.organization_members)

abbrev pub is_some : {A : Type 0} → Option A → Bool
is_some none = false
is_some (some a) = true

pub record Account : Type 0 where
  pub principal : Principal
  pub row : LocalAccount

unfoldable pub with_identity : AccountDb → LocalAccount → Option Account
with_identity db row =
    Option.map (λ p. record { principal = p; row = row }) (identity_of db row.principal_id)

-- The first account of the join that passes.
unfoldable pub find_account : AccountDb → (LocalAccount → Bool) → Option Account
unfolding Option.bind with_identity identity_of
find_account db test =
    Option.bind (find (λ a. test a && is_some (identity_of db a.principal_id)) db.accounts)
      (with_identity db)
