-- ===== src/UserAdmin/Rules/Laws.antt =====
-- What the rules of the administration let through.
use the_pact.Prelude.{
  ◌≡◌, true, ◌&&◌, ◌||◌, Option, some, Ensures, Ensures-bind, Ensures-or_fail, Ensures-require,
  Ensures-ok, find-In, arith,
}
use the_pact.Identity.{Uuid, Time}
use the_pact.Accounts.{AccountDb, AccountStatus, OrganizationRole, Principal}
use the_pact.Accounts.Roles.{administers, is_member, is_owner}
use the_pact.Accounts.Joins.{has_principal_id, is_active_account}
use the_pact.UserAdmin.Rules.{
  Standing, authorize_administrator, authorize_target, get_user, manageable_user, standing,
}

pub get_user-id :
    (db : AccountDb) (now : Time) (id : Uuid)
    → Ensures (λ u. u.principal_id ≡ id) (get_user db now id)
unfolding get_user
get_user-id db now id = Ensures-or_fail _ _ _ λ account a. Ensures-or_fail _ _ _ λ principal found.
    Ensures-or_fail _ _ _ λ actor b. Ensures-or_fail _ _ _ λ m c.
      Ensures-ok _ (ground (arith, find-In (has_principal_id id) db.principals principal found))

pub manageable_user-id :
    (db : AccountDb) (now : Time) (actor : Principal) (id : Uuid)
    → Ensures (λ u. u.principal_id ≡ id) (manageable_user db now actor id)
unfolding manageable_user
manageable_user-id db now actor id = Ensures-bind _ _ λ u administrator.
    Ensures-bind _ _ λ target found.
      Ensures-bind _ _ λ v may. Ensures-ok target ((get_user-id db now id).holds target found)

-- The target's standing is what the tables say, and the actor administers.
pub record Authorized (db : AccountDb) (actor target : Uuid) (s : Standing) : Type 0 where
  pub actor_role : OrganizationRole
  pub actor_stands : standing db actor ≡ some (actor_role, AccountStatus.active)
  pub actor_administers : administers actor_role ≡ true
  pub target_stands : standing db target ≡ some s
  pub may : is_owner actor_role || is_member s.0 ≡ true

stands_active :
    (o : Option Standing) (s : Standing)
    → o ≡ some s
    → is_active_account s.1 && administers s.0 ≡ true
    → (o ≡ some (s.0, AccountStatus.active)) × (administers s.0 ≡ true)
stands_active o (r, AccountStatus.active) e t = (e, t)
stands_active o (r, AccountStatus.disabled) e t = absurd (cc)

pub authorize_administrator-stands :
    (db : AccountDb) (actor : Uuid)
    → Ensures
        (λ r. (standing db actor ≡ some (r, AccountStatus.active)) × (administers r ≡ true))
        (authorize_administrator db actor)
unfolding authorize_administrator
authorize_administrator-stands db actor = Ensures-or_fail _ _ _ λ s found.
    Ensures-require _ _ _ λ good. Ensures-ok s.0 (stands_active (standing db actor) s found good)

pub authorize_target-Authorized :
    (db : AccountDb) (actor target : Uuid)
    → Ensures (Authorized db actor target) (authorize_target db actor target)
unfolding authorize_target
authorize_target-Authorized db actor target = Ensures-bind _ _ λ r hr.
    Ensures-or_fail _ _ _ λ s found. Ensures-require _ _ _ λ good. Ensures-ok s (
      let (stands, admin) = (authorize_administrator-stands db actor).holds r hr in
      record {
        actor_role = r;
        actor_stands = stands;
        actor_administers = admin;
        target_stands = found;
        may = good;
      })
