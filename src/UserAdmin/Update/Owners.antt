-- ===== src/UserAdmin/Update/Owners.antt =====
-- An organization that has an active owner keeps one.
use mathlib.Core.Path.{subst}
use the_pact.Prelude.{
  ◌≤◌, ◌≡◌, refl, sym, ◌⊎◌, inl, inr, true, false, not, ◌||◌, Bool-cases, some, Ensures,
  Ensures-bind, Ensures-require, Ensures-ok, In, any_row, any_row-update_where_mono, count_where,
  find, find-one, Option-cases, row_outside, update_where-In, if◌then◌else◌, ltb, ◌==◌, arith,
}
use the_pact.Identity.{Uuid, Time}
use the_pact.Database.{Actor}
use the_pact.Coordination.Conflicts.{has_actor_id}
use the_pact.Accounts.{
  AccountDb, AccountStatus, LocalAccount, OrganizationMember, OrganizationRole, Platform, Principal,
}
use the_pact.Accounts.Roles.{is_owner}
use the_pact.Accounts.Joins.{is_account_of, is_active_account, is_live_actor, is_membership_of}
use the_pact.Authn.Sessions.{is_active_account_of}
use the_pact.UserAdmin.{UpdateUserInput}
use the_pact.UserAdmin.Rules.{Standing, revoke_user_access, standing}
use the_pact.UserAdmin.Rules.Laws.{authorize_target-Authorized}
use the_pact.UserAdmin.Checks.{UpdateRequest}
use the_pact.UserAdmin.Update.{
  apply_update, disables, gives_up, is_active_owner, or_old, update_user, update_user_row,
  updated_account, updated_actor, updated_db, updated_member,
}

-- An owner whose account and whose actor are active.
pub record HasOwner (db : AccountDb) : Type 0 where
  pub owner : OrganizationMember
  pub listed : In owner db.organization_members
  pub active : is_active_owner db owner ≡ true

-- organization_memberships_pk
abbrev pub OneMembership : AccountDb → Type 0
OneMembership db = (id : Uuid) → count_where (is_membership_of id) db.organization_members ≤ 1

-- An update that neither demotes nor disables.
pub record Keeps (input : UpdateUserInput) : Type 0 where
  pub role : is_owner (or_old input.organization_role OrganizationRole.owner) ≡ true
  pub status : is_active_account (or_old input.status AccountStatus.active) ≡ true

-- The update is of somebody else, or keeps an owner.
abbrev pub Spares : Uuid → UpdateUserInput → OrganizationMember → Type 0
Spares id input m = ((m.principal_id == id) ≡ false) ⊎ Keeps input

account_spared :
    (id : Uuid) (input : UpdateUserInput) (m : OrganizationMember) (a : LocalAccount)
    → Spares id input m
    → is_account_of id a ≡ true
    → is_active_account_of m.principal_id a ≡ true
    → is_active_account_of m.principal_id (updated_account input a) ≡ true
unfolding is_account_of is_active_account_of updated_account
account_spared id input m a (inl other) own active = absurd (ground arith)
account_spared id input m a (inr keeps) own active = ground (arith, keeps.status)

actor_spared :
    (id : Uuid) (input : UpdateUserInput) (m : OrganizationMember) (a : Actor)
    → Spares id input m
    → has_actor_id id a ≡ true
    → is_live_actor m.principal_id a ≡ true
    → is_live_actor m.principal_id (updated_actor input a) ≡ true
unfolding is_live_actor updated_actor
actor_spared id input m a (inl other) own active = absurd (ground arith)
actor_spared id input m a (inr keeps) own active = ground (arith, keeps.status)

pub active_owner_parts :
    (db : AccountDb) (m : OrganizationMember)
    → is_active_owner db m ≡ true
    → (is_owner m.role ≡ true)
      × (any_row (is_active_account_of m.principal_id) db.accounts ≡ true)
      × (any_row (is_live_actor m.principal_id) db.work.actors ≡ true)
unfolding is_active_owner
active_owner_parts db m h = ground arith

pub active_owner_of_parts :
    (db : AccountDb) (m : OrganizationMember)
    → is_owner m.role ≡ true
    → any_row (is_active_account_of m.principal_id) db.accounts ≡ true
    → any_row (is_live_actor m.principal_id) db.work.actors ≡ true
    → is_active_owner db m ≡ true
unfolding is_active_owner
active_owner_of_parts db m r a b = rw (r, a, b) refl

abbrev after_update : Uuid → UpdateUserInput → OrganizationMember → OrganizationMember
after_update id input m = if is_membership_of id m then updated_member input m else m

role_spared :
    (id : Uuid) (input : UpdateUserInput) (m : OrganizationMember)
    → Spares id input m
    → is_owner m.role ≡ true
    → is_owner (after_update id input m).role ≡ true
unfolding is_membership_of updated_member
role_spared id input m (inl other) owner = rw other owner
role_spared id input m (inr keeps) owner = ground (arith, keeps.role)

same_principal :
    (id : Uuid) (input : UpdateUserInput) (m : OrganizationMember)
    → (after_update id input m).principal_id ≡ m.principal_id
unfolding updated_member
same_principal id input m = elim (Bool-cases (is_membership_of id m)) [
  | inl e ↦ rw e refl
  | inr e ↦ rw e refl
]

active_owner_spared :
    (db : AccountDb) (id : Uuid) (input : UpdateUserInput) (m : OrganizationMember)
    → Spares id input m
    → is_active_owner db m ≡ true
    → is_active_owner (apply_update db id input) (after_update id input m) ≡ true
unfolding apply_update
active_owner_spared db id input m spares active =
    let (role, account, actor) = active_owner_parts db m active in
    active_owner_of_parts (apply_update db id input) (after_update id input m)
      (role_spared id input m spares role)
      (subst
        (λ (q : Uuid). any_row (is_active_account_of q) (apply_update db id input).accounts ≡ true)
        (sym (same_principal id input m))
        (any_row-update_where_mono (is_active_account_of m.principal_id) (is_account_of id)
          (updated_account input) db.accounts
          (λ (a : LocalAccount). account_spared id input m a spares) account))
      (subst (λ (q : Uuid). any_row (is_live_actor q) (apply_update db id input).work.actors ≡ true)
        (sym (same_principal id input m))
        (any_row-update_where_mono (is_live_actor m.principal_id) (has_actor_id id)
          (updated_actor input) db.work.actors (λ (a : Actor). actor_spared id input m a spares)
          actor))

-- What an update writes beside the row has no part in who owns.
updated_db-HasOwner :
    (db : AccountDb) (now : Time) (actor id : Uuid) (input : UpdateUserInput) (old : AccountStatus)
    → HasOwner (apply_update db id input)
    → HasOwner (updated_db db now actor id input old)
unfolding updated_db revoke_user_access is_active_owner
updated_db-HasOwner db now actor id input old h =
    elim (Bool-cases (disables old (or_old input.status old))) [
      | inl e ↦ rw e (record { owner = h.owner; listed = h.listed; active = h.active })
      | inr e ↦ rw e (record { owner = h.owner; listed = h.listed; active = h.active })
    ]

spared-HasOwner :
    (db : AccountDb) (id : Uuid) (input : UpdateUserInput) (m : OrganizationMember)
    → In m db.organization_members
    → Spares id input m
    → is_active_owner db m ≡ true
    → HasOwner (apply_update db id input)
unfolding apply_update
spared-HasOwner db id input m listed spares active = record {
  owner = after_update id input m;
  listed =
      update_where-In (is_membership_of id) (updated_member input) db.organization_members m listed;
  active = active_owner_spared db id input m spares active;
}

guard-Keeps :
    (input : UpdateUserInput) (role : OrganizationRole) (status : AccountStatus)
    → is_owner role ≡ true
    → gives_up role (or_old input.organization_role role) (or_old input.status status) ≡ false
    → Keeps input
unfolding gives_up
guard-Keeps input role status owner stays = record { role = ground arith; status = ground arith }

standing_role :
    (db : AccountDb) (id : Uuid) (m : OrganizationMember) (s : Standing)
    → OneMembership db
    → In m db.organization_members
    → is_membership_of id m ≡ true
    → standing db id ≡ some s
    → m.role ≡ s.0
unfolding standing
standing_role db id m s one listed own stands =
    elim (Option-cases (find (is_membership_of id) db.organization_members)) [
      | inl e ↦ absurd (cc (rw e at stands))
      | inr (n, e) ↦
          let same =
            find-one (is_membership_of id) db.organization_members m n (one id) listed own e in
          ground (arith, same, rw e at stands)
    ]

-- The guard of the update leaves an owner who is spared.
guard_spares :
    (db : AccountDb) (id : Uuid) (input : UpdateUserInput) (s : Standing)
    → OneMembership db
    → standing db id ≡ some s
    → not (gives_up s.0 (or_old input.organization_role s.0) (or_old input.status s.1))
        || ltb 1 (count_where (is_active_owner db) db.organization_members)
      ≡ true
    → HasOwner db
    → HasOwner (apply_update db id input)
unfolding is_membership_of
guard_spares db id input s one stands guard h =
    elim (Bool-cases (ltb 1 (count_where (is_active_owner db) db.organization_members))) [
      | inl more ↦
          let (m, listed, active, other) =
            row_outside (is_active_owner db) (is_membership_of id) db.organization_members
              (ground (arith, one id)) in
          spared-HasOwner db id input m listed (inl other) active
      | inr few ↦ elim (Bool-cases (h.owner.principal_id == id)) [
        | inr other ↦ spared-HasOwner db id input h.owner h.listed (inl other) h.active
        | inl own ↦
            spared-HasOwner db id input h.owner h.listed
              (inr (
                guard-Keeps input s.0 s.1
                  (rw (← standing_role db id h.owner s one h.listed own stands)
                    (active_owner_parts db h.owner h.active).0)
                  (ground (arith, guard, few))))
              h.active
      ]
    ]

pub update_user_row-HasOwner :
    (p : Platform) (db : AccountDb) (now : Time) (actor : Principal) (id : Uuid)
    (input : UpdateUserInput)
    → OneMembership db
    → HasOwner db
    → Ensures (λ r. HasOwner r.1) (update_user_row p db now actor id input)
unfolding update_user_row
update_user_row-HasOwner p db now actor id input one h = Ensures-bind _ _ λ s hs.
    Ensures-require _ _ _ λ other. Ensures-require _ _ _ λ last. Ensures-require _ _ _ λ free.
      Ensures-bind _ _ λ user hu. Ensures-ok _ (
        updated_db-HasOwner db now actor.id id input s.1 (
          guard_spares db id input s one
            ((authorize_target-Authorized db actor.id id).holds s hs).target_stands last h))

pub update_user-HasOwner :
    (p : Platform) (db : AccountDb) (now : Time) (actor : Principal) (id : Uuid)
    (request : UpdateRequest)
    → OneMembership db
    → HasOwner db
    → Ensures (λ r. HasOwner r.1) (update_user p db now actor id request)
unfolding update_user
update_user-HasOwner p db now actor id request one h = Ensures-bind _ _ λ target ht.
    Ensures-bind _ _ λ given hg.
      Ensures-bind _ _
        λ u checked. update_user_row-HasOwner p db now actor target.principal_id given one h
