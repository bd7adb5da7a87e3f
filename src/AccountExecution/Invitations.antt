-- ===== src/AccountExecution/Invitations.antt =====
-- Accounts that are made, memberships that are given, and invitations.
use mathlib.Core.Path.{subst}
use the_pact.Prelude.{
  ℕ, ◌+◌, ◌≡◌, refl, inl, inr, Bool, true, false, not, Option, List, ◌++◌, Ensures, Ensures-bind,
  Ensures-or_fail, Ensures-require, Ensures-ok, In-append_left, any_row, any_row_of_In, any_row-In,
  any_row-update_where_mono, count_where-insert, count_where-update_where, find, Option-cases,
  update_where, ◌==◌, arith,
}
use the_pact.Text.{Text}
use the_pact.Identity.{Uuid, Time}
use the_pact.Accounts.{
  AccountDb, Invitation, OrganizationMember, OrganizationRole, Platform, Principal, PrincipalRow,
  ProjectGrant,
}
use the_pact.Accounts.Joins.{is_live_actor, is_membership_of}
use the_pact.Authn.{AccountInput, Secrets, SessionMetadata, web_session_lifetime}
use the_pact.Authn.Checks.{StoredMetadata, sanitize_metadata}
use the_pact.Authn.Sessions.{is_active_account_of}
use the_pact.Authn.Setup.{
  SetupConfig, SetupInput, create_local_principal, create_owner, hashed, insert_account,
  local_principal, setup,
}
use the_pact.Authn.Invitations.{
  accept_invitation, apply_invitation, consume_invitation, consumed, convert_principal,
  find_or_create_invited_principal, has_actor_row_id, is_invited, is_pending_invitation,
  named_actor, register_invitation,
}
use the_pact.Authn.Invitations.Upsert.{upsert_memberships}
use the_pact.Authn.Invitations.Upsert.Laws.{upsert-keeps, upsert-one}
use the_pact.Access.Invitations.{is_waiting}
use the_pact.AccountExecution.Moves.{Commits, Commits-bind, Moves, Moves-trans, Holds-itself}
use the_pact.AccountExecution.Sessions.{insert_web_session-Commits, start_session-Commits}

any_row-append :
    {A : Type 0} (test : A → Bool) (xs ys : List A)
    → any_row test xs ≡ true
    → any_row test (xs ++ ys) ≡ true
any_row-append test xs ys h =
    let (x, m, t) = any_row-In test xs h in
    any_row_of_In test (xs ++ ys) x (In-append_left x xs ys m) t

unique_member :
    (id q : Uuid) (members : List OrganizationMember)
    → not (any_row (is_membership_of id) members) ≡ true
    → (id == q) ≡ true
    → any_row (is_membership_of q) members ≡ false
unique_member id q members new same =
    subst (λ (k : Uuid). any_row (is_membership_of k) members ≡ false) (eq_of_ids id q same)
      (negated_test _ new)
  where
    eq_of_ids : (a b : Uuid) → (a == b) ≡ true → a ≡ b
    eq_of_ids a b h = ground arith

    negated_test : (b : Bool) → not b ≡ true → b ≡ false
    negated_test b h = ground arith

module _ (p : Platform) where
  insert_account-Moves :
      (db : AccountDb) (id : Uuid) (input : AccountInput)
      → Ensures (Moves p db) (insert_account p db id input)
  unfolding insert_account
  insert_account-Moves db id input = Ensures-require _ _ _ λ new. Ensures-require _ _ _ λ free.
      Ensures-ok _ (record {
        members = Holds-itself db.organization_members;
        accounts = λ q h. any_row-append (is_active_account_of q) db.accounts _ h;
        actors = λ q h. h;
        one = λ h. h;
        pending = λ h. h;
      })

  create_local_principal-Commits :
      (db : AccountDb) (input : AccountInput) → Commits p db (create_local_principal p db input)
  unfolding create_local_principal
  create_local_principal-Commits db input = Ensures-require _ _ _ λ free.
      Ensures-bind _ _ λ after e. Ensures-ok _ (
        Moves-trans p db _ after
          (record {
            members = Holds-itself db.organization_members;
            accounts = λ q h. h;
            actors = λ q h. any_row-append (is_live_actor q) db.work.actors _ h;
            one = λ h. h;
            pending = λ h. h;
          })
          ((insert_account-Moves _ _ input).holds after e))

  create_owner-Commits :
      (db : AccountDb) (input : AccountInput) (digest csrf : ℕ) (expires : Time)
      (metadata : StoredMetadata)
      → Commits p db (create_owner p db input digest csrf expires metadata)
  unfolding create_owner is_membership_of
  create_owner-Commits db input digest csrf expires metadata = Ensures-require _ _ _ λ unconfigured.
      Commits-bind p db _ _ (create_local_principal-Commits db input) λ r.
        Ensures-require _ _ _ λ new. record {
          holds = λ s e.
              Moves-trans p r.1 _ s.1
                (record {
                  members = λ m i. record {
                    member = m;
                    listed = In-append_left m r.1.organization_members _ i;
                    own = refl;
                    strong = omega arith;
                  };
                  accounts = λ q h. h;
                  actors = λ q h. h;
                  one = λ h q.
                      count_where-insert (is_membership_of q) r.1.organization_members _ (h q)
                        (λ t. unique_member r.0 q r.1.organization_members new t);
                  pending = λ h. h;
                })
                ((insert_web_session-Commits p _ _ digest csrf expires metadata).holds s e);
        }

  pub setup-Commits :
      (config : SetupConfig) (db : AccountDb) (now : Time) (input : SetupInput) (salt : Text)
      (secrets : Secrets) (metadata : SessionMetadata)
      → Commits p db (setup p config db now input salt secrets metadata)
  unfolding setup
  setup-Commits config db now input salt secrets metadata = Ensures-require _ _ _ λ open_setup.
      Ensures-require _ _ _ λ available. Ensures-require _ _ _ λ right.
        Ensures-bind _ _ λ account e. start_session-Commits p db _ secrets (λ digest csrf.
          create_owner-Commits db (hashed p salt account) digest csrf (now + web_session_lifetime)
            (sanitize_metadata metadata))

  upsert_memberships-Moves :
      (db : AccountDb) (principal : Uuid) (role : OrganizationRole) (grant : Option ProjectGrant)
      → Moves p db (upsert_memberships db principal role grant)
  unfolding upsert_memberships
  upsert_memberships-Moves db principal role grant = record {
    members = λ m i. upsert-keeps principal role db.organization_members m i;
    accounts = λ q h. h;
    actors = λ q h. h;
    one = λ h q. upsert-one principal q role db.organization_members (h q);
    pending = λ h. h;
  }

  -- Invitations that only cease to wait.
  pub settled-Moves :
      (db : AccountDb) (test : Invitation → Bool) (f : Invitation → Invitation)
      → ((email : Text) (i : Invitation)
          → is_waiting p.lower email (f i) ≡ true
          → is_waiting p.lower email i ≡ true)
      → Moves p db (record db { invitations = update_where test f db.invitations })
  settled-Moves db test f only = record {
    members = Holds-itself db.organization_members;
    accounts = λ q h. h;
    actors = λ q h. h;
    one = λ h. h;
    pending = λ h email. omega (
      arith,
      count_where-update_where (is_waiting p.lower email) test f db.invitations
          (λ i t w. only email i w),
      h email,
    );
  }

  consume_invitation-Moves :
      (db : AccountDb) (now : Time) (id principal : Uuid)
      → Ensures (Moves p db) (consume_invitation db now id principal)
  unfolding consume_invitation consumed is_waiting
  consume_invitation-Moves db now id principal = Ensures-require _ _ _ λ waiting. Ensures-ok _ (
      settled-Moves db (is_pending_invitation id) (consumed now principal)
        (λ email i w. absurd (ground arith)))

  apply_invitation-Moves :
      (db : AccountDb) (now : Time) (i : Invitation) (principal : Uuid)
      → Ensures (Moves p db) (apply_invitation db now i principal)
  unfolding apply_invitation
  apply_invitation-Moves db now i principal = record {
    holds = λ e h.
        Moves-trans p db _ e (upsert_memberships-Moves db principal i.organization_role i.grant)
          ((consume_invitation-Moves _ now i.id principal).holds e h);
  }

  pub accept_invitation-Commits :
      (db : AccountDb) (now : Time) (principal : Principal) (secret : Text)
      → Commits p db (accept_invitation p db now principal secret)
  unfolding accept_invitation
  accept_invitation-Commits db now principal secret = Ensures-require _ _ _ λ shaped.
      Ensures-or_fail _ _ _ λ account found. Ensures-bind _ _ λ i locked.
        Ensures-require _ _ _ λ own. Ensures-bind _ _ λ after applied.
          Ensures-ok _ ((apply_invitation-Moves db now i principal.id).holds after applied)

  convert_principal-Commits :
      (db : AccountDb) (row : PrincipalRow) (input : AccountInput)
      → Commits p db (convert_principal p db row input)
  unfolding convert_principal named_actor is_live_actor
  convert_principal-Commits db row input = Ensures-require _ _ _ λ free. Ensures-bind _ _ λ after e.
      Ensures-ok _ (
        Moves-trans p db _ after
          (record {
            members = Holds-itself db.organization_members;
            accounts = λ q h. h;
            actors = λ q h.
                any_row-update_where_mono (is_live_actor q) (has_actor_row_id row.id)
                  (named_actor input.display_name) db.work.actors (λ a own t. t) h;
            one = λ h. h;
            pending = λ h. h;
          })
          ((insert_account-Moves _ _ input).holds after e))

  find_or_create-Commits :
      (db : AccountDb) (input : AccountInput)
      → Commits p db (find_or_create_invited_principal p db input)
  unfolding find_or_create_invited_principal
  find_or_create-Commits db input =
      elim (Option-cases (find (is_invited p db input.email) db.principals)) [
        | inl e ↦ rw (e, find_or_create_invited_principal) (create_local_principal-Commits db input)
        | inr (row, e) ↦
            rw (e, find_or_create_invited_principal) (convert_principal-Commits db row input)
      ]

  pub register_invitation-Commits :
      (db : AccountDb) (now : Time) (secret : Text) (input : AccountInput) (salt : Text)
      (secrets : Secrets) (metadata : SessionMetadata)
      → Commits p db (register_invitation p db now secret input salt secrets metadata)
  unfolding register_invitation
  register_invitation-Commits db now secret input salt secrets metadata =
      Ensures-require _ _ _ λ shaped. Ensures-bind _ _ λ account valid. Ensures-bind _ _ λ i locked.
        Ensures-require _ _ _ λ own. Ensures-require _ _ _ λ free.
          Commits-bind p db _ _ (find_or_create-Commits db (hashed p salt account)) λ r.
            Ensures-bind _ _ λ joined applied. Ensures-bind _ _ λ s started. Ensures-ok _ (
              Moves-trans p r.1 joined s.1
                ((apply_invitation-Moves r.1 now i r.0).holds joined applied)
                ((start_session-Commits p joined _ secrets (λ digest csrf.
                    insert_web_session-Commits p joined
                      (local_principal db r.0 (hashed p salt account) i.organization_role) digest
                      csrf (now + web_session_lifetime) (sanitize_metadata metadata))).holds
                  s started))
