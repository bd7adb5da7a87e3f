-- ===== src/Authn/Setup.antt =====
-- The first owner, and rows of new accounts: Service.SetupStatus, Setup and createOwnerSession
-- (internal/authn/service.go), SetupComplete, CreateOwner and createLocalPrincipal
-- (internal/authn/postgres_repository.go).
use the_pact.Prelude.{
  ℕ, ◌+◌, Bool, ◌&&◌, ◌||◌, not, none, Result, ok, ◌>>=◌, ◌>>◌, require, leb, ◌==◌, any_row, insert,
}
use the_pact.Text.{Text, text, text_eq, trim_space, to_lower, byte_len}
use the_pact.Identity.{Uuid, Time}
use the_pact.Database.{Actor, ActorStatus}
use the_pact.Accounts.{
  AccountDb, AccountStatus, LocalAccount, OrganizationMember, OrganizationRole, Platform, Principal,
  PrincipalRow, next_id,
}
use the_pact.Accounts.Roles.{administers}
use the_pact.Accounts.Joins.{is_account_of, is_active_account, is_live_actor, is_membership_of}
use the_pact.Authn.{
  AccountInput, AuthnError, CreatedWebSession, Secrets, SessionMetadata, WebSessionView,
  account_exists, already_configured, setup_unavailable, unavailable, web_session_lifetime,
}
use the_pact.Authn.Checks.{StoredMetadata, normalize_and_validate_account, sanitize_metadata}
use the_pact.Authn.Sessions.{insert_web_session, start_session}

-- What NewService keeps of the setup token.
pub record SetupConfig : Type 0 where
  pub setup_hash : ℕ
  pub setup_available : Bool

unfoldable pub setup_config : Platform → Text → SetupConfig
unfolding trim_space byte_len
setup_config p token = record {
  setup_hash = p.sha256 (trim_space token);
  setup_available = leb 24 (byte_len (trim_space token));
}

-- A membership that administers, of the principal.
unfoldable pub is_administration_of : Uuid → OrganizationMember → Bool
is_administration_of id m = m.principal_id == id && administers m.role

unfoldable pub is_administrator : AccountDb → LocalAccount → Bool
unfolding is_administration_of any_row
is_administrator db a =
    is_active_account a.status
    && any_row (is_administration_of a.principal_id) db.organization_members

unfoldable pub is_live_administrator : AccountDb → LocalAccount → Bool
unfolding is_administrator is_live_actor any_row
is_live_administrator db a =
    is_administrator db a && any_row (is_live_actor a.principal_id) db.work.actors

unfoldable pub setup_complete : AccountDb → Bool
unfolding is_live_administrator any_row
setup_complete db = any_row (is_live_administrator db) db.accounts

-- Two rows of which an index on lower(email) or lower(username) admits one.
unfoldable pub clashes : (ℕ → ℕ) → Text → Text → LocalAccount → Bool
unfolding text_eq to_lower
clashes lower email username a =
    text_eq (to_lower lower a.email) (to_lower lower email)
    || text_eq (to_lower lower a.username) (to_lower lower username)

-- principals_external_identity_uq
unfoldable pub is_external : Text → Text → PrincipalRow → Bool
unfolding text_eq
is_external issuer subject p =
    text_eq p.external_issuer issuer && text_eq p.external_subject subject

abbrev pub new_account : Uuid → AccountInput → LocalAccount
new_account id input = record {
  principal_id = id;
  email = input.email;
  username = input.username;
  password_hash = input.password;
  status = AccountStatus.active;
  failed_login_attempts = 0;
  locked_until = none;
}

unfoldable pub insert_account :
    Platform → AccountDb → Uuid → AccountInput → Result AuthnError AccountDb
unfolding clashes is_account_of any_row
insert_account p db id input = do
  require (not (any_row (is_account_of id) db.accounts)) account_exists
  require (not (any_row (clashes p.lower input.email input.username) db.accounts)) account_exists
  ok (record db { accounts = insert (new_account id input) db.accounts })

abbrev pub with_actor : AccountDb → Text → AccountDb
with_actor db name =
    let actor : Actor = record {
      id = next_id db;
      status = ActorStatus.active;
      display_name = name;
    } in
    record db {
      work = record db.work { actors = insert actor db.work.actors; next_id = next_id db + 1 };
    }

abbrev pub local_principal : AccountDb → Uuid → AccountInput → OrganizationRole → Principal
local_principal db id input role = record {
  id = id;
  organization_id = db.organization_id;
  display_name = input.display_name;
  principal_type = text "human";
  organization_role = role;
}

abbrev pub principal_row : Uuid → Text → PrincipalRow
principal_row id email = record {
  id = id;
  principal_type = text "human";
  external_issuer = text "pact.local";
  external_subject = email;
}

-- The identifier of the new principal; the caller knows its role.
unfoldable pub create_local_principal :
    Platform → AccountDb → AccountInput → Result AuthnError (Uuid × AccountDb)
unfolding is_external insert_account any_row
create_local_principal p db input = do
  require (not (any_row (is_external (text "pact.local") input.email) db.principals)) account_exists
  let actor_db = with_actor db input.display_name
  after ←
      insert_account p
        (record actor_db {
          principals = insert (principal_row (next_id db) input.email) db.principals;
        })
        (next_id db) input
  ok (next_id db, after)

unfoldable pub create_owner :
    Platform
    → AccountDb
    → AccountInput
    → ℕ
    → ℕ
    → Time
    → StoredMetadata
    → Result AuthnError (WebSessionView × AccountDb)
unfolding is_administrator is_membership_of create_local_principal insert_web_session
create_owner p db input digest csrf expires metadata = do
  require (not (any_row (is_administrator db) db.accounts)) already_configured
  (id, created) ← create_local_principal p db input
  require (not (any_row (is_membership_of id) created.organization_members)) unavailable
  insert_web_session
      (record created {
        organization_members =
            insert (record { principal_id = id; role = OrganizationRole.owner })
              created.organization_members;
      })
      (local_principal db id input OrganizationRole.owner) digest csrf expires metadata

pub record SetupInput : Type 0 where
  pub setup_code : Text
  pub account : AccountInput

abbrev pub hashed : Platform → Text → AccountInput → AccountInput
hashed p salt input = record input { password = p.hash_password salt input.password }

unfoldable pub setup :
    Platform
    → SetupConfig
    → AccountDb
    → Time
    → SetupInput
    → Text
    → Secrets
    → SessionMetadata
    → Result AuthnError (CreatedWebSession × AccountDb)
unfolding setup_complete trim_space normalize_and_validate_account start_session create_owner
    sanitize_metadata
setup p config db now input salt secrets metadata = do
  require (not (setup_complete db)) already_configured
  require config.setup_available setup_unavailable
  require (p.sha256 (trim_space input.setup_code) == config.setup_hash) setup_unavailable
  account ← normalize_and_validate_account p input.account
  start_session p
      (λ digest csrf.
        create_owner p db (hashed p salt account) digest csrf (now + web_session_lifetime)
          (sanitize_metadata metadata))
      secrets
