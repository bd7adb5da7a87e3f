-- ===== src/Tests/Company.antt =====
-- A company with an owner, Ada, a member, Ben, and what they use.
use the_pact.Prelude.{ℕ, ◌+◌, ◌*◌, ◌≡◌, refl, none, some, [], ◌∷◌, Result, ok, err}
use the_pact.Text.{Text, text, text_eq}
use the_pact.Identity.{Uuid}
use the_pact.Database.{Actor, ActorStatus}
use the_pact.Accounts.{
  AccountDb, AccountStatus, AuthorizationStatus, CredentialStatus, DeviceAuthorization,
  DeviceCredential, Invitation, InvitationStatus, LocalAccount, OrganizationRole, Platform,
  Principal, PrincipalRow, WebSession,
}
use the_pact.Accounts.Joins.{Account}
use the_pact.Authn.{LoginInput, Secrets, SessionMetadata}
use the_pact.Tests.{office}

-- A polynomial in the place of SHA-256.
unfoldable pub fingerprint : Text → ℕ
fingerprint [] = 7
fingerprint (c ∷ s) = c + 31 * fingerprint s

abbrev pub platform : Platform
platform = record {
  lower = λ c. c;
  upper = λ c. c;
  fold = λ c. c;
  parse_address = some;
  sha256 = fingerprint;
  hash_password = λ salt password. password;
  verify_password = text_eq;
}

abbrev pub an_account : Uuid → Text → Text → Text → ℕ → LocalAccount
an_account id email username password attempts = record {
  principal_id = id;
  email = email;
  username = username;
  password_hash = password;
  status = AccountStatus.active;
  failed_login_attempts = attempts;
  locked_until = none;
}

abbrev pub ada_row : LocalAccount
ada_row = an_account 50 (text "ada@pact.dev") (text "ada") (text "difference engine") 4

abbrev pub ben_row : LocalAccount
ben_row = an_account 51 (text "ben@pact.dev") (text "ben") (text "correct horse") 0

abbrev pub a_principal : Uuid → Text → OrganizationRole → Principal
a_principal id name role = record {
  id = id;
  organization_id = 5;
  display_name = name;
  principal_type = text "human";
  organization_role = role;
}

abbrev pub ada : Principal
ada = a_principal 50 (text "Ada") OrganizationRole.owner

abbrev pub ben : Principal
ben = a_principal 51 (text "Ben") OrganizationRole.member

abbrev pub ada_account : Account
ada_account = record { principal = ada; row = ada_row }

abbrev pub ben_account : Account
ben_account = record { principal = ben; row = ben_row }

abbrev pub a_principal_row : Uuid → Text → PrincipalRow
a_principal_row id email = record {
  id = id;
  principal_type = text "human";
  external_issuer = text "pact.local";
  external_subject = email;
}

abbrev pub a_web_session : Uuid → Uuid → ℕ → WebSession
a_web_session id principal digest = record {
  id = id;
  principal_id = principal;
  session_digest = digest;
  csrf_digest = digest + 1;
  user_agent = text "browser";
  remote_address = text "::1";
  status = CredentialStatus.active;
  expires_at = 90000000;
  last_used_at = none;
  revoked_at = none;
}

abbrev pub bens_laptop : DeviceCredential
bens_laptop = record {
  id = 70;
  principal_id = 51;
  name = text "laptop";
  credential_digest = 700;
  status = CredentialStatus.active;
  expires_at = 90000000;
  last_used_at = none;
  revoked_at = none;
}

abbrev pub device_code : Text
device_code = text "pact_device_code_0123456789abcdef0123456789abcdef"

abbrev pub approved_device : DeviceAuthorization
approved_device = record {
  id = 80;
  device_name = text "phone";
  device_code_digest = fingerprint device_code;
  user_code_digest = 801;
  status = AuthorizationStatus.approved;
  principal_id = some 51;
  expires_at = 600000;
  approved_at = some 10;
  consumed_at = none;
}

abbrev pub invitation_secret : Text
invitation_secret = text "pact_inv_0123456789abcdef0123456789abcdef"

-- Ben is asked to become an administrator.
abbrev pub bens_invitation : Invitation
bens_invitation = record {
  id = 90;
  grant = none;
  email = text "ben@pact.dev";
  organization_role = OrganizationRole.admin;
  token_digest = fingerprint invitation_secret;
  status = InvitationStatus.pending;
  expires_at = 86400000;
  created_by = 50;
  accepted_by = none;
  accepted_at = none;
  revoked_at = none;
}

abbrev pub an_actor : Uuid → Text → Actor
an_actor id name = record { id = id; status = ActorStatus.active; display_name = name }

abbrev pub company : AccountDb
company = record {
  organization_id = 5;
  work = record office { actors = an_actor 50 (text "Ada") ∷ an_actor 51 (text "Ben") ∷ [] };
  workspaces = [];
  workspace_members = [];
  principals =
      a_principal_row 50 (text "ada@pact.dev") ∷ a_principal_row 51 (text "ben@pact.dev") ∷ [];
  accounts = ada_row ∷ ben_row ∷ [];
  organization_members =
      record { principal_id = 50; role = OrganizationRole.owner }
      ∷ record { principal_id = 51; role = OrganizationRole.member }
      ∷ [];
  project_members = [];
  invitations = bens_invitation ∷ [];
  web_sessions = a_web_session 60 50 600 ∷ a_web_session 61 50 610 ∷ a_web_session 62 51 620 ∷ [];
  device_authorizations = approved_device ∷ [];
  device_credentials = bens_laptop ∷ [];
  admin_events = [];
}

abbrev pub metadata : SessionMetadata
metadata = record { user_agent = text "browser"; remote_address = text "::1" }

abbrev pub secrets : Secrets
secrets = record {
  session = text "0123456789abcdef0123456789abcdef";
  csrf = text "fedcba9876543210fedcba9876543210";
}

abbrev pub typed : Text → Text → LoginInput
typed name password = record { login = name; password = password }

-- An operation that succeeds, with what it returns.
abbrev pub Answered : {E A : Type 0} → Result E (A × AccountDb) → Type 0
Answered {A = A} m = (a : A) × (d : AccountDb) × (m ≡ ok (a, d))

abbrev pub Answers : {E A : Type 0} → Result E A → Type 0
Answers (ok a) = Unit
Answers (err e) = ⊥

abbrev pub answered : {E A : Type 0} → (m : Result E (A × AccountDb)) → Answers m → Answered m
answered (ok (a, d)) h = (a, d, refl)
answered (err e) h = absurd h
