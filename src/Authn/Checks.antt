-- ===== src/Authn/Checks.antt =====
-- What the service looks at before the repository: normalizeAndValidateAccount, sanitizeMetadata,
-- newSecret and the shapes of secrets (internal/authn/service.go), validatePassword
-- (internal/authn/password.go).
use mathlib.Core.Option
use the_pact.Prelude.{
  ℕ, Bool, true, false, ◌&&◌, ◌||◌, not, Option, none, some, [], ◌∷◌, ◌++◌, Result, ok, ◌>>◌,
  require, ltb, leb, ◌==◌, if◌then◌else◌, length,
}
use the_pact.Text.{
  Text, text_eq, has_prefix, trim_space, to_lower, equal_fold, byte_len, split_bytes,
}
use the_pact.Accounts.{Platform}
use the_pact.Authn.{AuthnError, validation, AccountInput, SessionMetadata}

unfoldable pub is_username_head : ℕ → Bool
is_username_head c = (leb b'a' c && leb c b'z') || (leb b'0' c && leb c b'9')

unfoldable pub is_username_rune : ℕ → Bool
unfolding is_username_head
is_username_rune c = is_username_head c || c == b'.' || c == b'_' || c == b'-'

unfoldable pub all_username_runes : Text → Bool
unfolding is_username_rune
all_username_runes [] = true
all_username_runes (c ∷ s) = is_username_rune c && all_username_runes s

-- usernamePattern: ^[a-z0-9][a-z0-9._-]{2,31}$
unfoldable pub is_username : Text → Bool
unfolding is_username_head all_username_runes
is_username [] = false
is_username (c ∷ s) =
    is_username_head c && leb 2 (length s) && leb (length s) 31 && all_username_runes s

unfoldable pub validate_password : Text → Result AuthnError (Unit {0})
unfolding trim_space text_eq
validate_password password = do
  require (leb 11 (length password) && leb (length password) 128)
      (validation "password" "must contain 11 to 128 characters")
  require (not (text_eq (trim_space password) []))
      (validation "password" "must not contain only whitespace")

-- The address that an e-mail parses to is the e-mail, up to case.
unfoldable pub is_address : Platform → Text → Bool
unfolding equal_fold byte_len
is_address p email = elim (p.parse_address email) [
  | none ↦ false
  | some address ↦ equal_fold p.fold address email && leb (byte_len email) 320
]

unfoldable pub trimmed_account : Platform → AccountInput → AccountInput
unfolding trim_space to_lower
trimmed_account p input = record {
  display_name = trim_space input.display_name;
  email = to_lower p.lower (trim_space input.email);
  username = to_lower p.lower (trim_space input.username);
  password = input.password;
}

unfoldable pub check_account : Platform → AccountInput → Result AuthnError AccountInput
unfolding text_eq is_address is_username validate_password
check_account p input = do
  require (not (text_eq input.display_name []) && leb (length input.display_name) 200)
      (validation "display_name" "must contain 1 to 200 characters")
  require (is_address p input.email) (validation "email" "must be a valid email address")
  require (is_username input.username) (
      validation "username"
        "must contain 3 to 32 lowercase letters, numbers, dots, underscores, or hyphens")
  validate_password input.password
  ok input

unfoldable pub normalize_and_validate_account :
    Platform → AccountInput → Result AuthnError AccountInput
unfolding trimmed_account check_account
normalize_and_validate_account p input = check_account p (trimmed_account p input)

-- The metadata as they are stored; a text that was cut inside a rune is none, and the database
-- refuses it.
pub record StoredMetadata : Type 0 where
  pub user_agent : Option Text
  pub remote_address : Option Text

-- s[:n] of a longer text
unfoldable pub cut_bytes : ℕ → Text → Option Text
unfolding byte_len split_bytes
cut_bytes n s = if ltb n (byte_len s) then Option.map (λ (a, b). a) (split_bytes n s) else some s

unfoldable pub sanitize_metadata : SessionMetadata → StoredMetadata
unfolding trim_space cut_bytes
sanitize_metadata metadata = record {
  user_agent = cut_bytes 500 (trim_space metadata.user_agent);
  remote_address = cut_bytes 100 (trim_space metadata.remote_address);
}

-- A prefix and 32 random bytes in base64, which the caller of the model chooses.
abbrev pub new_secret : Text → Text → Text
new_secret prefix encoded = prefix ++ encoded

-- A secret that is worth a look at the tables.
unfoldable pub is_secret : Text → ℕ → Text → Bool
unfolding has_prefix byte_len
is_secret prefix least s = has_prefix prefix s && leb least (byte_len s)
