-- ===== src/Coordination/Service/Checks.antt =====
-- What the service hands to the repository.
use the_pact.Prelude.{
  String, ℕ, ◌≤◌, ◌≡◌, refl, inl, inr, Bool, true, false, not, List, [], ◌∷◌, map, ok, ◌>>=◌,
  require, leb, length, All, arith, Bool-cases, and_elim, Ensures, Ensures-bind, Ensures-require,
  Ensures-ok,
}
use the_pact.Text.{Text, text_eq, trim_space, byte_len}
use the_pact.Identity.{Uuid, Time, valid_uuid}
use the_pact.Identity.Shape.{UuidShape, valid_uuid_iff}
use the_pact.Coordination.Model.{Error, Scope, StartInput, StartResult}
use the_pact.Coordination.Scopes.{normalize_scopes}
use the_pact.Coordination.Scopes.Normal.{IsNormal, normalize_scopes-IsNormal}
use the_pact.Coordination.Scopes.Distinct.{Distinct, normalize_scopes-Distinct}
use the_pact.Coordination.Start.{start}
use the_pact.Coordination.Service.{
  CommandInput, StartRequest, compact_strings, is_revision_digit, all_revision_digits, is_revision,
  all_at_most, validate_idempotency_key, validate_ids, validate_command_identity, check_start,
}
use the_pact.Coordination.Service.Commands.{
  start_input, start_trimmed, trimmed_start, service_start,
}
use the_pact.Database.{Db}

abbrev pub Sized : ℕ → ℕ → Text → Type 0
Sized least most s = (least ≤ length s) × (length s ≤ most)

-- A start as the documentation of the API promises it.
pub record ValidStart (input : StartInput) : Type 0 where
  pub title : Sized 1 300 input.title
  pub goal : Sized 1 10000 input.goal
  pub revision :
      Sized 7 64 input.base_revision × All (λ c. is_revision_digit c ≡ true) input.base_revision
  pub criteria : (length input.success_criteria ≤ 50) × All (Sized 1 1000) input.success_criteria
  pub scopes : All IsNormal input.scopes × Distinct input.scopes

positive : (s : Text) → not (text_eq s []) ≡ true → 1 ≤ length s
unfolding text_eq
positive [] h = absurd (cc)
positive (c ∷ s) h = omega arith

all_revision_digits-All :
    (s : Text) → all_revision_digits s ≡ true → All (λ c. is_revision_digit c ≡ true) s
unfolding all_revision_digits
all_revision_digits-All [] h = tt
all_revision_digits-All (c ∷ s) h =
    ((and_elim _ _ h).0, all_revision_digits-All s (and_elim _ _ h).1)

leb_sound : (m n : ℕ) → leb m n ≡ true → m ≤ n
leb_sound m n h = ground arith

is_revision_sound :
    (s : Text) → is_revision s ≡ true → Sized 7 64 s × All (λ c. is_revision_digit c ≡ true) s
unfolding is_revision
is_revision_sound s h =
    let (sizes, digits) = and_elim _ _ h in
    let (low, high) = and_elim _ _ sizes in
    ((leb_sound 7 _ low, leb_sound _ 64 high), all_revision_digits-All s digits)

-- Compacting leaves no empty item.
compact_strings-All :
    (xs : List Text) (n : ℕ)
    → all_at_most n (compact_strings xs) ≡ true
    → All (Sized 1 n) (compact_strings xs)
unfolding compact_strings all_at_most
compact_strings-All [] n h = tt
compact_strings-All (s ∷ rest) n h = elim (Bool-cases (text_eq s [])) [
  | inl e ↦ rw e (compact_strings-All rest n (rw e at h))
  | inr e ↦
      let (small, more) = and_elim _ _ (rw e at h) in
      rw e ((nonempty s e, leb_sound _ n small), compact_strings-All rest n more)
]
  where
    nonempty : (s : Text) → text_eq s [] ≡ false → 1 ≤ length s
    nonempty s e = positive s (rw e refl)

pub require-last :
    {P : Unit {0} → Type 0} (t : Bool) (e : Error) → (t ≡ true → P tt) → Ensures P (require t e)
unfolding ◌>>=◌
require-last true e h = Ensures-ok tt (h refl)
require-last false e h = record { holds = λ u hu. cc }

abbrev pub KeySize : Text → Type 0
KeySize key = (1 ≤ length key) × (byte_len key ≤ 200)

pub validate_idempotency_key-KeySize :
    (key : Text) → Ensures (λ _. KeySize key) (validate_idempotency_key key)
unfolding validate_idempotency_key
validate_idempotency_key-KeySize key =
    Ensures-require _ _ _
      λ nonempty. require-last _ _ λ short. (positive key nonempty, leb_sound _ 200 short)

pub validate_ids-valid :
    (principal : Text) (field : String) (id session : Text)
    → Ensures
        (λ _. (valid_uuid principal ≡ true) × (valid_uuid id ≡ true) × (valid_uuid session ≡ true))
        (validate_ids principal field id session)
unfolding validate_ids
validate_ids-valid principal field id session =
    Ensures-require _ _ _ λ a. Ensures-require _ _ _ λ b. require-last _ _ λ c. (a, b, c)

-- The identity of a command as the service passes it on.
pub record Identified (principal id session key : Text) : Type 0 where
  pub principal_id : UuidShape principal
  pub target_id : UuidShape id
  pub session_id : UuidShape session
  pub key_size : KeySize key

pub identified :
    (principal id session key : Text)
    → (valid_uuid principal ≡ true) × (valid_uuid id ≡ true) × (valid_uuid session ≡ true)
    → KeySize key
    → Identified principal id session key
identified principal id session key (a, b, c) k = record {
  principal_id = (valid_uuid_iff principal).0 a;
  target_id = (valid_uuid_iff id).0 b;
  session_id = (valid_uuid_iff session).0 c;
  key_size = k;
}

validate_command_identity-Identified :
    (principal project session key : Text)
    → Ensures
        (λ _. Identified principal project session key)
        (validate_command_identity principal project session key)
unfolding validate_command_identity
validate_command_identity-Identified principal project session key = Ensures-bind _ _ λ u hu.
    record {
      holds = λ v hv.
          identified principal project session key
            ((validate_ids-valid principal "project_id" project session).holds u hu)
            ((validate_idempotency_key-KeySize key).holds v hv);
    }

record CheckedStart (r : StartRequest) : Type 0 where
  title : Sized 1 300 r.title
  goal : Sized 1 10000 r.goal
  revision : Sized 7 64 r.base_revision × All (λ c. is_revision_digit c ≡ true) r.base_revision
  few : length r.success_criteria ≤ 50
  short : all_at_most 1000 r.success_criteria ≡ true

check_start-CheckedStart : (r : StartRequest) → Ensures (λ _. CheckedStart r) (check_start r)
unfolding check_start
check_start-CheckedStart r = Ensures-require _ _ _ λ a. Ensures-require _ _ _ λ b.
    Ensures-require _ _ _ λ c. Ensures-require _ _ _ λ d. Ensures-require _ _ _ λ e.
      Ensures-require _ _ _ λ f. require-last _ _ λ g. record {
        title = (positive r.title a, leb_sound _ 300 b);
        goal = (positive r.goal c, leb_sound _ 10000 d);
        revision = is_revision_sound r.base_revision e;
        few = leb_sound _ 50 f;
        short = g;
      }

module _ (table : ℕ → ℕ) (uuid_of : Text → Uuid)
    (command_hash : Text → Text → CommandInput → ℕ) where
  -- The call of the repository behind a successful start.
  pub record Passed (db : Db) (now : Time) (allow_all : Bool) (principal project session key : Text)
      (r : StartResult × Db) : Type 0 where
    pub input : StartInput
    pub identity : Identified principal project session key
    pub same_session : input.session_id ≡ uuid_of session
    pub is_valid : ValidStart input
    pub hash : ℕ
    pub called : start db now (uuid_of principal) allow_all (uuid_of project) key hash input ≡ ok r

  valid_input :
      (r : StartRequest) (scopes : List Scope)
      → CheckedStart (trimmed_start table uuid_of command_hash r)
      → normalize_scopes table r.scopes ≡ ok scopes
      → ValidStart (
          start_input table uuid_of command_hash
            (trimmed_start table uuid_of command_hash r)
            scopes)
  unfolding start_input trimmed_start
  valid_input r scopes c h = record {
    title = c.title;
    goal = c.goal;
    revision = c.revision;
    criteria = (c.few, compact_strings-All (map trim_space r.success_criteria) 1000 c.short);
    scopes = (
      normalize_scopes-IsNormal table r.scopes scopes h,
      (normalize_scopes-Distinct table r.scopes scopes h).0,
    );
  }

  start_trimmed-Passed :
      (db : Db) (now : Time) (principal : Text) (allow_all : Bool) (project key : Text)
      (r : StartRequest)
      → Ensures (Passed db now allow_all principal project (trim_space r.session_id) key) (
          start_trimmed table uuid_of command_hash db now principal allow_all project key
            (trimmed_start table uuid_of command_hash r))
  unfolding start_trimmed trimmed_start start_input
  start_trimmed-Passed db now principal allow_all project key r = Ensures-bind _ _ λ u hu.
      Ensures-bind _ _ λ v hv. Ensures-bind _ _ λ scopes hs. record {
        holds = λ s called. record {
          input =
              start_input table uuid_of command_hash (trimmed_start table uuid_of command_hash r)
                scopes;
          identity = (validate_command_identity-Identified _ _ _ _).holds u hu;
          same_session = refl;
          is_valid = valid_input r scopes ((check_start-CheckedStart _).holds v hv) hs;
          hash = _;
          called = called;
        };
      }

  -- A start that succeeds through the service was the repository's, with the identifiers in the
  -- canonical form of UUIDs, a key of 1 to 200 bytes, a title of 1 to 300 and a goal of 1 to 10000
  -- characters, a revision of 7 to 64 lower-case hexadecimal digits, at most 50 criteria of 1 to
  -- 1000 characters, and distinct canonical scopes.
  pub service_start-Passed :
      (db d : Db) (now : Time) (principal : Text) (allow_all : Bool) (project key : Text)
      (r : StartRequest) (result : StartResult)
      → service_start table uuid_of command_hash db now principal allow_all project key r
        ≡ ok (result, d)
      → Passed db now allow_all
          (trim_space principal)
          (trim_space project)
          (trim_space r.session_id)
          (trim_space key)
          (result, d)
  unfolding service_start
  service_start-Passed db d now principal allow_all project key r result h =
      (start_trimmed-Passed db now (trim_space principal) allow_all (trim_space project)
          (trim_space key) r).holds
        (result, d) h
