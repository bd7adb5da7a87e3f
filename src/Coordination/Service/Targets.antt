-- ===== src/Coordination/Service/Targets.antt =====
-- What the service hands to UpdateStatus.
use the_pact.Prelude.{
  ℕ, zero, suc, ◌≤◌, ◌≡◌, ◌≢◌, refl, Bool, true, ◌||◌, not, some, ok, ltb, length, arith, Ensures,
  Ensures-bind, Ensures-require, Ensures-or_fail,
}
use the_pact.Text.{Text, trim_space}
use the_pact.Identity.{Uuid, Time}
use the_pact.Coordination.Model.{IntentStatus, StatusInput, StatusResult}
use the_pact.Coordination.Status.{update_status}
use the_pact.Coordination.Service.{
  ℤ, pos, negsuc, CommandInput, StatusRequest, target_status, at_least_one,
}
use the_pact.Coordination.Service.Commands.{
  trimmed_status, status_input, status_trimmed, service_update_status,
}
use the_pact.Coordination.Service.Checks.{
  validate_idempotency_key-KeySize, validate_ids-valid, Identified, identified,
}
use the_pact.Database.{Db}

target_status-draft :
    (s : Text) (t : IntentStatus) → target_status s ≡ some t → t ≢ IntentStatus.draft
unfolding target_status
target_status-draft s t h e = ground arith

at_least_one-positive : (z : ℤ) (n : ℕ) → at_least_one z ≡ some n → (z ≡ pos n) × (1 ≤ n)
unfolding at_least_one
at_least_one-positive (pos zero) n h = absurd (cc)
at_least_one-positive (pos (suc m)) n h = ground arith
at_least_one-positive (negsuc m) n h = absurd (cc)

module _ (table : ℕ → ℕ) (uuid_of : Text → Uuid)
    (command_hash : Text → Text → CommandInput → ℕ) where
  -- The call of the repository behind a successful change of status.
  pub record PassedStatus (db : Db) (now : Time) (allow_all : Bool)
      (principal intent session key : Text) (version : ℤ) (r : StatusResult × Db) : Type 0 where
    pub input : StatusInput
    pub identity : Identified principal intent session key
    pub same_session : input.session_id ≡ uuid_of session
    pub not_to_draft : input.status ≢ IntentStatus.draft
    pub same_version : version ≡ pos input.expected_version
    pub from_one : 1 ≤ input.expected_version
    pub short : (length input.summary ≤ 10000) × (length input.reason ≤ 2000)
    pub hash : ℕ
    pub called :
        update_status db now (uuid_of principal) allow_all (uuid_of intent) key hash input ≡ ok r

  texts_short :
      (r : StatusRequest)
      → not (ltb 10000 (length r.summary) || ltb 2000 (length r.reason)) ≡ true
      → (length r.summary ≤ 10000) × (length r.reason ≤ 2000)
  texts_short r h = ground arith

  status_trimmed-PassedStatus :
      (db : Db) (now : Time) (principal : Text) (allow_all : Bool) (intent key : Text)
      (r : StatusRequest)
      → Ensures
          (PassedStatus db now allow_all principal intent r.session_id key r.expected_version)
          (status_trimmed table uuid_of command_hash db now principal allow_all intent key r)
  unfolding status_trimmed status_input
  status_trimmed-PassedStatus db now principal allow_all intent key r = Ensures-bind _ _ λ u hu.
      Ensures-bind _ _ λ v hv. Ensures-or_fail _ _ _ λ status hs.
        Ensures-or_fail _ _ _ λ version hn. Ensures-require _ _ _ λ short. record {
          holds = λ s called.
              let (same, one) = at_least_one-positive r.expected_version version hn in
              record {
                input = status_input table uuid_of command_hash r status version;
                identity =
                    identified principal intent r.session_id key
                      ((validate_ids-valid _ _ _ _).holds u hu)
                      ((validate_idempotency_key-KeySize key).holds v hv);
                same_session = refl;
                not_to_draft = target_status-draft r.status status hs;
                same_version = same;
                from_one = one;
                short = texts_short r short;
                hash = _;
                called = called;
              };
        }

  -- A change of status that succeeds through the service was the repository's, with the
  -- identifiers in the canonical form of UUIDs, a key of 1 to 200 bytes, a target that is not
  -- draft, the version of the request, which is 1 at least, and a summary and a reason of at most
  -- 10000 and 2000 characters.
  pub service_update_status-PassedStatus :
      (db d : Db) (now : Time) (principal : Text) (allow_all : Bool) (intent key : Text)
      (r : StatusRequest) (result : StatusResult)
      → service_update_status table uuid_of command_hash db now principal allow_all intent key r
        ≡ ok (result, d)
      → PassedStatus db now allow_all
          (trim_space principal)
          (trim_space intent)
          (trim_space r.session_id)
          (trim_space key)
          r.expected_version
          (result, d)
  unfolding service_update_status trimmed_status
  service_update_status-PassedStatus db d now principal allow_all intent key r result h =
      (status_trimmed-PassedStatus db now (trim_space principal) allow_all (trim_space intent)
          (trim_space key) (trimmed_status table uuid_of command_hash r)).holds
        (result, d) h
