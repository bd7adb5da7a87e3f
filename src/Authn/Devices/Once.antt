-- ===== src/Authn/Devices/Once.antt =====
-- A device code is exchanged for one credential.
use the_pact.Prelude.{
  ℕ, ◌+◌, ◌≡◌, refl, ◌∙◌, inl, inr, Bool, Bool-cases, true, not, Option, none, some, Option-cases,
  List, Result, ok, err, Ensures, Ensures-or_fail, Ensures-require, Ensures-ok, find,
  find-update_where, update_where, ltb, arith,
}
use the_pact.Text.{Text, text, trim_space}
use the_pact.Identity.{Uuid, Time}
use the_pact.Accounts.{AccountDb, AuthorizationStatus, DeviceAuthorization, Platform}
use the_pact.Authn.{AuthnError, device_code_invalid, device_lifetime, transaction}
use the_pact.Authn.Checks.{is_secret, new_secret}
use the_pact.Authn.Devices.Exchange.{
  AuthorizedDevice, ExchangeRecord, authorized, consumed_authorization, exchange_device,
  exchange_device_authorization, exchange_status, grant_credential, has_device_code,
  is_approved_authorization, waiting,
}

-- The authorization of a code is consumed.
record Spent (db : AccountDb) (device : ℕ) : Type 0 where
  row : DeviceAuthorization
  found : find (has_device_code device) db.device_authorizations ≡ some row
  status : row.status ≡ AuthorizationStatus.consumed

-- An exchange that gives a credential spends the code.
abbrev Spends : ℕ → ExchangeRecord × AccountDb → Type 0
Spends device (waiting, e) = Unit {0}
Spends device (authorized d, e) = Spent e device

is_approved_lem :
    (a : DeviceAuthorization)
    → a.status ≡ AuthorizationStatus.approved
    → is_approved_authorization a.id a ≡ true
unfolding is_approved_authorization
is_approved_lem a h = ground (arith, h)

-- The authorization of a code, behind an update that changes it and keeps the codes.
find-updated :
    (device : ℕ) (test : DeviceAuthorization → Bool)
    (change : DeviceAuthorization → DeviceAuthorization) (rows : List DeviceAuthorization)
    (a : DeviceAuthorization)
    → find (has_device_code device) rows ≡ some a
    → ((x : DeviceAuthorization) → has_device_code device (change x) ≡ has_device_code device x)
    → test a ≡ true
    → find (has_device_code device) (update_where test change rows) ≡ some (change a)
find-updated device test change rows a found same own =
    find-update_where (has_device_code device) test change rows same ∙ rw (found, own) refl

grant_credential-Spends :
    (db : AccountDb) (now : Time) (device : ℕ) (a : DeviceAuthorization) (principal : Uuid)
    (credential : ℕ) (expires : Time)
    → find (has_device_code device) db.device_authorizations ≡ some a
    → a.status ≡ AuthorizationStatus.approved
    → Ensures (Spends device) (grant_credential db now a principal credential expires)
unfolding grant_credential has_device_code consumed_authorization
grant_credential-Spends db now device a principal credential expires found approved =
    Ensures-or_fail _ _ _ λ account active. Ensures-require _ _ _ λ fresh. Ensures-ok _ (record {
      row = consumed_authorization now a;
      found =
          find-updated device (is_approved_authorization a.id) (consumed_authorization now)
            db.device_authorizations a found (λ x. refl) (is_approved_lem a approved);
      status = refl;
    })

exchange_status-Spends :
    (db : AccountDb) (now : Time) (device : ℕ) (a : DeviceAuthorization) (s : AuthorizationStatus)
    (principal : Option Uuid) (credential : ℕ) (expires : Time)
    → find (has_device_code device) db.device_authorizations ≡ some a
    → a.status ≡ s
    → Ensures (Spends device) (exchange_status db now a s principal credential expires)
unfolding exchange_status
exchange_status-Spends db now device a AuthorizationStatus.pending o c t found own = Ensures-ok _ tt
exchange_status-Spends db now device a AuthorizationStatus.denied o c t found own = record {
  holds = λ b x. cc;
}
exchange_status-Spends db now device a AuthorizationStatus.approved none c t found own = record {
  holds = λ b x. cc;
}
exchange_status-Spends db now device a AuthorizationStatus.approved (some q) c t found own =
    grant_credential-Spends db now device a q c t found own
exchange_status-Spends db now device a AuthorizationStatus.consumed o c t found own = record {
  holds = λ b x. cc;
}
exchange_status-Spends db now device a AuthorizationStatus.expired o c t found own = record {
  holds = λ b x. cc;
}

transaction-ok :
    {A : Type 0} (db after : AccountDb) (m : Result AuthnError (A × AccountDb)) (a : A)
    → transaction db m ≡ (after, ok a)
    → m ≡ ok (a, after)
unfolding transaction
transaction-ok db after (ok (b, e)) a h = ground arith
transaction-ok db after (err x) a h = absurd (ground arith)

exchange-Spent :
    (db after : AccountDb) (now : Time) (device credential : ℕ) (expires : Time)
    (d : AuthorizedDevice)
    → exchange_device_authorization db now device credential expires ≡ (after, ok (authorized d))
    → Spent after device
unfolding exchange_device_authorization
exchange-Spent db after now device credential expires d h =
    elim (Option-cases (find (has_device_code device) db.device_authorizations)) [
      | inl e ↦ absurd (ground (arith, rw (e, exchange_device_authorization) at h))
      | inr (a, e) ↦ elim (Bool-cases (not (ltb now a.expires_at))) [
        | inl late ↦ absurd (ground (arith, rw (e, exchange_device_authorization, late) at h))
        | inr soon ↦
            (exchange_status-Spends db now device a a.status a.principal_id credential expires e
                refl).holds
              (authorized d, after)
              (transaction-ok db after _ (authorized d)
                (rw (e, exchange_device_authorization, soon) at h))
      ]
    ]

Spent-exchange :
    (db : AccountDb) (now : Time) (device credential : ℕ) (expires : Time)
    → Spent db device
    → (exchange_device_authorization db now device credential expires).1 ≡ err device_code_invalid
unfolding exchange_device_authorization exchange_status transaction
Spent-exchange db now device credential expires s =
    elim (Bool-cases (not (ltb now s.row.expires_at))) [
      | inl late ↦ rw (s.found, exchange_device_authorization, late) refl
      | inr soon ↦ rw (s.found, exchange_device_authorization, soon, s.status) refl
    ]

-- Once a device code was exchanged for a credential, a further exchange of the code answers that
-- the code is invalid.
pub exchange_device_once :
    (p : Platform) (db after : AccountDb) (now later : Time) (code encoded again : Text)
    (d : AuthorizedDevice)
    → exchange_device p db now code encoded ≡ (after, ok (authorized d))
    → (exchange_device p after later code again).1 ≡ err device_code_invalid
unfolding exchange_device
exchange_device_once p db after now later code encoded again d h =
    elim (Bool-cases (is_secret (text "pact_device_code_") 48 (trim_space code))) [
      | inl e ↦ rw e (
          Spent-exchange after later (p.sha256 (trim_space code))
            (p.sha256 (new_secret (text "pact_device_") again)) (later + device_lifetime)
            (exchange-Spent db after now (p.sha256 (trim_space code))
              (p.sha256 (new_secret (text "pact_device_") encoded)) (now + device_lifetime) d
              (rw e at h)))
      | inr e ↦ rw e refl
    ]
