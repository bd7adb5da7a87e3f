-- ===== src/AccountExecution/Devices.antt =====
-- Devices take nothing away.
use the_pact.Prelude.{
  ℕ, ◌+◌, refl, sym, ok_not_err, inl, inr, Bool-cases, Option, none, some, err, Ensures,
  Ensures-bind, Ensures-or_fail, Ensures-require, Ensures-ok, find, Option-cases, ltb,
}
use the_pact.Text.{Text, text, trim_space}
use the_pact.Identity.{Uuid, Time}
use the_pact.Accounts.{AccountDb, AuthorizationStatus, DeviceAuthorization, Platform, Principal}
use the_pact.Authn.{AuthnError, device_lifetime}
use the_pact.Authn.Checks.{is_secret}
use the_pact.Authn.Devices.{
  approve_device, authenticate_device, begin_device, create_device_authorization, revoke_device,
}
use the_pact.Authn.Devices.Exchange.{
  exchange_device, exchange_device_authorization, exchange_status, expire_authorization,
  grant_credential, has_device_code, is_undecided,
}
use the_pact.AccountExecution.Moves.{Commits, Moves, Moves-refl, transaction-Moves, untouched}

module _ (p : Platform) where
  create_device_authorization-Moves :
      (db : AccountDb) (name : Text) (device user : ℕ) (expires : Time)
      → Ensures (Moves p db) (create_device_authorization db name device user expires)
  unfolding create_device_authorization
  create_device_authorization-Moves db name device user expires =
      Ensures-require _ _ _ λ fresh. Ensures-ok _ (untouched p db _ refl refl refl refl)

  pub begin_device-Commits :
      (db : AccountDb) (now : Time) (name encoded code : Text)
      → Commits p db (begin_device p db now name encoded code)
  unfolding begin_device
  begin_device-Commits db now name encoded code = Ensures-require _ _ _ λ named.
      Ensures-bind _ _
        λ after e. Ensures-ok _ ((create_device_authorization-Moves db _ _ _ _).holds after e)

  pub approve_device-Commits :
      (db : AccountDb) (now : Time) (principal : Principal) (code : Text)
      → Commits p db (approve_device p db now principal code)
  unfolding approve_device
  approve_device-Commits db now principal code = Ensures-or_fail _ _ _ λ c normal.
      Ensures-require _ _ _
        λ nine. Ensures-require _ _ _ λ waiting. Ensures-ok _ (untouched p db _ refl refl refl refl)

  grant_credential-Commits :
      (db : AccountDb) (now : Time) (a : DeviceAuthorization) (principal : Uuid) (credential : ℕ)
      (expires : Time)
      → Commits p db (grant_credential db now a principal credential expires)
  unfolding grant_credential
  grant_credential-Commits db now a principal credential expires =
      Ensures-or_fail _ _ _ λ account found.
        Ensures-require _ _ _ λ fresh. Ensures-ok _ (untouched p db _ refl refl refl refl)

  refused : {A : Type 0} (db : AccountDb) (e : AuthnError) → Commits {A = A} p db (err e)
  refused db e = record { holds = λ r h. absurd (ok_not_err (sym h)) }

  exchange_status-Commits :
      (db : AccountDb) (now : Time) (a : DeviceAuthorization) (status : AuthorizationStatus)
      (principal : Option Uuid) (credential : ℕ) (expires : Time)
      → Commits p db (exchange_status db now a status principal credential expires)
  unfolding exchange_status
  exchange_status-Commits db now a AuthorizationStatus.pending principal credential expires =
      Ensures-ok _ (Moves-refl p db)
  exchange_status-Commits db now a AuthorizationStatus.denied principal credential expires =
      refused db _
  exchange_status-Commits db now a AuthorizationStatus.approved none credential expires =
      refused db _
  exchange_status-Commits db now a AuthorizationStatus.approved (some principal) credential
        expires =
      grant_credential-Commits db now a principal credential expires
  exchange_status-Commits db now a AuthorizationStatus.consumed principal credential expires =
      refused db _
  exchange_status-Commits db now a AuthorizationStatus.expired principal credential expires =
      refused db _

  expire_authorization-Moves :
      (db : AccountDb) (a : DeviceAuthorization) → Moves p db (expire_authorization db a)
  unfolding expire_authorization
  expire_authorization-Moves db a = elim (Bool-cases (is_undecided a.status)) [
    | inl e ↦ rw e (untouched p db _ refl refl refl refl)
    | inr e ↦ rw e (Moves-refl p db)
  ]

  exchange_device_authorization-Moves :
      (db : AccountDb) (now : Time) (device credential : ℕ) (expires : Time)
      → Moves p db (exchange_device_authorization db now device credential expires).0
  unfolding exchange_device_authorization
  exchange_device_authorization-Moves db now device credential expires =
      elim (Option-cases (find (has_device_code device) db.device_authorizations)) [
        | inl e ↦ rw (e, exchange_device_authorization) (Moves-refl p db)
        | inr (a, e) ↦ elim (Bool-cases (ltb now a.expires_at)) [
          | inl soon ↦
              rw (e, soon, exchange_device_authorization)
                (transaction-Moves p db _
                  (exchange_status-Commits db now a a.status a.principal_id credential expires))
          | inr late ↦ rw (e, late, exchange_device_authorization) (expire_authorization-Moves db a)
        ]
      ]

  pub exchange_device-Moves :
      (db : AccountDb) (now : Time) (code encoded : Text)
      → Moves p db (exchange_device p db now code encoded).0
  unfolding exchange_device
  exchange_device-Moves db now code encoded =
      elim (Bool-cases (is_secret (text "pact_device_code_") 48 (trim_space code))) [
        | inl e ↦ rw e (exchange_device_authorization-Moves db now _ _ (now + device_lifetime))
        | inr e ↦ rw e (Moves-refl p db)
      ]

  pub authenticate_device-Commits :
      (db : AccountDb) (now : Time) (raw : Text) → Commits p db (authenticate_device p db now raw)
  unfolding authenticate_device
  authenticate_device-Commits db now raw = Ensures-require _ _ _ λ secret.
      Ensures-or_fail _ _ _ λ d found.
        Ensures-or_fail _ _ _ λ principal known. Ensures-ok _ (untouched p db _ refl refl refl refl)

  pub revoke_device-Commits :
      (db : AccountDb) (now : Time) (principal id : Uuid)
      → Commits p db (revoke_device db now principal id)
  unfolding revoke_device
  revoke_device-Commits db now principal id =
      Ensures-require _ _ _ λ own. Ensures-ok _ (untouched p db _ refl refl refl refl)
