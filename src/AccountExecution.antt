-- ===== src/AccountExecution.antt =====
-- The operations of internal/access, internal/authn and internal/useradmin as steps on the accounts of
-- an organization. A step is an operation that the caller completes, with whatever it writes; one
-- that fails and rolls back is no step.
pub mod Moves
pub mod Sessions
pub mod Devices
pub mod Invitations
pub mod Administration
pub mod Safety
use the_pact.Prelude.{ℕ, ◌≡◌, Option, Result, ok, err}
use the_pact.Text.{Text}
use the_pact.Identity.{Uuid, Time}
use the_pact.Accounts.{AccountDb, Invitation, Platform, Principal, ProjectRole}
use the_pact.Authn.{
  AccountInput, CreatedWebSession, LoginInput, Secrets, SessionMetadata, WebSessionView,
}
use the_pact.Authn.Setup.{SetupConfig, SetupInput, setup}
use the_pact.Authn.Login.{login}
use the_pact.Authn.Sessions.{authenticate_web, logout_web}
use the_pact.Authn.Passwords.{ChangePasswordInput, change_password}
use the_pact.Authn.Invitations.{InvitationAcceptance, accept_invitation, register_invitation}
use the_pact.Authn.Devices.{
  DeviceCode, DevicePrincipal, approve_device, authenticate_device, begin_device, revoke_device,
}
use the_pact.Authn.Devices.Exchange.{exchange_device}
use the_pact.Access.{grant_project_owner}
use the_pact.Access.Invitations as AccessInvitations
use the_pact.UserAdmin.{User}
use the_pact.UserAdmin.Checks as Checks
use the_pact.UserAdmin.Update.{revoke_user_sessions, update_user}
use the_pact.UserAdmin.Permissions.{remove_project_permission, set_project_permission}
use the_pact.UserAdmin.Invitations as AdminInvitations

pub data Step (p : Platform) (d : AccountDb) : AccountDb → Type 0 where
  sets_up :
      (config : SetupConfig) (now : Time) (input : SetupInput) (salt : Text) (secrets : Secrets)
      (metadata : SessionMetadata) {created : CreatedWebSession} {e : AccountDb}
      → setup p config d now input salt secrets metadata ≡ ok (created, e)
      → Step p d e
  logs_in :
      (now : Time) (input : LoginInput) (secrets : Secrets) (metadata : SessionMetadata)
      {e : AccountDb}
      → (login p d now input secrets metadata).0 ≡ e
      → Step p d e
  shows_secret :
      (now : Time) (raw : Text) {view : WebSessionView} {e : AccountDb}
      → authenticate_web p d now raw ≡ ok (view, e)
      → Step p d e
  logs_out :
      (now : Time) (session : WebSessionView) {e : AccountDb}
      → logout_web d now session ≡ ok (tt, e)
      → Step p d e
  changes_password :
      (now : Time) (session : WebSessionView) (input : ChangePasswordInput) (salt : Text)
      {e : AccountDb}
      → change_password p d now session input salt ≡ ok (tt, e)
      → Step p d e
  accepts :
      (now : Time) (principal : Principal) (secret : Text) {a : InvitationAcceptance}
      {e : AccountDb}
      → accept_invitation p d now principal secret ≡ ok (a, e)
      → Step p d e
  registers :
      (now : Time) (secret : Text) (input : AccountInput) (salt : Text) (secrets : Secrets)
      (metadata : SessionMetadata) {a : InvitationAcceptance × CreatedWebSession} {e : AccountDb}
      → register_invitation p d now secret input salt secrets metadata ≡ ok (a, e)
      → Step p d e
  begins_device :
      (now : Time) (name encoded code : Text) {shown : DeviceCode} {e : AccountDb}
      → begin_device p d now name encoded code ≡ ok (shown, e)
      → Step p d e
  approves_device :
      (now : Time) (principal : Principal) (code : Text) {e : AccountDb}
      → approve_device p d now principal code ≡ ok (tt, e)
      → Step p d e
  exchanges_device :
      (now : Time) (code encoded : Text) {e : AccountDb}
      → (exchange_device p d now code encoded).0 ≡ e
      → Step p d e
  shows_device :
      (now : Time) (raw : Text) {device : DevicePrincipal} {e : AccountDb}
      → authenticate_device p d now raw ≡ ok (device, e)
      → Step p d e
  revokes_device :
      (now : Time) (principal id : Uuid) {e : AccountDb}
      → revoke_device d now principal id ≡ ok (tt, e)
      → Step p d e
  grants_owner :
      (project principal : Uuid) {e : AccountDb}
      → grant_project_owner d project principal ≡ e
      → Step p d e
  invites_to_project :
      (now : Time) (principal : Principal) (project : Uuid)
      (request : AccessInvitations.InvitationRequest) (encoded : Text) {i : Invitation × Text}
      {e : AccountDb}
      → AccessInvitations.create_invitation p d now principal project request encoded ≡ ok (i, e)
      → Step p d e
  revokes_invitation :
      (now : Time) (principal : Principal) (id : Uuid) {e : AccountDb}
      → AccessInvitations.revoke_invitation d now principal id ≡ ok (tt, e)
      → Step p d e
  invites :
      (now : Time) (actor : Principal) (request : Checks.InvitationRequest) (encoded : Text)
      {i : Invitation × Text} {e : AccountDb}
      → AdminInvitations.invite p d now actor request encoded ≡ ok (i, e)
      → Step p d e
  withdraws :
      (now : Time) (actor : Principal) (id : Uuid) {e : AccountDb}
      → AdminInvitations.withdraw d now actor id ≡ ok (tt, e)
      → Step p d e
  updates_user :
      (now : Time) (actor : Principal) (id : Uuid) (request : Checks.UpdateRequest) {user : User}
      {e : AccountDb}
      → update_user p d now actor id request ≡ ok (user, e)
      → Step p d e
  revokes_sessions :
      (now : Time) (actor : Principal) (id : Uuid) {user : User} {e : AccountDb}
      → revoke_user_sessions d now actor id ≡ ok (user, e)
      → Step p d e
  sets_permission :
      (now : Time) (actor : Principal) (id project : Uuid) (role : Text) {user : User}
      {e : AccountDb}
      → set_project_permission p d now actor id project role ≡ ok (user, e)
      → Step p d e
  removes_permission :
      (now : Time) (actor : Principal) (id project : Uuid) {user : User} {e : AccountDb}
      → remove_project_permission d now actor id project ≡ ok (user, e)
      → Step p d e

pub data Run (p : Platform) (d : AccountDb) : AccountDb → Type 0 where
  done : Run p d d
  next : {e f : AccountDb} → Run p d e → Step p e f → Run p d f
