-- ===== src/Lib.antt =====
-- Pact coordinates people and coding agents on one repository: an agent opens a session, starts an
-- intent with the scopes (files, directories, or the whole repository) that it works on, registers a
-- worktree, reports the status of the intent, and keeps its session and with it the leases of its
-- scopes alive by heartbeats. People have accounts in one organization: they sign in, approve
-- devices, invite each other with roles, and are administered by owners and administrators. This
-- library models the core of the server that decides on all of that.
--
-- Parts, and the code that each file is about:
--
-- Text, FilePath: strings as lists of code points with the functions of strings, unicode and utf8 that
--   the services call, and path.Clean (FilePath.clean, over the segments of the path).
-- Identity: identifiers, times, and validUUID (internal/coordination/service.go), with Groups and Shape, what
--   it reads.
-- Database: the tables that internal/coordination and internal/agentsession share, as lists of rows in
--   the order of insertion.
-- Coordination.Model: the structs of internal/coordination/model.go and the errors of errors.go.
-- Coordination.Scopes: normalizeScopes (service.go).
-- Coordination.Overlap, Coordination.Conflicts: scopesOverlap, pathContains, overlapReason,
--   loadScopeOverlaps, hasBlockingOverlap and CheckScopes (postgres_repository.go).
-- Coordination.Lifecycle: validTransition and isTerminalStatus.
-- Coordination.Commands: authorizeSession, reserveCommand, completeCommand and appendEvent, around
--   every command.
-- Coordination.Start, Coordination.Status, Coordination.Attach: Start, UpdateStatus, AttachWorkspace.
-- Coordination.Handoff: loadHandoff, in Offer OfferHandoff, and in Reply UpdateHandoffStatus
--   (handoff_postgres.go).
-- Coordination.Service: the checks of service.go in front of the repository, and in Commands CheckScopes,
--   Start, AttachWorkspace and UpdateStatus.
-- AgentSession: Heartbeat and Close (internal/agentsession/postgres_repository.go), which renew and
--   release the claims of the session.
-- Execution: commands in the order in which they commit.
-- Coordination.Exclusion: what the leases are for (docs/adr/0009-coordinated-work-scopes-and-worktrees.md).
-- Accounts: the tables of schema identity for people, with Roles, the ranks of roles, and Joins, the joins
--   that the repositories of the next three parts share.
-- Authn: internal/authn, service.go and postgres_repository.go together. Checks is what the service looks at
--   first (normalizeAndValidateAccount, sanitizeMetadata, validatePassword of password.go), Setup is Setup and
--   CreateOwner, Login is Login with RecordFailedLogin, Sessions are CreateWebSession, AuthenticateWeb and
--   LogoutWeb, Passwords is ChangePassword, Invitations are PreviewInvitation, RegisterInvitation and
--   AcceptInvitation, UserCode is newUserCode and normalizeUserCode, Devices are BeginDevice, ApproveDevice,
--   AuthenticateDevice and RevokeDevice, with ExchangeDevice in Exchange.
-- Access: the roles of internal/access (ProjectRole, WorkspaceRole, GrantProjectOwner), and in Invitations
--   CreateInvitation and RevokeInvitation.
-- UserAdmin: internal/useradmin. Rules is who may administer whom (authorizeTarget, revokeUserAccess), Checks
--   are normalizeUpdate and normalizeInvitation, Update is UpdateUser and RevokeUserSessions, Permissions are
--   SetProjectPermission and RemoveProjectPermission, Invitations are `invite` (CreateInvitation) and
--   `withdraw` (RevokeInvitation).
-- AccountExecution: the operations of these three packages in the order in which they commit.
-- Tests: a small organization and a company with accounts, runs of the commands on them, and the theorems at
--   these runs.
--
-- How state and operations correspond to the code. A transaction is a function from the database,
-- the time and its arguments to a result with the database that it commits, or to an error with
-- which nothing is committed; the repositories run each command in one transaction, under row
-- locks or the advisory lock of the project, and the model takes transactions one after the other.
-- Every query filters by the organization of the service, so the database holds one organization.
-- SELECT is `find` or a join written as a function, UPDATE is `update_where`, INSERT adds a row at
-- the end, and RETURNING gives the row; queries that order rows by created_at and id read the
-- order of insertion. The unique indexes and ON CONFLICT clauses on which a command relies are
-- written out in it, and the CHECK constraints on the texts of intents. The other CHECK
-- constraints are not looked at, nor what a column cannot hold (a NUL, or a text too long for an
-- index): Coordination.Start.Progress.Storable says what they ask of a start. `uuidv7()` is the
-- next number of a counter, `transaction_timestamp()` is an argument in microseconds, and the JSON
-- of a stored response is the response itself. The SHA-256 of a request is a number that the
-- caller passes. ErrNotFound and the other named errors are constructors; a wrapped error of the
-- driver or of the server is `internal`, and in the account services `unavailable`. Where an error
-- leaves something written (a failed login, an expired device code), the operation gives the
-- database beside its answer (Outcome). A call of the service and its transactions are one step
-- there, with one reading of the clock; Authn.Login.Race is the exception, where logins read
-- before any of them writes. A row of scope_claims holds its resource, to which the table has a
-- foreign key and which never changes.
--
-- Bounds and fuel: every loop of the code that is modelled goes over a list and is structural
-- recursion, so no fuel is used. Versions and counters are int64 in Go and bigint in the database;
-- they grow by one per command and are modelled without a bound. Byte lengths (len) and rune counts
-- are told apart.
-- Parameters: the lower-case table of Unicode from code point 128 on, which strings.ToLower reads;
-- how the database reads the text of a UUID; and commandHash, of which the services use nothing but
-- the value. The account services take a Platform: the tables of strings.ToLower, ToUpper and
-- EqualFold from code point 128 on, the address that mail.ParseAddress finds, SHA-256, hashPassword
-- with its salt, and verifyPassword; the random part of a secret and the five bytes of a user code
-- are arguments.
--
-- Not modelled: the network, the pool and the migrations, which are I/O; decoding of requests and
-- the mapping of errors in internal/transport/httpapi; the other services (rooms, knowledge,
-- contextpack, workspaces, projects, repositorysync, githubapp); the Argon2 encoding of password.go;
-- the listing queries of work, handoffs, devices, users, and the rosters of projects and workspaces;
-- enrollment, start and observations of agent sessions; the local tools, the desktop shell and the
-- web client.
pub mod Prelude
pub mod Text
pub mod FilePath
pub mod Identity
pub mod Coordination
pub mod Database
pub mod Accounts
pub mod Authn
pub mod Access
pub mod UserAdmin
pub mod AccountExecution
pub mod AgentSession
pub mod Execution
pub mod Tests
