-- ===== src/Authn/Invitations/Once.antt =====
-- An invitation that was accepted answers no more: neither a preview, nor an acceptance, nor a
-- registration finds it.
use the_pact.Prelude.{
  ℕ, ◌≤◌, ◌≡◌, refl, sym, ◌∙◌, inl, inr, ◌≢◌, true, false, Option-cases, ok, err, ◌>>=◌, Ensures,
  Ensures-bind, Ensures-or_fail, Ensures-require, Ensures-ok, In, count_where,
  count_where-update_where, find, find-In, find-is_some, find-one, update_where-In, arith,
}
use the_pact.Text.{Text, trim_space}
use the_pact.Identity.{Uuid, Time}
use the_pact.Accounts.{AccountDb, Invitation, Platform, Principal}
use the_pact.Access.Invitations.{has_token}
use the_pact.Authn.{AccountInput, CreatedWebSession, Secrets, SessionMetadata, invitation_invalid}
use the_pact.Authn.Invitations.{
  InvitationAcceptance, accept_invitation, accept_invitation_row, apply_invitation,
  consume_invitation, consumed, is_open_invitation, is_pending, is_pending_invitation,
  lock_invitation, preview_invitation, register_invitation, register_invitation_row,
}
use the_pact.Authn.Invitations.Upsert.{upsert_memberships}

-- The invitation of a secret is not pending.
record Closed (db : AccountDb) (digest : ℕ) : Type 0 where
  distinct : count_where (has_token digest) db.invitations ≤ 1
  row : Invitation
  listed : In row db.invitations
  own : has_token digest row ≡ true
  closed : is_pending row.status ≡ false

open_facts :
    (now : Time) (digest : ℕ) (i : Invitation)
    → is_open_invitation now digest i ≡ true
    → (has_token digest i ≡ true)
      × (is_pending i.status ≡ true)
      × (is_pending_invitation i.id i ≡ true)
unfolding is_open_invitation has_token is_pending_invitation
open_facts now digest i h = (ground arith, ground arith, ground arith)

Closed-lock_invitation :
    (db : AccountDb) (now : Time) (digest : ℕ)
    → Closed db digest
    → lock_invitation db now digest ≡ err invitation_invalid
unfolding lock_invitation ◌>>=◌
Closed-lock_invitation db now digest c =
    elim (Option-cases (find (is_open_invitation now digest) db.invitations)) [
      | inl e ↦ rw e refl
      | inr (i, e) ↦
          let (listed, waits) = find-In (is_open_invitation now digest) db.invitations i e in
          let (token, pending, same) = open_facts now digest i waits in
          let (first, found, x, y) =
            find-is_some (has_token digest) db.invitations c.row c.listed c.own in
          let i_first =
            find-one (has_token digest) db.invitations i first c.distinct listed token found in
          let row_first =
            find-one (has_token digest) db.invitations c.row first c.distinct c.listed c.own
              found in
          absurd (ground (arith, pending, c.closed, rw (i_first ∙ sym row_first) at pending))
    ]

consume_invitation-Closed :
    (db : AccountDb) (now : Time) (digest : ℕ) (i : Invitation) (principal : Uuid)
    → count_where (has_token digest) db.invitations ≤ 1
    → In i db.invitations
    → has_token digest i ≡ true
    → is_pending_invitation i.id i ≡ true
    → Ensures (λ e. Closed e digest) (consume_invitation db now i.id principal)
unfolding consume_invitation has_token consumed
consume_invitation-Closed db now digest i principal distinct listed own waits =
    Ensures-require _ _ _ λ exists. Ensures-ok _ (record {
      distinct = omega (
        arith,
        distinct,
        count_where-update_where (has_token digest) (is_pending_invitation i.id)
            (consumed now principal) db.invitations (λ x q t. t),
      );
      row = consumed now principal i;
      listed = rw waits at (
          update_where-In (is_pending_invitation i.id) (consumed now principal) db.invitations i
            listed);
      own = own;
      closed = refl;
    })

lock_invitation-facts :
    (db : AccountDb) (now : Time) (digest : ℕ)
    → Ensures
        (λ i.
          In i db.invitations × (has_token digest i ≡ true) × (is_pending_invitation i.id i ≡ true))
        (lock_invitation db now digest)
unfolding lock_invitation ◌>>=◌
lock_invitation-facts db now digest =
    elim (Option-cases (find (is_open_invitation now digest) db.invitations)) [
      | inl e ↦ rw e (record { holds = λ b x. absurd (ground arith) })
      | inr (i, e) ↦
          let (listed, waits) = find-In (is_open_invitation now digest) db.invitations i e in
          let (token, pending, same) = open_facts now digest i waits in
          rw e (Ensures-ok i (listed, token, same))
    ]

accept_row-Closed :
    (p : Platform) (db : AccountDb) (now : Time) (principal : Principal) (digest : ℕ)
    → count_where (has_token digest) db.invitations ≤ 1
    → Ensures (λ r. Closed r.1 digest) (accept_invitation_row p db now principal digest)
unfolding accept_invitation_row apply_invitation upsert_memberships
accept_row-Closed p db now principal digest distinct = Ensures-or_fail _ _ _ λ account found.
    Ensures-bind _ _ λ i locked. Ensures-require _ _ _ λ own. Ensures-bind _ _ λ after applied.
      Ensures-ok _ (
        let (listed, token, waits) = (lock_invitation-facts db now digest).holds i locked in
        (consume_invitation-Closed (upsert_memberships db principal.id i.organization_role i.grant)
            now digest i principal.id distinct listed token waits).holds
          after applied)

accept-Closed :
    (p : Platform) (db : AccountDb) (now : Time) (principal : Principal) (secret : Text)
    → count_where (has_token (p.sha256 (trim_space secret))) db.invitations ≤ 1
    → Ensures
        (λ r. Closed r.1 (p.sha256 (trim_space secret)))
        (accept_invitation p db now principal secret)
unfolding accept_invitation
accept-Closed p db now principal secret distinct =
    Ensures-require _ _ _
      λ shaped. accept_row-Closed p db now principal (p.sha256 (trim_space secret)) distinct

module _ (p : Platform) (db : AccountDb) (later : Time) (secret : Text)
    (c : Closed db (p.sha256 (trim_space secret))) where
  Closed-preview : preview_invitation p db later secret ≡ err invitation_invalid
  unfolding preview_invitation ◌>>=◌
  Closed-preview =
      rw (Closed-lock_invitation db later (p.sha256 (trim_space secret)) c) (ground arith)

  Closed-accept : (who : Principal) → Ensures (λ r. 1 ≤ 0) (accept_invitation p db later who secret)
  unfolding accept_invitation accept_invitation_row
  Closed-accept who = Ensures-require _ _ _ λ shaped. Ensures-or_fail _ _ _ λ account found.
      Ensures-bind _ _ λ i locked.
        absurd (cc (locked, Closed-lock_invitation db later (p.sha256 (trim_space secret)) c))

  Closed-register :
      (input : AccountInput) (salt : Text) (secrets : Secrets) (metadata : SessionMetadata)
      → Ensures (λ r. 1 ≤ 0) (register_invitation p db later secret input salt secrets metadata)
  unfolding register_invitation register_invitation_row
  Closed-register input salt secrets metadata = Ensures-require _ _ _ λ shaped.
      Ensures-bind _ _ λ account valid. Ensures-bind _ _ λ i locked.
        absurd (cc (locked, Closed-lock_invitation db later (p.sha256 (trim_space secret)) c))

-- If at most one invitation has the digest of a secret, then once the secret was accepted its
-- preview answers that the invitation is invalid, and neither an acceptance nor a registration
-- with it succeeds.
pub accept_invitation_once :
    (p : Platform) (db after : AccountDb) (now later : Time) (principal who : Principal)
    (secret : Text) (acceptance : InvitationAcceptance) (again : InvitationAcceptance × AccountDb)
    (input : AccountInput) (salt : Text) (secrets : Secrets) (metadata : SessionMetadata)
    (registered : (InvitationAcceptance × CreatedWebSession) × AccountDb)
    → count_where (has_token (p.sha256 (trim_space secret))) db.invitations ≤ 1
    → accept_invitation p db now principal secret ≡ ok (acceptance, after)
    → (preview_invitation p after later secret ≡ err invitation_invalid)
      × (accept_invitation p after later who secret ≢ ok again)
      × (register_invitation p after later secret input salt secrets metadata ≢ ok registered)
accept_invitation_once p db after now later principal who secret acceptance again input salt secrets
      metadata registered distinct h =
    let c = (accept-Closed p db now principal secret distinct).holds (acceptance, after) h in
    (
      Closed-preview p after later secret c,
      λ e. omega (arith, (Closed-accept p after later secret c who).holds again e),
      λ e. omega (
        arith,
        (Closed-register p after later secret c input salt secrets metadata).holds registered e,
      ),
    )
