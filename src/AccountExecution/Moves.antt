-- ===== src/AccountExecution/Moves.antt =====
-- Steps that take no membership, no account and no actor away, and no second invitation for an e-mail
-- in.
use mathlib.Core.Path.{subst}
use the_pact.Prelude.{
  ◌≤◌, ◌≡◌, refl, sym, ◌∙◌, true, List, Result, ok, err, ◌>>=◌, Ensures, Ensures-bind, In, any_row,
  count_where, arith,
}
use the_pact.Text.{Text}
use the_pact.Identity.{Uuid}
use the_pact.Accounts.{AccountDb, OrganizationMember, Platform}
use the_pact.Accounts.Roles.{is_owner, organization_rank}
use the_pact.Accounts.Joins.{is_live_actor}
use the_pact.Authn.{AuthnError, transaction}
use the_pact.Authn.Sessions.{is_active_account_of}
use the_pact.Authn.Invitations.Upsert.Laws.{Holds}
use the_pact.Access.Invitations.{is_waiting}
use the_pact.UserAdmin.Update.Owners.{
  HasOwner, OneMembership, active_owner_of_parts, active_owner_parts,
}

-- invitations_pending_email_uq
abbrev pub OnePending : Platform → AccountDb → Type 0
OnePending p db = (email : Text) → count_where (is_waiting p.lower email) db.invitations ≤ 1

pub record Moves (p : Platform) (d e : AccountDb) : Type 0 where
  pub members :
      (m : OrganizationMember)
      → In m d.organization_members
      → Holds e.organization_members m.principal_id m.role
  pub accounts :
      (id : Uuid)
      → any_row (is_active_account_of id) d.accounts ≡ true
      → any_row (is_active_account_of id) e.accounts ≡ true
  pub actors :
      (id : Uuid)
      → any_row (is_live_actor id) d.work.actors ≡ true
      → any_row (is_live_actor id) e.work.actors ≡ true
  pub one : OneMembership d → OneMembership e
  pub pending : OnePending p d → OnePending p e

pub Holds-itself :
    (members : List OrganizationMember) (m : OrganizationMember)
    → In m members
    → Holds members m.principal_id m.role
Holds-itself members m i = record { member = m; listed = i; own = refl; strong = omega arith }

pub Moves-refl : (p : Platform) (d : AccountDb) → Moves p d d
Moves-refl p d = record {
  members = Holds-itself d.organization_members;
  accounts = λ id h. h;
  actors = λ id h. h;
  one = λ h. h;
  pending = λ h. h;
}

-- A step that leaves memberships, actors and invitations alone.
pub record Quiet (d e : AccountDb) : Type 0 where
  pub same_members : e.organization_members ≡ d.organization_members
  pub accounts :
      (id : Uuid)
      → any_row (is_active_account_of id) d.accounts ≡ true
      → any_row (is_active_account_of id) e.accounts ≡ true
  pub same_actors : e.work.actors ≡ d.work.actors
  pub same_invitations : e.invitations ≡ d.invitations

pub Quiet-Moves : (p : Platform) (d e : AccountDb) → Quiet d e → Moves p d e
Quiet-Moves p d e q = record {
  members = λ m i. rw q.same_members (Holds-itself d.organization_members m i);
  accounts = q.accounts;
  actors = λ id h. rw q.same_actors h;
  one = λ h id. rw q.same_members (h id);
  pending = λ h email. rw q.same_invitations (h email);
}

-- A step that writes none of the four tables.
pub untouched :
    (p : Platform) (d e : AccountDb)
    → e.organization_members ≡ d.organization_members
    → e.accounts ≡ d.accounts
    → e.work.actors ≡ d.work.actors
    → e.invitations ≡ d.invitations
    → Moves p d e
untouched p d e m a w i =
    Quiet-Moves p d e (record {
      same_members = m;
      accounts = λ id h. rw a h;
      same_actors = w;
      same_invitations = i;
    })

pub Moves-trans : (p : Platform) (d e f : AccountDb) → Moves p d e → Moves p e f → Moves p d f
Moves-trans p d e f a b = record {
  members = λ m i.
      let h = a.members m i in
      let k = b.members h.member h.listed in
      record {
        member = k.member;
        listed = k.listed;
        own = k.own ∙ h.own;
        strong = omega (arith, h.strong, k.strong);
      };
  accounts = λ id h. b.accounts id (a.accounts id h);
  actors = λ id h. b.actors id (a.actors id h);
  one = λ h. b.one (a.one h);
  pending = λ h. b.pending (a.pending h);
}

owner_of_rank :
    (m n : OrganizationMember)
    → is_owner m.role ≡ true
    → organization_rank m.role ≤ organization_rank n.role
    → is_owner n.role ≡ true
owner_of_rank m n owner strong = ground arith

pub Moves-HasOwner : (p : Platform) (d e : AccountDb) → Moves p d e → HasOwner d → HasOwner e
Moves-HasOwner p d e m h =
    let k = m.members h.owner h.listed in
    let (role, account, actor) = active_owner_parts d h.owner h.active in
    record {
      owner = k.member;
      listed = k.listed;
      active =
          active_owner_of_parts e k.member (owner_of_rank h.owner k.member role k.strong)
            (subst (λ (q : Uuid). any_row (is_active_account_of q) e.accounts ≡ true) (sym k.own)
              (m.accounts h.owner.principal_id account))
            (subst (λ (q : Uuid). any_row (is_live_actor q) e.work.actors ≡ true) (sym k.own)
              (m.actors h.owner.principal_id actor));
    }

-- A transaction that moves as it commits.
abbrev pub Commits : {E A : Type 0} → Platform → AccountDb → Result E (A × AccountDb) → Type 0
Commits p d m = Ensures (λ r. Moves p d r.1) m

pub Commits-bind :
    {E A B : Type 0} (p : Platform) (d : AccountDb) (m : Result E (A × AccountDb))
    (f : A × AccountDb → Result E (B × AccountDb))
    → Commits p d m
    → ((r : A × AccountDb) → Commits p r.1 (f r))
    → Commits p d (m >>= f)
Commits-bind p d m f hm hf =
    Ensures-bind m f
      λ r e. record { holds = λ s es. Moves-trans p d r.1 s.1 (hm.holds r e) ((hf r).holds s es) }

pub transaction-Moves :
    {A : Type 0} (p : Platform) (d : AccountDb) (m : Result AuthnError (A × AccountDb))
    → Commits p d m
    → Moves p d (transaction d m).0
unfolding transaction
transaction-Moves p d (ok (a, e)) h = h.holds (a, e) refl
transaction-Moves p d (err e) h = Moves-refl p d
