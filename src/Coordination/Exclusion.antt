-- ===== src/Coordination/Exclusion.antt =====
-- What the reservation of scopes promises: of two intents, neither holds a scope that overlaps one
-- that the other holds for itself alone (docs/adr/0009-coordinated-work-scopes-and-worktrees.md).
pub mod Keeps
pub mod Narrower
use the_pact.Prelude.{◌<◌, ◌≤◌, ◌≡◌, ◌≢◌, true, false, some, In, All, find, arith}
use the_pact.Text.{Text}
use the_pact.Identity.{Time}
use the_pact.Coordination.Model.{ScopeClaim, ClaimMode, Intent}
use the_pact.Coordination.Overlap.Regions.{Covers}
use the_pact.Coordination.Lifecycle.{is_terminal_status}
use the_pact.Coordination.Conflicts.{is_active_claim, has_intent_id, has_actor_id, claim_scope}
use the_pact.Database.{Db, Agent}

-- The claim is a lease in force: active, not expired, and its intent is not finished.
pub record Holds (db : Db) (now : Time) (c : ScopeClaim) : Type 0 where
  pub listed : In c db.claims
  pub active : is_active_claim c.status ≡ true
  pub unexpired : now < c.expires_at
  pub intent : Intent
  pub of_intent : find (has_intent_id c.intent_id) db.intents ≡ some intent
  pub unfinished : is_terminal_status intent.status ≡ false

-- Two claims of different intents on one repository that share a file path.
pub record Meets (c d : ScopeClaim) : Type 0 where
  pub other_intent : c.intent_id ≢ d.intent_id
  pub one_project : c.project ≡ d.project
  pub one_repository : c.resource.repository_id ≡ d.resource.repository_id
  pub common_path : (f : Text) × Covers (claim_scope c) f × Covers (claim_scope d) f

abbrev pub BothShared : ScopeClaim → ScopeClaim → Type 0
BothShared c d = (c.mode ≡ ClaimMode.shared) × (d.mode ≡ ClaimMode.shared)

pub record Exclusive (db : Db) (now : Time) : Type 0 where
  pub apart : (c d : ScopeClaim) → Holds db now c → Holds db now d → Meets c d → BothShared c d

-- The foreign keys and the freshness of identifiers on which the joins rest.
pub record WellFormed (db : Db) : Type 0 where
  pub intent_ids : All (λ (i : Intent). i.id < db.next_id) db.intents
  pub claim_intents : All (λ (c : ScopeClaim). c.intent_id < db.next_id) db.claims
  pub responsible_known :
      (i : Intent)
      → In i db.intents
      → (a : _) × (find (has_actor_id i.responsible_agent_id) db.actors ≡ some a)
  pub agents_known :
      (a : Agent) → In a db.agents → (b : _) × (find (has_actor_id a.id) db.actors ≡ some b)

-- Leases run out: exclusion at a time holds at every later time.
pub Exclusive-later :
    (db : Db) (now later : Time) → now ≤ later → Exclusive db now → Exclusive db later
Exclusive-later db now later le x = record {
  apart = λ c d hc hd m. x.apart c d (earlier c hc) (earlier d hd) m;
}
  where
    earlier : (c : ScopeClaim) → Holds db later c → Holds db now c
    earlier c h = record {
      listed = h.listed;
      active = h.active;
      unexpired = omega (arith, h.unexpired);
      intent = h.intent;
      of_intent = h.of_intent;
      unfinished = h.unfinished;
    }
