-- ===== src/Coordination/Exclusion/Keeps.antt =====
-- Exclusion and the foreign keys across changes that leave the work alone.
use the_pact.Prelude.{ℕ, ◌<◌, ◌≤◌, ◌≡◌, List, arith, All, All-imp}
use the_pact.Identity.{Time}
use the_pact.Coordination.Model.{ScopeClaim, Intent}
use the_pact.Coordination.Commands.Frame.{SameWork}
use the_pact.Coordination.Exclusion.{Holds, Exclusive, WellFormed}
use the_pact.Database.{Db}

below_more :
    {d e : ℕ} (A : Type 0) (id : A → ℕ) (xs : List A)
    → d ≤ e
    → All (λ a. id a < d) xs
    → All (λ a. id a < e) xs
below_more A id xs le h = All-imp _ _ xs (λ a l. omega arith) h

-- What exclusion and the foreign keys read is unchanged.
pub record SameLeases (d e : Db) : Type 0 where
  pub same_intents : e.intents ≡ d.intents
  pub same_claims : e.claims ≡ d.claims
  pub same_actors : e.actors ≡ d.actors
  pub same_agents : e.agents ≡ d.agents
  pub more_ids : d.next_id ≤ e.next_id

SameLeases-of_SameWork : (d e : Db) → SameWork d e → SameLeases d e
SameLeases-of_SameWork d e h = record {
  same_intents = h.same_intents;
  same_claims = h.same_claims;
  same_actors = h.same_actors;
  same_agents = h.same_agents;
  more_ids = h.more_ids;
}

pub WellFormed-SameLeases : (d e : Db) → SameLeases d e → WellFormed d → WellFormed e
WellFormed-SameLeases d e h w = record {
  intent_ids = rw h.same_intents (below_more Intent (λ i. i.id) d.intents h.more_ids w.intent_ids);
  claim_intents =
      rw h.same_claims
        (below_more ScopeClaim (λ c. c.intent_id) d.claims h.more_ids w.claim_intents);
  responsible_known = λ i m. rw h.same_actors (w.responsible_known i (rw h.same_intents at m));
  agents_known = λ a m. rw h.same_actors (w.agents_known a (rw h.same_agents at m));
}

Holds-SameLeases :
    (d e : Db) (now : Time) (c : ScopeClaim) → SameLeases d e → Holds e now c → Holds d now c
Holds-SameLeases d e now c h l = record {
  listed = rw h.same_claims at l.listed;
  active = l.active;
  unexpired = l.unexpired;
  intent = l.intent;
  of_intent = rw (← h.same_intents) l.of_intent;
  unfinished = l.unfinished;
}

pub Exclusive-SameLeases :
    (d e : Db) (now : Time) → SameLeases d e → Exclusive d now → Exclusive e now
Exclusive-SameLeases d e now h x = record {
  apart = λ a b ha hb m.
      x.apart a b (Holds-SameLeases d e now a h ha) (Holds-SameLeases d e now b h hb) m;
}

pub WellFormed-SameWork : (d e : Db) → SameWork d e → WellFormed d → WellFormed e
WellFormed-SameWork d e h w = WellFormed-SameLeases d e (SameLeases-of_SameWork d e h) w

pub Exclusive-SameWork : (d e : Db) (now : Time) → SameWork d e → Exclusive d now → Exclusive e now
Exclusive-SameWork d e now h x = Exclusive-SameLeases d e now (SameLeases-of_SameWork d e h) x
