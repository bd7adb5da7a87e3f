-- ===== src/Tests/Office.antt =====
-- The small organization is in order to begin with.
use the_pact.Prelude.{◌≡◌, refl, inl, inr, some, In, find, count_where, arith}
use the_pact.Identity.{Time}
use the_pact.Coordination.Conflicts.{has_actor_id}
use the_pact.Coordination.Exclusion.{Exclusive, WellFormed}
use the_pact.Coordination.Start.Targets.{Keyed}
use the_pact.Coordination.Attach.OneLive.{OneLive}
use the_pact.Execution.Safety.{Safe}
use the_pact.Database.{Agent, Actor}
use the_pact.Tests.{office}

office_agents :
    (a : Agent)
    → In a office.agents
    → (b : Actor) × (find (has_actor_id a.id) office.actors ≡ some b)
unfolding find
office_agents a (inl e) = rw e (_, refl)
office_agents a (inr (inl e)) = rw e (_, refl)
office_agents a (inr (inr never)) = absurd never

pub office-WellFormed : WellFormed office
office-WellFormed = record {
  intent_ids = tt;
  claim_intents = tt;
  responsible_known = λ i m. absurd m;
  agents_known = office_agents;
}

pub office-Exclusive : (now : Time) → Exclusive office now
office-Exclusive now = record { apart = λ c d hc hd m. absurd hc.listed }

pub office-OneLive : OneLive office
unfolding count_where
office-OneLive = λ p i. omega arith

pub office-Safe : (now : Time) → Safe office now
office-Safe now = record {
  well_formed = office-WellFormed;
  exclusive = office-Exclusive now;
  one_live = office-OneLive;
}

pub office-Keyed : Keyed office
office-Keyed = record { below = λ r m. absurd m; unique = λ r q m n e. absurd m }
