-- ===== src/AgentSession/Leases.antt =====
-- What heartbeats and the end of a session do to the leases of scopes.
use mathlib.Core.Path.{subst}
use the_pact.Prelude.{
  ◌<◌, ◌≡◌, refl, sym, ap, inl, inr, Bool, true, arith, Bool-cases, update_where, In,
  In-update_where, All-intro, All-In,
}
use the_pact.Identity.{Uuid, Time}
use the_pact.Coordination.Model.{ScopeClaim}
use the_pact.Coordination.Exclusion.{Holds, WellFormed}
use the_pact.Coordination.Exclusion.Narrower.{SameClaim, Narrower}
use the_pact.AgentSession.{carries, renew, release_claim, keep_alive, end_session}
use the_pact.Database.{Db, Session}

-- Only the claims of one session changed, and of these only the lease.
pub record Touches (d : Db) (id : Uuid) (f : ScopeClaim → ScopeClaim) (e : Db) : Type 0 where
  pub same_claims : e.claims ≡ update_where (carries id) f d.claims
  pub same_intents : e.intents ≡ d.intents
  pub same_actors : e.actors ≡ d.actors
  pub same_agents : e.agents ≡ d.agents
  pub same_ids : e.next_id ≡ d.next_id

module _ (d e : Db) (id : Uuid) (f : ScopeClaim → ScopeClaim) (touches : Touches d id f e) where
  module _ (now : Time) (same : (c : ScopeClaim) → SameClaim c (f c)) where
    old_lease : (c : ScopeClaim) → In c d.claims → Holds e now c → Holds d now c
    old_lease c m h = record {
      listed = m;
      active = h.active;
      unexpired = h.unexpired;
      intent = h.intent;
      of_intent = rw (← touches.same_intents) h.of_intent;
      unfinished = h.unfinished;
    }

    pub Touches-Narrower :
        ((c : ScopeClaim) → In c d.claims → carries id c ≡ true → Holds e now (f c) → Holds d now c)
        → Narrower d e now
    Touches-Narrower held = record {
      back = λ c h.
          let (x, m, eq) =
            In-update_where (carries id) f d.claims c (rw touches.same_claims at h.listed) in
          elim (Bool-cases (carries id x)) [
            | inl t ↦
                let eq' = rw t at eq in
                (x, held x m t (subst (Holds e now) eq' h), subst (SameClaim x) (sym eq') (same x))
            | inr t ↦
                let eq' = rw t at eq in
                (x, old_lease x m (subst (Holds e now) eq' h), subst (SameClaim x) (sym eq') itself)
          ];
    }
      where
        itself : {x : ScopeClaim} → SameClaim x x
        itself = record {
          one_intent = refl;
          one_project = refl;
          one_resource = refl;
          one_mode = refl;
        }

  pub Touches-WellFormed :
      ((c : ScopeClaim) → (f c).intent_id ≡ c.intent_id) → WellFormed d → WellFormed e
  Touches-WellFormed same w = record {
    intent_ids = rw (touches.same_intents, touches.same_ids) w.intent_ids;
    claim_intents = rw touches.same_claims (All-intro _ _ below);
    responsible_known =
        λ i m. rw touches.same_actors (w.responsible_known i (rw touches.same_intents at m));
    agents_known = λ a m. rw touches.same_actors (w.agents_known a (rw touches.same_agents at m));
  }
    where
      below :
          (c : ScopeClaim) → In c (update_where (carries id) f d.claims) → c.intent_id < e.next_id
      below c m =
          let (x, mx, eq) = In-update_where (carries id) f d.claims c m in
          let lt =
            All-In (λ (b : ScopeClaim). b.intent_id < d.next_id) x d.claims w.claim_intents mx in
          elim (Bool-cases (carries id x)) [
            | inl t ↦ omega (
              arith,
              lt,
              same x,
              touches.same_ids,
              ap (λ (b : ScopeClaim). b.intent_id) (rw t at eq),
            )
            | inr t ↦
                omega
                  (arith, lt, touches.same_ids, ap (λ (b : ScopeClaim). b.intent_id) (rw t at eq))
          ]

pub renew-SameClaim : (now : Time) (c : ScopeClaim) → SameClaim c (renew now c)
unfolding renew
renew-SameClaim now c = record {
  one_intent = refl;
  one_project = refl;
  one_resource = refl;
  one_mode = refl;
}

pub release_claim-SameClaim : (now : Time) (c : ScopeClaim) → SameClaim c (release_claim now c)
unfolding release_claim
release_claim-SameClaim now c = record {
  one_intent = refl;
  one_project = refl;
  one_resource = refl;
  one_mode = refl;
}

pub keep_alive-Touches :
    (db : Db) (now : Time) (principal : Uuid) (allow_all : Bool) (s : Session)
    → Touches db s.id (renew now) (keep_alive db now principal allow_all s)
unfolding keep_alive
keep_alive-Touches db now principal allow_all s = ground arith

pub end_session-Touches :
    (db : Db) (now : Time) (principal : Uuid) (allow_all : Bool) (s : Session)
    → Touches db s.id (release_claim now) (end_session db now principal allow_all s)
unfolding end_session
end_session-Touches db now principal allow_all s = ground arith
