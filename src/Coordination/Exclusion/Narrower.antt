-- ===== src/Coordination/Exclusion/Narrower.antt =====
-- Exclusion across changes that leave no new lease.
use mathlib.Core.Path.{subst}
use the_pact.Prelude.{◌≡◌, sym, ap, ◌∙◌}
use the_pact.Identity.{Time}
use the_pact.Coordination.Model.{ScopeClaim, ResourceRef}
use the_pact.Coordination.Overlap.Regions.{Covers}
use the_pact.Coordination.Conflicts.{claim_scope}
use the_pact.Coordination.Exclusion.{Holds, Meets, Exclusive}
use the_pact.Database.{Db}

-- Two states of one claim.
pub record SameClaim (b c : ScopeClaim) : Type 0 where
  pub one_intent : b.intent_id ≡ c.intent_id
  pub one_project : b.project ≡ c.project
  pub one_resource : b.resource ≡ c.resource
  pub one_mode : b.mode ≡ c.mode

-- Each lease after the change was one before.
pub record Narrower (d e : Db) (now : Time) : Type 0 where
  pub back : (c : ScopeClaim) → Holds e now c → (b : ScopeClaim) × Holds d now b × SameClaim b c

same_scope : (b c : ScopeClaim) → SameClaim b c → claim_scope b ≡ claim_scope c
same_scope b c h = λ i. record {
  kind = (h.one_resource i).kind;
  locator = (h.one_resource i).locator;
  mode = h.one_mode i;
}

Meets-SameClaim : (a b c d : ScopeClaim) → SameClaim a c → SameClaim b d → Meets c d → Meets a b
Meets-SameClaim a b c d h k m =
    let (f, mc, md) = m.common_path in
    record {
      other_intent = λ e. m.other_intent (sym h.one_intent ∙ (e ∙ k.one_intent));
      one_project = h.one_project ∙ (m.one_project ∙ sym k.one_project);
      one_repository =
          ap (λ (r : ResourceRef). r.repository_id) h.one_resource
          ∙ (m.one_repository ∙ sym (ap (λ (r : ResourceRef). r.repository_id) k.one_resource));
      common_path = (
        f,
        subst (λ t. Covers t f) (sym (same_scope a c h)) mc,
        subst (λ t. Covers t f) (sym (same_scope b d k)) md,
      );
    }

pub Exclusive-Narrower :
    (d e : Db) (now : Time) → Narrower d e now → Exclusive d now → Exclusive e now
Exclusive-Narrower d e now n x = record {
  apart = λ c c' hc hc' m.
      let (a, ha, sa) = n.back c hc in
      let (b, hb, sb) = n.back c' hc' in
      let (p, q) = x.apart a b ha hb (Meets-SameClaim a b c c' sa sb m) in
      (sym sa.one_mode ∙ p, sym sb.one_mode ∙ q);
}
