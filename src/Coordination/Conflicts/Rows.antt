-- ===== src/Coordination/Conflicts/Rows.antt =====
-- The rows that the query of loadScopeOverlaps returns, and the overlaps made of them.
use mathlib.Core.Option.{some-injective}
use the_pact.Prelude.{
  ◌≡◌, refl, sym, ap, ◌⊎◌, inl, inr, true, false, Option, none, some, List, [], ◌∷◌, arith,
  Bool-cases, find, In, In-append, In-append_left, In-append_right,
}
use the_pact.Identity.{Uuid, Time}
use the_pact.Coordination.Model.{Scope, ScopeClaim, ScopeOverlap, Intent}
use the_pact.Coordination.Overlap.{scopes_overlap}
use the_pact.Coordination.Lifecycle.{is_terminal_status}
use the_pact.Coordination.Conflicts.{
  ExistingClaim, is_candidate, with_intent, with_actor, join_claim, add_existing, existing_claims,
  overlap_with, overlaps_of, all_overlaps, has_blocking_overlap, claim_scope, has_intent_id,
  has_actor_id,
}
use the_pact.Database.{Db, Actor}

module _ (db : Db) (now : Time) (project repo : Uuid) where
  pub In-existing :
      (claims : List ScopeClaim) (c : ScopeClaim) (x : ExistingClaim)
      → In c claims
      → is_candidate now project repo c ≡ true
      → join_claim db c ≡ some x
      → In x (existing_claims db now project repo claims)
  unfolding existing_claims
  In-existing [] c x m t j = absurd m
  In-existing (d ∷ rest) c x (inl e) t j = head d (rw (← e) t) (rw (← e) j)
    where
      head :
          (d : ScopeClaim)
          → is_candidate now project repo d ≡ true
          → join_claim db d ≡ some x
          → In x (existing_claims db now project repo (d ∷ rest))
      head d t j = rw (t, j) (inl refl)
  In-existing (d ∷ rest) c x (inr m) t j = elim (Bool-cases (is_candidate now project repo d)) [
    | inl e ↦ rw e (added (join_claim db d) _ (In-existing rest c x m t j))
    | inr e ↦ rw e (In-existing rest c x m t j)
  ]
    where
      added : (o : Option ExistingClaim) (l : List ExistingClaim) → In x l → In x (add_existing o l)
      added none l h = h
      added (some y) l h = inr h

  -- Every row of the query is a lease in force of the project and the repository.
  pub existing_sound :
      (claims : List ScopeClaim) (x : ExistingClaim)
      → In x (existing_claims db now project repo claims)
      → (c : ScopeClaim) × In c claims
        × (is_candidate now project repo c ≡ true)
        × (join_claim db c ≡ some x)
  unfolding existing_claims
  existing_sound [] x m = absurd m
  existing_sound (d ∷ rest) x m = elim (Bool-cases (is_candidate now project repo d)) [
    | inl e ↦ elim (taken (join_claim db d) _ (rw e at m)) [
      | inl j ↦ (d, inl refl, e, j)
      | inr m' ↦ let (c, mc, t, j) = existing_sound rest x m' in (c, inr mc, t, j)
    ]
    | inr e ↦ let (c, mc, t, j) = existing_sound rest x (rw e at m) in (c, inr mc, t, j)
  ]
    where
      taken :
          (o : Option ExistingClaim) (l : List ExistingClaim)
          → In x (add_existing o l)
          → (o ≡ some x) ⊎ In x l
      taken none l h = inr h
      taken (some y) l (inl e) = inl (ap some (sym e))
      taken (some y) l (inr h) = inr h

In-overlaps_of :
    (s : Scope) (existing : List ExistingClaim) (x : ExistingClaim)
    → In x existing
    → scopes_overlap s (claim_scope x.claim) ≡ true
    → In (overlap_with s x) (overlaps_of s existing)
unfolding overlaps_of
In-overlaps_of s [] x m t = absurd m
In-overlaps_of s (y ∷ rest) x (inl e) t = rw (← e, t) (inl refl)
In-overlaps_of s (y ∷ rest) x (inr m) t =
    elim (Bool-cases (scopes_overlap s (claim_scope y.claim))) [
      | inl e ↦ rw e (inr (In-overlaps_of s rest x m t))
      | inr e ↦ rw e (In-overlaps_of s rest x m t)
    ]

overlaps_of_sound :
    (s : Scope) (existing : List ExistingClaim) (o : ScopeOverlap)
    → In o (overlaps_of s existing)
    → (x : ExistingClaim) × In x existing
      × (scopes_overlap s (claim_scope x.claim) ≡ true)
      × (o ≡ overlap_with s x)
unfolding overlaps_of
overlaps_of_sound s [] o m = absurd m
overlaps_of_sound s (y ∷ rest) o m = elim (Bool-cases (scopes_overlap s (claim_scope y.claim))) [
  | inl e ↦ elim (rw e at m) [
    | inl h ↦ (y, inl refl, e, h)
    | inr m' ↦ let (x, mx, t, h) = overlaps_of_sound s rest o m' in (x, inr mx, t, h)
  ]
  | inr e ↦ let (x, mx, t, h) = overlaps_of_sound s rest o (rw e at m) in (x, inr mx, t, h)
]

pub In-all_overlaps :
    (scopes : List Scope) (existing : List ExistingClaim) (s : Scope) (x : ExistingClaim)
    → In s scopes
    → In x existing
    → scopes_overlap s (claim_scope x.claim) ≡ true
    → In (overlap_with s x) (all_overlaps scopes existing)
unfolding all_overlaps
In-all_overlaps [] existing s x ms mx t = absurd ms
In-all_overlaps (r ∷ rest) existing s x (inl e) mx t =
    In-append_left _ (overlaps_of r existing) _ (rw (← e) (In-overlaps_of s existing x mx t))
In-all_overlaps (r ∷ rest) existing s x (inr ms) mx t =
    In-append_right _ (overlaps_of r existing) _ (In-all_overlaps rest existing s x ms mx t)

pub all_overlaps_sound :
    (scopes : List Scope) (existing : List ExistingClaim) (o : ScopeOverlap)
    → In o (all_overlaps scopes existing)
    → (s : Scope) × (x : ExistingClaim) × In s scopes
      × In x existing
      × (scopes_overlap s (claim_scope x.claim) ≡ true)
      × (o ≡ overlap_with s x)
unfolding all_overlaps
all_overlaps_sound [] existing o m = absurd m
all_overlaps_sound (r ∷ rest) existing o m = elim (In-append o (overlaps_of r existing) _ m) [
  | inl h ↦ let (x, mx, t, e) = overlaps_of_sound r existing o h in (r, x, inl refl, mx, t, e)
  | inr h ↦
      let (s, x, ms, mx, t, e) = all_overlaps_sound rest existing o h in (s, x, inr ms, mx, t, e)
]

pub unblocked :
    (os : List ScopeOverlap) (o : ScopeOverlap)
    → has_blocking_overlap os ≡ false
    → In o os
    → o.blocking ≡ false
unfolding has_blocking_overlap
unblocked [] o h m = absurd m
unblocked (p ∷ os) o h (inl e) = rw e (ground arith)
unblocked (p ∷ os) o h (inr m) = unblocked os o (ground arith) m

pub joined :
    (db : Db) (c : ScopeClaim) (i : Intent) (a : Actor)
    → find (has_intent_id c.intent_id) db.intents ≡ some i
    → is_terminal_status i.status ≡ false
    → find (has_actor_id i.responsible_agent_id) db.actors ≡ some a
    → join_claim db c ≡ some (record { claim = c; intent = i; actor = a })
unfolding join_claim
joined db c i a hi t ha = rw (hi, with_intent) (rw t (rw (ha, with_actor) refl))

with_actor_sound :
    (c : ScopeClaim) (i : Intent) (o : Option Actor) (x : ExistingClaim)
    → with_actor c i o ≡ some x
    → (x.claim ≡ c) × (x.intent ≡ i)
unfolding with_actor
with_actor_sound c i none x h = absurd (cc)
with_actor_sound c i (some a) x h =
    let p = some-injective _ x h in
    (ap (λ (y : ExistingClaim). y.claim) (sym p), ap (λ (y : ExistingClaim). y.intent) (sym p))

-- What a joined row says of its claim.
pub record Joined (c : ScopeClaim) (found : Option Intent) (x : ExistingClaim) : Type 0 where
  pub same_claim : x.claim ≡ c
  pub of_intent : found ≡ some x.intent
  pub unfinished : is_terminal_status x.intent.status ≡ false

with_intent_sound :
    (actors : List Actor) (c : ScopeClaim) (found : Option Intent) (x : ExistingClaim)
    → with_intent actors c found ≡ some x
    → Joined c found x
unfolding with_intent
with_intent_sound actors c none x h = absurd (cc)
with_intent_sound actors c (some i) x h = elim (Bool-cases (is_terminal_status i.status)) [
  | inl e ↦ absurd (none_is_none (rw e at h))
  | inr e ↦
      let (p, q) = with_actor_sound c i _ x (rw e at h) in
      record { same_claim = p; of_intent = ap some (sym q); unfinished = rw q e }
]
  where
    none_is_none : ◌≡◌ {A = Option ExistingClaim} none (some x) → ⊥
    none_is_none h = cc

pub join_claim_sound :
    (db : Db) (c : ScopeClaim) (x : ExistingClaim)
    → join_claim db c ≡ some x
    → Joined c (find (has_intent_id c.intent_id) db.intents) x
unfolding join_claim
join_claim_sound db c x h = with_intent_sound db.actors c _ x h
