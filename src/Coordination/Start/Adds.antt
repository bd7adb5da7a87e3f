-- ===== src/Coordination/Start/Adds.antt =====
-- The tables behind the creation of an intent with its claims.
use mathlib.Core.Path.{subst}
use the_pact.Prelude.{
  ◌<◌, ◌≡◌, refl, sym, ap, ◌∙◌, ◌⊎◌, inl, inr, true, false, some, List, [], ◌∷◌, ◌++◌, arith,
  Option-cases, find, find-In, find-append, find-append_none, In, In-append, All-append, All-imp,
  All-intro, All-In, Ensures, Ensures-bind, Ensures-require, Ensures-ok,
}
use the_pact.Identity.{Uuid, Time}
use the_pact.Coordination.Model.{Scope, ScopeClaim, Intent, StartInput}
use the_pact.Coordination.Overlap.Regions.{Covers}
use the_pact.Coordination.Conflicts.{
  has_intent_id, has_actor_id, load_scope_overlaps, has_blocking_overlap,
}
use the_pact.Coordination.Conflicts.Reports.{Contends, unblocked_lease}
use the_pact.Coordination.Exclusion.{Holds, Meets, BothShared, Exclusive, WellFormed}
use the_pact.Coordination.Start.{Claimant, claimant, new_intent, create_rows}
use the_pact.Coordination.Start.Rows.{Claims, insert_claims-Inserted}
use the_pact.Database.{Db}

-- What creating the rows does to the tables that exclusion speaks of.
pub record Adds (db : Db) (c : Claimant) (scopes : List Scope) (i : Intent) (e : Db) : Type 0 where
  pub new_id : i.id ≡ db.next_id
  pub same_id : c.intent_id ≡ db.next_id
  pub claims : List ScopeClaim
  pub with_claims : e.claims ≡ db.claims ++ claims
  pub with_intent : e.intents ≡ db.intents ++ i ∷ []
  pub each : (x : ScopeClaim) → In x claims → (s : Scope) × In s scopes × Claims c s x
  pub same_actors : e.actors ≡ db.actors
  pub same_agents : e.agents ≡ db.agents
  pub more_ids : db.next_id < e.next_id

pub create_rows-Adds :
    (db : Db) (now : Time) (project actor repo : Uuid) (input : StartInput)
    → Ensures
        (λ r.
          Adds db (claimant db now project repo input) input.scopes r.0 r.2
          × (r.0.responsible_agent_id ≡ actor))
        (create_rows db now project actor repo input)
unfolding create_rows new_intent
create_rows-Adds db now project actor repo input = Ensures-require _ _ _ λ fits.
    Ensures-bind _ _ λ r hr.
      let h =
        (insert_claims-Inserted _ (claimant db now project repo input) input.scopes).holds r hr in
      Ensures-ok _ (
        record {
          new_id = refl;
          same_id = refl;
          claims = r.0;
          with_claims = h.appended;
          with_intent = h.kept.same_intents;
          each = h.each;
          same_actors = h.kept.same_actors;
          same_agents = h.kept.same_agents;
          more_ids = omega (arith, h.kept.more_ids);
        },
        refl,
      )

old_intent :
    (intents : List Intent) (i j : Intent) (id : Uuid)
    → id < i.id
    → find (has_intent_id id) (intents ++ i ∷ []) ≡ some j
    → find (has_intent_id id) intents ≡ some j
old_intent intents i j id lt h = elim (Option-cases (find (has_intent_id id) intents)) [
  | inl e ↦ absurd (not_new (sym (find-append_none _ intents (i ∷ []) e) ∙ h))
  | inr (k, e) ↦ e ∙ (sym (find-append _ intents (i ∷ []) k e) ∙ h)
]
  where
    not_new : find (has_intent_id id) (i ∷ []) ≡ some j → ⊥
    not_new h =
        let (m, t) = find-In (has_intent_id id) (i ∷ []) j h in
        elim m [ inl e ↦ absurd (differs j (sym e) t) | inr m' ↦ m' ]
      where
        differs : (j : Intent) → i ≡ j → has_intent_id id j ≡ true → ⊥
        differs j e t = ground (arith, ap (λ (k : Intent). k.id) e)

module _ (db e : Db) (now : Time) (c : Claimant) (scopes : List Scope) (i : Intent)
    (adds : Adds db c scopes i e) (w : WellFormed db) where
  -- A lease of the old rows was one before.
  old_lease : (a : ScopeClaim) → In a db.claims → Holds e now a → Holds db now a
  old_lease a m h = record {
    listed = m;
    active = h.active;
    unexpired = h.unexpired;
    intent = h.intent;
    of_intent =
        old_intent db.intents i h.intent a.intent_id
          (rw adds.new_id
            (All-In (λ (d : ScopeClaim). d.intent_id < db.next_id) a db.claims w.claim_intents m))
          (rw (← adds.with_intent) h.of_intent);
    unfinished = h.unfinished;
  }

  where_from :
      (a : ScopeClaim) → Holds e now a → Holds db now a ⊎ ((s : Scope) × In s scopes × Claims c s a)
  where_from a h = elim (In-append a db.claims adds.claims (rw adds.with_claims at h.listed)) [
    | inl m ↦ inl (old_lease a m h)
    | inr m ↦ inr (adds.each a m)
  ]

  contends :
      (a b : ScopeClaim) (s : Scope)
      → Holds db now a
      → Claims c s b
      → Meets a b
      → Contends db now c.project c.repository_id s a
  contends a b s h k m =
      let (f, p, q) = m.common_path in
      record {
        lease = h;
        of_project = m.one_project ∙ k.of_project;
        of_repository = m.one_repository ∙ k.of_repository;
        common_path = (f, subst (λ t. Covers t f) k.of_scope q, p);
      }

  Meets-comm : (a b : ScopeClaim) → Meets a b → Meets b a
  Meets-comm a b m = record {
    other_intent = λ p. m.other_intent (sym p);
    one_project = sym m.one_project;
    one_repository = sym m.one_repository;
    common_path = let (f, p, q) = m.common_path in (f, q, p);
  }

  module _
      (free : has_blocking_overlap (load_scope_overlaps db now c.project c.repository_id scopes)
        ≡ false) where
    old_new :
        (a b : ScopeClaim) (s : Scope)
        → Holds db now a
        → In s scopes
        → Claims c s b
        → Meets a b
        → BothShared a b
    old_new a b s h ms k m =
        let (shared_s, shared_a) =
          unblocked_lease db now c.project c.repository_id scopes s a w free ms
            (contends a b s h k m) in
        (shared_a, ap (λ (t : Scope). t.mode) k.of_scope ∙ shared_s)

    pub Adds-Exclusive : Exclusive db now → Exclusive e now
    Adds-Exclusive x = record {
      apart = λ a b ha hb m. elim (where_from a ha) [
        | inl la ↦ elim (where_from b hb) [
          | inl lb ↦ x.apart a b la lb m
          | inr (s, ms, k) ↦ old_new a b s la ms k m
        ]
        | inr (s, ms, k) ↦ elim (where_from b hb) [
          | inl lb ↦ let (p, q) = old_new b a s lb ms k (Meets-comm a b m) in (q, p)
          | inr (t, mt, l) ↦ absurd (m.other_intent (k.of_intent ∙ sym l.of_intent))
        ]
      ];
    }

  pub Adds-WellFormed :
      ((b : _) × (find (has_actor_id i.responsible_agent_id) db.actors ≡ some b)) → WellFormed e
  Adds-WellFormed known = record {
    intent_ids = rw adds.with_intent (
        All-append _ db.intents (i ∷ [])
          (All-imp _ _ db.intents (λ j l. omega (arith, adds.more_ids)) w.intent_ids)
          (omega (arith, adds.new_id, adds.more_ids)));
    claim_intents = rw adds.with_claims (
        All-append _ db.claims adds.claims
          (All-imp _ _ db.claims (λ j l. omega (arith, adds.more_ids)) w.claim_intents)
          (All-intro _ adds.claims λ a m.
            let (s, ms, k) = adds.each a m in
            omega (arith, k.of_intent, adds.same_id, adds.more_ids)));
    responsible_known = λ j m.
        rw adds.same_actors (elim (In-append j db.intents (i ∷ []) (rw adds.with_intent at m)) [
          | inl old ↦ w.responsible_known j old
          | inr (inl new) ↦ rw new known
          | inr (inr never) ↦ absurd never
        ]);
    agents_known = λ a m. rw adds.same_actors (w.agents_known a (rw adds.same_agents at m));
  }
