-- ===== src/Coordination/Status/Safety.antt =====
-- What a change of status does to the rows of the intent.
use mathlib.Core.Path.{subst}
use the_pact.Prelude.{
  ℕ, ◌<◌, ◌≡◌, refl, sym, ap, ◌∙◌, inl, inr, Bool, true, false, Option, none, some, List, arith,
  Bool-cases, ==_iff, and_elim, find, find-In, find-update_where, update_where, In, In-update_where,
  if◌then◌else◌, ok, All-In, All-intro,
}
use the_pact.Text.{Text}
use the_pact.Identity.{Uuid, Time}
use the_pact.Coordination.Model.{Intent, IntentStatus, StatusInput, StatusResult, ScopeClaim}
use the_pact.Coordination.Conflicts.{has_intent_id, has_actor_id, is_active_claim}
use the_pact.Coordination.Lifecycle.{valid_transition, is_terminal_status}
use the_pact.Coordination.Lifecycle.Reachable.{terminal_iff_stuck}
use the_pact.Coordination.Exclusion.{Exclusive, WellFormed}
use the_pact.Coordination.Exclusion.Keeps.{WellFormed-SameWork, Exclusive-SameWork}
use the_pact.Coordination.Exclusion.Narrower.{Narrower, Exclusive-Narrower}
use the_pact.Coordination.Status.{
  changed_intent, is_version_of, releases, release, claims_after, apply_status, update_status,
}
use the_pact.Coordination.Status.Outcome.{Outcome, update_status-Outcome}
use the_pact.Database.{Db}

-- A claim behind the change is one from before, perhaps released.
claims_after-back :
    (now : Time) (i : Intent) (status : IntentStatus) (cs : List ScopeClaim) (c : ScopeClaim)
    → In c (claims_after now i status cs)
    → is_active_claim c.status ≡ true
    → In c cs
unfolding claims_after release
claims_after-back now i status cs c m active = elim (Bool-cases (is_terminal_status status)) [
  | inl done ↦
      let (b, mb, eq) = In-update_where (releases i) (release now) cs c (rw done at m) in
      elim (Bool-cases (releases i b)) [
        | inl t ↦ absurd (
            released
              (sym (ap (λ (x : ScopeClaim). is_active_claim x.status) (rw t at eq)) ∙ active))
        | inr t ↦ rw (rw t at eq) mb
      ]
  | inr going ↦ rw going at m
]
  where
    released : false ≡ true → ⊥
    released e = cc

module _ (db : Db) (now : Time) (i : Intent) (input : StatusInput) (intent_id : Uuid)
    (found : find (has_intent_id intent_id) db.intents ≡ some i)
    (allowed : valid_transition i.status input.status ≡ true) where
  is_unfinished : is_terminal_status i.status ≡ false
  is_unfinished = elim (Bool-cases (is_terminal_status i.status)) [
    | inl done ↦ absurd (stuck (sym ((terminal_iff_stuck i.status).0 done input.status) ∙ allowed))
    | inr t ↦ t
  ]
    where
      stuck : false ≡ true → ⊥
      stuck e = cc

  one_row :
      (id : Uuid) (k : Intent)
      → find (has_intent_id id) db.intents ≡ some k
      → is_version_of i k ≡ true
      → some i ≡ some k
  unfolding is_version_of
  one_row id k e t =
      let of_k = (==_iff _ _).0 (find-In _ _ k e).1 in
      let of_i = (==_iff _ _).0 (find-In _ _ i found).1 in
      let same = (==_iff _ _).0 (and_elim _ _ t).0 in
      sym found ∙ (ap (λ n. find (has_intent_id n) db.intents) (sym of_i ∙ (sym same ∙ of_k)) ∙ e)

  -- The intent of a lease was unfinished before.
  unfinished_before :
      (id : Uuid) (j k : Intent)
      → find (has_intent_id id) db.intents ≡ some k
      → some (if is_version_of i k then changed_intent now input k else k) ≡ some j
      → is_terminal_status j.status ≡ false
      → is_terminal_status k.status ≡ false
  unfinished_before id j k e h unfinished = elim (Bool-cases (is_version_of i k)) [
    | inl t ↦
        subst
          (λ (o : Option Intent). elim o [
            | none ↦ Unit
            | some x ↦ is_terminal_status x.status ≡ false
          ])
          (one_row id k e t) is_unfinished
    | inr t ↦
        subst
          (λ (o : Option Intent). elim o [
            | none ↦ Unit
            | some x ↦ is_terminal_status x.status ≡ false
          ])
          (sym (rw t at h)) unfinished
  ]

  found_before :
      (id : Uuid) (j : Intent) (o : Option Intent)
      → find (has_intent_id id) db.intents ≡ o
      → (elim o [
        | none ↦ none
        | some x ↦ some (if is_version_of i x then changed_intent now input x else x)
      ])
        ≡ some j
      → is_terminal_status j.status ≡ false
      → (k : Intent) × (find (has_intent_id id) db.intents ≡ some k)
        × (is_terminal_status k.status ≡ false)
  found_before id j none e h unfinished = absurd (cc)
  found_before id j (some k) e h unfinished = (k, e, unfinished_before id j k e h unfinished)

  intent_before :
      (id : Uuid) (j : Intent)
      → find
          (has_intent_id id)
          (update_where (is_version_of i) (changed_intent now input) db.intents)
        ≡ some j
      → is_terminal_status j.status ≡ false
      → (k : Intent) × (find (has_intent_id id) db.intents ≡ some k)
        × (is_terminal_status k.status ≡ false)
  unfolding changed_intent
  intent_before id j h unfinished =
      found_before id j (find (has_intent_id id) db.intents) refl
        (sym (
            find-update_where (has_intent_id id) (is_version_of i) (changed_intent now input)
              db.intents (λ x. refl))
          ∙ h)
        unfinished

  apply_status-Narrower : Narrower db (apply_status db now i input) now
  unfolding apply_status
  apply_status-Narrower = record {
    back = λ c h.
        let (k, hk, unfinished) = intent_before c.intent_id h.intent h.of_intent h.unfinished in
        (
          c,
          record {
            listed = claims_after-back now i input.status db.claims c h.listed h.active;
            active = h.active;
            unexpired = h.unexpired;
            intent = k;
            of_intent = hk;
            unfinished = unfinished;
          },
          record { one_intent = refl; one_project = refl; one_resource = refl; one_mode = refl },
        );
  }

below_after :
    (db : Db) (now : Time) (i : Intent) (input : StatusInput)
    → WellFormed db
    → WellFormed (apply_status db now i input)
unfolding apply_status changed_intent release claims_after
below_after db now i input w = record {
  intent_ids = All-intro _ _ λ j m.
      let (k, mk, eq) =
        In-update_where (is_version_of i) (changed_intent now input) db.intents j m in
      omega (
        arith,
        All-In _ k db.intents w.intent_ids mk,
        ap (λ (x : Intent). x.id) eq,
        kept_id k (is_version_of i k),
      );
  claim_intents = All-intro _ _ λ c m. old_claim c m;
  responsible_known = λ j m.
      let (k, mk, eq) =
        In-update_where (is_version_of i) (changed_intent now input) db.intents j m in
      subst (λ (n : Uuid). (a : _) × (find (has_actor_id n) db.actors ≡ some a))
        (sym (ap (λ (x : Intent). x.responsible_agent_id) eq ∙ kept_actor k (is_version_of i k)))
        (w.responsible_known k mk);
  agents_known = w.agents_known;
}
  where
    kept_id : (k : Intent) (t : Bool) → (if t then changed_intent now input k else k).id ≡ k.id
    kept_id k true = refl
    kept_id k false = refl

    kept_actor :
        (k : Intent) (t : Bool)
        → (if t then changed_intent now input k else k).responsible_agent_id
          ≡ k.responsible_agent_id
    kept_actor k true = refl
    kept_actor k false = refl

    kept_intent :
        (c : ScopeClaim) (t : Bool) → (if t then release now c else c).intent_id ≡ c.intent_id
    kept_intent c true = refl
    kept_intent c false = refl

    old_claim :
        (c : ScopeClaim)
        → In c (claims_after now i input.status db.claims)
        → c.intent_id < db.next_id
    old_claim c m = elim (Bool-cases (is_terminal_status input.status)) [
      | inl done ↦
          let (b, mb, eq) = In-update_where (releases i) (release now) db.claims c (rw done at m) in
          omega (
            arith,
            All-In _ b db.claims w.claim_intents mb,
            ap (λ (x : ScopeClaim). x.intent_id) eq,
            kept_intent b (releases i b),
          )
      | inr going ↦ All-In _ c db.claims w.claim_intents (rw going at m)
    ]

module _ (db d : Db) (now : Time) (principal : Uuid) (allow_all : Bool) (intent_id : Uuid)
    (key : Text) (hash : ℕ) (input : StatusInput) (result : StatusResult)
    (ran : update_status db now principal allow_all intent_id key hash input ≡ ok (result, d)) where
  outcome : Outcome db now intent_id input (result, d)
  outcome =
      (update_status-Outcome db now principal allow_all intent_id key hash input).holds (result, d)
        ran

  -- A change of status, whatever it is, keeps the exclusion of scopes.
  pub update_status-Exclusive : Exclusive db now → Exclusive d now
  update_status-Exclusive x = elim outcome [
    | inl (marked, same) ↦ rw same x
    | inr h ↦ Exclusive-SameWork (apply_status h.work now h.row input) d now h.after (
        Exclusive-Narrower h.work _ now
          (apply_status-Narrower h.work now h.row input intent_id (rw h.before.same_intents h.found)
            h.allowed)
          (Exclusive-SameWork db h.work now h.before x))
  ]

  pub update_status-WellFormed : WellFormed db → WellFormed d
  update_status-WellFormed w = elim outcome [
    | inl (marked, same) ↦ rw same w
    | inr h ↦
        WellFormed-SameWork (apply_status h.work now h.row input) d h.after
          (below_after h.work now h.row input (WellFormed-SameWork db h.work h.before w))
  ]
