-- ===== src/Coordination/Start/Rows.antt =====
-- The rows that starting work adds.
use mathlib.Core.List.{append-nil, append_assoc}
use the_pact.Prelude.{
  ◌+◌, ◌≤◌, ◌≡◌, refl, sym, ap, ◌∙◌, inl, inr, true, Option, none, some, List, [], ◌∷◌, ◌++◌, arith,
  find, find-In, insert, In, ==_iff, Ensures, Ensures-bind, Ensures-require, Ensures-ok,
}
use the_pact.Identity.{Uuid, Time}
use the_pact.Coordination.Model.{
  Scope, ScopeKind, repository, path, file, ResourceRef, ScopeClaim, ClaimStatus, StartInput,
}
use the_pact.Coordination.Conflicts.{claim_scope}
use the_pact.Coordination.Start.{
  kind_eq, same_resource, add_resource, upsert_resource_ref, Claimant, new_claim, insert_claim,
  insert_claims, claimant, new_intent, create_rows,
}
use the_pact.Database.{Db}

-- `e` is `d` but for resources and claims, whose identifiers are new.
pub record SameButClaims (d e : Db) : Type 0 where
  pub same_intents : e.intents ≡ d.intents
  pub same_actors : e.actors ≡ d.actors
  pub same_agents : e.agents ≡ d.agents
  pub same_sessions : e.sessions ≡ d.sessions
  pub same_worktrees : e.worktrees ≡ d.worktrees
  pub same_handoffs : e.handoffs ≡ d.handoffs
  pub same_projects : e.projects ≡ d.projects
  pub same_commands : e.commands ≡ d.commands
  pub same_events : e.events ≡ d.events
  pub more_ids : d.next_id ≤ e.next_id

SameButClaims-trans : {d e f : Db} → SameButClaims d e → SameButClaims e f → SameButClaims d f
SameButClaims-trans h k = ground arith

pub kind_eq_sound : (k j : ScopeKind) → kind_eq k j ≡ true → k ≡ j
kind_eq_sound repository repository h = refl
kind_eq_sound path path h = refl
kind_eq_sound file file h = refl
kind_eq_sound _ _ h = cc

SameButClaims-refl : (d : Db) → SameButClaims d d
SameButClaims-refl d = ground arith

same_resource_sound :
    (project repo : Uuid) (s : Scope) (r : ResourceRef)
    → same_resource project repo s r ≡ true
    → (r.kind ≡ s.kind) × (r.repository_id ≡ repo)
unfolding same_resource
same_resource_sound project repo s r h =
    (kind_eq_sound r.kind s.kind (ground arith), (==_iff _ _).0 (ground arith))

-- The resource that a claim on the scope gets.
record Resource (c : Claimant) (s : Scope) (db : Db) (r : ResourceRef) (e : Db) : Type 0 where
  kept : SameButClaims db e
  same_claims : e.claims ≡ db.claims
  right_kind : r.kind ≡ s.kind
  right_locator : r.locator ≡ s.locator
  right_repository : r.repository_id ≡ c.repository_id

add_resource-Resource :
    (db : Db) (c : Claimant) (s : Scope) (row : Option ResourceRef)
    → find (same_resource c.project c.repository_id s) db.resources ≡ row
    → Resource c s db
        (add_resource db c.project c.repository_id s row).0
        (add_resource db c.project c.repository_id s row).1
unfolding add_resource
add_resource-Resource db c s none e = ground arith
add_resource-Resource db c s (some r) e =
    let (m, t) = find-In _ _ r e in
    let (right_kind, right_repository) = same_resource_sound c.project c.repository_id s r t in
    record {
      kept = SameButClaims-refl db;
      same_claims = refl;
      right_kind = right_kind;
      right_locator = refl;
      right_repository = right_repository;
    }

-- One claim, on the scope that was asked for, at the end of the table.
pub record Claims (c : Claimant) (s : Scope) (x : ScopeClaim) : Type 0 where
  pub of_intent : x.intent_id ≡ c.intent_id
  pub of_session : x.session_id ≡ c.session_id
  pub of_project : x.project ≡ c.project
  pub of_repository : x.resource.repository_id ≡ c.repository_id
  pub of_scope : claim_scope x ≡ s
  pub in_force : x.status ≡ ClaimStatus.active
  pub runs : x.expires_at ≡ c.now + 60000000

pub record Inserted (c : Claimant) (scopes : List Scope) (db : Db) (claims : List ScopeClaim)
    (e : Db) : Type 0 where
  pub kept : SameButClaims db e
  pub appended : e.claims ≡ db.claims ++ claims
  pub each : (x : ScopeClaim) → In x claims → (s : Scope) × In s scopes × Claims c s x

new_claim-Claims :
    (c : Claimant) (id : Uuid) (r : ResourceRef) (s : Scope)
    → r.kind ≡ s.kind
    → r.locator ≡ s.locator
    → r.repository_id ≡ c.repository_id
    → Claims c s (new_claim c id r s)
unfolding new_claim
new_claim-Claims c id r s k l p = record {
  of_intent = refl;
  of_session = refl;
  of_project = refl;
  of_repository = p;
  of_scope = λ i. record { kind = k i; locator = l i; mode = s.mode };
  in_force = refl;
  runs = refl;
}

-- What the insertion of one claim does.
abbrev Appends : Db → Claimant → Scope → ScopeClaim × Db → Type 0
Appends db c s r = SameButClaims db r.1 × (r.1.claims ≡ db.claims ++ r.0 ∷ []) × Claims c s r.0

insert_claim-Appends :
    (db : Db) (c : Claimant) (s : Scope) → Ensures (Appends db c s) (insert_claim db c s)
unfolding insert_claim upsert_resource_ref
insert_claim-Appends db c s =
    let r =
      add_resource-Resource db c s (find (same_resource c.project c.repository_id s) db.resources)
        refl in
    Ensures-require _ _ _ λ free. Ensures-ok _ (
      SameButClaims-trans r.kept (ground arith),
      ap (insert _) r.same_claims,
      new_claim-Claims c _ _ s r.right_kind r.right_locator r.right_repository,
    )

Inserted-cons :
    (c : Claimant) (s : Scope) (rest : List Scope) (db d e : Db) (x : ScopeClaim)
    (claims : List ScopeClaim)
    → Appends db c s (x, d)
    → Inserted c rest d claims e
    → Inserted c (s ∷ rest) db (x ∷ claims) e
Inserted-cons c s rest db d e x claims first more = record {
  kept = SameButClaims-trans first.0 more.kept;
  appended = more.appended ∙ rw first.1 (append_assoc db.claims _ _);
  each = λ y m. elim m [
    | inl e ↦ (s, inl refl, rw e first.2)
    | inr m' ↦ let (t, mt, h) = more.each y m' in (t, inr mt, h)
  ];
}

pub insert_claims-Inserted :
    (db : Db) (c : Claimant) (scopes : List Scope)
    → Ensures (λ r. Inserted c scopes db r.0 r.1) (insert_claims db c scopes)
unfolding insert_claims
insert_claims-Inserted db c [] = Ensures-ok _ record {
  kept = SameButClaims-refl db;
  appended = sym (append-nil db.claims);
  each = λ x m. absurd m;
}
insert_claims-Inserted db c (s ∷ rest) = Ensures-bind _ _ λ r hr. Ensures-bind _ _ λ q hq.
    Ensures-ok _ (
      Inserted-cons c s rest db r.1 q.1 r.0 q.0 ((insert_claim-Appends db c s).holds r hr)
        ((insert_claims-Inserted r.1 c rest).holds q hq))

pub create_rows-commands :
    (db : Db) (now : Time) (project actor repo : Uuid) (input : StartInput)
    → Ensures (λ r. r.2.commands ≡ db.commands) (create_rows db now project actor repo input)
unfolding create_rows
create_rows-commands db now project actor repo input = Ensures-require _ _ _ λ fits.
    Ensures-bind _ _ λ r hr. Ensures-ok _ (
      ((insert_claims-Inserted _ (claimant db now project repo input) input.scopes).holds r
        hr).kept.same_commands)

pub create_rows-projects :
    (db : Db) (now : Time) (project actor repo : Uuid) (input : StartInput)
    → Ensures
        (λ r. (r.2.projects ≡ db.projects) × (r.0.project ≡ project))
        (create_rows db now project actor repo input)
unfolding create_rows new_intent
create_rows-projects db now project actor repo input = Ensures-require _ _ _ λ fits.
    Ensures-bind _ _ λ r hr. Ensures-ok _ (
      ((insert_claims-Inserted _ (claimant db now project repo input) input.scopes).holds r
          hr).kept.same_projects,
      refl,
    )
