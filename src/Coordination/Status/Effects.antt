-- ===== src/Coordination/Status/Effects.antt =====
-- What a change of status leaves behind, and stale changes.
use mathlib.Core.Path.{subst}
use the_pact.Prelude.{
  ℕ, suc, ◌≡◌, refl, sym, ap, ◌∙◌, inl, inr, Bool, true, false, Option, none, some, List, arith,
  Bool-cases, find, find-update_where, update_where, In, In-update_where, if◌then◌else◌, ok, All,
  All-intro,
}
use the_pact.Text.{Text}
use the_pact.Identity.{Uuid, Time}
use the_pact.Coordination.Model.{
  Intent, IntentStatus, StatusInput, StatusResult, ScopeClaim, Worktree,
}
use the_pact.Coordination.Conflicts.{has_intent_id}
use the_pact.Coordination.Lifecycle.{valid_transition, is_terminal_status, is_submitted}
use the_pact.Coordination.Status.{
  changed_intent, is_version_of, releases, release, claims_after, apply_status, update_status,
  freezes, freeze, archives, archive, worktrees_after,
}
use the_pact.Coordination.Status.Change.{Moved, changed_intent-Moved}
use the_pact.Coordination.Status.Outcome.{Changed, update_status-Outcome}
use the_pact.Database.{Db}

claims_after-released :
    (now : Time) (i : Intent) (status : IntentStatus) (cs : List ScopeClaim) (c : ScopeClaim)
    → is_terminal_status status ≡ true
    → In c (claims_after now i status cs)
    → releases i c ≡ false
unfolding claims_after release releases
claims_after-released now i status cs c done m =
    let (b, mb, eq) = In-update_where (releases i) (release now) cs c (rw done at m) in
    elim (Bool-cases (releases i b)) [
      | inl t ↦ subst (λ a. releases i a ≡ false) (sym (rw t at eq)) (ground arith)
      | inr t ↦ subst (λ a. releases i a ≡ false) (sym (rw t at eq)) t
    ]

worktrees_after-archived :
    (now : Time) (i : Intent) (status : IntentStatus) (ts : List Worktree) (t : Worktree)
    → is_terminal_status status ≡ true
    → In t (worktrees_after now i status ts)
    → archives i t ≡ false
unfolding worktrees_after archive archives
worktrees_after-archived now i status ts t done m =
    let (b, mb, eq) =
      In-update_where (archives i) (archive now) ts t (rw (not_submitted status done, done) at m) in
    elim (Bool-cases (archives i b)) [
      | inl h ↦ subst (λ a. archives i a ≡ false) (sym (rw h at eq)) (ground arith)
      | inr h ↦ subst (λ a. archives i a ≡ false) (sym (rw h at eq)) h
    ]
  where
    not_submitted : (s : IntentStatus) → is_terminal_status s ≡ true → is_submitted s ≡ false
    not_submitted IntentStatus.submitted h = absurd (cc)
    not_submitted IntentStatus.draft h = refl
    not_submitted IntentStatus.active h = refl
    not_submitted IntentStatus.blocked h = refl
    not_submitted IntentStatus.completed h = refl
    not_submitted IntentStatus.cancelled h = refl
    not_submitted IntentStatus.abandoned h = refl

worktrees_after-frozen :
    (now : Time) (i : Intent) (status : IntentStatus) (ts : List Worktree) (t : Worktree)
    → is_submitted status ≡ true
    → In t (worktrees_after now i status ts)
    → freezes i t ≡ false
unfolding worktrees_after freeze freezes
worktrees_after-frozen now i status ts t done m =
    let (b, mb, eq) = In-update_where (freezes i) (freeze now) ts t (rw done at m) in
    elim (Bool-cases (freezes i b)) [
      | inl h ↦ subst (λ a. freezes i a ≡ false) (sym (rw h at eq)) (ground arith)
      | inr h ↦ subst (λ a. freezes i a ≡ false) (sym (rw h at eq)) h
    ]

releases_changed :
    (now : Time) (input : StatusInput) (i : Intent) (c : ScopeClaim)
    → releases i c ≡ false
    → releases (changed_intent now input i) c ≡ false
unfolding releases changed_intent
releases_changed now input i c h = h

archives_changed :
    (now : Time) (input : StatusInput) (i : Intent) (t : Worktree)
    → archives i t ≡ false
    → archives (changed_intent now input i) t ≡ false
unfolding archives changed_intent
archives_changed now input i t h = h

freezes_changed :
    (now : Time) (input : StatusInput) (i : Intent) (t : Worktree)
    → freezes i t ≡ false
    → freezes (changed_intent now input i) t ≡ false
unfolding freezes changed_intent
freezes_changed now input i t h = h

-- A change that was made: the row had the expected version and a status from which the new one is
-- reached, and the changed row stands in its place.
pub record Applied (db : Db) (now : Time) (intent_id : Uuid) (input : StatusInput)
    (result : StatusResult) (d : Db) : Type 0 where
  pub row : Intent
  pub found : find (has_intent_id intent_id) db.intents ≡ some row
  pub expected : row.version ≡ input.expected_version
  pub allowed : valid_transition row.status input.status ≡ true
  pub moved : Moved now input row result.intent
  pub stored : find (has_intent_id intent_id) d.intents ≡ some result.intent

Changed-Applied :
    (db d : Db) (now : Time) (intent_id : Uuid) (input : StatusInput) (result : StatusResult)
    → Changed db now intent_id input result d
    → Applied db now intent_id input result d
unfolding apply_status changed_intent is_version_of
Changed-Applied db d now intent_id input result h = record {
  row = h.row;
  found = h.found;
  expected = h.expected;
  allowed = h.allowed;
  moved = rw h.returned (changed_intent-Moved now input h.row);
  stored =
      ap (find (has_intent_id intent_id)) (
        h.after.same_intents
        ∙ ap (update_where (is_version_of h.row) (changed_intent now input)) h.before.same_intents)
      ∙ (find-update_where (has_intent_id intent_id) (is_version_of h.row)
            (changed_intent now input) db.intents (λ x. refl)
          ∙ (rw h.found (itself h.row) ∙ ap some (sym h.returned)));
}
  where
    itself :
        (i : Intent)
        → some (if is_version_of i i then changed_intent now input i else i)
          ≡ some (changed_intent now input i)
    itself i = ground arith

module _ (db d : Db) (now : Time) (principal : Uuid) (allow_all : Bool) (intent_id : Uuid)
    (key : Text) (hash : ℕ) (input : StatusInput) (result : StatusResult)
    (ran : update_status db now principal allow_all intent_id key hash input ≡ ok (result, d))
    (fresh : result.is_replay ≡ false) where
  change : Changed db now intent_id input result d
  change =
      elim ((update_status-Outcome db now principal allow_all intent_id key hash input).holds
        (result, d) ran) [ inl (marked, same) ↦ absurd (differ (sym fresh ∙ marked)) | inr h ↦ h ]
    where
      differ : false ≡ true → ⊥
      differ e = cc

  -- A change of status that is no repetition: the row had the expected version and a status from
  -- which the new one is reached; the row that is returned, and stands in its place, has the new
  -- status, the next version, the reason, the summary if one was given, the time of the change,
  -- and a time of completion just if the new status is completed; its identity, title, goal,
  -- criteria, revision, actors and time of creation are the old ones.
  pub update_status-Applied : Applied db now intent_id input result d
  update_status-Applied = Changed-Applied db d now intent_id input result change

  -- A change to a terminal status that is no repetition leaves the intent no active claim and no
  -- worktree that is not archived.
  pub update_status-finished :
      is_terminal_status input.status ≡ true
      → All (λ c. releases result.intent c ≡ false) d.claims
        × All (λ t. archives result.intent t ≡ false) d.worktrees
  unfolding apply_status
  update_status-finished done = (
    rw change.after.same_claims (All-intro _ _ λ c m. no_claim c m),
    rw change.after.same_worktrees (All-intro _ _ λ t m. no_worktree t m),
  )
    where
      no_claim :
          (c : ScopeClaim)
          → In c (claims_after now change.row input.status change.work.claims)
          → releases result.intent c ≡ false
      no_claim c m = rw change.returned (
          releases_changed now input change.row c
            (claims_after-released now change.row input.status _ c done m))

      no_worktree :
          (t : Worktree)
          → In t (worktrees_after now change.row input.status change.work.worktrees)
          → archives result.intent t ≡ false
      no_worktree t m = rw change.returned (
          archives_changed now input change.row t
            (worktrees_after-archived now change.row input.status _ t done m))

  -- A change to submitted that is no repetition leaves the intent no worktree that is worked in.
  pub update_status-submitted :
      is_submitted input.status ≡ true → All (λ t. freezes result.intent t ≡ false) d.worktrees
  unfolding apply_status
  update_status-submitted done =
      rw change.after.same_worktrees (All-intro _ _ λ t m. no_worktree t m)
    where
      no_worktree :
          (t : Worktree)
          → In t (worktrees_after now change.row input.status change.work.worktrees)
          → freezes result.intent t ≡ false
      no_worktree t m = rw change.returned (
          freezes_changed now input change.row t
            (worktrees_after-frozen now change.row input.status _ t done m))

-- Of two changes that follow each other, neither a repetition, the second expects the version that
-- the first one made: no change is made on the ground of an older version.
pub update_status-next_version :
    (db d e : Db) (now later : Time) (principal other : Uuid) (allow_all allow : Bool)
    (intent_id : Uuid) (key key' : Text) (hash hash' : ℕ) (input input' : StatusInput)
    (result result' : StatusResult)
    → update_status db now principal allow_all intent_id key hash input ≡ ok (result, d)
    → result.is_replay ≡ false
    → update_status d later other allow intent_id key' hash' input' ≡ ok (result', e)
    → result'.is_replay ≡ false
    → input'.expected_version ≡ suc input.expected_version
update_status-next_version db d e now later principal other allow_all allow intent_id key key' hash
      hash' input input' result result' ran fresh ran' fresh' =
    let a =
      update_status-Applied db d now principal allow_all intent_id key hash input result ran
        fresh in
    let b =
      update_status-Applied d e later other allow intent_id key' hash' input' result' ran' fresh' in
    omega (arith, a.expected, b.expected, a.moved.next_version, ap version (sym a.stored ∙ b.found))
  where
    version : Option Intent → ℕ
    version none = 0
    version (some i) = i.version
