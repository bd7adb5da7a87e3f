-- ===== src/Coordination/Status/OneLive.antt =====
-- A change of status and the live worktrees of intents.
use the_pact.Prelude.{
  ℕ, ◌≤◌, ◌≡◌, refl, inl, inr, Bool, true, List, arith, Bool-cases, count_where,
  count_where-update_where, ok,
}
use the_pact.Text.{Text}
use the_pact.Identity.{Uuid, Time}
use the_pact.Coordination.Model.{
  Intent, IntentStatus, Worktree, WorktreeStatus, StatusInput, StatusResult,
}
use the_pact.Coordination.Lifecycle.{is_terminal_status, is_submitted}
use the_pact.Coordination.Attach.{occupies, is_live_worktree}
use the_pact.Coordination.Status.{
  freezes, freeze, archives, archive, is_workable, worktrees_after, apply_status, update_status,
}
use the_pact.Coordination.Status.Outcome.{update_status-Outcome}
use the_pact.Coordination.Attach.OneLive.{OneLive, OneLive-SameWork}
use the_pact.Database.{Db}

-- Frozen worktrees stay live, archived ones are not.
worktrees_after-count :
    (now : Time) (i : Intent) (status : IntentStatus) (ts : List Worktree) (project intent : Uuid)
    → count_where (occupies project intent) (worktrees_after now i status ts)
      ≤ count_where (occupies project intent) ts
unfolding worktrees_after occupies freezes freeze archive
worktrees_after-count now i status ts project intent = elim (Bool-cases (is_submitted status)) [
  | inl s ↦ rw s (
      count_where-update_where (occupies project intent) (freezes i) (freeze now) ts
        λ t h o. frozen t h o)
  | inr s ↦ elim (Bool-cases (is_terminal_status status)) [
    | inl e ↦
        rw (s, e)
          (count_where-update_where (occupies project intent) (archives i) (archive now) ts
            λ t h o. absurd (archived t o))
    | inr e ↦ rw (s, e) (omega arith)
  ]
]
  where
    workable_live : (s : WorktreeStatus) → is_workable s ≡ true → is_live_worktree s ≡ true
    workable_live WorktreeStatus.provisioning h = refl
    workable_live WorktreeStatus.ready h = refl
    workable_live WorktreeStatus.active h = refl
    workable_live _ h = absurd (cc)

    frozen :
        (t : Worktree)
        → freezes i t ≡ true
        → occupies project intent (freeze now t) ≡ true
        → occupies project intent t ≡ true
    frozen t h o = ground (arith, workable_live t.status)

    archived : (t : Worktree) → occupies project intent (archive now t) ≡ true → ⊥
    archived t o = ground arith

-- A change of status leaves every intent with one live worktree at most, if there was no more
-- before.
pub update_status-OneLive :
    (db d : Db) (now : Time) (principal : Uuid) (allow_all : Bool) (intent_id : Uuid) (key : Text)
    (hash : ℕ) (input : StatusInput) (result : StatusResult)
    → OneLive db
    → update_status db now principal allow_all intent_id key hash input ≡ ok (result, d)
    → OneLive d
unfolding apply_status
update_status-OneLive db d now principal allow_all intent_id key hash input result x ran =
    elim ((update_status-Outcome db now principal allow_all intent_id key hash input).holds
      (result, d) ran) [
        | inl (marked, same) ↦ rw same x
        | inr h ↦ OneLive-SameWork (apply_status h.work now h.row input) d h.after λ p i. omega (
          arith,
          worktrees_after-count now h.row input.status h.work.worktrees p i,
          OneLive-SameWork db h.work h.before x p i,
        )
      ]
