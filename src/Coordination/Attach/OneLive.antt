-- ===== src/Coordination/Attach/OneLive.antt =====
-- An intent has one live worktree at most (the index worktrees_one_live_intent_idx).
use mathlib.Core.Path.{subst}
use the_pact.Prelude.{
  ℕ, ◌≤◌, ◌≡◌, refl, inl, inr, Bool, true, false, not, [], ◌∷◌, ◌++◌, arith, Bool-cases, ==_iff,
  and_elim, any_row, count_where, count_where-append, count_where_not_any, Ensures, Ensures-bind,
  Ensures-or_fail, Ensures-require, Ensures-ok, ok,
}
use the_pact.Text.{Text, text}
use the_pact.Identity.{Uuid, Time}
use the_pact.Coordination.Model.{Worktree, WorkspaceInput, WorkspaceResult}
use the_pact.Coordination.Commands.{Reservation, reserved, replayed}
use the_pact.Coordination.Commands.Frame.{
  SameWork, SameWork-trans, append_event-SameWork, complete_command-SameWork, Reserves,
  reserve_command-Reserves,
}
use the_pact.Coordination.Attach.{
  occupies, new_worktree, insert_worktree, run_attach, attach_workspace,
}
use the_pact.Database.{Db}

abbrev pub OneLive : Db → Type 0
OneLive db = (project intent : Uuid) → count_where (occupies project intent) db.worktrees ≤ 1

pub OneLive-SameWork : (d e : Db) → SameWork d e → OneLive d → OneLive e
OneLive-SameWork d e h x project intent = rw h.same_worktrees (x project intent)

-- The intents that the new row occupies are the one that it was inserted for.
new_worktree-occupies :
    (project intent id : Uuid) (now : Time) (p repo i : Uuid) (input : WorkspaceInput)
    → occupies project intent (new_worktree id now p repo i input) ≡ true
    → (p ≡ project) × (i ≡ intent)
unfolding occupies new_worktree
new_worktree-occupies project intent id now p repo i input h = (
  (==_iff _ _).0 (and_elim _ _ (and_elim _ _ h).0).0,
  (==_iff _ _).0 (and_elim _ _ (and_elim _ _ h).0).1,
)

count_row_one :
    (test : Worktree → Bool) (t : Worktree) → test t ≡ true → count_where test (t ∷ []) ≡ 1
unfolding count_where
count_row_one test t h = rw h refl

count_row_none :
    (test : Worktree → Bool) (t : Worktree) → test t ≡ false → count_where test (t ∷ []) ≡ 0
unfolding count_where
count_row_none test t h = rw h refl

insert_worktree-OneLive :
    (db : Db) (now : Time) (project repo intent : Uuid) (input : WorkspaceInput)
    → OneLive db
    → Ensures (λ r. OneLive r.1) (insert_worktree db now project repo intent input)
unfolding insert_worktree
insert_worktree-OneLive db now project repo intent input x = Ensures-require _ _ _ λ vacant.
    Ensures-ok _ λ p i.
      counted p i (new_worktree db.next_id now project repo intent input) refl
        (negated_test _ vacant)
  where
    negated_test : (b : Bool) → not b ≡ true → b ≡ false
    negated_test true h = cc
    negated_test false h = refl

    counted :
        (p i : Uuid) (t : Worktree)
        → t ≡ new_worktree db.next_id now project repo intent input
        → any_row (occupies project intent) db.worktrees ≡ false
        → count_where (occupies p i) (db.worktrees ++ t ∷ []) ≤ 1
    counted p i t e vacant = elim (Bool-cases (occupies p i t)) [
      | inl h ↦
          let (same_project, same_intent) =
            new_worktree-occupies p i db.next_id now project repo intent input
              (subst (λ u. occupies p i u ≡ true) e h) in
          let none_before = count_where_not_any (occupies project intent) db.worktrees vacant in
          omega (
            arith,
            count_where-append (occupies p i) db.worktrees (t ∷ []),
            count_row_one (occupies p i) t h,
            subst (λ n. count_where (occupies n i) db.worktrees ≡ 0) same_project
                (subst (λ n. count_where (occupies project n) db.worktrees ≡ 0) same_intent
                  none_before),
          )
      | inr h ↦ omega (
        arith,
        count_where-append (occupies p i) db.worktrees (t ∷ []),
        x p i,
        count_row_none (occupies p i) t h,
      )
    ]

run_attach-OneLive :
    (db : Db) (now : Time) (key : Text) (actor project repo intent : Uuid) (input : WorkspaceInput)
    (r : Reservation)
    → OneLive db
    → Reserves db r
    → Ensures (λ s. OneLive s.1) (run_attach db now key actor project repo intent input r)
unfolding run_attach
run_attach-OneLive db now key actor project repo intent input (replayed body) x h =
    Ensures-bind _ _ λ r hr. Ensures-ok _ x
run_attach-OneLive db now key actor project repo intent input (reserved command e) x h =
    Ensures-bind _ _ λ r hr. Ensures-bind _ _ λ v hv. Ensures-bind _ _ λ d hd. Ensures-ok _ (
      OneLive-SameWork r.1 d
        (SameWork-trans ((append_event-SameWork _ _).holds v hv)
          ((complete_command-SameWork _ _ _ _ _ _).holds d hd))
        ((insert_worktree-OneLive e now project repo intent input (OneLive-SameWork db e h x)).holds
          r hr))

-- Registering a worktree leaves every intent with one live worktree at most.
pub attach_workspace-OneLive :
    (db d : Db) (now : Time) (principal : Uuid) (allow_all : Bool) (intent : Uuid) (key : Text)
    (hash : ℕ) (input : WorkspaceInput) (result : WorkspaceResult)
    → OneLive db
    → attach_workspace db now principal allow_all intent key hash input ≡ ok (result, d)
    → OneLive d
unfolding attach_workspace
attach_workspace-OneLive db d now principal allow_all intent key hash input result x ran =
    (Ensures-or_fail _ _ _ λ i hi. Ensures-or_fail _ _ _ λ p hp. Ensures-or_fail _ _ _ λ repo hr.
        Ensures-bind _ _ λ actor ha. Ensures-require _ _ _ λ may. Ensures-bind _ _ λ r hv.
          run_attach-OneLive db now key actor i.project repo intent input r x (
            (reserve_command-Reserves db i.project (text "workspace.attach") key hash).holds r
              hv)).holds
      (result, d) ran
