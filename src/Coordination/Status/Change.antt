-- ===== src/Coordination/Status/Change.antt =====
-- What a change of status makes of the row of the intent.
use the_pact.Prelude.{suc, ◌≡◌, ◌≢◌, refl, Option, none, some, [], ◌∷◌, arith, if◌then◌else◌}
use the_pact.Text.{Text}
use the_pact.Identity.{Time}
use the_pact.Coordination.Model.{Intent, IntentStatus, StatusInput}
use the_pact.Coordination.Lifecycle.{is_completed}
use the_pact.Coordination.Status.{changed_intent, summary_or}

-- An intent before and behind a change of status: what is kept, and what becomes of the rest.
pub record Moved (now : Time) (input : StatusInput) (old new : Intent) : Type 0 where
  pub same_id : new.id ≡ old.id
  pub same_project : new.project ≡ old.project
  pub same_title : new.title ≡ old.title
  pub same_goal : new.goal ≡ old.goal
  pub same_criteria : new.success_criteria ≡ old.success_criteria
  pub same_base : new.base_revision ≡ old.base_revision
  pub same_responsible : new.responsible_agent_id ≡ old.responsible_agent_id
  pub same_creator : new.created_by_actor_id ≡ old.created_by_actor_id
  pub same_created_at : new.created_at ≡ old.created_at
  pub new_status : new.status ≡ input.status
  pub next_version : new.version ≡ suc old.version
  pub with_reason : new.status_detail ≡ some input.reason
  pub at_now : (new.updated_at ≡ now) × (new.status_changed_at ≡ now)
  pub kept_summary : input.summary ≡ [] → new.summary ≡ old.summary
  pub given_summary : (input.summary ≢ []) → new.summary ≡ some input.summary
  pub completed_now : new.status ≡ IntentStatus.completed → new.completed_at ≡ some now
  pub never_completed : (new.status ≢ IntentStatus.completed) → new.completed_at ≡ none

summary_or-kept : (s : Text) (old : Option Text) → s ≡ [] → summary_or s old ≡ old
summary_or-kept [] old e = refl
summary_or-kept (c ∷ s) old e = absurd (cc)

summary_or-given : (s : Text) (old : Option Text) → (s ≢ []) → summary_or s old ≡ some s
summary_or-given [] old n = absurd (n refl)
summary_or-given (c ∷ s) old n = refl

completion :
    (now : Time) (s : IntentStatus)
    → (s ≢ IntentStatus.completed)
    → (if is_completed s then some now else none) ≡ none
completion now IntentStatus.completed n = absurd (n refl)
completion now IntentStatus.draft n = refl
completion now IntentStatus.active n = refl
completion now IntentStatus.blocked n = refl
completion now IntentStatus.submitted n = refl
completion now IntentStatus.cancelled n = refl
completion now IntentStatus.abandoned n = refl

pub changed_intent-Moved :
    (now : Time) (input : StatusInput) (i : Intent) → Moved now input i (changed_intent now input i)
unfolding changed_intent
changed_intent-Moved now input i = record {
  same_id = refl;
  same_project = refl;
  same_title = refl;
  same_goal = refl;
  same_criteria = refl;
  same_base = refl;
  same_responsible = refl;
  same_creator = refl;
  same_created_at = refl;
  new_status = refl;
  next_version = omega arith;
  with_reason = refl;
  at_now = (refl, refl);
  kept_summary = summary_or-kept input.summary i.summary;
  given_summary = summary_or-given input.summary i.summary;
  completed_now = λ done. rw done refl;
  never_completed = completion now input.status;
}
