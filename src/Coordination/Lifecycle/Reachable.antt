-- ===== src/Coordination/Lifecycle/Reachable.antt =====
-- Histories of one intent.
use the_pact.Prelude.{◌≡◌, refl, sym, ◌↔◌, ◌⊎◌, inl, inr, true, false, List, [], ◌∷◌, In}
use the_pact.Coordination.Model.{IntentStatus}
use the_pact.Coordination.Lifecycle.{valid_transition, is_terminal_status}

-- The changes of status that the code lets through, one after the other.
pub data History : IntentStatus → List IntentStatus → IntentStatus → Type 0 where
  start : {s : IntentStatus} → History s [] s
  change :
      {s t u : IntentStatus} {mid : List IntentStatus}
      → valid_transition s t ≡ true
      → History t mid u
      → History s (t ∷ mid) u

-- Terminal states are exactly the states that nothing follows.
pub terminal_iff_stuck :
    (s : IntentStatus)
    → (is_terminal_status s ≡ true) ↔ ((t : IntentStatus) → valid_transition s t ≡ false)
unfolding valid_transition
terminal_iff_stuck IntentStatus.draft = ((λ h. cc), (λ h. cc (h IntentStatus.active)))
terminal_iff_stuck IntentStatus.active = ((λ h. cc), (λ h. cc (h IntentStatus.blocked)))
terminal_iff_stuck IntentStatus.blocked = ((λ h. cc), (λ h. cc (h IntentStatus.active)))
terminal_iff_stuck IntentStatus.submitted = ((λ h. cc), (λ h. cc (h IntentStatus.completed)))
terminal_iff_stuck IntentStatus.completed = ((λ h t. refl), (λ h. refl))
terminal_iff_stuck IntentStatus.cancelled = ((λ h t. refl), (λ h. refl))
terminal_iff_stuck IntentStatus.abandoned = ((λ h t. refl), (λ h. refl))

submitted_before_completed :
    (s : IntentStatus)
    → valid_transition s IntentStatus.completed ≡ true
    → s ≡ IntentStatus.submitted
unfolding valid_transition
submitted_before_completed IntentStatus.submitted h = refl
submitted_before_completed _ h = cc

-- An intent that was not completed to begin with is completed only by way of submitted, which may
-- be where it began.
pub completed_after_submitted :
    {s : IntentStatus} {mid : List IntentStatus}
    → History s mid IntentStatus.completed
    → (s ≡ IntentStatus.completed) ⊎ In IntentStatus.submitted (s ∷ mid)
completed_after_submitted h = after h refl
  where
    after :
        {s u : IntentStatus} {mid : List IntentStatus}
        → History s mid u
        → u ≡ IntentStatus.completed
        → (s ≡ IntentStatus.completed) ⊎ In IntentStatus.submitted (s ∷ mid)
    after start e = inl e
    after (change {s = s} {t = t} v rest) e = elim (after rest e) [
      | inl done ↦ inr (inl (sym (submitted_before_completed s (rw (← done) v))))
      | inr m ↦ inr (inr m)
    ]
