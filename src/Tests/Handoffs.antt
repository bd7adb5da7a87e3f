-- ===== src/Tests/Handoffs.antt =====
-- The theorems on handoffs, at runs of the commands.
use the_pact.Prelude.{◌≡◌, refl, true, false, arith, count_where}
use the_pact.Text.{text}
use the_pact.Coordination.Handoff.OneOffer.{OneOffer, offer_handoff-OneOffer}
use the_pact.Coordination.Handoff.Answers.{
  update_handoff_status_once, update_handoff_status-OneOffer,
}
use the_pact.Tests.Runs.{rest_of_work, accepting, started, offered, taken, taken_again}

started-OneOffer : OneOffer started.1
unfolding started count_where
started-OneOffer = λ p i. omega arith

offer_handoff-OneOffer_example : OneOffer offered.1
offer_handoff-OneOffer_example =
    offer_handoff-OneOffer started.1 offered.1 2000000 20 false 1 101 (text "k7") 13 rest_of_work
      offered.0 started-OneOffer offered.2

update_handoff_status-OneOffer_example : OneOffer taken.1
update_handoff_status-OneOffer_example =
    update_handoff_status-OneOffer offered.1 taken.1 3000000 21 false 1 101 106 (text "k8") 14
      accepting taken.0
      (offer_handoff-OneOffer started.1 offered.1 2000000 20 false 1 101 (text "k7") 13 rest_of_work
        offered.0 started-OneOffer offered.2)
      taken.2

update_handoff_status_once_example : taken_again.0.is_replay ≡ true
unfolding taken
update_handoff_status_once_example =
    update_handoff_status_once offered.1 taken.1 3000000 4000000 21 21 false false 1 101 106
      (text "k8") (text "k8") 14 14 accepting accepting taken.0 taken_again.0 taken_again.1 refl
      taken.2 refl taken_again.2
