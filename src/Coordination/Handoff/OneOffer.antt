-- ===== src/Coordination/Handoff/OneOffer.antt =====
-- An intent has one open offer of a handoff at most (the index handoffs_one_offered_intent_idx).
use mathlib.Core.Path.{subst}
use the_pact.Prelude.{
  ℕ, ◌≤◌, ◌≡◌, refl, ◌∙◌, inl, inr, Bool, true, false, not, Option, none, some, List, [], ◌∷◌, ◌++◌,
  arith, Bool-cases, ==_iff, and_elim, update_where, any_row, count_where, count_where-append,
  count_where_not_any, count_where-update_where, Ensures, Ensures-bind, Ensures-or_fail,
  Ensures-require, Ensures-ok, ok,
}
use the_pact.Text.{Text, text}
use the_pact.Identity.{Uuid, Time}
use the_pact.Coordination.Model.{Intent, Handoff, OfferHandoffInput, HandoffResult}
use the_pact.Coordination.Commands.{Reservation, reserved, replayed}
use the_pact.Coordination.Commands.Frame.{
  append_event-SameWork, complete_command-SameWork, Reserves, reserve_command-Reserves,
}
use the_pact.Coordination.Handoff.{open_offer}
use the_pact.Coordination.Handoff.Offer.{
  has_lapsed, expire, expire_previous, tell_expired, new_handoff, insert_handoff, link_records,
  run_offer, offer_handoff,
}
use the_pact.Database.{Db}

abbrev OneOfferIn : List Handoff → Type 0
OneOfferIn hs = (project intent : Uuid) → count_where (open_offer project intent) hs ≤ 1

abbrev pub OneOffer : Db → Type 0
OneOffer db = OneOfferIn db.handoffs

has_lapsed-count :
    (now : Time) (p i project intent : Uuid) (hs : List Handoff)
    → count_where (open_offer p i) (update_where (has_lapsed now project intent) (expire now) hs)
      ≤ count_where (open_offer p i) hs
unfolding open_offer expire
has_lapsed-count now p i project intent hs =
    count_where-update_where (open_offer p i) (has_lapsed now project intent) (expire now) hs
      λ h t o. absurd (closed h o)
  where
    closed : (h : Handoff) → open_offer p i (expire now h) ≡ true → ⊥
    closed h o = ground arith

tell_expired-handoffs :
    (db : Db) (now : Time) (command actor session : Uuid) (i : Intent) (o : Option Handoff)
    → Ensures (λ (d : Db). d.handoffs ≡ db.handoffs) (tell_expired db now command actor session i o)
unfolding tell_expired
tell_expired-handoffs db now command actor session i none = Ensures-ok _ refl
tell_expired-handoffs db now command actor session i (some h) = Ensures-bind _ _ λ v hv.
    Ensures-bind _ _ λ r hr. Ensures-ok _ ((append_event-SameWork _ _).holds r hr).same_handoffs

expire_previous-handoffs :
    (db : Db) (now : Time) (command actor session : Uuid) (i : Intent)
    → Ensures
        (λ (d : Db).
          d.handoffs ≡ update_where (has_lapsed now i.project i.id) (expire now) db.handoffs)
        (expire_previous db now command actor session i)
unfolding expire_previous
expire_previous-handoffs db now command actor session i =
    tell_expired-handoffs _ now command actor session i _

link_records-handoffs :
    (db : Db) (workspace handoff : Uuid) (ids : List Uuid)
    → Ensures (λ (d : Db). d.handoffs ≡ db.handoffs) (link_records db workspace handoff ids)
unfolding link_records
link_records-handoffs db workspace handoff [] = Ensures-ok _ refl
link_records-handoffs db workspace handoff (id ∷ rest) = Ensures-require _ _ _ λ there.
    Ensures-require _ _ _
      λ new. record { holds = (link_records-handoffs _ workspace handoff rest).holds }

new_handoff-open_offer :
    (p i id : Uuid) (now : Time) (workspace actor : Uuid) (intent : Intent)
    (input : OfferHandoffInput)
    → open_offer p i (new_handoff id now workspace actor intent input) ≡ true
    → (intent.project ≡ p) × (intent.id ≡ i)
unfolding open_offer new_handoff
new_handoff-open_offer p i id now workspace actor intent input h = (
  (==_iff _ _).0 (and_elim _ _ (and_elim _ _ h).0).0,
  (==_iff _ _).0 (and_elim _ _ (and_elim _ _ h).0).1,
)

count_offer_one :
    (test : Handoff → Bool) (h : Handoff) → test h ≡ true → count_where test (h ∷ []) ≡ 1
unfolding count_where
count_offer_one test h e = rw e refl

count_offer_none :
    (test : Handoff → Bool) (h : Handoff) → test h ≡ false → count_where test (h ∷ []) ≡ 0
unfolding count_where
count_offer_none test h e = rw e refl

insert_handoff-OneOffer :
    (db : Db) (now : Time) (workspace actor : Uuid) (intent : Intent) (input : OfferHandoffInput)
    → OneOffer db
    → Ensures (λ r. OneOffer r.1) (insert_handoff db now workspace actor intent input)
unfolding insert_handoff
insert_handoff-OneOffer db now workspace actor intent input x = Ensures-require _ _ _ λ vacant.
    Ensures-ok _ λ p i.
      counted p i (new_handoff db.next_id now workspace actor intent input) refl
        (negated_test _ vacant)
  where
    negated_test : (b : Bool) → not b ≡ true → b ≡ false
    negated_test true h = cc
    negated_test false h = refl

    counted :
        (p i : Uuid) (h : Handoff)
        → h ≡ new_handoff db.next_id now workspace actor intent input
        → any_row (open_offer intent.project intent.id) db.handoffs ≡ false
        → count_where (open_offer p i) (db.handoffs ++ h ∷ []) ≤ 1
    counted p i h e vacant = elim (Bool-cases (open_offer p i h)) [
      | inl t ↦
          let (same_project, same_intent) =
            new_handoff-open_offer p i db.next_id now workspace actor intent input
              (subst (λ u. open_offer p i u ≡ true) e t) in
          let none_before =
            count_where_not_any (open_offer intent.project intent.id) db.handoffs vacant in
          omega (
            arith,
            count_where-append (open_offer p i) db.handoffs (h ∷ []),
            count_offer_one (open_offer p i) h t,
            subst (λ n. count_where (open_offer n i) db.handoffs ≡ 0) same_project
                (subst (λ n. count_where (open_offer intent.project n) db.handoffs ≡ 0) same_intent
                  none_before),
          )
      | inr t ↦ omega (
        arith,
        count_where-append (open_offer p i) db.handoffs (h ∷ []),
        x p i,
        count_offer_none (open_offer p i) h t,
      )
    ]

moved : {hs ks : List Handoff} → ks ≡ hs → OneOfferIn hs → OneOfferIn ks
moved e x = λ p i. rw e (x p i)

run_offer-OneOffer :
    (db : Db) (now : Time) (key : Text) (workspace actor : Uuid) (i : Intent)
    (input : OfferHandoffInput) (r : Reservation)
    → OneOffer db
    → Reserves db r
    → Ensures (λ s. OneOffer s.1) (run_offer db now key workspace actor i input r)
unfolding run_offer
run_offer-OneOffer db now key workspace actor i input (replayed body) x h =
    Ensures-bind _ _ λ r hr. Ensures-ok _ x
run_offer-OneOffer db now key workspace actor i input (reserved command e) x h =
    Ensures-bind _ _ λ f hf. Ensures-bind _ _ λ r hr. Ensures-bind _ _ λ g hg.
      Ensures-bind _ _ λ v hv. Ensures-bind _ _ λ a ha. Ensures-bind _ _ λ d hd. Ensures-ok _ (
        moved
          (((complete_command-SameWork _ _ _ _ _ _).holds d hd).same_handoffs
            ∙ (((append_event-SameWork _ _).holds a ha).same_handoffs
                ∙ (link_records-handoffs _ _ _ _).holds g hg))
          ((insert_handoff-OneOffer f now workspace actor i input (before f hf)).holds r hr))
  where
    before : (f : Db) → expire_previous e now command actor input.session_id i ≡ ok f → OneOffer f
    before f hf =
        moved ((expire_previous-handoffs e now command actor input.session_id i).holds f hf) λ p j.
          omega
            (arith, has_lapsed-count now p j i.project i.id e.handoffs, moved h.same_handoffs x p j)

-- Offering a handoff leaves every intent with one open offer at most, if there was no more before.
pub offer_handoff-OneOffer :
    (db d : Db) (now : Time) (principal : Uuid) (allow_all : Bool) (project intent : Uuid)
    (key : Text) (hash : ℕ) (input : OfferHandoffInput) (result : HandoffResult)
    → OneOffer db
    → offer_handoff db now principal allow_all project intent key hash input ≡ ok (result, d)
    → OneOffer d
unfolding offer_handoff
offer_handoff-OneOffer db d now principal allow_all project intent key hash input result x ran =
    (Ensures-or_fail _ _ _ λ i hi. Ensures-or_fail _ _ _ λ p hp.
        Ensures-or_fail _ _ _ λ workspace hw. Ensures-bind _ _ λ actor ha.
          Ensures-require _ _ _ λ may. Ensures-bind _ _ λ r hr.
            run_offer-OneOffer db now key workspace actor i input r x (
              (reserve_command-Reserves db project (text "handoff.offer") key hash).holds r
                hr)).holds
      (result, d) ran
