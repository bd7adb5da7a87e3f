-- ===== src/AgentSession/Revival.antt =====
-- Heartbeats of sessions whose claims have run out.
use mathlib.Core.Path.{subst}
use the_pact.Prelude.{
  ◌≡◌, refl, sym, ap, inl, inr, Bool, true, false, some, List, [], ◌∷◌, arith, and_elim, find,
  update_where, In, if◌then◌else◌, ok,
}
use the_pact.Identity.{Uuid, Time}
use the_pact.Coordination.Model.{ScopeClaim, Intent}
use the_pact.Coordination.Lifecycle.{is_terminal_status}
use the_pact.Coordination.Conflicts.{has_intent_id}
use the_pact.Coordination.Exclusion.{Holds, Meets, BothShared, Exclusive}
use the_pact.AgentSession.{SessionView, carries, renew, keep_alive, heartbeat}
use the_pact.AgentSession.Exclusion.{heartbeat-keep_alive}
use the_pact.Database.{Db, Session}

updated :
    {A : Type 0} (p : A → Bool) (f : A → A) (x : A) (xs : List A)
    → In x xs
    → In (if p x then f x else x) (update_where p f xs)
unfolding update_where
updated p f x [] m = absurd m
updated p f x (y ∷ xs) (inl e) = inl (ap (λ z. if p z then f z else z) e)
updated p f x (y ∷ xs) (inr m) = inr (updated p f x xs m)

module _ (db : Db) (now : Time) (principal : Uuid) (allow_all : Bool) (s : Session)
    (lapsed other : ScopeClaim) (i : Intent) where
  revived_lease :
      In lapsed db.claims
      → carries s.id lapsed ≡ true
      → find (has_intent_id lapsed.intent_id) db.intents ≡ some i
      → is_terminal_status i.status ≡ false
      → Holds (keep_alive db now principal allow_all s) now (renew now lapsed)
  unfolding keep_alive renew carries
  revived_lease m t hi unfinished = record {
    listed =
        subst (λ c. In c (update_where (carries s.id) (renew now) db.claims)) (rw t refl)
          (updated (carries s.id) (renew now) lapsed db.claims m);
    active = (and_elim _ _ t).1;
    unexpired = omega arith;
    intent = i;
    of_intent = hi;
    unfinished = unfinished;
  }

  other_lease :
      Holds db now other
      → carries s.id other ≡ false
      → Holds (keep_alive db now principal allow_all s) now other
  unfolding keep_alive
  other_lease h foreign = record {
    listed =
        subst (λ c. In c (update_where (carries s.id) (renew now) db.claims)) (rw foreign refl)
          (updated (carries s.id) (renew now) other db.claims h.listed);
    active = h.active;
    unexpired = h.unexpired;
    intent = h.intent;
    of_intent = h.of_intent;
    unfinished = h.unfinished;
  }

  revived :
      In lapsed db.claims
      → carries s.id lapsed ≡ true
      → find (has_intent_id lapsed.intent_id) db.intents ≡ some i
      → is_terminal_status i.status ≡ false
      → Holds db now other
      → carries s.id other ≡ false
      → Meets lapsed other
      → ¬ BothShared lapsed other
      → ¬ Exclusive (keep_alive db now principal allow_all s) now
  unfolding renew
  revived m t hi unfinished h foreign meets apart x = apart (
      x.apart (renew now lapsed) other (revived_lease m t hi unfinished) (other_lease h foreign)
        (record {
          other_intent = meets.other_intent;
          one_project = meets.one_project;
          one_repository = meets.one_repository;
          common_path = meets.common_path;
        }))

-- A heartbeat renews an active claim whether or not it has run out: if another intent holds an
-- overlapping scope by now, and one of the two is exclusive, scopes are not exclusive after it.
pub heartbeat_revives :
    (db e : Db) (now : Time) (principal : Uuid) (allow_all : Bool) (id : Uuid) (view : SessionView)
    (lapsed other : ScopeClaim) (i : Intent)
    → In lapsed db.claims
    → carries id lapsed ≡ true
    → find (has_intent_id lapsed.intent_id) db.intents ≡ some i
    → is_terminal_status i.status ≡ false
    → Holds db now other
    → carries id other ≡ false
    → Meets lapsed other
    → ¬ BothShared lapsed other
    → heartbeat db now principal allow_all id ≡ ok (view, e)
    → ¬ Exclusive e now
heartbeat_revives db e now principal allow_all id view lapsed other i m t hi unfinished h foreign
      meets apart hb x =
    let (s, same, eq) = (heartbeat-keep_alive db now principal allow_all id).holds (view, e) hb in
    revived db now principal allow_all s lapsed other i m
      (subst (λ j. carries j lapsed ≡ true) (sym same) t) hi unfinished h
      (subst (λ j. carries j other ≡ false) (sym same) foreign) meets apart (rw eq at x)
