-- ===== src/Coordination/Start/Safety.antt =====
-- Starting work without an override keeps the exclusion of scopes.
use mathlib.Core.Path.{subst}
use the_pact.Prelude.{
  ℕ, ◌≡◌, Bool, true, false, ◌&&◌, not, some, List, arith, find, Ensures, Ensures-bind,
  Ensures-require, Ensures-ok, ok,
}
use the_pact.Text.{Text, text}
use the_pact.Identity.{Uuid, Time}
use the_pact.Coordination.Model.{ScopeOverlap, StartInput, StartResult}
use the_pact.Coordination.Conflicts.{load_scope_overlaps, has_blocking_overlap}
use the_pact.Coordination.Exclusion.{Exclusive, WellFormed}
use the_pact.Coordination.Exclusion.Keeps.{WellFormed-SameWork, Exclusive-SameWork}
use the_pact.Coordination.Commands.Frame.{
  SameWork-trans, append_event-SameWork, complete_command-SameWork, Reserves,
  reserve_command-Reserves,
}
use the_pact.Coordination.Commands.{
  authorize_session, Reservation, reserved, replayed, reserve_command,
}
use the_pact.Coordination.Start.{create_rows, create_work, run_start, start}
use the_pact.Coordination.Start.Adds.{create_rows-Adds, Adds-Exclusive, Adds-WellFormed}
use the_pact.Coordination.Commands.Authorization.{MayAct, authorize_session-MayAct}
use the_pact.Coordination.Conflicts.{has_actor_id}
use the_pact.Database.{Db}

create_rows-Exclusive :
    (db : Db) (now : Time) (project actor repo : Uuid) (input : StartInput)
    → WellFormed db
    → has_blocking_overlap (load_scope_overlaps db now project repo input.scopes) ≡ false
    → Exclusive db now
    → Ensures (λ r. Exclusive r.2 now) (create_rows db now project actor repo input)
create_rows-Exclusive db now project actor repo input w free x = record {
  holds = λ r h.
      Adds-Exclusive db _ now _ _ _ ((create_rows-Adds db now project actor repo input).holds r h).0
        w free x;
}

create_work-Exclusive :
    (db : Db) (now : Time) (project : Uuid) (key : Text) (actor command repo : Uuid)
    (overlaps : List ScopeOverlap) (input : StartInput)
    → Ensures (λ r. Exclusive r.2 now) (create_rows db now project actor repo input)
    → Ensures
        (λ r. Exclusive r.1 now)
        (create_work db now project key actor command repo overlaps input)
unfolding create_work
create_work-Exclusive db now project key actor command repo overlaps input x =
    Ensures-bind _ _ λ q hq. Ensures-bind _ _ λ r hr. Ensures-bind _ _ λ d hd. Ensures-ok _ (
      Exclusive-SameWork _ d now
        (SameWork-trans ((append_event-SameWork _ _).holds r hr)
          ((complete_command-SameWork _ _ _ _ _ _).holds d hd))
        (x.holds q hq))

run_start-Exclusive :
    (db : Db) (now : Time) (project : Uuid) (key : Text) (actor : Uuid) (input : StartInput)
    (r : Reservation)
    → WellFormed db
    → Exclusive db now
    → input.allow_overlap ≡ false
    → Reserves db r
    → Ensures (λ s. Exclusive s.1 now) (run_start db now project key actor input r)
unfolding run_start
run_start-Exclusive db now project key actor input (replayed body) w x strict h =
    Ensures-bind _ _ λ r hr. Ensures-ok _ x
run_start-Exclusive db now project key actor input (reserved command db1) w x strict h =
    Ensures-bind _ _ λ repo hr. Ensures-require _ _ _ λ passed.
      create_work-Exclusive db1 now project key actor command repo _ input (
        create_rows-Exclusive db1 now project actor repo input (WellFormed-SameWork db db1 h w)
          (strictly _ input.allow_overlap strict passed) (Exclusive-SameWork db db1 now h x))
  where
    strictly :
        (blocking allow : Bool)
        → allow ≡ false
        → not (blocking && not allow) ≡ true
        → blocking ≡ false
    strictly blocking allow s h = ground arith

-- Work that is started without the override leaves no two intents with overlapping scopes of which
-- one is exclusive, if there were none before.
pub start-Exclusive :
    (db d : Db) (now : Time) (principal : Uuid) (allow_all : Bool) (project : Uuid) (key : Text)
    (hash : ℕ) (input : StartInput) (result : StartResult)
    → WellFormed db
    → Exclusive db now
    → input.allow_overlap ≡ false
    → start db now principal allow_all project key hash input ≡ ok (result, d)
    → Exclusive d now
unfolding start
start-Exclusive db d now principal allow_all project key hash input result w x strict h =
    (Ensures-bind (authorize_session db now principal allow_all project input.session_id) _
        λ actor ha. Ensures-bind (reserve_command db project (text "work.start") key hash) _ λ r hr.
          run_start-Exclusive db now project key actor input r w x strict
            ((reserve_command-Reserves db project (text "work.start") key hash).holds r hr)).holds
      (result, d) h

create_work-WellFormed :
    (db : Db) (now : Time) (project : Uuid) (key : Text) (actor command repo : Uuid)
    (overlaps : List ScopeOverlap) (input : StartInput)
    → WellFormed db
    → ((b : _) × (find (has_actor_id actor) db.actors ≡ some b))
    → Ensures
        (λ r. WellFormed r.1)
        (create_work db now project key actor command repo overlaps input)
unfolding create_work
create_work-WellFormed db now project key actor command repo overlaps input w known =
    Ensures-bind _ _ λ q hq. Ensures-bind _ _ λ r hr. Ensures-bind _ _ λ d hd.
      let (adds, by) = (create_rows-Adds db now project actor repo input).holds q hq in
      Ensures-ok _ (
        WellFormed-SameWork _ d
          (SameWork-trans ((append_event-SameWork _ _).holds r hr)
            ((complete_command-SameWork _ _ _ _ _ _).holds d hd))
          (Adds-WellFormed db _ now _ _ _ adds w (rw by known)))

run_start-WellFormed :
    (db : Db) (now : Time) (project : Uuid) (key : Text) (actor : Uuid) (input : StartInput)
    (r : Reservation)
    → WellFormed db
    → ((b : _) × (find (has_actor_id actor) db.actors ≡ some b))
    → Reserves db r
    → Ensures (λ s. WellFormed s.1) (run_start db now project key actor input r)
unfolding run_start
run_start-WellFormed db now project key actor input (replayed body) w known h =
    Ensures-bind _ _ λ r hr. Ensures-ok _ w
run_start-WellFormed db now project key actor input (reserved command db1) w known h =
    Ensures-bind _ _ λ repo hr. Ensures-require _ _ _ λ passed.
      create_work-WellFormed db1 now project key actor command repo _ input
        (WellFormed-SameWork db db1 h w) (rw h.same_actors known)

-- Starting work keeps the foreign keys.
pub start-WellFormed :
    (db d : Db) (now : Time) (principal : Uuid) (allow_all : Bool) (project : Uuid) (key : Text)
    (hash : ℕ) (input : StartInput) (result : StartResult)
    → WellFormed db
    → start db now principal allow_all project key hash input ≡ ok (result, d)
    → WellFormed d
unfolding start
start-WellFormed db d now principal allow_all project key hash input result w h =
    (Ensures-bind (authorize_session db now principal allow_all project input.session_id) _
        λ actor ha. Ensures-bind (reserve_command db project (text "work.start") key hash) _ λ r hr.
          run_start-WellFormed db now project key actor input r w
            (known actor (
              (authorize_session-MayAct db now principal allow_all project input.session_id).holds
                actor ha))
            ((reserve_command-Reserves db project (text "work.start") key hash).holds r hr)).holds
      (result, d) h
  where
    known :
        (actor : Uuid)
        → MayAct db now principal allow_all project input.session_id actor
        → (b : _) × (find (has_actor_id actor) db.actors ≡ some b)
    known actor m =
        subst (λ n. (b : _) × (find (has_actor_id n) db.actors ≡ some b)) m.agent_id
          (w.agents_known m.agent m.agent_listed)
