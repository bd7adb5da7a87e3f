-- ===== src/Coordination/Start/Progress.antt =====
-- When starting work succeeds, and when it is refused.
use the_pact.Prelude.{
  ℕ, ◌≡◌, refl, sym, ap, ◌∙◌, ◌⊎◌, inl, inr, Bool, true, false, ◌&&◌, not, none, some, List, [],
  ◌∷◌, Bool-cases, and_elim, find, find-In, find-none, count_where, Result, ok, err, ◌>>=◌, ◌>>◌,
  >>=_ok_lem, require, Option-cases, ◌<◌, ◌≤◌, length, arith, All, All-imp,
}
use the_pact.Text.{Text, contains_rune, is_padding, text}
use the_pact.Identity.{Uuid, Time}
use the_pact.Coordination.Model.{
  Error, internal, scope_conflict, Scope, ScopeClaim, ScopeOverlap, StartInput, StartResult,
}
use the_pact.Coordination.Conflicts.{
  existing_claims, load_scope_overlaps, all_overlaps, has_blocking_overlap, is_open_project,
  project_repository, join_claim,
}
use the_pact.Coordination.Commands.{authorize_session, same_command, is_reservation, is_project}
use the_pact.Coordination.Commands.Frame.{append_event-commands}
use the_pact.Coordination.Commands.Replay.{reserved_once}
use the_pact.Coordination.Commands.Progress.{
  noted, reserve_command-noted, append_event_total, complete_command_total,
}
use the_pact.Coordination.Start.{create_work, fits_intents, started_event, run_start, start}
use the_pact.Coordination.Start.Targets.{distinct_targets, Keyed}
use the_pact.Coordination.Start.Creation.{create_rows_refused, create_rows_total}
use the_pact.Coordination.Exclusion.{WellFormed}
use the_pact.Coordination.Start.Rows.{create_rows-commands, create_rows-projects}
use the_pact.Database.{Db, Project}

-- What the columns for the key and the texts take, which the commands of the model do not look at:
-- a key with a character that is no space, no NUL anywhere, and locators that fit a row of an index.
pub record Storable (key : Text) (input : StartInput) : Type 0 where
  pub key_fits : (is_padding key ≡ false) × (length key ≤ 512) × (contains_rune 0 key ≡ false)
  pub texts_fit :
      All
        (λ t. contains_rune 0 t ≡ false)
        (input.title ∷ input.goal ∷ input.base_revision ∷ input.success_criteria)
  pub locators_fit :
      All
        (λ (s : Scope).
          (is_padding s.locator ≡ false)
          × (length s.locator ≤ 600)
          × (contains_rune 0 s.locator ≡ false))
        input.scopes

open_project-found :
    (db : Db) (project : Uuid) (p : Project)
    → find (is_open_project project) db.projects ≡ some p
    → (q : Project) × (find (is_project project) db.projects ≡ some q)
open_project-found db project p h = elim (Option-cases (find (is_project project) db.projects)) [
  | inl e ↦
      let (m, t) = find-In _ db.projects p h in
      absurd (differ (sym (find-none (is_project project) db.projects p e m) ∙ (and_elim _ _ t).0))
  | inr found ↦ found
]
  where
    differ : false ≡ true → ⊥
    differ e = cc

module _ (db : Db) (now : Time) (project : Uuid) (key : Text) (hash : ℕ) where
  abbrev behind : Db
  behind = noted db project (text "work.start") key hash

  noted_claims :
      (p repo : Uuid) (cs : List ScopeClaim)
      → existing_claims behind now p repo cs ≡ existing_claims db now p repo cs
  unfolding existing_claims join_claim
  noted_claims p repo [] = refl
  noted_claims p repo (c ∷ cs) = rw (noted_claims p repo cs) refl

  noted_overlaps :
      (p repo : Uuid) (scopes : List Scope)
      → load_scope_overlaps behind now p repo scopes ≡ load_scope_overlaps db now p repo scopes
  unfolding load_scope_overlaps
  noted_overlaps p repo scopes = ap (all_overlaps scopes) (noted_claims p repo db.claims)

  noted-Keyed : Keyed db → Keyed behind
  noted-Keyed k = record { below = λ r m. omega (arith, k.below r m); unique = k.unique }

  noted_claims_below :
      WellFormed db → All (λ (x : ScopeClaim). x.intent_id < behind.next_id) db.claims
  noted_claims_below w = All-imp _ _ db.claims (λ x l. omega (arith, l)) w.claim_intents

  module _ (actor repo : Uuid) (input : StartInput) (p : Project)
      (unused : find (same_command project (text "work.start") key) db.commands ≡ none)
      (opened : find (is_open_project project) db.projects ≡ some p)
      (has_repository : p.root_repository_id ≡ some repo) where
    abbrev insertable : Bool
    insertable = fits_intents input && distinct_targets input.scopes

    create_work_refused :
        (overlaps : List ScopeOverlap)
        → insertable ≡ false
        → create_work behind now project key actor db.next_id repo overlaps input ≡ err internal
    unfolding create_work ◌>>=◌
    create_work_refused overlaps t =
        rw (create_rows_refused behind now project actor repo input t) refl

    create_work_total :
        (overlaps : List ScopeOverlap)
        → WellFormed db
        → Keyed db
        → insertable ≡ true
        → (r : StartResult × Db) × (create_work behind now project key actor db.next_id repo
              overlaps input
            ≡ ok r)
          × (r.0.is_replay ≡ false)
    unfolding create_work started_event
    create_work_total overlaps w k t =
        let (rows, hrows) =
          create_rows_total behind now project actor repo input (noted_claims_below w)
            (noted-Keyed k) t in
        let (q, hq) = open_project-found db project p opened in
        let (same_projects, of_project) =
          (create_rows-projects behind now project actor repo input).holds rows hrows in
        let (r, hr) =
          append_event_total rows.2 (started_event db.next_id actor rows.0 rows.1 overlaps input) q
            (ap (λ i. find (is_project i) rows.2.projects) of_project
              ∙ (ap (find (is_project project)) same_projects ∙ hq)) in
        let same =
          (append_event-commands _ _).holds r hr
          ∙ (create_rows-commands behind now project actor repo input).holds rows hrows in
        let (d, hd) = complete_command_total r.1 project (text "work.start") key db.next_id _ (
          ap (count_where (is_reservation project (text "work.start") key db.next_id)) same
          ∙ reserved_once db project (text "work.start") key hash unused) in
        (_, >>=_ok_lem _ _ hrows ∙ (>>=_ok_lem _ _ hr ∙ >>=_ok_lem _ _ hd), refl)

    found_repository : project_repository behind project ≡ ok repo
    unfolding project_repository ◌>>=◌
    found_repository = rw (opened, has_repository) refl

    -- The check of the scopes, behind the reservation.
    abbrev checked : List ScopeOverlap → Result Error (StartResult × Db)
    checked overlaps =
        require (not (has_blocking_overlap overlaps && not input.allow_overlap))
          (scope_conflict overlaps)
        >> create_work behind now project key actor db.next_id repo overlaps input

    checked_refuses :
        (overlaps : List ScopeOverlap)
        → (has_blocking_overlap overlaps && not input.allow_overlap) ≡ true
        → checked overlaps ≡ err (scope_conflict overlaps)
    unfolding ◌>>=◌
    checked_refuses overlaps t = rw t refl

    checked_passes :
        (overlaps : List ScopeOverlap)
        → (has_blocking_overlap overlaps && not input.allow_overlap) ≡ false
        → checked overlaps ≡ create_work behind now project key actor db.next_id repo overlaps input
    unfolding ◌>>=◌
    checked_passes overlaps t = rw t refl

    to_check :
        (principal : Uuid) (allow_all : Bool)
        → authorize_session db now principal allow_all project input.session_id ≡ ok actor
        → start db now principal allow_all project key hash input
          ≡ checked (load_scope_overlaps db now project repo input.scopes)
    unfolding start run_start
    to_check principal allow_all auth =
        >>=_ok_lem _ _ auth
        ∙ (>>=_ok_lem _ _ (reserve_command-noted db project (text "work.start") key hash unused)
            ∙ (>>=_ok_lem _ _ found_repository
                ∙ ap checked (noted_overlaps project repo input.scopes)))

    -- In a database with its keys, a start by an authorized session, under a key that is not used,
    -- in an open project with a repository, has three outcomes, if the columns for key, texts and
    -- locators take them (no NUL, a key that is not blank and has at most 512 characters, locators
    -- that are not blank and have at most 600). Without the override it is refused with the
    -- overlaps if one of them blocks. Else it fails with an internal error if the title, the goal
    -- or the revision breaks a CHECK of intents, or two scopes have the same kind and locator,
    -- whatever their modes. Else it succeeds with new work.
    pub start_decides :
        (principal : Uuid) (allow_all : Bool)
        → Storable key input
        → WellFormed db
        → Keyed db
        → authorize_session db now principal allow_all project input.session_id ≡ ok actor
        → (((has_blocking_overlap (load_scope_overlaps db now project repo input.scopes)
                && not input.allow_overlap)
              ≡ true)
            × (start db now principal allow_all project key hash input
                ≡ err (scope_conflict (load_scope_overlaps db now project repo input.scopes))))
          ⊎ ((((has_blocking_overlap (load_scope_overlaps db now project repo input.scopes)
                    && not input.allow_overlap)
                  ≡ false)
                × ((fits_intents input && distinct_targets input.scopes) ≡ false)
                × (start db now principal allow_all project key hash input ≡ err internal))
              ⊎ (((has_blocking_overlap (load_scope_overlaps db now project repo input.scopes)
                      && not input.allow_overlap)
                    ≡ false)
                  × ((fits_intents input && distinct_targets input.scopes) ≡ true)
                  × ((r : StartResult × Db) × (start db now principal allow_all project key hash
                          input
                        ≡ ok r)
                      × (r.0.is_replay ≡ false))))
    start_decides principal allow_all texts w k auth =
        let overlaps = load_scope_overlaps db now project repo input.scopes in
        let checks = to_check principal allow_all auth in
        elim (Bool-cases (has_blocking_overlap overlaps && not input.allow_overlap)) [
          | inl t ↦ inl (t, checks ∙ checked_refuses overlaps t)
          | inr t ↦
              let passed = checks ∙ checked_passes overlaps t in
              inr (elim (Bool-cases insertable) [
                | inl i ↦
                    let (r, hr, fresh) = create_work_total overlaps w k i in
                    inr (t, i, (r, passed ∙ hr, fresh))
                | inr i ↦ inl (t, i, passed ∙ create_work_refused overlaps i)
              ])
        ]
