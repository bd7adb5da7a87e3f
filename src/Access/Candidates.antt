-- ===== src/Access/Candidates.antt =====
-- The memberships that give a role on a workspace, told apart from the query that reads them.
use the_pact.Prelude.{
  ◌≡◌, refl, ap, ◌⊎◌, inl, inr, Bool, true, false, not, Option, none, some, List, [], ◌∷◌, ◌++◌,
  map, In, In-append, In-append_left, In-append_right, In-map, any_row, any_row-In, any_row_of_In,
  rows_where, ◌==◌, ==_iff, Bool-cases, and_elim, arith,
}
use the_pact.Identity.{Uuid}
use the_pact.Accounts.{AccountDb, ProjectMember, ProjectRole, Workspace, WorkspaceMember}
use the_pact.Access.{
  candidate_roles, is_inner_seat, is_open_workspace, is_project_of, is_workspace_seat, lies_in,
}
use the_pact.Database.{Project}

-- The workspace is there and not archived.
pub record Opened (db : AccountDb) (workspace : Uuid) : Type 0 where
  pub row : Workspace
  pub listed : In row db.workspaces
  pub same_id : row.id ≡ workspace
  pub unarchived : row.archived ≡ false

-- A membership of the workspace itself.
pub record DirectSeat (db : AccountDb) (principal workspace : Uuid) (r : ProjectRole) : Type 0 where
  pub seat : WorkspaceMember
  pub listed : In seat db.workspace_members
  pub on_workspace : seat.workspace_id ≡ workspace
  pub of_principal : seat.principal_id ≡ principal
  pub gives : r ≡ seat.role

-- A membership of a project that lies in the workspace.
pub record InnerSeat (db : AccountDb) (principal workspace : Uuid) (r : ProjectRole) : Type 0 where
  pub seat : ProjectMember
  pub listed : In seat db.project_members
  pub of_principal : seat.principal_id ≡ principal
  pub project : Project
  pub project_listed : In project db.work.projects
  pub on_project : project.id ≡ seat.project_id
  pub inside : project.workspace_id ≡ some workspace
  pub gives : r ≡ seat.role

pub record Counts (db : AccountDb) (principal workspace : Uuid) (r : ProjectRole) : Type 0 where
  pub opened : Opened db workspace
  pub seat : DirectSeat db principal workspace r ⊎ InnerSeat db principal workspace r

module _ {A : Type 0} where
  In-rows_where :
      (test : A → Bool) (xs : List A) (x : A)
      → In x (rows_where test xs)
      → In x xs × (test x ≡ true)
  unfolding rows_where
  In-rows_where test [] x m = absurd m
  In-rows_where test (y ∷ xs) x m = elim (Bool-cases (test y)) [
    | inl t ↦ elim (rw t at m) [
      | inl e ↦ (inl e, rw e t)
      | inr m' ↦ let (l, h) = In-rows_where test xs x m' in (inr l, h)
    ]
    | inr t ↦ let (l, h) = In-rows_where test xs x (rw t at m) in (inr l, h)
  ]

  rows_where_of_In :
      (test : A → Bool) (xs : List A) (x : A) → In x xs → test x ≡ true → In x (rows_where test xs)
  unfolding rows_where
  rows_where_of_In test [] x m t = absurd m
  rows_where_of_In test (y ∷ xs) x (inl e) t = rw (rw e at t) (inl e)
  rows_where_of_In test (y ∷ xs) x (inr m) t = elim (Bool-cases (test y)) [
    | inl h ↦ rw h (inr (rows_where_of_In test xs x m t))
    | inr h ↦ rw h (rows_where_of_In test xs x m t)
  ]

map_of_In : {A B : Type 0} (f : A → B) (a : A) (xs : List A) → In a xs → In (f a) (map f xs)
map_of_In f a [] m = absurd m
map_of_In f a (x ∷ xs) (inl e) = inl (ap f e)
map_of_In f a (x ∷ xs) (inr m) = inr (map_of_In f a xs m)

-- What a SELECT … WHERE gives of each row.
module _ {A B : Type 0} (f : A → B) (test : A → Bool) (rows : List A) where
  In-map_where :
      (b : B)
      → In b (map f (rows_where test rows))
      → (a : A) × In a rows × (test a ≡ true) × (b ≡ f a)
  In-map_where b m =
      let (a, l, e) = In-map f b (rows_where test rows) m in
      let (la, t) = In-rows_where test rows a l in (a, la, t, e)

  map_where_of_In :
      (a : A) (b : B) → In a rows → test a ≡ true → b ≡ f a → In b (map f (rows_where test rows))
  map_where_of_In a b m t e =
      rw e (map_of_In f a (rows_where test rows) (rows_where_of_In test rows a m t))

lies_in_iff : (w : Uuid) (p : Project) → lies_in w p ≡ true → p.workspace_id ≡ some w
lies_in_iff w p = inside p.workspace_id
  where
    inside : (o : Option Uuid) → (elim o [ none ↦ false | some v ↦ v == w ]) ≡ true → o ≡ some w
    inside none h = absurd (cc)
    inside (some v) h = ap some ((==_iff _ _).0 h)

module _ (db : AccountDb) (principal workspace : Uuid) where
  any_row-Opened : any_row (is_open_workspace workspace) db.workspaces ≡ true → Opened db workspace
  any_row-Opened h =
      let (w, m, t) = any_row-In (is_open_workspace workspace) db.workspaces h in
      record {
        row = w;
        listed = m;
        same_id = (==_iff _ _).0 (and_elim _ _ t).0;
        unarchived = ground (arith, (and_elim (w.id == workspace) (not w.archived) t).1);
      }

  any_row_of_Opened :
      Opened db workspace → any_row (is_open_workspace workspace) db.workspaces ≡ true
  any_row_of_Opened o = any_row_of_In _ _ o.row o.listed (ground (arith, o.same_id, o.unarchived))

  direct_seat :
      (m : WorkspaceMember)
      → In m db.workspace_members
      → is_workspace_seat workspace principal m ≡ true
      → DirectSeat db principal workspace m.role
  unfolding is_workspace_seat
  direct_seat m l t = record {
    seat = m;
    listed = l;
    on_workspace = (==_iff _ _).0 (and_elim _ _ t).0;
    of_principal = (==_iff _ _).0 (and_elim _ _ t).1;
    gives = refl;
  }

  inner_seat :
      (m : ProjectMember)
      → In m db.project_members
      → is_inner_seat db workspace principal m ≡ true
      → InnerSeat db principal workspace m.role
  unfolding is_inner_seat
  inner_seat m l t =
      let (p, lp, tp) =
        any_row-In (is_project_of workspace m.project_id) db.work.projects (and_elim _ _ t).1 in
      record {
        seat = m;
        listed = l;
        of_principal = (==_iff _ _).0 (and_elim _ _ t).0;
        project = p;
        project_listed = lp;
        on_project = (==_iff _ _).0 (and_elim _ _ tp).0;
        inside = lies_in_iff workspace p (and_elim _ _ tp).1;
        gives = refl;
      }

  abbrev direct_roles : List ProjectRole
  direct_roles =
      map (λ m. m.role) (rows_where (is_workspace_seat workspace principal) db.workspace_members)

  abbrev inner_roles : List ProjectRole
  inner_roles =
      map (λ m. m.role) (rows_where (is_inner_seat db workspace principal) db.project_members)

  read_seat :
      (r : ProjectRole)
      → In r (direct_roles ++ inner_roles)
      → DirectSeat db principal workspace r ⊎ InnerSeat db principal workspace r
  read_seat r m = elim (In-append r direct_roles inner_roles m) [
    | inl d ↦
        let (s, l, t, e) =
          In-map_where (λ m. m.role) (is_workspace_seat workspace principal) db.workspace_members r
            d in
        inl (rw e (direct_seat s l t))
    | inr i ↦
        let (s, l, t, e) =
          In-map_where (λ m. m.role) (is_inner_seat db workspace principal) db.project_members r
            i in
        inr (rw e (inner_seat s l t))
  ]

  direct_passes :
      (r : ProjectRole) (s : DirectSeat db principal workspace r)
      → is_workspace_seat workspace principal s.seat ≡ true
  unfolding is_workspace_seat
  direct_passes r s = ground (arith, s.on_workspace, s.of_principal)

  project_row :
      (r : ProjectRole) (s : InnerSeat db principal workspace r)
      → any_row (is_project_of workspace s.seat.project_id) db.work.projects ≡ true
  project_row r s =
      any_row_of_In (is_project_of workspace s.seat.project_id) db.work.projects s.project
        s.project_listed (rw s.inside (ground (arith, s.on_project)))

  inner_passes :
      (r : ProjectRole) (s : InnerSeat db principal workspace r)
      → is_inner_seat db workspace principal s.seat ≡ true
  unfolding is_inner_seat
  inner_passes r s = ground (arith, s.of_principal, project_row r s)

  listed_role :
      (r : ProjectRole)
      → DirectSeat db principal workspace r ⊎ InnerSeat db principal workspace r
      → In r (direct_roles ++ inner_roles)
  listed_role r (inl s) = In-append_left r direct_roles inner_roles (
      map_where_of_In (λ m. m.role) (is_workspace_seat workspace principal) db.workspace_members
        s.seat r s.listed (direct_passes r s) s.gives)
  listed_role r (inr s) = In-append_right r direct_roles inner_roles (
      map_where_of_In (λ m. m.role) (is_inner_seat db workspace principal) db.project_members s.seat
        r s.listed (inner_passes r s) s.gives)

  pub candidate_roles-Counts :
      (r : ProjectRole)
      → In r (candidate_roles db principal workspace)
      → Counts db principal workspace r
  unfolding candidate_roles
  candidate_roles-Counts r m =
      elim (Bool-cases (any_row (is_open_workspace workspace) db.workspaces)) [
        | inl t ↦ record { opened = any_row-Opened t; seat = read_seat r (rw t at m) }
        | inr t ↦ absurd (rw t at m)
      ]

  pub candidate_roles_complete :
      (r : ProjectRole)
      → Counts db principal workspace r
      → In r (candidate_roles db principal workspace)
  unfolding candidate_roles
  candidate_roles_complete r c = rw (any_row_of_Opened c.opened) (listed_role r c.seat)
