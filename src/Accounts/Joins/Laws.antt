-- ===== src/Accounts/Joins/Laws.antt =====
-- What the joins find, and that they go on finding it when other columns change.
use mathlib.Core.Option
use mathlib.Core.Path.{subst}
use the_pact.Prelude.{
  ◌≡◌, refl, inl, inr, Bool, true, ◌&&◌, some, if◌then◌else◌, find, Option-cases, find-is_some,
  find-In, find-update_where, update_where, In, Bool-cases, and_elim, arith,
}
use the_pact.Identity.{Uuid}
use the_pact.Accounts.{AccountDb, LocalAccount, Principal}
use the_pact.Accounts.Joins.{
  Account, find_account, has_principal_id, identity_of, is_some, with_identity,
}

-- The principal of an identity is the one that was asked for.
pub identity_of-id :
    (db : AccountDb) (id : Uuid) (p : Principal) → identity_of db id ≡ some p → p.id ≡ id
unfolding identity_of
identity_of-id db id p h = elim (Option-cases (find (has_principal_id id) db.principals)) [
  | inl e ↦ absurd (cc (rw e at h))
  | inr (row, e) ↦ ground (arith, find-In (has_principal_id id) db.principals row e, rw e at h)
]

-- What an account that was found is.
pub record Found (db : AccountDb) (test : LocalAccount → Bool) (account : Account) : Type 0 where
  pub listed : In account.row db.accounts
  pub passes : test account.row ≡ true
  pub identity : identity_of db account.row.principal_id ≡ some account.principal
  pub own : account.principal.id ≡ account.row.principal_id

pub find_account-Found :
    (db : AccountDb) (test : LocalAccount → Bool) (account : Account)
    → find_account db test ≡ some account
    → Found db test account
unfolding find_account
find_account-Found db test account h =
    elim (Option-cases
      (find (λ a. test a && is_some (identity_of db a.principal_id)) db.accounts)) [
        | inl e ↦ absurd (cc (rw e at h))
        | inr (row, e) ↦ elim (Option-cases (identity_of db row.principal_id)) [
          | inl n ↦ absurd (cc (rw (e, n) at h))
          | inr (p, s) ↦
              let (m, t) =
                find-In (λ a. test a && is_some (identity_of db a.principal_id)) db.accounts row
                  e in
              let eq = rw (e, s) at h in
              subst (Found db test) (Option.some-injective _ _ eq) (record {
                listed = m;
                passes = (and_elim _ _ t).0;
                identity = s;
                own = identity_of-id db row.principal_id p s;
              })
        ]
      ]

-- An account in the table with an identity is found, or another that passes as well.
pub find_account-total :
    (db : AccountDb) (test : LocalAccount → Bool) (row : LocalAccount) (p : Principal)
    → In row db.accounts
    → test row ≡ true
    → identity_of db row.principal_id ≡ some p
    → (account : Account) × (find_account db test ≡ some account)
unfolding find_account
find_account-total db test row p m t e =
    let (y, f, my, ty) =
      find-is_some (λ (a : LocalAccount). test a && is_some (identity_of db a.principal_id))
        db.accounts row m (rw (t, e) refl) in
    elim (Option-cases (identity_of db y.principal_id)) [
      | inl n ↦ absurd (cc (n, (and_elim (test y) (is_some (identity_of db y.principal_id)) ty).1))
      | inr (q, s) ↦ (record { principal = q; row = y }, rw (f, s) refl)
    ]

-- A change of columns that neither the test nor the joins read.
pub find_account-update :
    (db : AccountDb) (p : LocalAccount → Bool) (f : LocalAccount → LocalAccount)
    (test : LocalAccount → Bool)
    → ((a : LocalAccount) → test (f a) ≡ test a)
    → ((a : LocalAccount) → (f a).principal_id ≡ a.principal_id)
    → (account : Account) → find_account db test ≡ some account
    → find_account (record db { accounts = update_where p f db.accounts }) test
      ≡ some (record account { row = if p account.row then f account.row else account.row })
unfolding find_account
find_account-update db p f test same id account h = elim (Option-cases (find joined db.accounts)) [
  | inl e ↦ absurd (cc (rw e at h))
  | inr (row, e) ↦ elim (Option-cases (identity_of db row.principal_id)) [
    | inl n ↦ absurd (cc (rw (e, n) at h))
    | inr (q, s) ↦
        rw (find-update_where joined p f db.accounts kept, e)
          (subst
            (λ (a : Account).
              with_identity (record db { accounts = update_where p f db.accounts })
                (if p row then f row else row)
              ≡ some (record a { row = if p a.row then f a.row else a.row }))
            (Option.some-injective _ _ (rw (e, s) at h))
            (elim (Bool-cases (p row)) [ inl t ↦ rw (t, id row, s) refl | inr t ↦ rw (t, s) refl ]))
  ]
]
  where
    joined : LocalAccount → Bool
    joined a = test a && is_some (identity_of db a.principal_id)

    kept : (a : LocalAccount) → joined (f a) ≡ joined a
    kept a = rw (same a, id a) refl
