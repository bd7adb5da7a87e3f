-- ===== src/Prelude/Counts.antt =====
-- How many rows of a table pass a test.
use Prim.Native.Nat.{ℕ, ◌+◌, ◌≤◌, ◌<◌}
use mathlib.Core.Path.{◌≡◌, refl, ap}
use mathlib.Core.Logic.{inl, inr}
use mathlib.Core.Bool.{Bool, true, false}
use mathlib.Core.Option.{none, some}
use mathlib.Core.List.{List, [], ◌∷◌, ◌++◌}
use native.Mathlib.Omega.{arith}
use the_pact.Prelude.Tests.{if◌then◌else◌, Bool-cases}
use the_pact.Prelude.Lists.{In}
use the_pact.Prelude.Tables.{any_row, count_where, find, update_where}

module _ {A : Type 0} where
  pub count_where-append :
      (test : A → Bool) (xs ys : List A)
      → count_where test (xs ++ ys) ≡ count_where test xs + count_where test ys
  unfolding count_where
  count_where-append test [] ys = omega arith
  count_where-append test (x ∷ xs) ys = omega (arith, count_where-append test xs ys)

  -- Nothing is counted where nothing is found, by a test that asks for more.
  pub count_where-none :
      (test narrower : A → Bool) (xs : List A)
      → ((x : A) → narrower x ≡ true → test x ≡ true)
      → find test xs ≡ none
      → count_where narrower xs ≡ 0
  unfolding count_where find
  count_where-none test narrower [] imp h = refl
  count_where-none test narrower (x ∷ xs) imp h = elim (Bool-cases (test x)) [
    | inl e ↦ absurd (cc (rw e at h))
    | inr e ↦ elim (Bool-cases (narrower x)) [
      | inl n ↦ absurd (cc (imp x n, e))
      | inr n ↦ rw n (omega (arith, count_where-none test narrower xs imp (rw e at h)))
    ]
  ]

  pub count_where_not_any :
      (test : A → Bool) (xs : List A) → any_row test xs ≡ false → count_where test xs ≡ 0
  unfolding any_row count_where
  count_where_not_any test [] h = refl
  count_where_not_any test (x ∷ xs) h = elim (Bool-cases (test x)) [
    | inl e ↦ ground arith
    | inr e ↦ ground (arith, count_where_not_any test xs)
  ]

  -- An update after which no more rows pass.
  pub count_where-update_where :
      (test p : A → Bool) (f : A → A) (xs : List A)
      → ((x : A) → p x ≡ true → test (f x) ≡ true → test x ≡ true)
      → count_where test (update_where p f xs) ≤ count_where test xs
  unfolding count_where update_where
  count_where-update_where test p f [] h = omega arith
  count_where-update_where test p f (x ∷ xs) h =
      omega (arith, count_where-update_where test p f xs h, one x (p x) refl)
    where
      one :
          (x : A) (b : Bool)
          → p x ≡ b
          → (if test (if b then f x else x) then 1 else 0) ≤ (if test x then 1 else 0)
      one x true e = elim (Bool-cases (test (f x))) [
        | inl t ↦ rw (t, h x e t) (omega arith)
        | inr t ↦ rw t (omega arith)
      ]
      one x false e = omega arith

  -- Where more rows pass one test than another, a row passes the one only.
  pub row_outside :
      (test other : A → Bool) (xs : List A)
      → count_where other xs < count_where test xs
      → (x : A) × In x xs × (test x ≡ true) × (other x ≡ false)
  unfolding count_where
  row_outside test other [] h = absurd (omega arith)
  row_outside test other (x ∷ xs) h = elim (Bool-cases (other x)) [
    | inl o ↦ let (y, m, t, n) = row_outside test other xs (less x (rw o at h)) in (y, inr m, t, n)
    | inr o ↦ elim (Bool-cases (test x)) [
      | inl t ↦ (x, inl refl, t, o)
      | inr t ↦
          let (y, m, q, n) = row_outside test other xs (omega (arith, rw (o, t) at h)) in
          (y, inr m, q, n)
    ]
  ]
    where
      less :
          (x : A)
          → 1 + count_where other xs < (if test x then 1 else 0) + count_where test xs
          → count_where other xs < count_where test xs
      less x k = elim (Bool-cases (test x)) [
        | inl t ↦ omega (arith, rw t at k)
        | inr t ↦ omega (arith, rw t at k)
      ]

  pub In-count_where :
      (test : A → Bool) (xs : List A) (x : A) → In x xs → test x ≡ true → 0 < count_where test xs
  unfolding count_where
  In-count_where test [] x m t = absurd m
  In-count_where test (y ∷ xs) x (inl e) t = rw (rw e at t) (omega arith)
  In-count_where test (y ∷ xs) x (inr m) t = omega (arith, In-count_where test xs x m t)

  -- Of one row that passes, the first is it.
  pub find-one :
      (test : A → Bool) (xs : List A) (x y : A)
      → count_where test xs ≤ 1
      → In x xs
      → test x ≡ true
      → find test xs ≡ some y
      → x ≡ y
  unfolding count_where find
  find-one test [] x y h m t f = absurd m
  find-one test (z ∷ xs) x y h (inl e) t f = rw e (ground (arith, rw (rw e at t) at f))
  find-one test (z ∷ xs) x y h (inr m) t f = elim (Bool-cases (test z)) [
    | inl e ↦ absurd (omega (arith, rw e at h, In-count_where test xs x m t))
    | inr e ↦ find-one test xs x y (omega (arith, rw e at h)) m t (rw e at f)
  ]

  -- INSERT under a unique index: at most one row passes behind it.
  pub count_where-insert :
      (test : A → Bool) (xs : List A) (x : A)
      → count_where test xs ≤ 1
      → (test x ≡ true → any_row test xs ≡ false)
      → count_where test (xs ++ x ∷ []) ≤ 1
  unfolding count_where
  count_where-insert test xs x few unique = elim (Bool-cases (test x)) [
    | inl t ↦ omega (
      arith,
      count_where-append test xs (x ∷ []),
      count_where_not_any test xs (unique t),
      ap {B = ℕ} (λ b. if b then 1 else 0) t,
    )
    | inr t ↦
        omega (arith, count_where-append test xs (x ∷ []), ap {B = ℕ} (λ b. if b then 1 else 0) t)
  ]
