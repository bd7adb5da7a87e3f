-- ===== src/Prelude/Tables.antt =====
-- Tables as lists of rows, and what SELECT, UPDATE and INSERT do to them.
use Prim.Native.Nat.{ℕ, ◌+◌}
use mathlib.Core.Path.{◌≡◌, refl}
use mathlib.Core.Logic.{inl, inr}
use mathlib.Core.Bool.{Bool, true, false}
use mathlib.Core.Option.{Option, none, some}
use mathlib.Core.List.{List, [], ◌∷◌, ◌++◌, map}
use native.Mathlib.Omega.{arith}
use the_pact.Prelude.Tests.{if◌then◌else◌, Bool-cases, Option-cases}
use the_pact.Prelude.Lists.{In, In-map}

module _ {A : Type 0} where
  -- The first row that passes.
  unfoldable pub find : (A → Bool) → List A → Option A
  find test [] = none
  find test (x ∷ xs) = let rest = find test xs in if test x then some x else rest

  -- UPDATE … WHERE
  unfoldable pub update_where : (A → Bool) → (A → A) → List A → List A
  update_where test f xs = map (λ x. if test x then f x else x) xs

  unfoldable pub count_where : (A → Bool) → List A → ℕ
  count_where test [] = 0
  count_where test (x ∷ xs) = (if test x then 1 else 0) + count_where test xs

  unfoldable pub any_row : (A → Bool) → List A → Bool
  any_row test [] = false
  any_row test (x ∷ xs) = let rest = any_row test xs in if test x then true else rest

  -- SELECT … WHERE
  unfoldable pub rows_where : (A → Bool) → List A → List A
  rows_where test [] = []
  rows_where test (x ∷ xs) = let rest = rows_where test xs in if test x then x ∷ rest else rest

  -- INSERT: tables keep the order of insertion.
  abbrev pub insert : A → List A → List A
  insert x xs = xs ++ x ∷ []

  pub find-In :
      (test : A → Bool) (xs : List A) (x : A) → find test xs ≡ some x → In x xs × (test x ≡ true)
  unfolding find
  find-In test [] x h = absurd (cc)
  find-In test (y ∷ xs) x h = elim (Bool-cases (test y)) [
    | inl e ↦ (inl (ground arith), ground arith)
    | inr e ↦ let (m, t) = find-In test xs x (ground arith) in (inr m, t)
  ]

  -- A row that was found stays found when rows are added behind.
  pub find-append :
      (test : A → Bool) (xs ys : List A) (x : A)
      → find test xs ≡ some x
      → find test (xs ++ ys) ≡ some x
  unfolding find
  find-append test [] ys x h = absurd (cc)
  find-append test (y ∷ xs) ys x h = elim (Bool-cases (test y)) [
    | inl e ↦ ground arith
    | inr e ↦ ground (arith, find-append test xs ys x)
  ]

  pub find-append_none :
      (test : A → Bool) (xs ys : List A) → find test xs ≡ none → find test (xs ++ ys) ≡ find test ys
  unfolding find
  find-append_none test [] ys h = refl
  find-append_none test (y ∷ xs) ys h = elim (Bool-cases (test y)) [
    | inl e ↦ ground arith
    | inr e ↦ ground (arith, find-append_none test xs ys)
  ]

  -- An update that keeps what the test reads is found where the row was.
  pub find-update_where :
      (test p : A → Bool) (f : A → A) (xs : List A)
      → ((x : A) → test (f x) ≡ test x)
      → find test (update_where p f xs)
        ≡ (elim (find test xs) [ none ↦ none | some x ↦ some (if p x then f x else x) ])
  unfolding find update_where
  find-update_where test p f [] h = refl
  find-update_where test p f (x ∷ xs) h = elim (Bool-cases (p x)) [
    | inl e ↦ ground (arith, h x, find-update_where test p f xs h)
    | inr e ↦ ground (arith, h x, find-update_where test p f xs h)
  ]

  pub In-update_where :
      (p : A → Bool) (f : A → A) (xs : List A) (y : A)
      → In y (update_where p f xs)
      → (x : A) × In x xs × (y ≡ (if p x then f x else x))
  unfolding update_where
  In-update_where p f xs y m = In-map (λ x. if p x then f x else x) y xs m

  pub any_row-In :
      (test : A → Bool) (xs : List A) → any_row test xs ≡ true → (x : A) × In x xs × (test x ≡ true)
  unfolding any_row
  any_row-In test [] h = absurd (cc)
  any_row-In test (y ∷ xs) h = elim (Bool-cases (test y)) [
    | inl e ↦ (y, inl refl, e)
    | inr e ↦ let (x, m, t) = any_row-In test xs (ground arith) in (x, inr m, t)
  ]

  pub any_row_of_In :
      (test : A → Bool) (xs : List A) (x : A) → In x xs → test x ≡ true → any_row test xs ≡ true
  unfolding any_row
  any_row_of_In test [] x m t = absurd m
  any_row_of_In test (y ∷ xs) x (inl e) t = rw (rw e at t) refl
  any_row_of_In test (y ∷ xs) x (inr m) t = elim (Bool-cases (test y)) [
    | inl e ↦ rw e refl
    | inr e ↦ rw e (any_row_of_In test xs x m t)
  ]

  pub find-none :
      (test : A → Bool) (xs : List A) (x : A) → find test xs ≡ none → In x xs → test x ≡ false
  unfolding find
  find-none test [] x h m = absurd m
  find-none test (y ∷ xs) x h (inl e) = elim (Bool-cases (test y)) [
    | inl t ↦ absurd (cc (rw t at h))
    | inr t ↦ rw e t
  ]
  find-none test (y ∷ xs) x h (inr m) = elim (Bool-cases (test y)) [
    | inl t ↦ absurd (cc (rw t at h))
    | inr t ↦ find-none test xs x (rw t at h) m
  ]

  -- A table with a row that passes has a first one.
  pub find-is_some :
      (test : A → Bool) (xs : List A) (x : A)
      → In x xs
      → test x ≡ true
      → (y : A) × (find test xs ≡ some y) × In y xs × (test y ≡ true)
  find-is_some test xs x m t = elim (Option-cases (find test xs)) [
    | inl e ↦ absurd (cc (find-none test xs x e m, t))
    | inr (y, e) ↦ let (my, ty) = find-In test xs y e in (y, e, my, ty)
  ]

  -- An update that keeps what the test reads keeps the answer.
  pub any_row-update_where :
      (test p : A → Bool) (f : A → A) (xs : List A)
      → ((x : A) → test (f x) ≡ test x)
      → any_row test (update_where p f xs) ≡ any_row test xs
  unfolding any_row update_where
  any_row-update_where test p f [] h = refl
  any_row-update_where test p f (x ∷ xs) h = elim (Bool-cases (p x)) [
    | inl e ↦ rw (e, h x, any_row-update_where test p f xs h) refl
    | inr e ↦ rw (e, any_row-update_where test p f xs h) refl
  ]

  -- Where no row passes, none is found by a test that asks for more.
  pub find-none_of_any_row :
      (test narrower : A → Bool) (xs : List A)
      → ((x : A) → narrower x ≡ true → test x ≡ true)
      → any_row test xs ≡ false
      → find narrower xs ≡ none
  unfolding any_row find
  find-none_of_any_row test narrower [] imp h = refl
  find-none_of_any_row test narrower (x ∷ xs) imp h = elim (Bool-cases (test x)) [
    | inl e ↦ absurd (cc (rw e at h))
    | inr e ↦ elim (Bool-cases (narrower x)) [
      | inl n ↦ absurd (cc (imp x n, e))
      | inr n ↦ rw n (find-none_of_any_row test narrower xs imp (rw e at h))
    ]
  ]

  -- An update whose rows pass no more leaves no row that passes.
  pub In-update_where_clears :
      (p : A → Bool) (f : A → A) (xs : List A) (y : A)
      → ((x : A) → p (f x) ≡ false)
      → In y (update_where p f xs)
      → p y ≡ false
  In-update_where_clears p f xs y h m =
      let (x, mx, e) = In-update_where p f xs y m in
      elim (Bool-cases (p x)) [ inl t ↦ rw (e, t) (h x) | inr t ↦ rw (e, t) t ]

  -- An update keeps a row that passes, where it keeps the rows that it changes passing.
  pub any_row-update_where_mono :
      (test p : A → Bool) (f : A → A) (xs : List A)
      → ((x : A) → p x ≡ true → test x ≡ true → test (f x) ≡ true)
      → any_row test xs ≡ true
      → any_row test (update_where p f xs) ≡ true
  unfolding any_row update_where
  any_row-update_where_mono test p f [] h t = t
  any_row-update_where_mono test p f (x ∷ xs) h t = elim (Bool-cases (test x)) [
    | inl e ↦ elim (Bool-cases (p x)) [ inl q ↦ rw (q, h x q e) refl | inr q ↦ rw (q, e) refl ]
    | inr e ↦
        let rest = any_row-update_where_mono test p f xs h (rw e at t) in
        elim (Bool-cases (test (if p x then f x else x))) [ inl q ↦ rw q refl | inr q ↦ rw q rest ]
  ]

  pub update_where-In :
      (p : A → Bool) (f : A → A) (xs : List A) (x : A)
      → In x xs
      → In (if p x then f x else x) (update_where p f xs)
  unfolding update_where
  update_where-In p f (y ∷ xs) x (inl e) = rw e (inl refl)
  update_where-In p f (y ∷ xs) x (inr m) = inr (update_where-In p f xs x m)
  update_where-In p f [] x m = absurd m
