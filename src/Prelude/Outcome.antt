-- ===== src/Prelude/Outcome.antt =====
-- Results of fallible code, a value or the error that the caller gets, and the rules for what a
-- block ensures when it succeeds.
use mathlib.Core.Path.{◌≡◌, refl}
use mathlib.Core.Logic.{◌⊎◌, inl, inr}
use mathlib.Core.Bool.{Bool, true, false}
use mathlib.Core.Option.{Option, none, some}
use the_pact.Prelude.Tests.{if◌then◌else◌}
use native.Mathlib.Omega.{arith}

pub data Result {ℓ} (E : Type 0) (A : Type ℓ) : Type ℓ where
  ok : A → Result E A
  err : E → Result E A

-- `if !test { return err }`
pub require : {E : Type 0} → Bool → E → Result E (Unit {0})
require true e = ok tt
require false e = err e

pub or_fail {ℓ} : {E : Type 0} {A : Type ℓ} → Option A → E → Result E A
or_fail none e = err e
or_fail (some a) e = ok a

module _ {ℓ κ} {E : Type 0} {A : Type ℓ} {B : Type κ} where
  infixl 5 ◌>>=◌
  -- Opening this opens `require` and `or_fail` too.
  unfoldable pub ◌>>=◌ : Result E A → (A → Result E B) → Result E B
  unfolding require or_fail
  ok a >>= f = f a
  err e >>= f = err e

  -- Inversion of a successful bind.
  pub >>=-eq-ok :
      (m : Result E A) (f : A → Result E B) {b : B}
      → (m >>= f) ≡ ok b
      → (a : A) × (m ≡ ok a) × (f a ≡ ok b)
  unfolding ◌>>=◌
  >>=-eq-ok (ok a) f h = (a, refl, h)
  >>=-eq-ok (err e) f h = cc

  -- A block goes on behind a step that succeeds.
  pub >>=_ok_lem : (m : Result E A) (f : A → Result E B) {a : A} → m ≡ ok a → (m >>= f) ≡ f a
  unfolding ◌>>=◌
  >>=_ok_lem (ok b) f h = ground arith
  >>=_ok_lem (err e) f h = cc

module _ {ℓ} {E : Type 0} {B : Type ℓ} where
  infixl 5 ◌>>◌
  abbrev pub ◌>>◌ : Result E (Unit {0}) → Result E B → Result E B
  m >> k = m >>= λ _. k

module _ {E A : Type 0} where
  pub Result-cases : (m : Result E A) → ((a : A) × (m ≡ ok a)) ⊎ ((e : E) × (m ≡ err e))
  Result-cases (ok a) = inl (a, refl)
  Result-cases (err e) = inr (e, refl)

  pub ok_not_err : {a : A} {e : E} → ok a ≡ err e → ⊥
  ok_not_err h = cc

-- Whatever `m` returns satisfies `P`.
pub record Ensures {E A : Type 0} (P : A → Type 0) (m : Result E A) : Type 0 where
  pub holds : (a : A) → m ≡ ok a → P a

module _ {E A B : Type 0} {P : B → Type 0} where
  -- The rest of a block may use what the step returned.
  pub Ensures-bind :
      (m : Result E A) (f : A → Result E B)
      → ((a : A) → m ≡ ok a → Ensures P (f a))
      → Ensures P (m >>= f)
  unfolding ◌>>=◌
  Ensures-bind (ok a) f h = h a refl
  Ensures-bind (err e) f h = record { holds = λ b x. cc }

  pub Ensures-or_fail :
      (o : Option A) (e : E) (f : A → Result E B)
      → ((a : A) → o ≡ some a → Ensures P (f a))
      → Ensures P (or_fail o e >>= f)
  unfolding ◌>>=◌
  Ensures-or_fail none e f h = record { holds = λ b x. cc }
  Ensures-or_fail (some a) e f h = h a refl

module _ {E B : Type 0} {P : B → Type 0} where
  pub Ensures-ok : (b : B) → P b → Ensures {E = E} P (ok b)
  Ensures-ok b p = record { holds = λ c e. ground arith }

  pub Ensures-require :
      (test : Bool) (e : E) (k : Result E B)
      → (test ≡ true → Ensures P k)
      → Ensures P (require test e >>= λ _. k)
  unfolding ◌>>=◌
  Ensures-require true e k h = h refl
  Ensures-require false e k h = record { holds = λ b x. cc }

  pub Ensures-if :
      (test : Bool) (m n : Result E B)
      → (test ≡ true → Ensures P m)
      → (test ≡ false → Ensures P n)
      → Ensures P (if test then m else n)
  Ensures-if true m n hm hn = hm refl
  Ensures-if false m n hm hn = hn refl
