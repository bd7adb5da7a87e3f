-- ===== src/Text/Laws.antt =====
-- Laws of the text functions.
use mathlib.Core.List.{reverse-reverse}
use the_pact.Prelude.{
  ℕ, ◌+◌, ◌≡◌, refl, ◌↔◌, ◌≢◌, true, false, [], ◌∷◌, ◌++◌, arith, All, All-reverse, reverse,
}
use the_pact.Text.{
  Text, text_eq, has_prefix, contains_rune, is_space, trim_left, trim_space, byte_len,
}

pub text_eq_refl : (s : Text) → text_eq s s ≡ true
unfolding text_eq
text_eq_refl [] = refl
text_eq_refl (c ∷ s) = ground (arith, text_eq_refl s)

pub eq_of_text_eq : (s t : Text) → text_eq s t ≡ true → s ≡ t
unfolding text_eq
eq_of_text_eq [] [] h = refl
eq_of_text_eq [] (d ∷ t) h = cc
eq_of_text_eq (c ∷ s) [] h = cc
eq_of_text_eq (c ∷ s) (d ∷ t) h = ground (arith, eq_of_text_eq s t)

pub text_eq_iff : (s t : Text) → (text_eq s t ≡ true) ↔ (s ≡ t)
text_eq_iff s t = (eq_of_text_eq s t, λ e. rw e (text_eq_refl t))

pub text_eq_comm : (s t : Text) → text_eq s t ≡ text_eq t s
unfolding text_eq
text_eq_comm [] [] = refl
text_eq_comm [] (d ∷ t) = refl
text_eq_comm (c ∷ s) [] = refl
text_eq_comm (c ∷ s) (d ∷ t) = ground (arith, text_eq_comm s t)

-- A prefix is what stands before a rest.
pub rest_of_has_prefix : (s t : Text) → has_prefix s t ≡ true → (rest : Text) × (t ≡ s ++ rest)
unfolding has_prefix
rest_of_has_prefix [] t h = (t, refl)
rest_of_has_prefix (c ∷ s) [] h = cc
rest_of_has_prefix (c ∷ s) (d ∷ t) h =
    let (rest, e) = rest_of_has_prefix s t (ground arith) in (rest, ground arith)

pub has_prefix-append : (s rest : Text) → has_prefix s (s ++ rest) ≡ true
unfolding has_prefix
has_prefix-append [] rest = refl
has_prefix-append (c ∷ s) rest = ground (arith, has_prefix-append s rest)

-- A text without `c`.
abbrev pub Lacks : ℕ → Text → Type 0
Lacks c s = All (λ (d : ℕ). d ≢ c) s

pub Lacks-of_contains_rune : (c : ℕ) (s : Text) → contains_rune c s ≡ false → Lacks c s
unfolding contains_rune
Lacks-of_contains_rune c [] h = tt
Lacks-of_contains_rune c (d ∷ s) h =
    ((λ e. ground arith), Lacks-of_contains_rune c s (ground arith))

-- Up to its first `c` a text is determined.
pub cut_unique :
    (c : ℕ) (s t x y : Text) → Lacks c s → Lacks c t → s ++ c ∷ x ≡ t ++ c ∷ y → (s ≡ t) × (x ≡ y)
cut_unique c [] [] x y hs ht e = (refl, ground arith)
cut_unique c [] (d ∷ t) x y hs ht e = absurd (ht.0 (ground arith))
cut_unique c (d ∷ s) [] x y hs ht e = absurd (hs.0 (ground arith))
cut_unique c (d ∷ s) (f ∷ t) x y hs ht e =
    let (p, q) = cut_unique c s t x y hs.1 ht.1 (ground arith) in (ground arith, q)

-- A text without space.
abbrev pub Visible : Text → Type 0
Visible s = All (λ (c : ℕ). is_space c ≡ false) s

trim_left-Visible : (s : Text) → Visible s → trim_left s ≡ s
unfolding trim_left
trim_left-Visible [] h = refl
trim_left-Visible (c ∷ s) h = rw h.0 refl

pub trim_space-Visible : (s : Text) → Visible s → trim_space s ≡ s
unfolding trim_space
trim_space-Visible s h =
    rw (trim_left-Visible s h, trim_left-Visible (reverse s) (All-reverse _ s h))
      (reverse-reverse s)

pub byte_len-append : (s t : Text) → byte_len (s ++ t) ≡ byte_len s + byte_len t
unfolding byte_len
byte_len-append [] t = omega arith
byte_len-append (c ∷ s) t = omega (arith, byte_len-append s t)
