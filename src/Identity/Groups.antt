-- ===== src/Identity/Groups.antt =====
-- What the UUID test reads: a group of hexadecimal digits, and the dash behind it.
use mathlib.Core.Path.{subst}
use native.Mathlib.Nat.{add-zero}
use the_pact.Prelude.{
  ℕ, zero, suc, ap, ◌+◌, ◌≤◌, ◌≡◌, refl, Bool, true, false, [], ◌∷◌, ◌++◌, arith, ◌==◌, length, All,
  and_elim, if◌then◌else◌, not, ◌&&◌,
}
use the_pact.Text.{Text, byte_len, rune_len}
use the_pact.Identity.{is_hex_digit, is_dash_index, uuid_runes}

abbrev pub IsHex : ℕ → Type 0
IsHex c = is_hex_digit c ≡ true

-- `n` digits at the head of a text.
pub record Group (n : ℕ) (s : Text) : Type 0 where
  pub digits : Text
  pub rest : Text
  pub size : length digits ≡ n
  pub are_hex : All IsHex digits
  pub splits : s ≡ digits ++ rest

pub rune_len_pos : (c : ℕ) → 1 ≤ rune_len c
unfolding rune_len
rune_len_pos c = ground arith

pub rune_len-hex : (c : ℕ) → is_hex_digit c ≡ true → rune_len c ≡ 1
unfolding rune_len is_hex_digit
rune_len-hex c h = ground arith

-- The indices from `i` on, `n` of them, hold no dash.
abbrev pub NoDash : ℕ → ℕ → Type 0
NoDash i zero = Unit
NoDash i (suc n) = (is_dash_index i ≡ false) × NoDash (i + 1) n

unfoldable pub no_dash : ℕ → ℕ → Bool
no_dash i zero = true
no_dash i (suc n) = not (is_dash_index i) && no_dash (i + 1) n

pub NoDash-of_no_dash : (i n : ℕ) → no_dash i n ≡ true → NoDash i n
unfolding no_dash
NoDash-of_no_dash i zero h = tt
NoDash-of_no_dash i (suc n) h = (ground arith, NoDash-of_no_dash (i + 1) n (ground arith))

-- One step of the loop, at an index of a digit and at one of a dash.
digit_at :
    (i c : ℕ) (s : Text)
    → is_dash_index i ≡ false
    → uuid_runes i (c ∷ s) ≡ true
    → is_hex_digit c ≡ true
unfolding uuid_runes
digit_at i c s d u = ground arith

runes_tail :
    (i c : ℕ) (s : Text) → uuid_runes i (c ∷ s) ≡ true → uuid_runes (i + rune_len c) s ≡ true
unfolding uuid_runes
runes_tail i c s u = (and_elim (if is_dash_index i then c == b'-' else is_hex_digit c) _ u).1

runes_after :
    (i c : ℕ) (s : Text)
    → is_dash_index i ≡ false
    → uuid_runes i (c ∷ s) ≡ true
    → uuid_runes (i + 1) s ≡ true
runes_after i c s d u =
    subst (λ k. uuid_runes (i + k) s ≡ true) (rune_len-hex c (digit_at i c s d u))
      (runes_tail i c s u)

dash_rune : (i c : ℕ) (s : Text) → is_dash_index i ≡ true → uuid_runes i (c ∷ s) ≡ true → c ≡ b'-'
unfolding uuid_runes
dash_rune i c s d u = ground arith

pub record GroupAt (i n m : ℕ) (s : Text) : Type 0 where
  pub group : Group n s
  pub left : byte_len group.rest ≡ m
  pub more : uuid_runes (i + n) group.rest ≡ true

longer :
    (i n m c : ℕ) (s : Text)
    → is_hex_digit c ≡ true
    → GroupAt (i + 1) n m s
    → GroupAt i (suc n) m (c ∷ s)
longer i n m c s hex r = record {
  group = record {
    digits = c ∷ r.group.digits;
    rest = r.group.rest;
    size = ap suc r.group.size;
    are_hex = (hex, r.group.are_hex);
    splits = ap (◌∷◌ c) r.group.splits;
  };
  left = r.left;
  more = subst (λ k. uuid_runes k r.group.rest ≡ true) (omega arith) r.more;
}

pub group_at :
    (i n m : ℕ) (s : Text)
    → NoDash i n
    → byte_len s ≡ n + m
    → uuid_runes i s ≡ true
    → GroupAt i n m s
unfolding byte_len uuid_runes
group_at i zero m s d b u = record {
  group = record { digits = []; rest = s; size = refl; are_hex = tt; splits = refl };
  left = omega arith;
  more = rw add-zero u;
}
group_at i (suc n) m [] d b u = absurd (omega arith)
group_at i (suc n) m (c ∷ s) d b u = longer i n m c s (digit_at i c s d.0 u) (
    group_at (i + 1) n m s d.1 (omega (arith, rune_len-hex c (digit_at i c s d.0 u)))
      (runes_after i c s d.0 u))

pub rune_len-dash : rune_len b'-' ≡ 1
unfolding rune_len
rune_len-dash = refl

-- A dash stands at the index, and the rest goes on after it.
pub dash_at :
    (i m : ℕ) (s : Text)
    → is_dash_index i ≡ true
    → byte_len s ≡ suc m
    → uuid_runes i s ≡ true
    → (rest : Text) × (s ≡ b'-' ∷ rest) × (byte_len rest ≡ m) × (uuid_runes (i + 1) rest ≡ true)
unfolding byte_len uuid_runes
dash_at i m [] d b u = absurd (omega arith)
dash_at i m (c ∷ s) d b u =
    let e = dash_rune i c s d u in
    let one : rune_len c ≡ 1 = rw e rune_len-dash in
    (
      s,
      ap (λ x. x ∷ s) e,
      omega arith,
      subst (λ k. uuid_runes (i + k) s ≡ true) one (runes_tail i c s u),
    )
