-- ===== src/Authn/UserCode/RoundTrip.antt =====
-- A code is read as it was made, however its holder types it: with its dash or without, in capitals
-- or in small letters.
use mathlib.Core.Option
use mathlib.Core.Path.{subst}
use mathlib.Core.List.{append_assoc, map-append}
use Prim.Native.Nat.{◌/◌, ◌%◌}
use the_pact.Prelude.{
  ℕ, suc, ◌+◌, ◌-◌, ◌*◌, ◌<◌, ◌≡◌, refl, sym, ◌∙◌, ap, Bool, true, false, some, [], ◌∷◌, ◌++◌, map,
  All, All-append, ltb, ◌==◌, if◌then◌else◌, length, arith,
}
use the_pact.Text.{
  Text, trim_space, to_upper, to_upper_rune, to_lower_rune, remove_rune, byte_len, rune_len,
  split_bytes, is_space,
}
use the_pact.Text.Laws.{Visible, trim_space-Visible, byte_len-append}
use the_pact.Authn.UserCode.{base32, base32_digit, dashed, new_user_code, normalize_user_code}

-- `c` is a rune of a code that is typed as `g c`.
pub record IsTyped (upper g : ℕ → ℕ) (c : ℕ) : Type 0 where
  pub visible : is_space (g c) ≡ false
  pub no_dash : (g c == b'-') ≡ false
  pub capital : to_upper_rune upper (g c) ≡ c
  pub one_byte : rune_len c ≡ 1

abbrev cased : Bool → (ℕ → ℕ) → ℕ → ℕ
cased true table c = to_lower_rune table c
cased false table c = c

base32_digit-IsTyped :
    (upper table : ℕ → ℕ) (small : Bool) (i : ℕ)
    → i < 32
    → IsTyped upper (cased small table) (base32_digit i)
unfolding base32_digit is_space to_upper_rune to_lower_rune rune_len
base32_digit-IsTyped upper table true i h = record {
  visible = ground arith;
  no_dash = ground arith;
  capital = ground arith;
  one_byte = ground arith;
}
base32_digit-IsTyped upper table false i h = record {
  visible = ground arith;
  no_dash = ground arith;
  capital = ground arith;
  one_byte = ground arith;
}

suc-sub-one : (n : ℕ) → suc n - 1 ≡ n
suc-sub-one n = omega arith

not_below_one : (n : ℕ) → ltb (suc n) 1 ≡ false
not_below_one n = ground arith

split_bytes-cons :
    (n c : ℕ) (t : Text)
    → rune_len c ≡ 1
    → split_bytes (suc n) (c ∷ t) ≡ Option.map (λ (a, b). (c ∷ a, b)) (split_bytes n t)
unfolding split_bytes
split_bytes-cons n c t one = rw (one, not_below_one n, suc-sub-one n) refl

normalize_user_code_lem :
    (upper : ℕ → ℕ) (raw : Text)
    → normalize_user_code upper raw ≡ dashed (to_upper upper (remove_rune b'-' (trim_space raw)))
unfolding normalize_user_code
normalize_user_code_lem upper raw = refl

module _ (upper g : ℕ → ℕ) where
  typed-Visible : (s : Text) → All (IsTyped upper g) s → Visible (map g s)
  typed-Visible [] h = tt
  typed-Visible (c ∷ s) h = (h.0.visible, typed-Visible s h.1)

  remove_rune-typed :
      (s t : Text)
      → All (IsTyped upper g) s
      → remove_rune b'-' (map g s ++ t) ≡ map g s ++ remove_rune b'-' t
  unfolding remove_rune
  remove_rune-typed [] t h = refl
  remove_rune-typed (c ∷ s) t h = rw (h.0.no_dash, remove_rune-typed s t h.1) refl

  to_upper-typed : (s : Text) → All (IsTyped upper g) s → to_upper upper (map g s) ≡ s
  unfolding to_upper
  to_upper-typed [] h = refl
  to_upper-typed (c ∷ s) h = rw (h.0.capital, to_upper-typed s h.1) refl

  byte_len-typed : (s : Text) → All (IsTyped upper g) s → byte_len s ≡ length s
  unfolding byte_len
  byte_len-typed [] h = refl
  byte_len-typed (c ∷ s) h = omega (arith, h.0.one_byte, byte_len-typed s h.1)

  split_bytes-typed :
      (s t : Text) → All (IsTyped upper g) s → split_bytes (length s) (s ++ t) ≡ some (s, t)
  unfolding split_bytes
  split_bytes-typed [] t h = refl
  split_bytes-typed (c ∷ s) t h =
      split_bytes-cons (length s) c (s ++ t) h.0.one_byte
      ∙ ap (Option.map (λ ((a, b) : Text × Text). (c ∷ a, b))) (split_bytes-typed s t h.1)

  remove_rune_typed-All :
      (s : Text) → All (IsTyped upper g) s → remove_rune b'-' (map g s) ≡ map g s
  unfolding remove_rune
  remove_rune_typed-All [] h = refl
  remove_rune_typed-All (c ∷ s) h = rw (h.0.no_dash, remove_rune_typed-All s h.1) refl

  -- Four runes and four runes, and what may stand between them.
  abbrev typed : Text → Text → Bool → Text
  typed front back dash = map g front ++ (if dash then b'-' ∷ [] else []) ++ map g back

  typed_Visible :
      (front back : Text) (dash : Bool)
      → All (IsTyped upper g) front
      → All (IsTyped upper g) back
      → Visible (typed front back dash)
  unfolding is_space
  typed_Visible front back true hf hb =
      All-append _ (map g front ++ b'-' ∷ []) (map g back)
        (All-append _ (map g front) (b'-' ∷ []) (typed-Visible front hf) (refl, tt))
        (typed-Visible back hb)
  typed_Visible front back false hf hb =
      All-append _ (map g front ++ []) (map g back)
        (All-append _ (map g front) [] (typed-Visible front hf) tt) (typed-Visible back hb)

  remove_dash :
      (front back : Text) (dash : Bool)
      → All (IsTyped upper g) front
      → All (IsTyped upper g) back
      → remove_rune b'-' (typed front back dash) ≡ map g (front ++ back)
  unfolding remove_rune
  remove_dash front back true hf hb =
      ap (remove_rune b'-') (append_assoc (map g front) (b'-' ∷ []) (map g back))
      ∙ remove_rune-typed front (b'-' ∷ map g back) hf
      ∙ ap (λ (t : Text). map g front ++ t) (remove_rune_typed-All back hb)
      ∙ sym (map-append g front back)
  remove_dash front back false hf hb =
      ap (remove_rune b'-') (append_assoc (map g front) [] (map g back))
      ∙ remove_rune-typed front (map g back) hf
      ∙ ap (λ (t : Text). map g front ++ t) (remove_rune_typed-All back hb)
      ∙ sym (map-append g front back)

  dashed_lem :
      (front back : Text)
      → All (IsTyped upper g) front
      → All (IsTyped upper g) back
      → length front ≡ 4
      → length back ≡ 4
      → dashed (front ++ back) ≡ some (front ++ b'-' ∷ back)
  unfolding dashed
  dashed_lem front back hf hb f4 b4 =
      rw
        (
          bytes,
          subst (λ (n : ℕ). split_bytes n (front ++ back) ≡ some (front, back)) f4
              (split_bytes-typed front back hf),
        )
        refl
    where
      bytes : (byte_len (front ++ back) == 8) ≡ true
      bytes =
          ground
            (arith, byte_len-append front back, byte_len-typed front hf, byte_len-typed back hb)

  normalize-typed :
      (front back : Text) (dash : Bool)
      → All (IsTyped upper g) front
      → All (IsTyped upper g) back
      → length front ≡ 4
      → length back ≡ 4
      → normalize_user_code upper (typed front back dash) ≡ some (front ++ b'-' ∷ back)
  normalize-typed front back dash hf hb f4 b4 =
      normalize_steps
      ∙ ap (λ (t : Text). dashed (to_upper upper (remove_rune b'-' t)))
          (trim_space-Visible (typed front back dash) (typed_Visible front back dash hf hb))
      ∙ ap (λ (t : Text). dashed (to_upper upper t)) (remove_dash front back dash hf hb)
      ∙ ap dashed (to_upper-typed (front ++ back) (All-append _ front back hf hb))
      ∙ dashed_lem front back hf hb f4 b4
    where
      normalize_steps :
          normalize_user_code upper (typed front back dash)
          ≡ dashed (to_upper upper (remove_rune b'-' (trim_space (typed front back dash))))
      normalize_steps = normalize_user_code_lem upper (typed front back dash)

-- The digits of a code, as they are typed.
unfoldable pub typed_code : (ℕ → ℕ) → Bool → Bool → ℕ → ℕ → ℕ → ℕ → ℕ → Text
unfolding base32
typed_code table small dash a b c d e =
    let (front, back) = base32 a b c d e in
    map (cased small table) front
    ++ (if dash then b'-' ∷ [] else [])
    ++ map (cased small table) back

-- A user code made of five bytes is read back from what a person types, with or without the dash,
-- in capitals or in small letters.
pub user_code_round_trip :
    (upper table : ℕ → ℕ) (small dash : Bool) (a b c d e : ℕ)
    → a < 256
    → b < 256
    → c < 256
    → d < 256
    → e < 256
    → normalize_user_code upper (typed_code table small dash a b c d e)
      ≡ some (new_user_code a b c d e)
unfolding typed_code new_user_code
user_code_round_trip upper table small dash a b c d e ha hb hc hd he =
    normalize-typed upper (cased small table) (base32 a b c d e).0 (base32 a b c d e).1 dash
      (
        digit (a / 8) (omega arith),
        (
          digit (a % 8 * 4 + b / 64) (omega arith),
          (digit (b / 2 % 32) (omega arith), (digit (b % 2 * 16 + c / 16) (omega arith), tt)),
        ),
      )
      (
        digit (c % 16 * 2 + d / 128) (omega arith),
        (
          digit (d / 4 % 32) (omega arith),
          (digit (d % 4 * 8 + e / 32) (omega arith), (digit (e % 32) (omega arith), tt)),
        ),
      )
      refl refl
  where
    digit : (i : ℕ) → i < 32 → IsTyped upper (cased small table) (base32_digit i)
    digit i h = base32_digit-IsTyped upper table small i h
