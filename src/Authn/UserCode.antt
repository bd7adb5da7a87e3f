-- ===== src/Authn/UserCode.antt =====
-- Codes that a person types: newUserCode and normalizeUserCode (internal/authn/service.go).
pub mod RoundTrip
use mathlib.Core.Option
use the_pact.Prelude.{ℕ, ◌+◌, ◌-◌, ◌*◌, Option, some, [], ◌∷◌, ◌++◌, ltb, ◌==◌, if◌then◌else◌}
use Prim.Native.Nat.{◌/◌, ◌%◌}
use the_pact.Text.{Text, trim_space, to_upper, remove_rune, byte_len, split_bytes}

-- The alphabet of base32: A to Z, 2 to 7
unfoldable pub base32_digit : ℕ → ℕ
base32_digit i = if ltb i 26 then b'A' + i else b'2' + (i - 26)

-- The eight groups of five bits of five bytes.
unfoldable pub base32 : ℕ → ℕ → ℕ → ℕ → ℕ → Text × Text
unfolding base32_digit
base32 a b c d e = (
  base32_digit (a / 8)
      ∷ base32_digit (a % 8 * 4 + b / 64)
      ∷ base32_digit (b / 2 % 32)
      ∷ base32_digit (b % 2 * 16 + c / 16)
      ∷ [],
  base32_digit (c % 16 * 2 + d / 128)
      ∷ base32_digit (d / 4 % 32)
      ∷ base32_digit (d % 4 * 8 + e / 32)
      ∷ base32_digit (e % 32)
      ∷ [],
)

-- encoded[:4] + "-" + encoded[4:8]
unfoldable pub new_user_code : ℕ → ℕ → ℕ → ℕ → ℕ → Text
unfolding base32
new_user_code a b c d e = let (front, back) = base32 a b c d e in front ++ b'-' ∷ back

-- A code of eight bytes gets its dash; one that the cut would break is no text, and no code.
unfoldable pub dashed : Text → Option Text
unfolding byte_len split_bytes
dashed compact =
    if byte_len compact == 8
    then Option.map (λ (front, back). front ++ b'-' ∷ back) (split_bytes 4 compact)
    else some compact

unfoldable pub normalize_user_code : (ℕ → ℕ) → Text → Option Text
unfolding trim_space remove_rune to_upper dashed
normalize_user_code upper raw = dashed (to_upper upper (remove_rune b'-' (trim_space raw)))
