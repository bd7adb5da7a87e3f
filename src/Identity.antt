-- ===== src/Identity.antt =====
-- Identifiers and times, and the UUID test of the services (validUUID of
-- internal/coordination/service.go, validateUUID of internal/agentsession/service.go).
pub mod Groups
pub mod Shape
use the_pact.Prelude.{ℕ, ◌+◌, ◌*◌, Bool, true, ◌&&◌, ◌||◌, [], ◌∷◌, leb, ◌==◌, if◌then◌else◌}
use the_pact.Text.{Text, byte_len, rune_len}

-- The database makes identifiers and compares them, and does nothing else with them.
abbrev pub Uuid : Type 0
Uuid = ℕ

-- Microseconds, the resolution of timestamptz.
abbrev pub Time : Type 0
Time = ℕ

abbrev pub seconds : ℕ → Time
seconds n = n * 1000000

unfoldable pub is_hex_digit : ℕ → Bool
is_hex_digit c =
    (leb b'0' c && leb c b'9') || (leb b'a' c && leb c b'f') || (leb b'A' c && leb c b'F')

pub is_dash_index : ℕ → Bool
is_dash_index i = i == 8 || i == 13 || i == 18 || i == 23

-- The loop over the runes; `index` counts bytes, as in a Go range.
pub uuid_runes : ℕ → Text → Bool
unfolding is_dash_index is_hex_digit rune_len
uuid_runes index [] = true
uuid_runes index (c ∷ s) =
    (if is_dash_index index then c == b'-' else is_hex_digit c) && uuid_runes (index + rune_len c) s

unfoldable pub valid_uuid : Text → Bool
unfolding uuid_runes byte_len
valid_uuid s = byte_len s == 36 && uuid_runes 0 s
