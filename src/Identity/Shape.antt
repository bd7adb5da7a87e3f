-- ===== src/Identity/Shape.antt =====
-- The texts that the UUID test accepts: five groups of hexadecimal digits.
use mathlib.Core.Path.{subst}
use mathlib.Core.List.{append-nil}
use the_pact.Prelude.{
  ℕ, zero, suc, ◌+◌, ◌≡◌, refl, true, [], ◌∷◌, ◌++◌, arith, ◌==◌, length, All, and_elim, ◌↔◌,
  ==_iff, ◌∙◌,
}
use the_pact.Text.{Text, byte_len}
use the_pact.Identity.{is_dash_index, uuid_runes, valid_uuid}
use the_pact.Identity.Groups.{
  IsHex, Group, rune_len_pos, rune_len-hex, NoDash, no_dash, NoDash-of_no_dash, group_at,
  rune_len-dash, dash_at,
}

-- The canonical form: groups of 8, 4, 4, 4 and 12 hexadecimal digits with dashes between.
pub record UuidShape (s : Text) : Type 0 where
  pub time_low : Text
  pub time_mid : Text
  pub version : Text
  pub variant : Text
  pub node : Text
  pub size_low : length time_low ≡ 8
  pub size_mid : length time_mid ≡ 4
  pub size_version : length version ≡ 4
  pub size_variant : length variant ≡ 4
  pub size_node : length node ≡ 12
  pub hex_low : All IsHex time_low
  pub hex_mid : All IsHex time_mid
  pub hex_version : All IsHex version
  pub hex_variant : All IsHex variant
  pub hex_node : All IsHex node
  pub joined :
      s
      ≡ time_low ++ (b'-' ∷ (time_mid ++ (b'-' ∷ (version ++ (b'-' ∷ (variant ++ (b'-' ∷ node)))))))

nil_of_byte_len : (s : Text) → byte_len s ≡ 0 → s ≡ []
unfolding byte_len
nil_of_byte_len [] h = refl
nil_of_byte_len (c ∷ s) h = absurd (omega (arith, rune_len_pos c))

-- Five groups and four dashes can be read off an accepted text.
UuidShape-of_runes : (s : Text) → byte_len s ≡ 36 → uuid_runes 0 s ≡ true → UuidShape s
unfolding is_dash_index no_dash
UuidShape-of_runes s b u =
    let low = group_at 0 8 28 s (NoDash-of_no_dash 0 8 refl) b u in
    let (s1, e1, b1, u1) = dash_at 8 27 low.group.rest refl low.left low.more in
    let mid = group_at 9 4 23 s1 (NoDash-of_no_dash 9 4 refl) b1 u1 in
    let (s2, e2, b2, u2) = dash_at 13 22 mid.group.rest refl mid.left mid.more in
    let ver = group_at 14 4 18 s2 (NoDash-of_no_dash 14 4 refl) b2 u2 in
    let (s3, e3, b3, u3) = dash_at 18 17 ver.group.rest refl ver.left ver.more in
    let var = group_at 19 4 13 s3 (NoDash-of_no_dash 19 4 refl) b3 u3 in
    let (s4, e4, b4, u4) = dash_at 23 12 var.group.rest refl var.left var.more in
    let last = group_at 24 12 0 s4 (NoDash-of_no_dash 24 12 refl) b4 u4 in
    record {
      time_low = low.group.digits;
      time_mid = mid.group.digits;
      version = ver.group.digits;
      variant = var.group.digits;
      node = last.group.digits;
      size_low = low.group.size;
      size_mid = mid.group.size;
      size_version = ver.group.size;
      size_variant = var.group.size;
      size_node = last.group.size;
      hex_low = low.group.are_hex;
      hex_mid = mid.group.are_hex;
      hex_version = ver.group.are_hex;
      hex_variant = var.group.are_hex;
      hex_node = last.group.are_hex;
      joined = dashed low.group e1 (
          dashed mid.group e2
            (dashed ver.group e3 (dashed var.group e4 (ended last.group last.left))));
    }
  where
    dashed :
        {n : ℕ} {t r j : Text} (g : Group n t)
        → g.rest ≡ b'-' ∷ r
        → r ≡ j
        → t ≡ g.digits ++ (b'-' ∷ j)
    dashed g e f = cc g.splits

    ended : {n : ℕ} {t : Text} (g : Group n t) → byte_len g.rest ≡ 0 → t ≡ g.digits
    ended g e = g.splits ∙ rw (nil_of_byte_len g.rest e) (append-nil g.digits)

-- Digits are read as one group, whatever follows.
runes-group :
    (i n : ℕ) (g rest : Text)
    → length g ≡ n
    → NoDash i n
    → All IsHex g
    → uuid_runes (i + n) rest ≡ true
    → uuid_runes i (g ++ rest) ≡ true
unfolding uuid_runes
runes-group i n [] rest l d h u = subst (λ k. uuid_runes k rest ≡ true) (omega arith) u
runes-group i zero (c ∷ g) rest l d h u = absurd (omega arith)
runes-group i (suc n) (c ∷ g) rest l d h u =
    rw (d.0, h.0, rune_len-hex c h.0)
      (runes-group (i + 1) n g rest (omega arith) d.1 h.1
        (subst (λ k. uuid_runes k rest ≡ true) (omega arith) u))

runes-dash :
    (i : ℕ) (rest : Text)
    → is_dash_index i ≡ true
    → uuid_runes (i + 1) rest ≡ true
    → uuid_runes i (b'-' ∷ rest) ≡ true
unfolding uuid_runes
runes-dash i rest d u = rw (d, rune_len-dash) u

byte_len-group : (g rest : Text) → All IsHex g → byte_len (g ++ rest) ≡ length g + byte_len rest
unfolding byte_len
byte_len-group [] rest h = omega arith
byte_len-group (c ∷ g) rest h = omega (arith, rune_len-hex c h.0, byte_len-group g rest h.1)

-- A group and the dash behind it.
runes-dashed :
    (i n : ℕ) (g rest : Text)
    → length g ≡ n
    → NoDash i n
    → is_dash_index (i + n) ≡ true
    → All IsHex g
    → uuid_runes (i + n + 1) rest ≡ true
    → uuid_runes i (g ++ (b'-' ∷ rest)) ≡ true
runes-dashed i n g rest l d e h u =
    runes-group i n g (b'-' ∷ rest) l d h (runes-dash (i + n) rest e u)

runes-last : (g : Text) → length g ≡ 12 → All IsHex g → uuid_runes 24 g ≡ true
unfolding is_dash_index no_dash uuid_runes
runes-last g l h =
    subst (λ t. uuid_runes 24 t ≡ true) (append-nil g)
      (runes-group 24 12 g [] l (NoDash-of_no_dash 24 12 refl) h refl)

runes_of_UuidShape : (s : Text) → UuidShape s → uuid_runes 0 s ≡ true
unfolding is_dash_index no_dash
runes_of_UuidShape s h = rw h.joined (
    runes-dashed 0 8 h.time_low _ h.size_low (NoDash-of_no_dash 0 8 refl) refl h.hex_low (
      runes-dashed 9 4 h.time_mid _ h.size_mid (NoDash-of_no_dash 9 4 refl) refl h.hex_mid (
        runes-dashed 14 4 h.version _ h.size_version (NoDash-of_no_dash 14 4 refl) refl
          h.hex_version
          (runes-dashed 19 4 h.variant _ h.size_variant (NoDash-of_no_dash 19 4 refl) refl
            h.hex_variant (runes-last h.node h.size_node h.hex_node)))))

byte_len-dash : (rest : Text) → byte_len (b'-' ∷ rest) ≡ suc (byte_len rest)
unfolding byte_len
byte_len-dash rest = omega (arith, rune_len-dash)

byte_len-hex : (g : Text) → All IsHex g → byte_len g ≡ length g
unfolding byte_len
byte_len-hex [] h = refl
byte_len-hex (c ∷ g) h = omega (arith, rune_len-hex c h.0, byte_len-hex g h.1)

byte_len_of_UuidShape : (s : Text) → UuidShape s → byte_len s ≡ 36
byte_len_of_UuidShape s h = rw h.joined (
    simp
      (
        byte_len-group _ _ h.hex_low,
        byte_len-group _ _ h.hex_mid,
        byte_len-group _ _ h.hex_version,
        byte_len-group _ _ h.hex_variant,
        byte_len-dash,
        byte_len-hex _ h.hex_node,
      )
      (omega (arith, h.size_low, h.size_mid, h.size_version, h.size_variant, h.size_node)))

-- The UUID test accepts exactly the canonical form: groups of 8, 4, 4, 4 and 12 hexadecimal digits
-- of either case, joined by dashes.
pub valid_uuid_iff : (s : Text) → (valid_uuid s ≡ true) ↔ UuidShape s
unfolding valid_uuid
valid_uuid_iff s = (
  (λ h. let (b, u) = and_elim (byte_len s == 36) _ h in UuidShape-of_runes s ((==_iff _ _).0 b) u),
  (λ h. rw (byte_len_of_UuidShape s h, runes_of_UuidShape s h)),
)
