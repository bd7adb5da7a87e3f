-- ===== src/Text.antt =====
-- Go strings as lists of code points, with the functions of the packages strings and utf8 that the
-- services call. The strings are valid UTF-8, as the JSON decoder makes them.
pub mod Laws
use Prim.Native.Char.{code}
use Prim.Native.String.{String}
use mathlib.Core.Option
use the_pact.Prelude.{
  ℕ, zero, suc, ◌+◌, ◌-◌, Option, none, some, Bool, true, false, ◌&&◌, ◌||◌, List, [], ◌∷◌, map,
  reverse, leb, ltb, ◌==◌, if◌then◌else◌,
}

abbrev pub Text : Type 0
Text = List ℕ

-- A literal of the source.
abbrev pub text : String → Text
text String.[] = []
text (String.◌∷◌ c s) = code c ∷ text s

unfoldable pub text_eq : Text → Text → Bool
text_eq [] [] = true
text_eq [] (d ∷ t) = false
text_eq (c ∷ s) [] = false
text_eq (c ∷ s) (d ∷ t) = c == d && text_eq s t

-- strings.HasPrefix(t, s)
unfoldable pub has_prefix : Text → Text → Bool
has_prefix [] t = true
has_prefix (c ∷ s) [] = false
has_prefix (c ∷ s) (d ∷ t) = c == d && has_prefix s t

-- strings.ContainsRune(s, c)
unfoldable pub contains_rune : ℕ → Text → Bool
contains_rune c [] = false
contains_rune c (d ∷ s) = c == d || contains_rune c s

-- btrim(s) = '', which trims spaces only.
unfoldable pub is_padding : Text → Bool
is_padding [] = true
is_padding (c ∷ s) = c == 32 && is_padding s

-- strings.ReplaceAll for one-rune texts
unfoldable pub replace_rune : ℕ → ℕ → Text → Text
replace_rune old new [] = []
replace_rune old new (c ∷ s) = (if c == old then new else c) ∷ replace_rune old new s

-- unicode.IsSpace
unfoldable pub is_space : ℕ → Bool
is_space c =
    (leb 9 c && leb c 13)
    || c == 32
    || c == 133
    || c == 160
    || c == 5760
    || (leb 8192 c && leb c 8202)
    || c == 8232
    || c == 8233
    || c == 8239
    || c == 8287
    || c == 12288

unfoldable pub trim_left : Text → Text
trim_left [] = []
trim_left (c ∷ s) = let rest = trim_left s in if is_space c then rest else c ∷ s

-- strings.TrimSpace
unfoldable pub trim_space : Text → Text
unfolding is_space trim_left
trim_space s = reverse (trim_left (reverse (trim_left s)))

-- unicode.ToLower: A to Z here, and the case table of Unicode, a parameter, from 128 on.
unfoldable pub to_lower_rune : (ℕ → ℕ) → ℕ → ℕ
to_lower_rune table c =
    if ltb c 128 then (if leb b'A' c && leb c b'Z' then c + 32 else c) else table c

-- strings.ToLower
unfoldable pub to_lower : (ℕ → ℕ) → Text → Text
unfolding to_lower_rune
to_lower table s = map (to_lower_rune table) s

unfoldable pub to_upper_rune : (ℕ → ℕ) → ℕ → ℕ
to_upper_rune table c =
    if ltb c 128 then (if leb b'a' c && leb c b'z' then c - 32 else c) else table c

-- strings.ToUpper, with the case table from 128 on
unfoldable pub to_upper : (ℕ → ℕ) → Text → Text
unfolding to_upper_rune
to_upper table s = map (to_upper_rune table) s

-- strings.EqualFold; `table` gives the first rune, by the order of cases, that folds with a rune
-- from 128 on.
unfoldable pub equal_fold : (ℕ → ℕ) → Text → Text → Bool
unfolding to_lower text_eq
equal_fold table s t = text_eq (to_lower table s) (to_lower table t)

-- strings.ReplaceAll(s, c, "")
unfoldable pub remove_rune : ℕ → Text → Text
remove_rune c [] = []
remove_rune c (d ∷ s) = let rest = remove_rune c s in if d == c then rest else d ∷ rest

-- The bytes that UTF-8 takes for a code point.
unfoldable pub rune_len : ℕ → ℕ
rune_len c = if ltb c 128 then 1 else if ltb c 2048 then 2 else if ltb c 65536 then 3 else 4

-- len(s); `length` is utf8.RuneCountInString(s).
unfoldable pub byte_len : Text → ℕ
unfolding rune_len
byte_len [] = 0
byte_len (c ∷ s) = rune_len c + byte_len s

-- s[:n] and s[n:]; `none` where the cut falls inside a rune, or behind the end.
unfoldable pub split_bytes : ℕ → Text → Option (Text × Text)
unfolding rune_len
split_bytes zero s = some ([], s)
split_bytes (suc n) [] = none
split_bytes (suc n) (c ∷ s) =
    let rest = split_bytes (suc n - rune_len c) s in
    if ltb (suc n) (rune_len c) then none else Option.map (λ (a, b). (c ∷ a, b)) rest
