-- ===== src/FilePath.antt =====
-- Slash-separated paths: path.Clean of the Go library, as its documentation states it.
pub mod Inside
use the_pact.Prelude.{ℕ, Bool, true, false, ◌||◌, List, [], ◌∷◌, ◌++◌, reverse, ◌==◌, if◌then◌else◌}
use the_pact.Text.{Text, text, text_eq, has_prefix}

add_rune : ℕ → List Text → List Text
add_rune c [] = (c ∷ []) ∷ []
add_rune c (s ∷ rest) = (c ∷ s) ∷ rest

-- strings.Split(p, "/")
unfoldable pub segments : Text → List Text
unfolding add_rune
segments [] = [] ∷ []
segments (c ∷ p) = let rest = segments p in if c == b'/' then [] ∷ rest else add_rune c rest

join_from : Text → List Text → Text
join_from s [] = s
join_from s (t ∷ rest) = s ++ b'/' ∷ join_from t rest

unfoldable pub join : List Text → Text
unfolding join_from
join [] = []
join (s ∷ rest) = join_from s rest

-- A `..` removes the name before it, is dropped at the root, and else is kept.
back_up : Bool → List Text → List Text
back_up rooted [] = if rooted then [] else text ".." ∷ []
back_up rooted (s ∷ stack) = if text_eq s (text "..") then text ".." ∷ s ∷ stack else stack

-- The stack holds the names of the output, the last one first.
clean_step : Bool → List Text → Text → List Text
unfolding back_up
clean_step rooted stack s =
    if text_eq s [] || text_eq s (text ".")
    then stack
    else if text_eq s (text "..")
    then back_up rooted stack
    else s ∷ stack

clean_names : Bool → List Text → List Text → List Text
unfolding clean_step
clean_names rooted stack [] = reverse stack
clean_names rooted stack (s ∷ rest) = clean_names rooted (clean_step rooted stack s) rest

render : Bool → List Text → Text
unfolding join
render true names = b'/' ∷ join names
render false [] = text "."
render false (s ∷ rest) = join (s ∷ rest)

-- path.Clean
unfoldable pub clean : Text → Text
unfolding clean_names render segments has_prefix text_eq
clean p = let rooted = has_prefix (text "/") p in render rooted (clean_names rooted [] (segments p))
