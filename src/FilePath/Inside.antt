-- ===== src/FilePath/Inside.antt =====
-- Cleaned relative paths: names joined by slashes, below the root unless they begin with `..`.
use mathlib.Core.List.{reverse-cons}
use the_pact.Prelude.{
  ℕ, ◌≡◌, refl, ◌≢◌, ◌⊎◌, inl, inr, true, false, List, [], ◌∷◌, ◌++◌, reverse, arith, ◌==◌, All,
  All-reverse, Bool-cases,
}
use the_pact.Text.{Text, text, text_eq, has_prefix}
use the_pact.Text.Laws.{Lacks, text_eq_refl}
use the_pact.FilePath.{
  add_rune, segments, join_from, join, back_up, clean_step, clean_names, render, clean,
}

-- What a cleaned path is made of.
pub record IsName (s : Text) : Type 0 where
  pub nonempty : text_eq s [] ≡ false
  pub not_dot : text_eq s (text ".") ≡ false
  pub no_slash : Lacks b'/' s

abbrev pub IsProper : Text → Type 0
IsProper s = text_eq s (text "..") ≡ false

-- The path names something strictly below the root: no empty name, no dots, no way up.
pub record Inside (p : Text) : Type 0 where
  pub names : List Text
  pub some_name : names ≢ []
  pub are_names : All IsName names
  pub are_proper : All IsProper names
  pub joined : p ≡ join names

abbrev EndsUp : List Text → Type 0
EndsUp [] = ⊥
EndsUp (s ∷ []) = s ≡ text ".."
EndsUp (s ∷ t ∷ rest) = EndsUp (t ∷ rest)

add_rune-Lacks :
    (c : ℕ) (rest : List Text)
    → (c == b'/') ≡ false
    → All (Lacks b'/') rest
    → All (Lacks b'/') (add_rune c rest)
unfolding add_rune
add_rune-Lacks c [] h l = (((λ e. ground arith), tt), tt)
add_rune-Lacks c (s ∷ rest) h l = (((λ e. ground arith), l.0), l.1)

segments-Lacks : (p : Text) → All (Lacks b'/') (segments p)
unfolding segments
segments-Lacks [] = (tt, tt)
segments-Lacks (c ∷ p) = elim (Bool-cases (c == b'/')) [
  | inl e ↦ rw e (tt, segments-Lacks p)
  | inr e ↦ rw e (add_rune-Lacks c (segments p) e (segments-Lacks p))
]

IsName-up : IsName (text "..")
unfolding text_eq
IsName-up = record {
  nonempty = refl;
  not_dot = refl;
  no_slash = ((λ e. omega arith), ((λ e. omega arith), tt));
}

-- The stack holds names; it has no way up, or began with one.
record IsStack (stack : List Text) : Type 0 where
  are_names : All IsName stack
  bottom : All IsProper stack ⊎ EndsUp stack

EndsUp-cons : (s : Text) (stack : List Text) → EndsUp stack → EndsUp (s ∷ stack)
EndsUp-cons s [] h = absurd h
EndsUp-cons s (t ∷ rest) h = h

back_up-IsStack : (stack : List Text) → IsStack stack → IsStack (back_up false stack)
unfolding back_up
back_up-IsStack [] h = record { are_names = (IsName-up, tt); bottom = inr refl }
back_up-IsStack (s ∷ stack) h = elim (Bool-cases (text_eq s (text ".."))) [
  | inl e ↦ rw e (record {
    are_names = (IsName-up, h.are_names);
    bottom = elim h.bottom [ inl proper ↦ absurd (cc (proper.0, e)) | inr up ↦ inr up ];
  })
  | inr e ↦ rw e (record {
    are_names = h.are_names.1;
    bottom = elim h.bottom [ inl proper ↦ inl proper.1 | inr up ↦ below stack up ];
  })
]
  where
    below : (rest : List Text) → EndsUp (s ∷ rest) → All IsProper rest ⊎ EndsUp rest
    below [] up = inl tt
    below (t ∷ rest) up = inr up

push-IsStack :
    (s : Text) (stack : List Text) → IsName s → IsProper s → IsStack stack → IsStack (s ∷ stack)
push-IsStack s stack n p h = record {
  are_names = (n, h.are_names);
  bottom = elim h.bottom [ inl proper ↦ inl (p, proper) | inr up ↦ inr (EndsUp-cons s stack up) ];
}

clean_step-IsStack :
    (s : Text) (stack : List Text)
    → Lacks b'/' s
    → IsStack stack
    → IsStack (clean_step false stack s)
unfolding clean_step
clean_step-IsStack s stack l h = elim (Bool-cases (text_eq s [])) [
  | inl e ↦ rw e h
  | inr e ↦ elim (Bool-cases (text_eq s (text "."))) [
    | inl d ↦ rw (e, d) h
    | inr d ↦ elim (Bool-cases (text_eq s (text ".."))) [
      | inl u ↦ rw (e, d, u) (back_up-IsStack stack h)
      | inr u ↦
          rw (e, d, u)
            (push-IsStack s stack (record { nonempty = e; not_dot = d; no_slash = l }) u h)
    ]
  ]
]

clean_names-IsStack :
    (stack rest : List Text)
    → IsStack stack
    → All (Lacks b'/') rest
    → (out : List Text) × IsStack out × (clean_names false stack rest ≡ reverse out)
unfolding clean_names
clean_names-IsStack stack [] h l = (stack, h, refl)
clean_names-IsStack stack (s ∷ rest) h l =
    clean_names-IsStack (clean_step false stack s) rest (clean_step-IsStack s stack l.0 h) l.1

reverse-EndsUp :
    (stack : List Text) → EndsUp stack → (rest : List Text) × (reverse stack ≡ text ".." ∷ rest)
reverse-EndsUp [] h = absurd h
reverse-EndsUp (s ∷ []) h = ([], rw h)
reverse-EndsUp (s ∷ t ∷ stack) h =
    let (rest, e) = reverse-EndsUp (t ∷ stack) h in
    (rest ++ s ∷ [], rw (reverse-cons s (t ∷ stack)) (rw e refl))

-- A path that begins with a way up is `..` or begins with `../`.
render_up :
    (rest : List Text)
    → (render false (text ".." ∷ rest) ≡ text "..")
      ⊎ (has_prefix (text "../") (render false (text ".." ∷ rest)) ≡ true)
unfolding render join_from has_prefix
render_up [] = inl refl
render_up (t ∷ rest) = inr refl

Inside-render :
    (names : List Text)
    → All IsName names
    → All IsProper names
    → (render false names ≡ text ".") ⊎ Inside (render false names)
unfolding render
Inside-render [] n p = inl refl
Inside-render (s ∷ rest) n p =
    inr (record {
      names = s ∷ rest;
      some_name = λ e. cc;
      are_names = n;
      are_proper = p;
      joined = refl;
    })

-- What a cleaned relative path can be.
abbrev pub Cleaned : Text → Type 0
Cleaned q = (q ≡ text ".") ⊎ (q ≡ text "..") ⊎ (has_prefix (text "../") q ≡ true) ⊎ Inside q

render-Cleaned : (out : List Text) → IsStack out → Cleaned (render false (reverse out))
render-Cleaned out h = elim h.bottom [
  | inl proper ↦
      elim (Inside-render (reverse out) (All-reverse IsName out h.are_names)
        (All-reverse IsProper out proper)) [
          | inl dot ↦ inl dot
          | inr inside ↦ inr (inr (inr inside))
        ]
  | inr up ↦
      let (rest, e) = reverse-EndsUp out up in
      rw e
        (elim (render_up rest) [ inl dots ↦ inr (inl dots) | inr climbs ↦ inr (inr (inl climbs)) ])
]

clean-Cleaned : (p : Text) → has_prefix (text "/") p ≡ false → Cleaned (clean p)
unfolding clean
clean-Cleaned p relative =
    let (out, h, e) = clean_names-IsStack [] (segments p) empty_stack (segments-Lacks p) in
    rw (relative, e) (render-Cleaned out h)
  where
    empty_stack : IsStack []
    empty_stack = record { are_names = tt; bottom = inl tt }

-- A relative path that cleans to none of `.`, `..` and `../…` stays inside.
pub clean-Inside :
    (p : Text)
    → has_prefix (text "/") p ≡ false
    → text_eq (clean p) (text ".") ≡ false
    → text_eq (clean p) (text "..") ≡ false
    → has_prefix (text "../") (clean p) ≡ false
    → Inside (clean p)
clean-Inside p relative not_dot not_dots not_climbing = elim (clean-Cleaned p relative) [
  | inl e ↦ absurd (cc (text_eq_refl (text "."), not_dot, e))
  | inr (inl e) ↦ absurd (cc (text_eq_refl (text ".."), not_dots, e))
  | inr (inr (inl e)) ↦ absurd (cc (e, not_climbing))
  | inr (inr (inr inside)) ↦ inside
]
