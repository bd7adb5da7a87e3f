-- ===== src/Coordination/Scopes/Distinct.antt =====
-- Normalizing keeps each requested scope, once.
use the_pact.Prelude.{
  ℕ, ◌≡◌, refl, ◌≢◌, ◌⊎◌, inl, inr, true, false, List, [], ◌∷◌, map, ok, >>=-eq-ok, arith, or_elim,
  All, In, Ensures, Ensures-ok, Ensures-bind, Ensures-if,
}
use the_pact.Text.{Text}
use the_pact.Text.Laws.{Lacks, eq_of_text_eq, text_eq_refl, cut_unique}
use the_pact.Coordination.Model.{
  Scope, ScopeInput, ScopeKind, repository, path, file, ClaimMode, exclusive, shared,
}
use the_pact.Coordination.Scopes.{
  kind_name, mode_name, scope_key, seen_key, normalize_scope, normalize_from, normalize_scopes,
}
use the_pact.Coordination.Scopes.Normal.{IsNormal, Placed, normalize_scope-Ensures}

abbrev pub Distinct : List Scope → Type 0
Distinct [] = Unit
Distinct (s ∷ rest) = (¬ In s rest) × Distinct rest

kind_name-Lacks : (k : ScopeKind) → Lacks 0 (kind_name k)
unfolding kind_name
kind_name-Lacks repository = omega arith
kind_name-Lacks path = omega arith
kind_name-Lacks file = omega arith

kind_name-injective : (k j : ScopeKind) → kind_name k ≡ kind_name j → k ≡ j
unfolding kind_name
kind_name-injective repository repository e = refl
kind_name-injective path path e = refl
kind_name-injective file file e = refl
kind_name-injective _ _ e = ground arith

mode_name-injective : (m n : ClaimMode) → mode_name m ≡ mode_name n → m ≡ n
unfolding mode_name
mode_name-injective exclusive exclusive e = refl
mode_name-injective shared shared e = refl
mode_name-injective _ _ e = ground arith

Lacks-of_Placed : (k : ScopeKind) (l : Text) → Placed k l → Lacks 0 l
Lacks-of_Placed repository l p = rw p (omega arith)
Lacks-of_Placed path l p = p.1
Lacks-of_Placed file l p = p.1

-- The zero bytes of a key separate its parts: different scopes have different keys.
scope_key-injective : (s t : Scope) → IsNormal s → IsNormal t → scope_key s ≡ scope_key t → s ≡ t
unfolding scope_key
scope_key-injective s t ns nt e =
    let (ek, e1) =
      cut_unique 0 (kind_name s.kind) (kind_name t.kind) _ _ (kind_name-Lacks s.kind)
        (kind_name-Lacks t.kind) e in
    let (el, e2) =
      cut_unique 0 s.locator t.locator _ _ (Lacks-of_Placed s.kind s.locator ns.placed)
        (Lacks-of_Placed t.kind t.locator nt.placed) e1 in
    ground (arith, kind_name-injective s.kind t.kind ek, mode_name-injective s.mode t.mode e2, el)

abbrev Unseen : List Text → Scope → Type 0
Unseen seen s = seen_key (scope_key s) seen ≡ false

Unseen-head : (s t : Scope) (seen : List Text) → Unseen (scope_key s ∷ seen) t → s ≢ t
unfolding seen_key
Unseen-head s t seen h e = ground (arith, text_eq_refl (scope_key t))

Unseen-tail : (k : Text) (t : Scope) (seen : List Text) → Unseen (k ∷ seen) t → Unseen seen t
unfolding seen_key
Unseen-tail k t seen h = ground arith

All-Unseen_tail :
    (k : Text) (seen : List Text) (out : List Scope)
    → All (Unseen (k ∷ seen)) out
    → All (Unseen seen) out
All-Unseen_tail k seen [] h = tt
All-Unseen_tail k seen (t ∷ out) h = (Unseen-tail k t seen h.0, All-Unseen_tail k seen out h.1)

not-In_of_Unseen :
    (s : Scope) (seen : List Text) (out : List Scope)
    → All (Unseen (scope_key s ∷ seen)) out
    → ¬ In s out
not-In_of_Unseen s seen [] h m = m
not-In_of_Unseen s seen (t ∷ out) h (inl e) = Unseen-head s t seen h.0 e
not-In_of_Unseen s seen (t ∷ out) h (inr m) = not-In_of_Unseen s seen out h.1 m

-- A key that was seen is the key of an earlier scope, hence that scope.
In-of_seen :
    (s : Scope) (earlier : List Scope)
    → IsNormal s
    → All IsNormal earlier
    → seen_key (scope_key s) (map scope_key earlier) ≡ true
    → In s earlier
unfolding seen_key
In-of_seen s [] n ns h = absurd (cc)
In-of_seen s (t ∷ earlier) n ns h = elim (or_elim _ _ h) [
  | inl e ↦ inl (scope_key-injective s t n ns.0 (eq_of_text_eq _ _ e))
  | inr m ↦ inr (In-of_seen s earlier n ns.1 m)
]

module _ (table : ℕ → ℕ) where
  abbrev Apart : List Text → List Scope → Type 0
  Apart seen out = All (Unseen seen) out × Distinct out

  normalize_from-Apart :
      (seen : List Text) (inputs : List ScopeInput)
      → Ensures (Apart seen) (normalize_from table seen inputs)
  unfolding normalize_from
  normalize_from-Apart seen [] = Ensures-ok [] (tt, tt)
  normalize_from-Apart seen (s ∷ rest) = Ensures-bind (normalize_scope table s) _ λ scope hs.
      Ensures-if (seen_key (scope_key scope) seen) _ _ (λ _. normalize_from-Apart seen rest)
        (λ new. Ensures-bind (normalize_from table (scope_key scope ∷ seen) rest) _ λ scopes hr.
          let (unseen, distinct) =
            (normalize_from-Apart (scope_key scope ∷ seen) rest).holds scopes hr in
          Ensures-ok (scope ∷ scopes) (
            (new, All-Unseen_tail (scope_key scope) seen scopes unseen),
            (not-In_of_Unseen scope seen scopes unseen, distinct),
          ))

  abbrev Sound : List ScopeInput → List Scope → Type 0
  Sound inputs out =
      (t : Scope) → In t out → (s : ScopeInput) × In s inputs × (normalize_scope table s ≡ ok t)

  normalize_from-Sound :
      (seen : List Text) (inputs : List ScopeInput)
      → Ensures (Sound inputs) (normalize_from table seen inputs)
  unfolding normalize_from
  normalize_from-Sound seen [] = Ensures-ok [] (λ t m. absurd m)
  normalize_from-Sound seen (s ∷ rest) = Ensures-bind (normalize_scope table s) _ λ scope hs.
      Ensures-if (seen_key (scope_key scope) seen) _ _
        (λ _. record { holds = λ out h. later out ((normalize_from-Sound seen rest).holds out h) })
        (λ _. Ensures-bind (normalize_from table (scope_key scope ∷ seen) rest) _ λ scopes hr.
          Ensures-ok (scope ∷ scopes) (
            headed scope scopes hs
              ((normalize_from-Sound (scope_key scope ∷ seen) rest).holds scopes hr)))
    where
      later : (out : List Scope) → Sound rest out → Sound (s ∷ rest) out
      later out h t m = let (i, mi, e) = h t m in (i, inr mi, e)

      headed :
          (scope : Scope) (scopes : List Scope)
          → normalize_scope table s ≡ ok scope
          → Sound rest scopes
          → Sound (s ∷ rest) (scope ∷ scopes)
      headed scope scopes hs h t (inl e) = (s, inl refl, rw e hs)
      headed scope scopes hs h t (inr m) = later scopes h t m

  abbrev Complete : List Scope → List ScopeInput → List Scope → Type 0
  Complete earlier inputs out =
      (s : ScopeInput)
      → In s inputs
      → (t : Scope) × (normalize_scope table s ≡ ok t) × (In t earlier ⊎ In t out)

  normalize_from-Complete :
      (earlier : List Scope) (inputs : List ScopeInput)
      → All IsNormal earlier
      → Ensures (Complete earlier inputs) (normalize_from table (map scope_key earlier) inputs)
  unfolding normalize_from
  normalize_from-Complete earlier [] n = Ensures-ok [] (λ s m. absurd m)
  normalize_from-Complete earlier (s ∷ rest) n =
      Ensures-bind (normalize_scope table s) _ λ scope hs.
        let normal = (normalize_scope-Ensures table s).holds scope hs in
        Ensures-if (seen_key (scope_key scope) (map scope_key earlier)) _ _
          (λ old. record {
            holds = λ out h.
                again out scope hs (In-of_seen scope earlier normal n old)
                  ((normalize_from-Complete earlier rest n).holds out h);
          })
          (λ _.
            Ensures-bind (normalize_from table (map scope_key (scope ∷ earlier)) rest) _
              λ scopes hr. Ensures-ok (scope ∷ scopes) (
                headed scope scopes hs
                  ((normalize_from-Complete (scope ∷ earlier) rest (normal, n)).holds scopes hr)))
    where
      again :
          (out : List Scope) (scope : Scope)
          → normalize_scope table s ≡ ok scope
          → In scope earlier
          → Complete earlier rest out
          → Complete earlier (s ∷ rest) out
      again out scope hs m h i (inl e) = (scope, rw e hs, inl m)
      again out scope hs m h i (inr mi) = h i mi

      headed :
          (scope : Scope) (scopes : List Scope)
          → normalize_scope table s ≡ ok scope
          → Complete (scope ∷ earlier) rest scopes
          → Complete earlier (s ∷ rest) (scope ∷ scopes)
      headed scope scopes hs h i (inl e) = (scope, rw e hs, inr (inl refl))
      headed scope scopes hs h i (inr mi) =
          let (t, e, where_to) = h i mi in
          (
            t,
            e,
            elim where_to [ inl (inl x) ↦ inr (inl x) | inl (inr m) ↦ inl m | inr m ↦ inr (inr m) ],
          )

  -- A successful normalizeScopes returns each requested scope exactly once: what it returns has no
  -- duplicates, each of it comes from a request, and each request's canonical form is there.
  pub normalize_scopes-Distinct :
      (inputs : List ScopeInput) (out : List Scope)
      → normalize_scopes table inputs ≡ ok out
      → Distinct out
        × ((t : Scope)
            → In t out
            → (s : ScopeInput) × In s inputs × (normalize_scope table s ≡ ok t))
        × ((s : ScopeInput)
            → In s inputs
            → (t : Scope) × (normalize_scope table s ≡ ok t) × In t out)
  unfolding normalize_scopes
  normalize_scopes-Distinct inputs out h =
      let (_, _, from) = >>=-eq-ok _ _ h in
      (
        ((normalize_from-Apart [] inputs).holds out from).1,
        (normalize_from-Sound [] inputs).holds out from,
        present (((normalize_from-Complete [] inputs tt).holds out from)),
      )
    where
      present :
          Complete [] inputs out
          → (s : ScopeInput) → In s inputs
          → (t : Scope) × (normalize_scope table s ≡ ok t) × In t out
      present c s m = let (t, e, p) = c s m in (t, e, elim p [ inl x ↦ absurd x | inr x ↦ x ])
