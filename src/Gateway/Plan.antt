-- ===== src/Gateway/Plan.antt =====
-- internal/gateway/gateway.go: registering one path after the other, against a plan.
use mouse.Prelude.{
  append_assoc, ap, ◌∙◌, ◌⊎◌, map, inr, inl, Bool-cases, arith, text_eq, any-append, none, some,
  refl, ◌||◌, any, true, false, [], ◌∷◌, Option, Bool, ◌≡◌, ◌++◌, Text, List,
}
use mouse.Gateway.{Route, register}
use mouse.Prelude.Dict.{has, insert, Dict, lookup}
use mouse.Host.{Env}

-- A path, and what is registered for it.
pub record Planned : Type 1 where
  pub path : Text
  pub serves : Route → Type 0

abbrev pub paths : List Planned → List Text
paths [] = []
paths (p ∷ ps) = p.path ∷ paths ps

-- Is a path listed twice?
abbrev pub repeats : List Text → Bool
repeats [] = false
repeats (p ∷ ps) = any (text_eq p) ps || repeats ps

abbrev pub Matches : List Planned → Dict Route → Type 0
Matches [] [] = Unit
Matches (p ∷ ps) ((path, route) ∷ routes) = (p.path ≡ path) × p.serves route × Matches ps routes
Matches _ _ = ⊥

-- The mux refuses one of these paths, where it has those in front of it.
abbrev pub Refused : ⦃env : Env⦄ → List Text → Type 0
Refused ⦃env⦄ ps =
    (before : List Text) × (path : Text) × (rest : List Text) × (ps ≡ before ++ path ∷ rest)
    × (env.refuses before path ≡ true)

-- All that is planned is registered, or a path is planned twice or refused.
abbrev pub Progress : ⦃env : Env⦄ → List Planned → Option (Dict Route) → Type 0
Progress ps none = (repeats (paths ps) ≡ true) ⊎ Refused (paths ps)
Progress ps (some routes) = Matches ps routes × (repeats (paths ps) ≡ false)

paths-append : (ps qs : List Planned) → paths (ps ++ qs) ≡ paths ps ++ paths qs
paths-append [] qs = refl
paths-append (p ∷ ps) qs = rw (paths-append ps qs) refl

repeats-append : (ps qs : List Text) → repeats ps ≡ true → repeats (ps ++ qs) ≡ true
repeats-append [] qs h = cc
repeats-append (p ∷ ps) qs h = ground (arith, any-append (text_eq p) ps qs, repeats-append ps qs)

repeats-last :
    (ps : List Text) (q : Text) → repeats (ps ++ q ∷ []) ≡ (repeats ps || any (λ p. text_eq p q) ps)
repeats-last [] q = refl
repeats-last (p ∷ ps) q = ground (arith, any-append (text_eq p) ps (q ∷ []), repeats-last ps q)

has-Matches :
    (path : Text) (ps : List Planned) (routes : Dict Route)
    → Matches ps routes
    → has path routes ≡ any (λ p. text_eq p path) (paths ps)
unfolding lookup
has-Matches path [] [] m = refl
has-Matches path [] (_ ∷ routes) m = elim m [ ]
has-Matches path (p ∷ ps) [] m = elim m [ ]
has-Matches path (p ∷ ps) ((other, route) ∷ routes) (e, s, m) =
    rw e (ground (arith, has-Matches path ps routes m))

insert-Matches :
    (ps : List Planned) (p : Planned) (route : Route) (routes : Dict Route)
    → p.serves route
    → Matches ps routes
    → has p.path routes ≡ false
    → Matches (ps ++ p ∷ []) (insert p.path route routes)
unfolding lookup insert
insert-Matches [] p route [] s m new = (refl, s, tt)
insert-Matches [] p route (_ ∷ routes) s m new = elim m [ ]
insert-Matches (q ∷ qs) p route [] s m new = elim m [ ]
insert-Matches (q ∷ qs) p route ((path, other) ∷ routes) s (e, t, m) new =
    elim (Bool-cases (text_eq path p.path)) [
      | inl same ↦ let absurd : ⊥ = ground arith in elim absurd [ ]
      | inr differs ↦ rw differs (e, t, insert-Matches qs p route routes s m (ground arith))
    ]

keys-Matches :
    (ps : List Planned) (routes : Dict Route) → Matches ps routes → map (λ e. e.0) routes ≡ paths ps
keys-Matches [] [] m = refl
keys-Matches [] (_ ∷ routes) m = elim m [ ]
keys-Matches (p ∷ ps) [] m = elim m [ ]
keys-Matches (p ∷ ps) ((path, route) ∷ routes) (e, s, m) = rw (e, keys-Matches ps routes m) refl

module _ ⦃env : Env⦄ where
  repeats-paths :
      (ps : List Planned) (p : Planned) (routes : Dict Route)
      → Progress ps (some routes)
      → repeats (paths (ps ++ p ∷ [])) ≡ has p.path routes
  repeats-paths ps p routes (m, d) =
      rw (paths-append ps (p ∷ []))
        (rw (repeats-last (paths ps) p.path) (ground (arith, has-Matches p.path ps routes m)))

  last-Refused :
      (ps : List Planned) (p : Planned) (routes : Dict Route)
      → Matches ps routes
      → env.refuses (map (λ e. e.0) routes) p.path ≡ true
      → Refused (paths (ps ++ p ∷ []))
  last-Refused ps p routes m refused =
      (paths ps, p.path, [], paths-append ps (p ∷ []), rw (← keys-Matches ps routes m) refused)

  -- A registration carries out the next step of the plan.
  pub register-Progress :
      (ps : List Planned) (p : Planned) (route : Route) (routes : Dict Route)
      → p.serves route
      → Progress ps (some routes)
      → Progress (ps ++ p ∷ []) (register p.path route routes)
  unfolding register
  register-Progress ps p route routes s (m, d) =
      let same = repeats-paths ps p routes (m, d) in
      elim (Bool-cases (has p.path routes)) [
        | inl taken ↦ rw taken (inl (same ∙ taken))
        | inr new ↦ elim (Bool-cases (env.refuses (map (λ e. e.0) routes) p.path)) [
          | inl refused ↦ rw (new, refused) (inr (last-Refused ps p routes m refused))
          | inr accepted ↦ rw (new, accepted) (insert-Matches ps p route routes s m new, same ∙ new)
        ]
      ]

  -- What the rest of the plan does with a registration that panicked.
  pub panics-Progress : (ps qs : List Planned) → Progress ps none → Progress (ps ++ qs) none
  panics-Progress ps qs (inl twice) =
      inl (rw (paths-append ps qs) (repeats-append (paths ps) (paths qs) twice))
  panics-Progress ps qs (inr (before, path, rest, split, refused)) = inr (
    before,
    path,
    rest ++ paths qs,
    paths-append ps qs
        ∙ ap (λ front. front ++ paths qs) split
        ∙ append_assoc before (path ∷ rest) (paths qs),
    refused,
  )
