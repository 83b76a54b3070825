-- ===== src/Strings/Paths.antt =====
-- `filepath.Clean` and `filepath.Join` on Unix.
use mouse.Prelude.{
  ℕ, ◌≡◌, refl, ap, ◌∙◌, ◌≢◌, Bool, true, false, not, List, [], ◌∷◌, ◌++◌, reverse, Text, codes,
  text_eq, text_eq_ne, ◌==◌, if◌then◌else◌, all, append_assoc, reverse-cons,
}
use mouse.Strings.{trim_left, has_prefix, runs, join}
use mouse.Strings.Runs.{runs-cut, runs_one}

abbrev pub not_slash : ℕ → Bool
not_slash c = not (c == b'/')

-- ".." takes off the component before it, but none at the root, and not another "..".
back : Bool → List Text → List Text
back rooted [] = if rooted then [] else codes ".." ∷ []
back rooted (d ∷ ds) = if text_eq d (codes "..") then codes ".." ∷ d ∷ ds else ds

-- One more component on the stack of those before it.
push : Bool → List Text → Text → List Text
push rooted stack c =
    if text_eq c (codes ".")
    then stack
    else if text_eq c (codes "..")
    then back rooted stack
    else c ∷ stack

push_all : Bool → List Text → List Text → List Text
push_all rooted stack [] = stack
push_all rooted stack (c ∷ cs) = push_all rooted (push rooted stack c) cs

show : Bool → List Text → Text
show true cs = b'/' ∷ join (codes "/") cs
show false [] = codes "."
show false (c ∷ cs) = join (codes "/") (c ∷ cs)

-- `filepath.Clean(path)`
unfoldable pub clean : Text → Text
unfolding back push push_all show has_prefix runs join text_eq
clean path =
    let rooted = has_prefix path (codes "/") in
    show rooted (reverse (push_all rooted [] (runs not_slash [] path)))

-- `filepath.Join(dir, name)`: an empty element is left out.
unfoldable pub join_path : Text → Text → Text
unfolding clean
join_path [] [] = []
join_path [] (c ∷ name) = clean (c ∷ name)
join_path (c ∷ dir) [] = clean (c ∷ dir)
join_path (c ∷ dir) (d ∷ name) = clean ((c ∷ dir) ++ b'/' ∷ d ∷ name)

paths :
    (join_path (codes "./runtime/sessions") (codes "42.md") ≡ codes "runtime/sessions/42.md")
    × (join_path (codes "/a/b/../c/") (codes "x") ≡ codes "/a/c/x")
    × (join_path (codes "../s") (codes "x") ≡ codes "../s/x")
    × (join_path (codes ".") (codes "x") ≡ codes "x")
unfolding join_path
paths = (refl, refl, refl, refl)

-- A name that stays one component: not empty, no slash, and neither "." nor "..".
pub record IsPlain (name : Text) : Type 0 where
  pub not_empty : name ≢ []
  pub no_slash : all not_slash name ≡ true
  pub not_dot : name ≢ codes "."
  pub not_dots : name ≢ codes ".."

push_all-append :
    (rooted : Bool) (stack xs ys : List Text)
    → push_all rooted stack (xs ++ ys) ≡ push_all rooted (push_all rooted stack xs) ys
unfolding push_all
push_all-append rooted stack [] ys = refl
push_all-append rooted stack (x ∷ xs) ys = push_all-append rooted (push rooted stack x) xs ys

push-IsPlain :
    (rooted : Bool) (stack : List Text) (name : Text)
    → IsPlain name
    → push rooted stack name ≡ name ∷ stack
unfolding push
push-IsPlain rooted stack name h = rw (text_eq_ne name _ h.not_dot, text_eq_ne name _ h.not_dots)

-- What stands in front of a component that follows these.
prefix : List Text → Text
prefix [] = []
prefix (c ∷ cs) = c ++ (codes "/" ++ prefix cs)

join-snoc : (cs : List Text) (name : Text) → join (codes "/") (cs ++ name ∷ []) ≡ prefix cs ++ name
unfolding join prefix
join-snoc [] name = refl
join-snoc (c ∷ []) name = simp append_assoc
join-snoc (c ∷ d ∷ cs) name = simp (join-snoc (d ∷ cs) name, append_assoc)

-- The directory of the files whose names are joined to `dir`, with the slash at its end.
pub base : Text → Text
base dir =
    let rooted = has_prefix dir (codes "/") in
    let inner = prefix (reverse (push_all rooted [] (runs not_slash [] dir))) in
    if rooted then b'/' ∷ inner else inner

module _ (dir name : Text) (h : IsPlain name) where
  components : runs not_slash [] (dir ++ b'/' ∷ name) ≡ runs not_slash [] dir ++ name ∷ []
  components =
      runs-cut not_slash [] dir b'/' name refl
      ∙ ap (◌++◌ (runs not_slash [] dir)) (runs_one not_slash name h.not_empty h.no_slash)

  stack_lem :
      (rooted : Bool)
      → reverse (push_all rooted [] (runs not_slash [] (dir ++ b'/' ∷ name)))
        ≡ reverse (push_all rooted [] (runs not_slash [] dir)) ++ name ∷ []
  unfolding push_all
  stack_lem rooted =
      let stack = push_all rooted [] (runs not_slash [] dir) in
      ap (λ cs. reverse (push_all rooted [] cs)) components
      ∙ ap reverse (push_all-append rooted [] (runs not_slash [] dir) (name ∷ []))
      ∙ ap reverse (push-IsPlain rooted stack name h)
      ∙ reverse-cons name stack

show-snoc :
    (rooted : Bool) (cs : List Text) (name : Text)
    → show rooted (cs ++ name ∷ []) ≡ (if rooted then b'/' ∷ prefix cs else prefix cs) ++ name
unfolding show prefix
show-snoc true cs name = ap (◌∷◌ b'/') (join-snoc cs name)
show-snoc false [] name = join-snoc [] name
show-snoc false (c ∷ cs) name = join-snoc (c ∷ cs) name

-- A plain name that is joined to a directory stays directly below it.
pub join_path-IsPlain :
    (c : ℕ) (dir name : Text) → IsPlain name → join_path (c ∷ dir) name ≡ base (c ∷ dir) ++ name
unfolding join_path has_prefix base
join_path-IsPlain c dir [] h = absurd (h.not_empty refl)
join_path-IsPlain c dir (d ∷ name) h =
    let rooted = has_prefix (c ∷ dir) (codes "/") in
    ap (show rooted) (stack_lem (c ∷ dir) (d ∷ name) h rooted) ∙ show-snoc rooted _ (d ∷ name)

-- `filepath.Dir(path)`: what stands before the last slash, cleaned.
unfoldable pub directory : Text → Text
unfolding clean trim_left
directory path = clean (reverse (trim_left not_slash (reverse path)))

directories :
    (directory (codes "/a/b/c.db") ≡ codes "/a/b")
    × (directory (codes "mouse.db") ≡ codes ".")
    × (directory (codes "/x") ≡ codes "/")
unfolding directory
directories = (refl, refl, refl)
