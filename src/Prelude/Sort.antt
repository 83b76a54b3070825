-- ===== src/Prelude/Sort.antt =====
-- Sorting by a Boolean order: one of the results that `sort.Slice` and SQL's ORDER BY may give.
-- What is proved of it here (a permutation, and ordered) is all that they promise.
use mathlib.Core.Path.{◌≡◌, refl, ap}
use mathlib.Core.Bool.{Bool, true, false}
use mathlib.Core.Logic.{inl, inr}
use mathlib.Core.List.{List, [], ◌∷◌, ◌++◌, Perm, reverse, reverse-cons}
use mathlib.Core.List.Perm
use mouse.Prelude.Tests.{if◌then◌else◌, Bool-cases}
use mouse.Prelude.Lists.{All, All-append}
use mouse.Prelude.{◌+◌, length, arith, ◌∙◌, ◌||◌, any}

module _ {ℓ} {A : Type ℓ} (before : A → A → Bool) where
  -- `a` goes in front of the first element that does not have to precede it.
  unfoldable pub place : A → List A → List A
  place a [] = a ∷ []
  place a (x ∷ xs) = let later = x ∷ place a xs in if before x a then later else a ∷ x ∷ xs

  unfoldable pub sort_by : List A → List A
  unfolding place
  sort_by [] = []
  sort_by (x ∷ xs) = place x (sort_by xs)

  -- No element has to stand before one that stands in front of it.
  abbrev pub IsSorted : List A → Type 0
  IsSorted [] = Unit
  IsSorted (x ∷ xs) = All (λ y. before y x ≡ false) xs × IsSorted xs

module _ {ℓ κ} {A : Type ℓ} (P : A → Type κ) (before : A → A → Bool) where
  place-All : (a : A) (xs : List A) → P a → All P xs → All P (place before a xs)
  unfolding place
  place-All a [] pa _ = (pa, tt)
  place-All a (x ∷ xs) pa (px, pxs) = elim (Bool-cases (before x a)) [
    | inl later ↦ rw later (px, place-All a xs pa pxs)
    | inr here ↦ rw here (pa, (px, pxs))
  ]

  pub sort_by-All : (xs : List A) → All P xs → All P (sort_by before xs)
  unfolding sort_by
  sort_by-All [] _ = tt
  sort_by-All (x ∷ xs) (px, pxs) = place-All x (sort_by before xs) px (sort_by-All xs pxs)

module _ {ℓ} {A : Type ℓ} (before : A → A → Bool) where
  place-perm : (a : A) (xs : List A) → Perm (place before a xs) (a ∷ xs)
  unfolding place
  place-perm a [] = Perm.refl (a ∷ [])
  place-perm a (x ∷ xs) = elim (Bool-cases (before x a)) [
    | inl later ↦ rw later (Perm.trans (Perm.cons x (place-perm a xs)) (Perm.swap a x xs))
    | inr here ↦ rw here (Perm.refl (a ∷ x ∷ xs))
  ]

  pub sort_by-perm : (xs : List A) → Perm (sort_by before xs) xs
  unfolding sort_by
  sort_by-perm [] = Perm.refl []
  sort_by-perm (x ∷ xs) =
      Perm.trans (place-perm x (sort_by before xs)) (Perm.cons x (sort_by-perm xs))

  length-place : (a : A) (xs : List A) → length (place before a xs) ≡ length xs + 1
  unfolding place
  length-place a [] = omega arith
  length-place a (x ∷ xs) = ground (arith, length-place a xs)

  pub length-sort_by : (xs : List A) → length (sort_by before xs) ≡ length xs
  unfolding sort_by
  length-sort_by [] = refl
  length-sort_by (x ∷ xs) = length-place x (sort_by before xs) ∙ omega (arith, length-sort_by xs)

  -- A list whose later elements all have to stand first is turned round.
  abbrev pub IsReversed : List A → Type 0
  IsReversed [] = Unit
  IsReversed (x ∷ xs) = All (λ y. before y x ≡ true) xs × IsReversed xs

  place_last :
      (a : A) (xs : List A) → All (λ y. before y a ≡ true) xs → place before a xs ≡ xs ++ a ∷ []
  unfolding place
  place_last a [] _ = refl
  place_last a (x ∷ xs) (hx, hxs) = rw hx (ap (◌∷◌ x) (place_last a xs hxs))

-- An order that is one only on the elements that have a property sorts a list of those.
module _ {ℓ κ} {A : Type ℓ} (P : A → Type κ) (before : A → A → Bool)
    (asym : (a b : A) → before a b ≡ true → before b a ≡ false)
    (trans : (a b c : A) → P b → before b a ≡ false → before c b ≡ false → before c a ≡ false) where
  All-after :
      (a x : A) (xs : List A)
      → P x
      → before x a ≡ false
      → All (λ y. before y x ≡ false) xs
      → All (λ y. before y a ≡ false) xs
  All-after a x [] px h _ = tt
  All-after a x (y ∷ ys) px h (hy, hys) = (trans a x y px h hy, All-after a x ys px h hys)

  place-IsSorted :
      (a : A) (xs : List A) → All P xs → IsSorted before xs → IsSorted before (place before a xs)
  unfolding place
  place-IsSorted a [] _ _ = (tt, tt)
  place-IsSorted a (x ∷ xs) (px, pxs) (hx, hxs) = elim (Bool-cases (before x a)) [
    | inl later ↦ rw later (
      place-All (λ y. before y x ≡ false) before a xs (asym x a later) hx,
      place-IsSorted a xs pxs hxs,
    )
    | inr here ↦ rw here ((here, All-after a x xs px here hx), (hx, hxs))
  ]

  pub sort_by-IsSorted : (xs : List A) → All P xs → IsSorted before (sort_by before xs)
  unfolding sort_by
  sort_by-IsSorted [] _ = tt
  sort_by-IsSorted (x ∷ xs) (px, pxs) =
      place-IsSorted x (sort_by before xs) (sort_by-All P before xs pxs) (sort_by-IsSorted xs pxs)

module _ {ℓ} {A : Type ℓ} (before : A → A → Bool) where
  All-before :
      (x : A) (xs : List A)
      → All (λ y. before y x ≡ true) xs
      → All (λ y. before y x ≡ true) (reverse xs)
  All-before x [] h = tt
  All-before x (y ∷ ys) (hy, hys) =
      rw reverse-cons
        (All-append (λ z. before z x ≡ true) (reverse ys) (y ∷ []) (All-before x ys hys) (hy, tt))

  -- Sorting such a list turns it round.
  pub sort_by-IsReversed : (xs : List A) → IsReversed before xs → sort_by before xs ≡ reverse xs
  unfolding sort_by
  sort_by-IsReversed [] _ = refl
  sort_by-IsReversed (x ∷ xs) (hx, hxs) =
      rw (sort_by-IsReversed xs hxs, reverse-cons)
        (place_last before x (reverse xs) (All-before x xs hx))

-- Sorting changes nothing about what some element is.
module _ {ℓ} {A : Type ℓ} (p : A → Bool) (before : A → A → Bool) where
  any-place : (a : A) (xs : List A) → any p (place before a xs) ≡ (p a || any p xs)
  unfolding place
  any-place a [] = refl
  any-place a (x ∷ xs) = ground (arith, any-place a xs)

  pub any-sort_by : (xs : List A) → any p (sort_by before xs) ≡ any p xs
  unfolding sort_by
  any-sort_by [] = refl
  any-sort_by (x ∷ xs) = any-place x (sort_by before xs) ∙ rw (any-sort_by xs)
