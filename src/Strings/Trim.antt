-- ===== src/Strings/Trim.antt =====
-- The functions of package strings that cut text at its ends.
use mouse.Prelude.{
  ◌∙◌, ap, ◌&&◌, All, ℕ, ◌≡◌, refl, inl, inr, Bool, true, false, [], ◌∷◌, ◌++◌, arith, Text,
  Bool-cases, text_eq, text_eq_iff,
}
use mouse.Strings.{is_space, trim_left, trim_right, trim, trim_space, has_prefix, trim_prefix}

module _ (p : ℕ → Bool) where
  -- The first character is kept by `trim_left`.
  abbrev pub Starts : Text → Type 0
  Starts [] = Unit
  Starts (c ∷ s) = p c ≡ false

  pub trim_left-Starts : (s : Text) → Starts (trim_left p s)
  unfolding trim_left
  trim_left-Starts [] = tt
  trim_left-Starts (c ∷ s) = elim (Bool-cases (p c)) [
    | inl cut ↦ rw cut (trim_left-Starts s)
    | inr kept ↦ rw kept kept
  ]

  pub trim_left_of_Starts : (s : Text) → Starts s → trim_left p s ≡ s
  unfolding trim_left
  trim_left_of_Starts [] h = refl
  trim_left_of_Starts (c ∷ s) h = rw h

  pub trim_right_idem : (s : Text) → trim_right p (trim_right p s) ≡ trim_right p s
  unfolding trim_right text_eq
  trim_right_idem [] = refl
  trim_right_idem (c ∷ s) = ground (arith, trim_right_idem s, text_eq_iff (trim_right p s) [])

  -- What `trim_right` cuts off is all of that kind.
  pub trim_right-split :
      (s : Text) → (tail : Text) × (s ≡ trim_right p s ++ tail) × All (λ c. p c ≡ true) tail
  unfolding trim_right
  trim_right-split [] = ([], refl, tt)
  trim_right-split (c ∷ s) =
      let (tail, split, only) = trim_right-split s in
      elim (Bool-cases (p c && text_eq (trim_right p s) [])) [
        | inl cut ↦
            let gone = (text_eq_iff (trim_right p s) []).0 (ground arith) in
            rw cut (
              (
                c ∷ tail,
                ap (λ t. c ∷ t) (split ∙ ap (λ front. front ++ tail) gone),
                (ground arith, only),
              ))
        | inr kept ↦ rw kept (tail, ap (λ t. c ∷ t) split, only)
      ]

  -- What it leaves does not end in one of that kind.
  pub trim_right-last : (s front : Text) (c : ℕ) → p c ≡ true → trim_right p s ≡ front ++ c ∷ [] → ⊥
  unfolding trim_right text_eq
  trim_right-last [] [] c h e = cc
  trim_right-last [] (d ∷ front) c h e = cc
  trim_right-last (b ∷ s) [] c h e = ground arith
  trim_right-last (b ∷ s) (d ∷ front) c h e = ground (arith, trim_right-last s front c h)

  trim_right-Starts : (s : Text) → Starts s → Starts (trim_right p s)
  unfolding trim_right
  trim_right-Starts [] h = tt
  trim_right-Starts (c ∷ s) h = rw h h

  -- Trimming twice is trimming once.
  pub trim_idem : (s : Text) → trim p (trim p s) ≡ trim p s
  trim_idem s =
      rw (trim_left_of_Starts _ (trim_right-Starts (trim_left p s) (trim_left-Starts s)))
        (trim_right_idem (trim_left p s))

pub trim_space_idem : (s : Text) → trim_space (trim_space s) ≡ trim_space s
unfolding trim_space
trim_space_idem s = trim_idem is_space s

pub has_prefix-append : (p s : Text) → has_prefix (p ++ s) p ≡ true
unfolding has_prefix
has_prefix-append [] [] = refl
has_prefix-append [] (c ∷ s) = refl
has_prefix-append (c ∷ p) s = ground (arith, has_prefix-append p s)

pub trim_prefix-append : (p s : Text) → trim_prefix (p ++ s) p ≡ s
unfolding trim_prefix
trim_prefix-append [] [] = refl
trim_prefix-append [] (c ∷ s) = refl
trim_prefix-append (c ∷ p) s = ground (arith, trim_prefix-append p s, has_prefix-append p s)
