-- ===== src/Indexer/Tokens/Laws.antt =====
-- What the words of a text are.
use mouse.Indexer.Tokens.{unique, unique_from, tokenize, is_word_rune, mentions_token}
use mouse.Strings.Runs.{IsRun, runs-IsRun, runs-cut, runs_one}
use mouse.Prelude.{
  ◌∙◌, append_assoc, ap, Bool, text_eq_refl, text_eq_iff, inr, inl, ◌||◌, text_eq, if◌then◌else◌,
  refl, arith, Bool-cases, [], codes, false, true, all, ℕ, ◌∷◌, All, ◌≡◌, List, Text,
}
use mouse.Strings.{to_lower, runs, join, Unicode, is_space, fields}

-- No word stands in the list twice.
abbrev pub IsDistinct : List Text → Type 0
IsDistinct [] = Unit
IsDistinct (t ∷ ts) = (mentions_token ts t ≡ false) × IsDistinct ts

-- A word: not empty, and of lower-case letters and digits.
abbrev pub IsWord : Text → Type 0
IsWord = IsRun is_word_rune

unique_from-All :
    (P : Text → Type 0) (seen tokens : List Text) → All P tokens → All P (unique_from seen tokens)
unfolding unique_from
unique_from-All P seen [] h = tt
unique_from-All P seen (t ∷ ts) (first, h) =
    elim (Bool-cases (text_eq t [] || mentions_token seen t)) [
      | inl skipped ↦ rw skipped (unique_from-All P seen ts h)
      | inr kept ↦ rw kept (first, unique_from-All P (t ∷ seen) ts h)
    ]

-- What was seen before is left out.
unique_from-unseen :
    (q : Text) (seen tokens : List Text)
    → mentions_token seen q ≡ true
    → mentions_token (unique_from seen tokens) q ≡ false
unfolding unique_from
unique_from-unseen q seen [] h = refl
unique_from-unseen q seen (t ∷ ts) h = elim (Bool-cases (text_eq t [] || mentions_token seen t)) [
  | inl skipped ↦ rw skipped (unique_from-unseen q seen ts h)
  | inr kept ↦ rw kept (ground (arith, text_eq_iff q t, unique_from-unseen q (t ∷ seen) ts))
]

unique_from-IsDistinct : (seen tokens : List Text) → IsDistinct (unique_from seen tokens)
unfolding unique_from
unique_from-IsDistinct seen [] = tt
unique_from-IsDistinct seen (t ∷ ts) = elim (Bool-cases (text_eq t [] || mentions_token seen t)) [
  | inl skipped ↦ rw skipped (unique_from-IsDistinct seen ts)
  | inr kept ↦ rw kept (
    unique_from-unseen t (t ∷ seen) ts (rw (text_eq_refl t) refl),
    unique_from-IsDistinct (t ∷ seen) ts,
  )
]

-- The words of a text are words, and none is listed twice.
pub tokenize-IsDistinct :
    ⦃u : Unicode⦄ (text : Text) → IsDistinct (tokenize text) × All IsWord (tokenize text)
unfolding tokenize unique
tokenize-IsDistinct text = (
  unique_from-IsDistinct [] (runs is_word_rune [] (to_lower text)),
  unique_from-All IsWord [] (runs is_word_rune [] (to_lower text))
      (runs-IsRun is_word_rune [] (to_lower text) refl),
)

-- A character of a word is no space.
word_rune : (c : ℕ) → is_word_rune c ≡ true → is_space c ≡ false
unfolding is_space
word_rune c h = ground arith

not_spaces :
    (s : Text) → all is_word_rune s ≡ true → all (λ c. if is_space c then false else true) s ≡ true
not_spaces [] h = refl
not_spaces (c ∷ s) h = ground (arith, word_rune c, not_spaces s)

fields-join : (ts : List Text) → All IsWord ts → fields (join (codes " ") ts) ≡ ts
unfolding fields join
fields-join [] h = refl
fields-join (t ∷ []) ((ne, letters), _) = runs_one _ t ne (not_spaces t letters)
fields-join (t ∷ s ∷ ts) ((ne, letters), h) =
    let keep : ℕ → Bool = λ c. if is_space c then false else true in
    let rest = join (codes " ") (s ∷ ts) in
    ap (runs keep []) (append_assoc t (codes " ") rest)
    ∙ runs-cut keep [] t 32 rest refl
    ∙ rw (runs_one keep t ne (not_spaces t letters)) (ap (◌∷◌ t) (fields-join (s ∷ ts) h))

-- The words of any text, joined with spaces as the scan stores them, are the same words again when
-- the search splits them.
pub fields-tokenize :
    ⦃u : Unicode⦄ (text : Text) → fields (join (codes " ") (tokenize text)) ≡ tokenize text
fields-tokenize text = fields-join (tokenize text) (tokenize-IsDistinct text).1
