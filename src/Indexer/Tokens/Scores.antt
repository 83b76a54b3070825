-- ===== src/Indexer/Tokens/Scores.antt =====
-- What the scores are, and that they are ordered.
use native.Mathlib.Nat.{le_of_mul-le-mul_right, mul-le-mul_right}
use mouse.Indexer.Tokens.{Score, score_gt, similarity, count_tokens, token_set, mentions_token}
use mouse.Prelude.{
  ◌||◌, ap, text_eq_iff, text_eq, any, ◌==◌, Bool, ◌∙◌, inr, refl, inl, Bool-cases, not, ◌∷◌, ◌+◌,
  filter, length, [], ◌≤◌, ◌≢◌, arith, ◌*◌, false, true, Text, ◌<◌, List, ℕ, ◌≡◌,
}

abbrev pub score_of : ℕ → ℕ → Score
score_of common total = record { common = common; total = total }

count_tokens_lem :
    (qset : List Text) (common total : ℕ) (entry : List Text)
    → 0 < total
    → count_tokens qset common total entry
      ≡ score_of
          (common + length (filter (mentions_token qset) entry))
          (total + length (filter (λ t. not (mentions_token qset t)) entry))
unfolding count_tokens
count_tokens_lem qset common total [] pos = ground arith
count_tokens_lem qset common total (t ∷ entry) pos = elim (Bool-cases (mentions_token qset t)) [
  | inl known ↦ rw known (count_tokens_lem qset (common + 1) total entry pos ∙ ground arith)
  | inr other ↦
      rw other (count_tokens_lem qset common (total + 1) entry (omega arith) ∙ ground arith)
]

token_set-length : (tokens : List Text) → tokens ≢ [] → 0 < length (token_set tokens)
unfolding token_set
token_set-length [] ne = absurd (ne refl)
token_set-length (t ∷ []) ne = ground arith
token_set-length (t ∷ s ∷ ts) ne = elim (Bool-cases (mentions_token (s ∷ ts) t)) [
  | inl again ↦ rw again (token_set-length (s ∷ ts) (λ e. cc))
  | inr first ↦ rw first (omega arith)
]

-- The score of two lists of words that are not empty is a fraction: above the line the number of
-- words of the entry that the query has, below it the number of different words of the query and of
-- the other words of the entry.
pub similarity_lem :
    (query entry : List Text)
    → query ≢ []
    → entry ≢ []
    → similarity query entry
      ≡ score_of (length (filter (mentions_token (token_set query)) entry)) (
          length (token_set query)
          + length (filter (λ t. not (mentions_token (token_set query) t)) entry))
unfolding similarity
similarity_lem [] entry q e = absurd (q refl)
similarity_lem (t ∷ ts) [] q e = absurd (e refl)
similarity_lem (t ∷ ts) (s ∷ ss) q e =
    count_tokens_lem (token_set (t ∷ ts)) 0 (length (token_set (t ∷ ts))) (s ∷ ss)
      (token_set-length (t ∷ ts) q)
    ∙ ground arith

-- The set has the words of the list.
mentions-token_set :
    (query : List Text) (t : Text) → mentions_token (token_set query) t ≡ any (text_eq t) query
unfolding token_set
mentions-token_set [] t = refl
mentions-token_set (x ∷ query) t = elim (Bool-cases (mentions_token query x)) [
  | inl again ↦ rw again (mentions-token_set query t ∙ ground (arith, text_eq_iff t x))
  | inr first ↦ rw first (ap (λ b. text_eq t x || b) (mentions-token_set query t))
]

no_filter :
    (p q : Text → Bool) (ts : List Text)
    → ((t : Text) → p t ≡ q t)
    → (length (filter p ts) == 0) ≡ not (any q ts)
no_filter p q [] same = refl
no_filter p q (t ∷ ts) same = elim (Bool-cases (q t)) [
  | inl there ↦ rw (same t, there) (ground arith)
  | inr missing ↦ rw (same t, missing) (no_filter p q ts same)
]

-- The score is zero exactly if the entry has no word of the query.
pub similarity-common :
    (query entry : List Text)
    → query ≢ []
    → ((similarity query entry).common == 0) ≡ not (any (λ t. any (text_eq t) query) entry)
similarity-common query [] q = unfold similarity in ground arith
similarity-common query (t ∷ ts) q =
    rw (similarity_lem query (t ∷ ts) q (λ e. cc))
      (no_filter _ (λ t. any (text_eq t) query) (t ∷ ts) (mentions-token_set query))

-- A score is never over nothing.
pub similarity-total : (query entry : List Text) → 0 < (similarity query entry).total
unfolding similarity
similarity-total [] entry = omega arith
similarity-total (t ∷ ts) [] = omega arith
similarity-total (t ∷ ts) (s ∷ ss) =
    rw
      (count_tokens_lem (token_set (t ∷ ts)) 0 (length (token_set (t ∷ ts))) (s ∷ ss)
        (token_set-length (t ∷ ts) (λ e. cc)))
      (omega (arith, token_set-length (t ∷ ts) (λ e. cc)))

pub score_asym : (a b : Score) → score_gt a b ≡ true → score_gt b a ≡ false
score_asym a b h = ground arith

cross : (ac at bc bt cc ct : ℕ) → 0 < bt → bc * at ≤ ac * bt → cc * bt ≤ bc * ct → cc * at ≤ ac * ct
cross ac at bc bt cc ct pos h k =
    le_of_mul-le-mul_right {k = bt} (omega (arith, mul-le-mul_right at k, mul-le-mul_right ct h))
      pos

pub score_trans :
    (a b c : Score)
    → 0 < b.total
    → score_gt b a ≡ false
    → score_gt c b ≡ false
    → score_gt c a ≡ false
score_trans a b c pos h k =
    ground (arith, cross a.common a.total b.common b.total c.common c.total pos)
