-- ===== src/Indexer/Tokens.antt =====
-- internal/indexer/indexer.go: the words of a text, how alike two sets of words are, and excerpts.
pub mod Scores
pub mod Laws
use mouse.Prelude.{
  replicate, codes, ◌++◌, length, ◌+◌, leb, is_empty, ◌-◌, ◌==◌, any, [], ◌∷◌, if◌then◌else◌, ◌*◌,
  ◌||◌, Text, ltb, List, text_eq, Bool, ℕ,
}
use mouse.Strings.{byte_length, rune_length, to_lower, Unicode, within, trim_space, runs}

-- The characters of a word.
abbrev pub is_word_rune : ℕ → Bool
is_word_rune r = within b'a' b'z' r || within b'0' b'9' r

-- `_, ok := seen[token]`
abbrev pub mentions_token : List Text → Text → Bool
mentions_token seen token = any (text_eq token) seen

-- The loop of `unique`, behind the tokens seen so far.
unfoldable pub unique_from : List Text → List Text → List Text
unfolding text_eq
unique_from seen [] = []
unique_from seen (token ∷ tokens) =
    let skip = text_eq token [] || mentions_token seen token in
    let rest = unique_from (if skip then seen else token ∷ seen) tokens in
    if skip then rest else token ∷ rest

-- `unique`
unfoldable pub unique : List Text → List Text
unfolding unique_from
unique tokens = unique_from [] tokens

-- `tokenize`: the builder `current` is flushed at every character that belongs to no word
unfoldable pub tokenize : ⦃u : Unicode⦄ → Text → List Text
unfolding unique runs
tokenize text = unique (runs is_word_rune [] (to_lower text))

-- A score, as the exact quotient of the two counts. The program rounds it to a float64, which keeps
-- the order of two quotients as long as the counts lie below 2^26.
pub record Score : Type 0 where
  pub common : ℕ
  pub total : ℕ

-- `a > b` on scores
abbrev pub score_gt : Score → Score → Bool
score_gt a b = ltb (b.common * a.total) (a.common * b.total)

abbrev no_score : Score
no_score = record { common = 0; total = 1 }

-- The keys of `qset`.
unfoldable pub token_set : List Text → List Text
unfolding text_eq
token_set [] = []
token_set (token ∷ tokens) =
    let rest = token_set tokens in if mentions_token tokens token then rest else token ∷ rest

-- The loop of `similarity`, over the tokens of the entry.
unfoldable pub count_tokens : List Text → ℕ → ℕ → List Text → Score
unfolding text_eq
count_tokens qset common total [] =
    if total == 0 then no_score else record { common = common; total = total }
count_tokens qset common total (token ∷ tokens) =
    let known = mentions_token qset token in
    count_tokens qset (if known then common + 1 else common) (if known then total else total + 1)
      tokens

-- `similarity`
unfoldable pub similarity : List Text → List Text → Score
unfolding token_set count_tokens
similarity query_tokens entry_tokens =
    if is_empty query_tokens || is_empty entry_tokens
    then no_score
    else count_tokens (token_set query_tokens) 0 (length (token_set query_tokens)) entry_tokens

-- The first bytes of a text. Each byte of a character that is cut in two is written as U+FFFD, which
-- is what it becomes in the JSON that is sent.
unfoldable pub cut_bytes : ℕ → Text → Text
cut_bytes n [] = []
cut_bytes n (c ∷ s) =
    let rest = cut_bytes (n - rune_length c) s in
    if leb (rune_length c) n then c ∷ rest else replicate n 0xfffd

-- `snippet`
unfoldable pub snippet : Text → ℕ → Text
unfolding cut_bytes trim_space
snippet content max =
    let trimmed = trim_space content in
    if leb (byte_length trimmed) max then trimmed else cut_bytes max trimmed ++ codes "..."
