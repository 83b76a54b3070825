-- ===== src/Indexer/Search/Ranking.antt =====
-- What a search answers.
use Prim.Native.Nat.{min}
use mathlib.Core.List.{Perm}
use mouse.Indexer.Search.{add_match, Match, match_of, matches_of, ranks_before, rank, search}
use mouse.Indexer.Tokens.Scores.{similarity-common, similarity-total, score_asym, score_trans}
use mouse.Prelude.Sort.{length-sort_by, sort_by, sort_by-perm, sort_by-IsSorted, IsSorted}
use mouse.Prelude.{
  codes, leb, if◌then◌else◌, inr, text_eq, inl, Bool-cases, any, filter, Bool, map, refl, false,
  is_empty, ap, ◌≢◌, ◌∙◌, length, length-take, sym, ◌++◌, arith, some, [], none, ok, drop, ◌∷◌, ◌≡◌,
  take-drop, Option, All, Text, List, ℕ, ◌<◌,
}
use mouse.Strings.{byte_length, trim_space, fields, Unicode}
use mouse.Host.Rows.{IndexEntry}
use mouse.Prelude.Int.{ℤ}
use mouse.Host.{Env, World}
use mathlib.Core.Path.{subst}
use mouse.Sqlite.Base.{open_db, or_default}
use mouse.Indexer.Tokens.{cut_bytes, snippet, similarity, tokenize}
use mouse.Sqlite.Index.{list_index_entries, select_index_entries}
use mouse.Indexer.Scan.{Indexer}
use mouse.Host.Action.{quiet, IsQuiet-quiet, IsQuiet}

abbrev HasTotal : Match → Type 0
HasTotal m = 0 < m.score.total

abbrev AllTotal : Option Match → Type 0
AllTotal none = Unit
AllTotal (some m) = HasTotal m

match_of-AllTotal : (query : List Text) (entry : IndexEntry) → AllTotal (match_of query entry)
unfolding match_of
match_of-AllTotal query entry = ground (arith, similarity-total query (fields entry.tokens))

add_match-HasTotal :
    (o : Option Match) (matches : List Match)
    → AllTotal o
    → All HasTotal matches
    → All HasTotal (add_match o matches)
unfolding add_match
add_match-HasTotal none matches h k = k
add_match-HasTotal (some m) matches h k = (h, k)

matches_of-HasTotal :
    (query : List Text) (entries : List IndexEntry) → All HasTotal (matches_of query entries)
unfolding matches_of
matches_of-HasTotal query [] = tt
matches_of-HasTotal query (entry ∷ entries) =
    add_match-HasTotal (match_of query entry) (matches_of query entries)
      (match_of-AllTotal query entry) (matches_of-HasTotal query entries)

-- The best of these matches: in order, as many as the limit lets through, and none that was left out beats one
-- that is listed.
pub record IsBest (limit : ℕ) (matches best : List Match) : Type 0 where
  pub others : List Match
  pub all_there : Perm (best ++ others) matches
  pub in_order : IsSorted ranks_before (best ++ others)
  pub filled : length best ≡ min limit (length matches)

pub rank-IsBest :
    (limit : ℕ) (query : List Text) (entries : List IndexEntry)
    → IsBest limit (matches_of query entries) (rank limit (matches_of query entries))
unfolding rank
rank-IsBest limit query entries =
    let sorted = sort_by ranks_before (matches_of query entries) in
    let whole = take-drop limit sorted in
    record {
      others = drop limit sorted;
      all_there =
          subst (λ ms. Perm ms (matches_of query entries)) (sym whole)
            (sort_by-perm ranks_before (matches_of query entries));
      in_order = subst (IsSorted ranks_before) (sym whole) (
          sort_by-IsSorted HasTotal ranks_before (λ a b h. score_asym a.score b.score h)
            (λ a b c p h k. score_trans a.score b.score c.score p h k) (matches_of query entries)
            (matches_of-HasTotal query entries));
      filled =
          length-take limit sorted
          ∙ ap (min limit) (length-sort_by ranks_before (matches_of query entries));
    }

-- An entry has a word of the query.
abbrev pub shares_word : List Text → IndexEntry → Bool
shares_word query entry = any (λ t. any (text_eq t) query) (fields entry.tokens)

-- The beginning of a text: all of it without the space around it, or its first 220 bytes with three
-- dots behind them.
abbrev beginning : Text → Text
beginning content =
    let whole = trim_space content in
    if leb (byte_length whole) 220 then whole else cut_bytes 220 whole ++ codes "..."

-- What a search says of an entry: its path, its score, and the beginning of its content.
abbrev pub said_of : List Text → IndexEntry → Match
said_of query entry = record {
  path = entry.path;
  score = similarity query (fields entry.tokens);
  excerpt = beginning entry.content;
}

-- The entries that share a word with the query, as they are listed.
abbrev pub sharing : List Text → List IndexEntry → List Match
sharing query entries = map (said_of query) (filter (shares_word query) entries)

matches_of-sharing :
    (query : List Text) (entries : List IndexEntry)
    → query ≢ []
    → matches_of query entries ≡ sharing query entries
unfolding matches_of match_of add_match snippet
matches_of-sharing query [] q = refl
matches_of-sharing query (entry ∷ entries) q =
    let scored = similarity-common query (fields entry.tokens) q in
    elim (Bool-cases (shares_word query entry)) [
      | inl shared ↦ rw (scored, shared, matches_of-sharing query entries q) refl
      | inr other ↦ rw (scored, other, matches_of-sharing query entries q) refl
    ]

not_empty : (xs : List Text) → xs ≢ [] → is_empty xs ≡ false
not_empty [] h = absurd (h refl)
not_empty (x ∷ xs) h = refl

module _ ⦃u : Unicode⦄ where
  search-quiet :
      (env : Env) (i : Indexer) (query : Text) (limit : ℤ) (w : World)
      → i.db ≡ open_db
      → tokenize query ≢ []
      → (search ⦃env = quiet env⦄ (some i) query limit w).0
        ≡ ok (
            rank (or_default 5 limit) (matches_of (tokenize query) (select_index_entries 200 w.db)))
  unfolding search list_index_entries
  search-quiet env i query limit w opened asked =
      rw (opened, not_empty (tokenize query) asked) (unfold or_default in refl)

  -- When no call fails, over an open database, a query with at least one word returns matches that
  -- are sorted by their score and at most as many as asked for (5 if that is not positive). They
  -- are a part of the entries that share a word with the query, out of the first 200 that the index
  -- lists, each with its path, score and snippet, and no entry left out has a better score than one
  -- returned.
  pub search-IsBest :
      (env : Env) (i : Indexer) (query : Text) (limit : ℤ) (w : World)
      → IsQuiet env
      → i.db ≡ open_db
      → tokenize query ≢ []
      → (best : List Match) × ((search ⦃env = env⦄ (some i) query limit w).0 ≡ ok best)
        × IsBest
            (or_default 5 limit)
            (sharing (tokenize query) (select_index_entries 200 w.db))
            best
  search-IsBest env i query limit w q opened asked = (
    _,
    subst
        (λ (e : Env).
          (search ⦃env = e⦄ (some i) query limit w).0
          ≡ ok (
              rank (or_default 5 limit)
                (matches_of (tokenize query) (select_index_entries 200 w.db))))
        (IsQuiet-quiet env q) (search-quiet env i query limit w opened asked),
    subst
        (λ (ms : List Match).
          IsBest (or_default 5 limit) ms (
            rank (or_default 5 limit)
              (matches_of (tokenize query) (select_index_entries 200 w.db))))
        (matches_of-sharing (tokenize query) (select_index_entries 200 w.db) asked)
        (rank-IsBest (or_default 5 limit) (tokenize query) (select_index_entries 200 w.db)),
  )
