-- ===== src/Indexer/Search.antt =====
-- internal/indexer/indexer.go: `Search`.
pub mod Ranking
use mouse.Indexer.Tokens.{tokenize, similarity, snippet, Score, score_gt}
use mouse.Indexer.Scan.{Indexer}
use mouse.Prelude.{
  is_empty, codes, [], some, ◌==◌, none, if◌then◌else◌, Option, take, ◌∷◌, ℕ, List, Text, Bool,
}
use mouse.Strings.{Unicode, fields}
use mouse.Prelude.Sort.{sort_by}
use mouse.Host.{Env}
use mouse.Host.Rows.{IndexEntry}
use mouse.Sqlite.Base.{or_default}
use mouse.Prelude.Int.{pos, ℤ}
use mouse.Host.Action.{◌>>=◌, pure, fail, Action}
use mouse.Sqlite.Index.{list_index_entries}

pub record Match : Type 0 where
  pub path : Text
  pub score : Score
  pub excerpt : Text

-- The match of one entry; `score <= 0` is no match.
unfoldable pub match_of : List Text → IndexEntry → Option Match
unfolding similarity snippet fields
match_of query_tokens entry =
    let score = similarity query_tokens (fields entry.tokens) in
    if score.common == 0
    then none
    else some (record { path = entry.path; score = score; excerpt = snippet entry.content 220 })

add_match : Option Match → List Match → List Match
add_match none matches = matches
add_match (some m) matches = m ∷ matches

-- The loop over the entries.
unfoldable pub matches_of : List Text → List IndexEntry → List Match
unfolding match_of add_match
matches_of query_tokens [] = []
matches_of query_tokens (entry ∷ entries) =
    add_match (match_of query_tokens entry) (matches_of query_tokens entries)

abbrev pub ranks_before : Match → Match → Bool
ranks_before a b = score_gt a.score b.score

-- `sort.Slice` and the cut behind it.
unfoldable pub rank : ℕ → List Match → List Match
unfolding sort_by
rank limit matches = take limit (sort_by ranks_before matches)

module _ ⦃u : Unicode⦄ ⦃env : Env⦄ where
  -- `Search`; `none` is a nil indexer
  unfoldable pub search : Option Indexer → Text → ℤ → Action (List Match)
  unfolding matches_of rank or_default tokenize
  search none query limit = fail (codes "indexer: nil")
  search (some i) query limit =
      let query_tokens = tokenize query in
      if is_empty query_tokens then pure [] else (do
        entries ← list_index_entries i.db (pos 0)
        pure (rank (or_default 5 limit) (matches_of query_tokens entries)))
