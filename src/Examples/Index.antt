-- ===== src/Examples/Index.antt =====
-- The theorems on the index, on a directory of two files.
use mouse.Examples.{ascii, machine, machine-IsQuiet, world}
use mouse.Indexer.Scan.Sound.{IsSound}
use mouse.Indexer.Search.{search, Match}
use mouse.Indexer.Scan.{scan_once, Indexer, Hashing}
use mouse.Prelude.{
  arith, text_eq_iff, false, text_eq, not, ◌≢◌, ◌+◌, filter, length, refl, ok, ◌≡◌, [], some, ◌∷◌,
  codes, List,
}
use mouse.Indexer.Scan.Entries.{HasDigits}
use mouse.Host.{World}
use mouse.Host.Rows.{IndexEntry}
use mouse.Strings.{is_space, trim_right, trim_left, trim_space, is_blank, runs, join, fields}
use mouse.Indexer.Tokens.Scores.{similarity_lem, score_of}
use mouse.Indexer.Tokens.{token_set, mentions_token, unique_from, unique, similarity, tokenize}
use mouse.Prelude.Int.{pos}
use mouse.Indexer.Scan.Mirror.{scan_once-Mirrors, Mirrors}
use mouse.Sqlite.Base.{or_default, open_db}
use mouse.Indexer.Tokens.Laws.{fields-tokenize}
use mouse.Indexer.Search.Ranking.{sharing, search-IsBest, IsBest}
use mouse.Sqlite.Index.{select_index_entries}
use mouse.Sqlite.Keyed.{find}
use mouse.Prelude.Dict.{lookup}
use mouse.Indexer.Scan.Passes.{scan_once_passes}
use mouse.Indexer.Scan.Fit.{HasName, AllNamed}

-- A hash that keeps the whole text.
instance abbrev pub whole : Hashing
whole = record { hash_content = λ s. 35 ∷ s }

abbrev indexer : Indexer
indexer = record { watch = codes "/data" ∷ []; db = open_db; logger = some (codes "indexer") }

abbrev old_index : IndexEntry
old_index = record {
  path = codes "/data/gone.md";
  content = codes "gone";
  content_hash = codes "#gone";
  tokens = codes "gone";
  updated_at = codes "2024-01-01T00:00:00Z";
}

abbrev files_world : World
files_world = record world {
  files =
      (codes "/data/a.md", codes "Hello hello mouse") ∷ (codes "/data/b.txt", codes "text") ∷ [];
  db = record world.db { index_entries = old_index ∷ [] };
}

whole-HasDigits : HasDigits whole
whole-HasDigits s e = cc

scan_once-Mirrors_example :
    let (r, w') = scan_once (some indexer) files_world in Mirrors indexer files_world r w'
scan_once-Mirrors_example = scan_once-Mirrors indexer files_world whole-HasDigits (λ e. cc)

old_index-IsSound : IsSound files_world.db
unfolding tokenize unique unique_from runs join text_eq find
old_index-IsSound = record { unique_paths = (refl, tt); told = ((refl, refl), tt) }

fields-tokenize_example :
    fields (join (codes " ") (tokenize (codes "Hello, hello mouse")))
    ≡ tokenize (codes "Hello, hello mouse")
fields-tokenize_example = fields-tokenize (codes "Hello, hello mouse")

similarity_lem_example :
    let query = codes "a" ∷ codes "b" ∷ [] in
    let entry = codes "b" ∷ codes "c" ∷ [] in
    similarity query entry
    ≡ score_of (length (filter (mentions_token (token_set query)) entry)) (
        length (token_set query)
        + length (filter (λ t. not (mentions_token (token_set query) t)) entry))
similarity_lem_example =
    similarity_lem (codes "a" ∷ codes "b" ∷ []) (codes "b" ∷ codes "c" ∷ []) (λ e. cc) (λ e. cc)

words : tokenize (codes "gone mouse") ≢ []
unfolding tokenize unique unique_from runs
words e = cc

search-IsBest_example :
    (best : List Match) × ((search (some indexer) (codes "gone mouse") (pos 0) files_world).0
      ≡ ok best)
    × IsBest
        (or_default 5 (pos 0))
        (sharing (tokenize (codes "gone mouse")) (select_index_entries 200 files_world.db))
        best
search-IsBest_example =
    search-IsBest machine indexer (codes "gone mouse") (pos 0) files_world machine-IsQuiet refl
      words

named_paths :
    (is_blank (codes "/data/a.md") ≡ false)
    × (is_blank (codes "/data/b.txt") ≡ false)
    × HasName old_index
unfolding is_blank trim_space trim_left trim_right is_space text_eq
named_paths = (refl, refl, refl)

named_files : AllNamed files_world.files
unfolding lookup
named_files path there = ground (
  arith,
  text_eq_iff (codes "/data/a.md") path,
  text_eq_iff (codes "/data/b.txt") path,
  named_paths.0,
  named_paths.1,
)

scan_once_passes_example : (scan_once (some indexer) files_world).0 ≡ ok tt
scan_once_passes_example =
    scan_once_passes indexer files_world machine-IsQuiet refl named_files (named_paths.2, tt)
