-- ===== src/Indexer/Handlers/Kept.antt =====
-- internal/indexer/handler.go: what the requests keep.
use mouse.Indexer.Search.{search}
use mouse.Effects.{query-Keeps, log-Keeps, Closed}
use mouse.Host.Keeps.{try-Keeps, Keeps, bind-Keeps, pure-Keeps, wrap-Keeps, if-Keeps}
use mouse.Indexer.Handlers.{matches, limit_of, serve_search, done, write_error, Answer}
use mouse.Strings.{Unicode}
use mouse.Host.{World, Env}
use mouse.Indexer.Scan.{scan_once, Indexer, Hashing}
use mouse.Indexer.Handlers.{Answer, serve_reindex, finish}
use mouse.Prelude.{
  is_empty, [], codes, is_none, text_eq, not, none, some, err, ok, Result, Text, Option,
}
use mouse.Host.Http.{method_get, status_ok, method_post}
use mouse.Indexer.Scan.Kept.{scan-Keeps, IsTold}
use mouse.Sqlite.Index.{list_index_entries}
use mouse.Host.Action.{try}
use mouse.Sqlite.Base.{open_db, nil_db, Db}
use mouse.Prelude.Int.{pos, ℤ}
use mouse.Indexer.Tokens.{tokenize}

module _ {ι} {I : World → Type ι} ⦃u : Unicode⦄ ⦃env : Env⦄ ⦃sha : Hashing⦄
    (c : Closed IsTold I) where
  finish-Keeps {ℓ} :
      {A : Type ℓ} (logger : Option Text) (message reply : Text) (show : A → Answer) (r : Result A)
      → Keeps I (finish logger message reply show r)
  unfolding finish
  finish-Keeps logger message reply show (ok a) = pure-Keeps _
  finish-Keeps logger message reply show (err e) =
      bind-Keeps _ _ (log-Keeps c logger _ _ _) λ _. pure-Keeps _

  pub serve_reindex-Keeps :
      (i : Option Indexer) (logger : Option Text) (method : Text)
      → Keeps I (serve_reindex i logger method)
  unfolding serve_reindex write_error
  serve_reindex-Keeps i logger method =
      if-Keeps (not (text_eq method method_post)) _ _ (pure-Keeps _) (
        if-Keeps (is_none i) _ _ (pure-Keeps _) (
          bind-Keeps (try (scan_once i)) _ (try-Keeps _ (scan-Keeps c i)) (
            finish-Keeps logger (codes "index reindex failed") (codes "reindex failed")
              (λ (_ : Unit {0}). (status_ok, some done)))))

  list_index_entries-Keeps : (d : Db) (limit : ℤ) → Keeps I (list_index_entries d limit)
  unfolding list_index_entries
  list_index_entries-Keeps nil_db limit = pure-Keeps _
  list_index_entries-Keeps open_db limit =
      wrap-Keeps (codes "sqlite: list index entries: ") _ (query-Keeps c _)

  search-Keeps : (i : Option Indexer) (query : Text) (limit : ℤ) → Keeps I (search i query limit)
  unfolding search
  search-Keeps none query limit = pure-Keeps _
  search-Keeps (some i) query limit =
      if-Keeps (is_empty (tokenize query)) _ _ (pure-Keeps _)
        (bind-Keeps _ _ (list_index_entries-Keeps i.db (pos 0)) λ entries. pure-Keeps _)

  pub serve_search-Keeps :
      (i : Option Indexer) (logger : Option Text) (method query raw_limit : Text)
      → Keeps I (serve_search i logger method query raw_limit)
  unfolding serve_search write_error
  serve_search-Keeps i logger method query raw_limit =
      if-Keeps (not (text_eq method method_get)) _ _ (pure-Keeps _) (
        if-Keeps (is_none i) _ _ (pure-Keeps _) (
          if-Keeps (text_eq query []) _ _ (pure-Keeps _) (
            bind-Keeps (try (search i query (limit_of raw_limit))) _
              (try-Keeps _ (search-Keeps i query (limit_of raw_limit)))
              (finish-Keeps logger (codes "index search failed") (codes "search failed")
                (λ found. (status_ok, some (matches found)))))))
