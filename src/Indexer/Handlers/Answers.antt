-- ===== src/Indexer/Handlers/Answers.antt =====
-- What the two handlers answer, and what a search leaves alone.
use mouse.Indexer.Handlers.{
  serve_search, serve_reindex, finish, Answer, matches, done, limit_of, write_error,
}
use mouse.Indexer.Scan.{Indexer, Hashing, scan_once}
use mouse.Indexer.Search.{search}
use mouse.Host.{Env, World}
use mouse.Strings.{Unicode}
use mouse.Prelude.{
  ◌≤◌, refl, ◌⊎◌, is_none, codes, inl, inr, [], is_empty, text_eq, ◌≢◌, List, Bool-cases, none,
  some, err, arith, ok, Result, Text, Option, ◌≡◌,
}
use mouse.Sqlite.Index.{list_index_entries}
use mouse.Prelude.Int.{pos, ℤ}
use mouse.Indexer.Scan.Entries.{HasDigits}
use mouse.Sqlite.Base.{open_db, nil_db, Db}
use mouse.Host.Http.{method_post, method_get, status_ok}
use mouse.Indexer.Scan.Mirror.{scan_once-Mirrors, IndexedAs, Mirrors}
use mouse.Host.Rows.{IndexEntry}
use mouse.Indexer.Scan.Files.{belongs}
use mouse.Indexer.Tokens.{tokenize}
use mouse.Host.Action.{pure, continue}

-- The worlds differ in the log and in the number of calls at most.
pub record OnlyRead (w w' : World) : Type 0 where
  pub files : w'.files ≡ w.files
  pub db : w'.db ≡ w.db
  pub requests : w'.requests ≡ w.requests
  pub commands : w'.commands ≡ w.commands

module _ ⦃u : Unicode⦄ ⦃env : Env⦄ where
  list-OnlyRead : (d : Db) (limit : ℤ) (w : World) → OnlyRead w (list_index_entries d limit w).1
  unfolding list_index_entries
  list-OnlyRead nil_db limit w = ground arith
  list-OnlyRead open_db limit w = ground arith

  listed-OnlyRead {ℓ} :
      {A : Type ℓ} (r : Result (List IndexEntry)) (f : List IndexEntry → A) (w w₁ : World)
      → OnlyRead w w₁
      → OnlyRead w (continue {0, ℓ} r (λ es. pure (f es)) w₁).1
  listed-OnlyRead (ok es) f w w₁ h = h
  listed-OnlyRead (err e) f w w₁ h = h

  search-OnlyRead :
      (i : Option Indexer) (query : Text) (limit : ℤ) (w : World)
      → OnlyRead w (search i query limit w).1
  unfolding search
  search-OnlyRead none query limit w = ground arith
  search-OnlyRead (some i) query limit w = elim (Bool-cases (is_empty (tokenize query))) [
    | inl no_words ↦ rw no_words (ground arith)
    | inr words ↦ rw words (listed-OnlyRead _ _ w _ (list-OnlyRead i.db (pos 0) w))
  ]

  finish-OnlyRead {ℓ} :
      {A : Type ℓ} (logger : Option Text) (message reply : Text) (show : A → Answer) (r : Result A)
      (w w₁ : World)
      → OnlyRead w w₁
      → OnlyRead w (finish logger message reply show r w₁).1
  unfolding finish
  finish-OnlyRead logger message reply show (ok a) w w₁ h = h
  finish-OnlyRead none message reply show (err e) w w₁ h = h
  finish-OnlyRead (some service) message reply show (err e) w w₁ h = record {
    files = h.files;
    db = h.db;
    requests = h.requests;
    commands = h.commands;
  }

  -- A request to the search handler changes no file and no table, sends no request and starts no
  -- process, whatever it asks and whatever fails.
  pub serve_search-OnlyRead :
      (i : Option Indexer) (logger : Option Text) (method query raw_limit : Text) (w : World)
      → OnlyRead w (serve_search i logger method query raw_limit w).1
  unfolding serve_search
  serve_search-OnlyRead i logger method query raw_limit w =
      elim (Bool-cases (text_eq method method_get)) [
        | inr other ↦ rw other (ground arith)
        | inl get ↦ elim (Bool-cases (is_none i)) [
          | inl missing ↦ rw (get, missing) (ground arith)
          | inr there ↦ elim (Bool-cases (text_eq query [])) [
            | inl blank ↦ rw (get, there, blank) (ground arith)
            | inr asked ↦
                rw (get, there, asked)
                  (finish-OnlyRead logger _ _ (λ found. (status_ok, some (matches found)))
                    (search i query (limit_of raw_limit) w).0 w
                    (search i query (limit_of raw_limit) w).1
                    (search-OnlyRead i query (limit_of raw_limit) w))
          ]
        ]
      ]

module _ ⦃u : Unicode⦄ ⦃env : Env⦄ ⦃sha : Hashing⦄ where
  -- The answer is a success and the index mirrors the files, or the answer tells of a failure.
  abbrev pub Reindexed : Indexer → World → Result Answer → World → Type 0
  Reindexed i w (ok (status, reply)) w' =
      ((status ≡ status_ok)
        × (w'.files ≡ w.files)
        × ((q : Text) → IndexedAs (belongs i.watch w.files q) q w'))
      ⊎ (400 ≤ status)
  Reindexed i w (err e) w' = Unit

  after_reindex :
      (i : Indexer) (logger : Option Text) (message reply : Text) (r : Result (Unit {0}))
      (w w₁ : World)
      → Mirrors i w r w₁
      → let (r', w') =
          finish logger message reply (λ (_ : Unit {0}). (status_ok, some done)) r w₁ in
        Reindexed i w r' w'
  unfolding finish write_error
  after_reindex i logger message reply (ok _) w w₁ h = inl (refl, h.0, h.1)
  after_reindex i none message reply (err e) w w₁ h = inr (omega arith)
  after_reindex i (some service) message reply (err e) w w₁ h = inr (omega arith)

  -- Over a hash that is never empty, with at least one watched path: a request to the reindex
  -- handler is answered with a status of 400 or above, or it is answered with 200 and the index
  -- then holds exactly the Markdown files below the watched paths, each with the hash of its
  -- present text.
  pub serve_reindex-Reindexed :
      (i : Indexer) (logger : Option Text) (method : Text) (w : World)
      → HasDigits sha
      → i.watch ≢ []
      → let (r, w') = serve_reindex (some i) logger method w in Reindexed i w r w'
  unfolding serve_reindex
  serve_reindex-Reindexed i logger method w digits watching =
      elim (Bool-cases (text_eq method method_post)) [
        | inr other ↦ rw other (inr (omega arith))
        | inl post ↦ rw post (
            after_reindex i logger (codes "index reindex failed") (codes "reindex failed")
              (scan_once (some i) w).0 w (scan_once (some i) w).1
              (scan_once-Mirrors i w digits watching))
      ]
