-- ===== src/Indexer/Scan/Fit.antt =====
-- The statements on the index when no call fails.
use mouse.Host.{Env, World}
use mouse.Host.Action.{wrap, perform, timestamp, log, IsQuiet, count_call, Action}
use mouse.Host.Proceeds.{
  bind-Proceeds, perform-Proceeds, query-Proceeds, timestamp-Proceeds, wrap-Proceeds, Proceeds,
}
use mouse.Host.Rows.{IndexEntry}
use mouse.Indexer.Scan.Entries.{entry_path}
use mouse.Prelude.{codes, false, map, none, some, true, [], ◌∷◌, ◌≡◌, All, List, Option, Text}
use mouse.Prelude.Dict.{has, Dict}
use mouse.Sqlite.Base.{change_db, guarded, open_db}
use mouse.Sqlite.Index.{
  delete_index_entry, drop_index_entry, get_index_hash, list_index_paths, upsert_index_entry,
  write_index_entry,
}
use mouse.Sqlite.Keyed.{delete-All, upsert-All}
use mouse.Strings.{is_blank}

abbrev pub HasName : IndexEntry → Type 0
HasName i = is_blank i.path ≡ false

abbrev pub Named : Text → Type 0
Named path = is_blank path ≡ false

-- No file's path is blank.
abbrev pub AllNamed : Dict Text → Type 0
AllNamed files = (path : Text) → has path files ≡ true → is_blank path ≡ false

-- The files, and entries whose paths are not blank.
pub record IsFit (files : Dict Text) (w : World) : Type 0 where
  pub same_files : w.files ≡ files
  pub entries : All HasName w.db.index_entries

module _ ⦃env : Env⦄ (fine : IsQuiet env) (files : Dict Text) where
  abbrev pub Runs {ℓ} : {A : Type ℓ} → (A → Type 0) → Action A → Type 0
  Runs P m = Proceeds P (IsFit files) m

  abbrev pub Any {ℓ} : {A : Type ℓ} → A → Type 0
  Any a = Unit {0}

  pub count_call-IsFit : (w : World) → IsFit files w → IsFit files (count_call w)
  count_call-IsFit w h = record { same_files = h.same_files; entries = h.entries }

  pub log-Runs :
      (logger : Option Text) (level message : Text) (about : Dict Text)
      → Runs Any (log logger level message about)
  log-Runs none level message about = record { good = λ w h. (tt, h) }
  log-Runs (some service) level message about = record {
    good = λ w h. (tt, record { same_files = h.same_files; entries = h.entries });
  }

  pub get_index_hash-Runs : (path : Text) → Named path → Runs Any (get_index_hash open_db path)
  unfolding get_index_hash guarded
  get_index_hash-Runs path name = rw name (
      wrap-Proceeds Any (IsFit files) (codes "sqlite: get index hash: ") _
        (query-Proceeds fine (IsFit files) count_call-IsFit Any _ (λ w h. tt)))

  write-IsFit :
      (row : IndexEntry) (w : World)
      → Named row.path
      → IsFit files w
      → IsFit files (change_db (write_index_entry row) w)
  unfolding write_index_entry
  write-IsFit row w name h = record {
    same_files = h.same_files;
    entries =
        upsert-All entry_path HasName row _ w.db.index_entries name (λ r old same. old) h.entries;
  }

  pub upsert_index_entry-Runs :
      (path content tokens hash : Text)
      → Named path
      → Runs Any (upsert_index_entry open_db path content tokens hash)
  unfolding upsert_index_entry guarded
  upsert_index_entry-Runs path content tokens hash name =
      let row : Text → IndexEntry = λ now. record {
        path = path;
        content = content;
        tokens = tokens;
        content_hash = hash;
        updated_at = now;
      } in
      rw name (
        bind-Proceeds Any Any (IsFit files) timestamp
          (λ now.
            wrap (codes "sqlite: upsert index entry: ")
              (perform (change_db (write_index_entry (row now)))))
          (timestamp-Proceeds fine (IsFit files) count_call-IsFit)
          λ now _. wrap-Proceeds Any (IsFit files) (codes "sqlite: upsert index entry: ") _ (
            perform-Proceeds fine (IsFit files) count_call-IsFit
              (change_db (write_index_entry (row now))) λ w h. write-IsFit (row now) w name h))

  pub delete_index_entry-Runs :
      (path : Text) → Named path → Runs Any (delete_index_entry open_db path)
  unfolding delete_index_entry guarded
  delete_index_entry-Runs path name = rw name (
      wrap-Proceeds Any (IsFit files) (codes "sqlite: delete index entry: ") _ (
        perform-Proceeds fine (IsFit files) count_call-IsFit (change_db (drop_index_entry path))
          λ w h. record {
            same_files = h.same_files;
            entries = delete-All entry_path HasName path w.db.index_entries h.entries;
          }))

  pub nothing-Runs : Runs Any (perform (λ w. w))
  nothing-Runs = perform-Proceeds fine (IsFit files) count_call-IsFit (λ w. w) (λ w h. h)

  names : (es : List IndexEntry) → All HasName es → All Named (map (λ e. e.path) es)
  names [] h = tt
  names (e ∷ es) (first, h) = (first, names es h)

  pub list_index_paths-Runs : Runs (All Named) (list_index_paths open_db)
  unfolding list_index_paths
  list_index_paths-Runs =
      wrap-Proceeds (All Named) (IsFit files) (codes "sqlite: list index paths: ") _ (
        query-Proceeds fine (IsFit files) count_call-IsFit (All Named)
          (λ w. map (λ e. e.path) w.db.index_entries) (λ w h. names w.db.index_entries h.entries))
