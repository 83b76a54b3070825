-- ===== src/Indexer/Scan/Kept.antt =====
-- What a scan keeps.
use mouse.Effects.{timestamp-Keeps, log-Keeps, read_on-Keeps, query-Keeps, Closed}
use mouse.Host.Keeps.{writing-Keeps, Keeps, bind-Keeps, pure-Keeps, wrap-Keeps, if-Keeps}
use mouse.Host.{World, Env}
use mouse.Sqlite.Index.{
  write_index_entry, drop_index_entry, delete_index_entry, upsert_index_entry, get_index_hash,
  list_index_paths,
}
use mouse.Sqlite.Base.{change_db, open_db, nil_db, guarded, Db}
use mouse.Prelude.{
  ◌≡◌, refl, none, if◌then◌else◌, [], ◌++◌, codes, text_eq, ok, any, is_empty, ◌∷◌, List, some,
  Option, Text,
}
use mouse.Strings.{is_blank, join, trim_space, Unicode}
use mouse.Indexer.Scan.{
  walked, is_markdown, Indexer, remove_missing, store_entry, visit, found_file, remove_path,
  scan_root, scan_once, walk, index_file, scan_roots, remove_paths, read_file, Hashing,
}
use mouse.Host.Rows.{IndexEntry}
use mouse.Host.Action.{timestamp, query}
use mouse.Prelude.Dict.{lookup}
use mouse.Indexer.Tokens.{tokenize}

module _ ⦃u : Unicode⦄ ⦃sha : Hashing⦄ where
  -- An entry holds the hash and the words of its text.
  abbrev pub IsTold : IndexEntry → Type 0
  IsTold e =
      (e.content_hash ≡ sha.hash_content e.content)
      × (e.tokens ≡ join (codes " ") (tokenize e.content))

module _ {ι} {I : World → Type ι} ⦃u : Unicode⦄ ⦃env : Env⦄ ⦃sha : Hashing⦄
    (c : Closed IsTold I) where
  get_index_hash-Keeps : (d : Db) (path : Text) → Keeps I (get_index_hash d path)
  unfolding get_index_hash guarded
  get_index_hash-Keeps nil_db path = pure-Keeps _
  get_index_hash-Keeps open_db path =
      if-Keeps (is_blank path) _ _ (pure-Keeps _)
        (wrap-Keeps (codes "sqlite: get index hash: ") _ (query-Keeps c _))

  upsert_index_entry-Keeps :
      (d : Db) (path content : Text)
      → Keeps I (
          upsert_index_entry d path content
            (join (codes " ") (tokenize content))
            (sha.hash_content content))
  unfolding upsert_index_entry guarded
  upsert_index_entry-Keeps nil_db path content = pure-Keeps _
  upsert_index_entry-Keeps open_db path content = if-Keeps (is_blank path) _ _ (pure-Keeps _) (
      bind-Keeps timestamp _ (timestamp-Keeps c) λ now.
        let e : IndexEntry = record {
          path = path;
          content = content;
          tokens = join (codes " ") (tokenize content);
          content_hash = sha.hash_content content;
          updated_at = now;
        } in
        wrap-Keeps (codes "sqlite: upsert index entry: ") _ (
          writing-Keeps c.called (change_db (write_index_entry e))
            (λ w h. c.indexed w e (refl, refl) h)))

  delete_index_entry-Keeps : (d : Db) (path : Text) → Keeps I (delete_index_entry d path)
  unfolding delete_index_entry guarded
  delete_index_entry-Keeps nil_db path = pure-Keeps _
  delete_index_entry-Keeps open_db path = if-Keeps (is_blank path) _ _ (pure-Keeps _) (
      wrap-Keeps (codes "sqlite: delete index entry: ") _
        (writing-Keeps c.called (change_db (drop_index_entry path)) (λ w h. c.unindexed w path h)))

  list_index_paths-Keeps : (d : Db) → Keeps I (list_index_paths d)
  unfolding list_index_paths
  list_index_paths-Keeps nil_db = pure-Keeps _
  list_index_paths-Keeps open_db =
      wrap-Keeps (codes "sqlite: list index paths: ") _ (query-Keeps c _)

  found_file-Keeps : (found : Option Text) → Keeps I (found_file found)
  unfolding found_file
  found_file-Keeps none = pure-Keeps _
  found_file-Keeps (some content) = pure-Keeps _

  read_file-Keeps : (path : Text) → Keeps I (read_file path)
  unfolding read_file
  read_file-Keeps path =
      bind-Keeps (query (λ w. lookup path w.files)) _ (query-Keeps c _) found_file-Keeps

  index_file-Keeps : (i : Indexer) (path : Text) → Keeps I (index_file i path)
  unfolding index_file store_entry
  index_file-Keeps i path =
      bind-Keeps _ _
        (wrap-Keeps (codes "indexer: read " ++ (path ++ codes ": ")) _ (read_file-Keeps path))
        (λ content. bind-Keeps _ _ (get_index_hash-Keeps i.db path) (λ prev.
          if-Keeps (text_eq prev (sha.hash_content content)) _ _ (pure-Keeps (ok tt)) (
            bind-Keeps _ _ (upsert_index_entry-Keeps i.db path content) (λ _.
              log-Keeps c i.logger (codes "info") (codes "indexed file")
                ((codes "path", path) ∷ [])))))

  walk-Keeps : (i : Indexer) (paths seen : List Text) → Keeps I (walk i seen paths)
  unfolding walk visit
  walk-Keeps i [] seen = bind-Keeps _ _ (read_on-Keeps c) (λ _. pure-Keeps (ok seen))
  walk-Keeps i (path ∷ paths) seen = bind-Keeps _ _ (read_on-Keeps c) (λ _.
      bind-Keeps _ _
        (if-Keeps (is_markdown path) _ _ (index_file-Keeps i path) (pure-Keeps (ok tt)))
        (λ _. walk-Keeps i paths (if is_markdown path then path ∷ seen else seen)))

  scan_roots-Keeps : (i : Indexer) (roots seen : List Text) → Keeps I (scan_roots i seen roots)
  unfolding scan_roots scan_root
  scan_roots-Keeps i [] seen = pure-Keeps _
  scan_roots-Keeps i (root ∷ roots) seen =
      bind-Keeps _ _
        (if-Keeps (text_eq (trim_space root) []) _ _ (pure-Keeps (ok seen)) (
          wrap-Keeps (codes "indexer: walk " ++ (trim_space root ++ codes ": ")) _ (record {
            after = λ w h. (walk-Keeps i (walked (trim_space root) w.files) seen).after w h;
          })))
        (λ seen₂. scan_roots-Keeps i roots seen₂)

  remove_paths-Keeps : (i : Indexer) (seen paths : List Text) → Keeps I (remove_paths i seen paths)
  unfolding remove_paths remove_path
  remove_paths-Keeps i seen [] = pure-Keeps _
  remove_paths-Keeps i seen (path ∷ paths) =
      bind-Keeps _ _
        (if-Keeps (any (text_eq path) seen) _ _ (pure-Keeps (ok tt)) (
          bind-Keeps _ _ (delete_index_entry-Keeps i.db path) (λ _.
            log-Keeps c i.logger (codes "info") (codes "removed index entry")
              ((codes "path", path) ∷ []))))
        (λ _. remove_paths-Keeps i seen paths)

  pub scan-Keeps : (i : Option Indexer) → Keeps I (scan_once i)
  unfolding scan_once remove_missing
  scan-Keeps none = pure-Keeps _
  scan-Keeps (some i) = if-Keeps (is_empty i.watch) _ _ (pure-Keeps (ok tt)) (
      bind-Keeps _ _ (scan_roots-Keeps i i.watch [])
        (λ seen. bind-Keeps _ _ (list_index_paths-Keeps i.db) (remove_paths-Keeps i seen)))
