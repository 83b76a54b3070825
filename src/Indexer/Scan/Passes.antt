-- ===== src/Indexer/Scan/Passes.antt =====
-- A scan goes through when no call of the system or of the SQL engine fails.
use mouse.Host.{Env, World}
use mouse.Host.Action.{query, IsQuiet}
use mouse.Host.Proceeds.{
  Good, bind-Proceeds, if-Proceeds, pure-Proceeds, query-Proceeds, wrap-Proceeds, Proceeds,
}
use mouse.Indexer.Scan.{
  found_file, index_file, is_markdown, read_file, remove_missing, remove_path, remove_paths,
  scan_once, scan_root, scan_roots, store_entry, visit, walk, walked, Hashing, Indexer,
}
use mouse.Indexer.Scan.Files.{is_seen, is_seen-walked}
use mouse.Indexer.Tokens.{tokenize}
use mouse.Prelude.{
  Result, text_eq_refl, is_none, any, arith, codes, err, false, if◌then◌else◌, is_empty, none, ok,
  refl, some, sym, text_eq, true, [], ◌++◌, ◌∷◌, ◌≡◌, ◌∙◌, All, List, Option, Text,
}
use mouse.Prelude.Dict.{has, lookup, Dict}
use mouse.Sqlite.Base.{open_db}
use mouse.Sqlite.Index.{get_index_hash, list_index_paths}
use mouse.Strings.{join, trim_space, Unicode}
use mathlib.Core.Path.{subst}
use mouse.Indexer.Scan.Fit.{
  delete_index_entry-Runs, count_call-IsFit, get_index_hash-Runs, list_index_paths-Runs, log-Runs,
  nothing-Runs, upsert_index_entry-Runs, AllNamed, HasName, IsFit, Named,
}

abbrev Any {ℓ} : {A : Type ℓ} → A → Type 0
Any a = Unit {0}

module _ ⦃u : Unicode⦄ ⦃env : Env⦄ ⦃sha : Hashing⦄ (fine : IsQuiet env) (files : Dict Text)
    (named : AllNamed files) (i : Indexer) (opened : i.db ≡ open_db) where
  store_entry-Runs :
      (path content prev_hash : Text)
      → Named path
      → Proceeds Any (IsFit files) (store_entry i path content prev_hash)
  unfolding store_entry
  store_entry-Runs path content prev_hash name = rw opened (
      if-Proceeds Any (IsFit files) (text_eq prev_hash (sha.hash_content content)) _ _
        (λ same. pure-Proceeds Any (IsFit files) tt tt)
        (λ other.
          bind-Proceeds Any Any (IsFit files) _ _
            (upsert_index_entry-Runs fine files path content (join (codes " ") (tokenize content))
              (sha.hash_content content) name)
            λ _ _. log-Runs fine files i.logger _ _ _))

  found_file-Runs :
      (found : Option Text)
      → (is_none found ≡ false)
      → Proceeds Any (IsFit files) (found_file found)
  unfolding found_file
  found_file-Runs none h = ground arith
  found_file-Runs (some content) h = pure-Proceeds Any (IsFit files) content tt

  has_file :
      (path : Text) (w : World)
      → has path files ≡ true
      → IsFit files w
      → is_none (lookup path w.files) ≡ false
  has_file path w there h = rw h.same_files (ground arith)

  read_file-Runs :
      (path : Text) → has path files ≡ true → Proceeds Any (IsFit files) (read_file path)
  unfolding read_file
  read_file-Runs path there =
      bind-Proceeds (λ found. is_none found ≡ false) Any (IsFit files)
        (query (λ w. lookup path w.files)) found_file
        (query-Proceeds fine (IsFit files) (count_call-IsFit fine files)
          (λ found. is_none found ≡ false) (λ w. lookup path w.files)
          (λ w h. has_file path w there h))
        found_file-Runs

  index_file-Runs :
      (path : Text) → has path files ≡ true → Proceeds Any (IsFit files) (index_file i path)
  unfolding index_file
  index_file-Runs path there =
      bind-Proceeds Any Any (IsFit files) _ _
        (wrap-Proceeds Any (IsFit files) (codes "indexer: read " ++ (path ++ codes ": "))
          (read_file path) (read_file-Runs path there))
        λ content _.
          bind-Proceeds Any Any (IsFit files) (get_index_hash i.db path)
            (store_entry i path content)
            (rw opened (get_index_hash-Runs fine files path (named path there)))
            λ prev_hash _. store_entry-Runs path content prev_hash (named path there)

  visit-Runs : (path : Text) → has path files ≡ true → Proceeds Any (IsFit files) (visit i path)
  unfolding visit
  visit-Runs path there =
      if-Proceeds Any (IsFit files) (is_markdown path) _ _ (λ yes. index_file-Runs path there)
        (λ no. pure-Proceeds Any (IsFit files) tt tt)

  walk-Runs :
      (paths seen : List Text)
      → All (λ path. has path files ≡ true) paths
      → Proceeds Any (IsFit files) (walk i seen paths)
  unfolding walk
  walk-Runs [] seen there =
      bind-Proceeds Any Any (IsFit files) _ _ (nothing-Runs fine files)
        λ _ _. pure-Proceeds Any (IsFit files) seen tt
  walk-Runs (path ∷ paths) seen (first, there) =
      bind-Proceeds Any Any (IsFit files) _ _ (nothing-Runs fine files) λ _ _.
        bind-Proceeds Any Any (IsFit files) (visit i path)
          (λ _. walk i (if is_markdown path then path ∷ seen else seen) paths)
          (visit-Runs path first) λ _ _. walk-Runs paths _ there

  is_seen-All {κ} :
      (P : Text → Type κ) (paths : List Text)
      → ((q : Text) → is_seen q paths ≡ true → P q)
      → All P paths
  is_seen-All P [] h = tt
  is_seen-All P (path ∷ paths) h =
      (h path (rw (text_eq_refl path) refl), is_seen-All P paths (λ q seen. h q (ground arith)))

  walked_there : (root : Text) → All (λ path. has path files ≡ true) (walked root files)
  walked_there root =
      is_seen-All _ (walked root files)
        (λ q seen. let there = sym (is_seen-walked root q files) ∙ seen in ground arith)

  scan_root-Runs :
      (seen : List Text) (watched : Text) → Proceeds Any (IsFit files) (scan_root i seen watched)
  unfolding scan_root
  scan_root-Runs seen watched =
      if-Proceeds Any (IsFit files) (text_eq (trim_space watched) []) _ _
        (λ blank. pure-Proceeds Any (IsFit files) seen tt)
        (λ given.
          wrap-Proceeds Any (IsFit files)
            (codes "indexer: walk " ++ (trim_space watched ++ codes ": ")) _
            (record {
              good = λ w h.
                  subst
                    (λ there.
                      Good Any (IsFit files) (walk i seen (walked (trim_space watched) there) w))
                    (sym h.same_files)
                    ((walk-Runs (walked (trim_space watched) files) seen
                        (walked_there (trim_space watched))).good
                      w h);
            }))

  scan_roots-Runs : (seen roots : List Text) → Proceeds Any (IsFit files) (scan_roots i seen roots)
  unfolding scan_roots
  scan_roots-Runs seen [] = pure-Proceeds Any (IsFit files) seen tt
  scan_roots-Runs seen (root ∷ roots) =
      bind-Proceeds Any Any (IsFit files) (scan_root i seen root)
        (λ seen'. scan_roots i seen' roots) (scan_root-Runs seen root)
        λ seen' _. scan_roots-Runs seen' roots

  remove_paths-Runs :
      (seen paths : List Text)
      → All Named paths
      → Proceeds Any (IsFit files) (remove_paths i seen paths)
  unfolding remove_paths remove_path
  remove_paths-Runs seen [] h = pure-Proceeds Any (IsFit files) tt tt
  remove_paths-Runs seen (path ∷ paths) (name, h) =
      bind-Proceeds Any Any (IsFit files) (remove_path i seen path) (λ _. remove_paths i seen paths)
        (if-Proceeds Any (IsFit files) (any (text_eq path) seen) _ _
          (λ found. pure-Proceeds Any (IsFit files) tt tt)
          (λ gone. rw opened (
            bind-Proceeds Any Any (IsFit files) _ _ (delete_index_entry-Runs fine files path name)
              λ _ _. log-Runs fine files i.logger _ _ _)))
        λ _ _. remove_paths-Runs seen paths h

  remove_missing-Runs : (seen : List Text) → Proceeds Any (IsFit files) (remove_missing i seen)
  unfolding remove_missing
  remove_missing-Runs seen =
      bind-Proceeds (All Named) Any (IsFit files) (list_index_paths i.db) (remove_paths i seen)
        (rw opened (list_index_paths-Runs fine files)) λ paths h. remove_paths-Runs seen paths h

  scan-Runs : Proceeds Any (IsFit files) (scan_once (some i))
  unfolding scan_once
  scan-Runs =
      if-Proceeds Any (IsFit files) (is_empty i.watch) _ _
        (λ nothing. pure-Proceeds Any (IsFit files) tt tt)
        (λ watched.
          bind-Proceeds Any Any (IsFit files) (scan_roots i [] i.watch) (remove_missing i)
            (scan_roots-Runs [] i.watch) λ seen _. remove_missing-Runs seen)

module _ ⦃u : Unicode⦄ ⦃env : Env⦄ ⦃sha : Hashing⦄ where
  Good-ok :
      (files : Dict Text) (r : Result (Unit {0})) (w : World)
      → Good (λ _. Unit {0}) (IsFit files) (r, w)
      → r ≡ ok tt
  Good-ok files (ok tt) w h = refl
  Good-ok files (err e) w h = absurd h

  -- If no call of the system or of the SQL engine fails, the database is open, and no file and no
  -- entry of the index has a blank path, then a scan goes through.
  pub scan_once_passes :
      (i : Indexer) (w : World)
      → IsQuiet env
      → i.db ≡ open_db
      → AllNamed w.files
      → All HasName w.db.index_entries
      → (scan_once (some i) w).0 ≡ ok tt
  scan_once_passes i w fine opened named entries =
      Good-ok w.files (scan_once (some i) w).0 (scan_once (some i) w).1 (
        (scan-Runs fine w.files named i opened).good w
          (record { same_files = refl; entries = entries }))
