-- ===== src/Indexer/Scan.antt =====
-- internal/indexer/indexer.go: `ScanOnce` and what it calls.
pub mod Entries
pub mod Statements
pub mod Indexing
pub mod Files
pub mod Mirror
pub mod Sound
pub mod Removal
pub mod Walks
pub mod Kept
pub mod Fit
pub mod Passes
use mouse.Indexer.Tokens.{tokenize}
use mouse.Sqlite.Index.{upsert_index_entry, get_index_hash, list_index_paths, delete_index_entry}
use mouse.Strings.{trim_prefix, trim_space, to_lower, join, Unicode, has_prefix}
use mouse.Prelude.Sort.{sort_by}
use mouse.Prelude.{
  is_empty, ◌&&◌, none, not, some, ok, ◌++◌, codes, err, [], any, filter, Result, ◌==◌, ◌||◌, all,
  reverse, Option, text_eq, if◌then◌else◌, Bool, map, ◌∷◌, List, Text,
}
use mouse.Strings.Paths.{not_slash, clean}
use mouse.Sqlite.Base.{open_db, nil_db, Db, text_ltb}
use mouse.Host.{Env}
use mouse.Prelude.Dict.{lookup, Dict}
use mouse.Host.Action.{log, wrap, query, perform, pure, fail, ◌>>=◌, ◌>>◌, Action}

-- `hashContent`: SHA-256 in hexadecimal is not part of the program
pub record Hashing : Type 0 where
  pub hash_content : Text → Text

-- `Indexer`, without its ticker
pub record Indexer : Type 0 where
  pub watch : List Text
  pub db : Db
  pub logger : Option Text

-- `New`
unfoldable pub new : List Text → Db → Option Text → Result Indexer
new watch nil_db logger = err (codes "indexer: db is required")
new watch open_db logger = ok (record { watch = watch; db = open_db; logger = logger })

-- The name of the entry at the end of a path.
unfoldable pub entry_name : Text → Text
entry_name [] = []
entry_name (c ∷ s) = let rest = entry_name s in if all not_slash (c ∷ s) then c ∷ s else rest

-- `strings.HasSuffix(strings.ToLower(entry.Name()), ".md")`
unfoldable pub is_markdown : ⦃u : Unicode⦄ → Text → Bool
unfolding entry_name has_prefix
is_markdown path = has_prefix (reverse (to_lower (entry_name path))) (codes "dm.")

-- The files that `filepath.WalkDir` finds below a root: the root itself if it is a file, and those
-- in the directory. Paths in it are joined to the cleaned root, and do not leave it again.
unfoldable pub is_below : Text → Text → Bool
unfolding has_prefix clean text_eq
is_below root path =
    let dir = clean root in
    text_eq path root
    || (if text_eq dir (codes ".")
        then not (has_prefix path (codes "/")) && not (has_prefix path (codes "../"))
        else (let front = if text_eq dir (codes "/") then dir else dir ++ codes "/" in
            has_prefix path front && not (has_prefix (trim_prefix path front) (codes "../"))))

-- The order of the walk: by name in each directory, and the slash comes before every character.
abbrev walk_key : Text → Text
walk_key path = map (λ c. if c == b'/' then 0 else c) path

abbrev pub walk_before : Text → Text → Bool
walk_before a b = text_ltb (walk_key a) (walk_key b)

unfoldable pub walked : Text → Dict Text → List Text
unfolding is_below sort_by text_ltb
walked root files = sort_by walk_before (filter (is_below root) (map (λ f. f.0) files))

module _ ⦃u : Unicode⦄ ⦃env : Env⦄ ⦃sha : Hashing⦄ where
  -- `indexFile` behind the reading of the file and of the stored hash.
  store_entry : Indexer → Text → Text → Text → Action (Unit {0})
  unfolding tokenize join text_eq
  store_entry i path content prev_hash =
      if text_eq prev_hash (sha.hash_content content) then pure tt else (do
        upsert_index_entry i.db path content (join (codes " ") (tokenize content))
            (sha.hash_content content)
        log i.logger (codes "info") (codes "indexed file") ((codes "path", path) ∷ []))

  found_file : Option Text → Action Text
  found_file none = fail []
  found_file (some content) = pure content

  -- `os.ReadFile`; a path that names no file is an error whose text is left out
  pub read_file : Text → Action Text
  unfolding lookup found_file
  read_file path = do found ← query (λ w. lookup path w.files); found_file found

  -- `indexFile`
  unfoldable pub index_file : Indexer → Text → Action (Unit {0})
  unfolding read_file store_entry
  index_file i path = do
    content ← wrap (codes "indexer: read " ++ (path ++ codes ": ")) (read_file path)
    prev_hash ← get_index_hash i.db path
    store_entry i path content prev_hash

  -- The callback of `WalkDir` on a file.
  visit : Indexer → Text → Action (Unit {0})
  unfolding index_file is_markdown
  visit i path = if is_markdown path then index_file i path else pure tt

  -- `WalkDir`, over the files it finds; its reading of the directories may fail between any two of
  -- them, which ends the walk. What comes back is `seen`.
  walk : Indexer → List Text → List Text → Action (List Text)
  unfolding visit
  walk i seen [] = do perform (λ w. w); pure seen
  walk i seen (path ∷ paths) = do
    perform (λ w. w)
    visit i path
    walk i (if is_markdown path then path ∷ seen else seen) paths

  -- One round of the loop over the watched paths.
  scan_root : Indexer → List Text → Text → Action (List Text)
  unfolding walk walked
  scan_root i seen watched =
      let root = trim_space watched in
      if text_eq root []
      then pure seen
      else wrap (codes "indexer: walk " ++ (root ++ codes ": "))
          (λ w. walk i seen (walked root w.files) w)

  pub scan_roots : Indexer → List Text → List Text → Action (List Text)
  unfolding scan_root
  scan_roots i seen [] = pure seen
  scan_roots i seen (root ∷ roots) = do seen' ← scan_root i seen root; scan_roots i seen' roots

  -- One round of the loop of `removeMissing`.
  remove_path : Indexer → List Text → Text → Action (Unit {0})
  unfolding text_eq
  remove_path i seen path = if any (text_eq path) seen then pure tt else (do
    delete_index_entry i.db path
    log i.logger (codes "info") (codes "removed index entry") ((codes "path", path) ∷ []))

  remove_paths : Indexer → List Text → List Text → Action (Unit {0})
  unfolding remove_path
  remove_paths i seen [] = pure tt
  remove_paths i seen (path ∷ paths) = do remove_path i seen path; remove_paths i seen paths

  -- `removeMissing`
  pub remove_missing : Indexer → List Text → Action (Unit {0})
  unfolding remove_paths
  remove_missing i seen = do paths ← list_index_paths i.db; remove_paths i seen paths

  -- `ScanOnce`; `none` is a nil indexer
  unfoldable pub scan_once : Option Indexer → Action (Unit {0})
  unfolding scan_roots remove_missing
  scan_once none = fail (codes "indexer: nil")
  scan_once (some i) =
      if is_empty i.watch
      then pure tt
      else (do seen ← scan_roots i [] i.watch; remove_missing i seen)
