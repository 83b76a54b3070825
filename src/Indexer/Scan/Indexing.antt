-- ===== src/Indexer/Scan/Indexing.antt =====
-- Indexing one file.
use mouse.Indexer.Scan.Entries.{
  entry_path, find_entry, IsIndexed, IsIndexed-from, IsIndexed-then, IsIndexed-same, HasDigits,
}
use mouse.Indexer.Scan.{Indexer, Hashing, index_file, read_file, store_entry}
use mouse.Sqlite.Index.{upsert_index_entry, get_index_hash, write_index_entry}
use mouse.Prelude.{
  ◌++◌, codes, text_eq_refl, text_eq_iff, text_eq_ne, sym, refl, inl, Bool-cases, arith, inr,
  text_eq, err, ap, true, none, ok, ◌∙◌, some, Result, ◌≡◌, Option, Text,
}
use mouse.Host.{World, Env}
use mouse.Host.Rows.{Tables, IndexEntry}
use mouse.Sqlite.Base.{Db}
use mouse.Sqlite.Keyed.{find}
use mouse.Prelude.Dict.{Dict, lookup}
use mouse.Strings.{join, Unicode}
use mouse.Telegram.Sender.Retry.{succeeds}
use mouse.Host.Action.{◌>>=◌, wrapped, continue, log}
use mouse.Indexer.Tokens.{tokenize}
use mouse.Indexer.Scan.Statements.{
  merged_hash, merged_entry, get_index_hash_lem, upsert_cases, find-write_index_entry, AsHash,
  hash_of, AsRead,
}

module _ ⦃u : Unicode⦄ ⦃env : Env⦄ ⦃sha : Hashing⦄ where
  pub read_file_lem :
      (path : Text) (w : World)
      → let (r, w') = read_file path w in (w'.files ≡ w.files) × (w'.db ≡ w.db) × AsRead path w r
  unfolding read_file
  read_file_lem path w = ground arith

  log_frame :
      (logger : Option Text) (level message : Text) (about : Dict Text) (w : World)
      → let (r, w') = log logger level message about w in
        (r ≡ ok tt) × (w'.files ≡ w.files) × (w'.db ≡ w.db)
  log_frame none level message about w = (refl, refl, refl)
  log_frame (some service) level message about w = (refl, refl, refl)

  -- The stored hash is the hash of the text: the path has an entry, for no hash is empty.
  unchanged :
      (path content : Text) (o : Option IndexEntry) (w : World)
      → HasDigits sha
      → lookup path w.files ≡ some content
      → find_entry path w ≡ o
      → hash_of o ≡ sha.hash_content content
      → IsIndexed path w w true
  unchanged path content none w digits there e h = absurd (digits content (sym h))
  unchanged path content (some i) w digits there e h = record {
    files = refl;
    others = λ q ne. refl;
    outcome = record { content = content; stored = i; is_file = there; is_entry = e; hashed = h };
  }

  written :
      (path content : Text) (e : IndexEntry) (a b : World)
      → lookup path a.files ≡ some content
      → e.path ≡ path
      → e.content_hash ≡ sha.hash_content content
      → b.files ≡ a.files
      → b.db ≡ write_index_entry e a.db
      → IsIndexed path a b true
  written path content e a b there named hashed files same =
      let at = λ (q : Text).
        ap (λ (t : Tables). find entry_path q t.index_entries) same
        ∙ find-write_index_entry e q a.db in
      record {
        files = files;
        others = λ q ne. at q ∙ rw (named, text_eq_ne path q ne) refl;
        outcome = record {
          content = content;
          stored = merged_entry e (find entry_path e.path a.db.index_entries);
          is_file = ap (lookup path) files ∙ there;
          is_entry = at path ∙ rw (named, text_eq_refl path) refl;
          hashed = merged_hash e _ ∙ hashed;
        };
      }

  upsert_lem :
      (d : Db) (path content tokens : Text) (w : World)
      → lookup path w.files ≡ some content
      → let (r, w') = upsert_index_entry d path content tokens (sha.hash_content content) w in
        IsIndexed path w w' (succeeds r)
  upsert_lem d path content tokens w there =
      let (files, how) = upsert_cases d path content tokens (sha.hash_content content) w in
      elim how [
        | inl (done, (e, named, _, _, hashed, same)) ↦
            rw done (written path content e w _ there named hashed files same)
        | inr (x, failed, same) ↦ rw failed (IsIndexed-same path w _ files same)
      ]

  and_log :
      (path : Text) (logger : Option Text) (message : Text) (about : Dict Text)
      (r : Result (Unit {0})) (w w₁ : World)
      → IsIndexed path w w₁ (succeeds r)
      → let (r', w') = continue {0, 0} r (λ _. log logger (codes "info") message about) w₁ in
        IsIndexed path w w' (succeeds r')
  and_log path none message about (ok _) w w₁ x = x
  and_log path (some service) message about (ok _) w w₁ x =
      IsIndexed-then path w w₁ _ true x refl refl
  and_log path logger message about (err e) w w₁ x = x

  store_entry_lem :
      (i : Indexer) (path content prev : Text) (w : World)
      → HasDigits sha
      → lookup path w.files ≡ some content
      → prev ≡ hash_of (find_entry path w)
      → let (r, w') = store_entry i path content prev w in IsIndexed path w w' (succeeds r)
  unfolding store_entry
  store_entry_lem i path content prev w digits there h =
      elim (Bool-cases (text_eq prev (sha.hash_content content))) [
        | inl same ↦
            rw same
              (unchanged path content _ w digits there refl (sym h ∙ (text_eq_iff _ _).0 same))
        | inr changed ↦ rw changed (
            and_log path i.logger _ _ _ w _
              (upsert_lem i.db path content (join (codes " ") (tokenize content)) w there))
      ]

  after_hash :
      (i : Indexer) (path content : Text) (r : Result Text) (w w₁ : World)
      → HasDigits sha
      → lookup path w.files ≡ some content
      → w₁.files ≡ w.files
      → w₁.db ≡ w.db
      → AsHash path w r
      → let (r', w') = continue {0, 0} r (λ prev. store_entry i path content prev) w₁ in
        IsIndexed path w w' (succeeds r')
  after_hash i path content (err e) w w₁ digits there files same h =
      IsIndexed-same path w w₁ files same
  after_hash i path content (ok prev) w w₁ digits there files same h =
      IsIndexed-from path w w₁ _ _ files same (
        store_entry_lem i path content prev w₁ digits (ap (lookup path) files ∙ there)
          (h ∙ ap (λ (t : Tables). hash_of (find entry_path path t.index_entries)) (sym same)))

  after_read :
      (i : Indexer) (path prefix : Text) (r : Result Text) (w w₁ : World)
      → HasDigits sha
      → w₁.files ≡ w.files
      → w₁.db ≡ w.db
      → AsRead path w r
      → let (r', w') =
          continue {0, 0}
            (wrapped prefix r)
            (λ content. get_index_hash i.db path >>= λ prev. store_entry i path content prev)
            w₁ in
        IsIndexed path w w' (succeeds r')
  after_read i path prefix (err e) w w₁ digits files same h = IsIndexed-same path w w₁ files same
  after_read i path prefix (ok content) w w₁ digits files same h =
      let (files₂, same₂, stored) = get_index_hash_lem i.db path w₁ in
      IsIndexed-from path w w₁ _ _ files same
        (after_hash i path content _ w₁ _ digits (ap (lookup path) files ∙ h) files₂ same₂ stored)

  -- Indexing a file changes no file and no other entry; on success the file's entry carries the hash
  -- of its text, and on failure it is as it was.
  pub index_file-IsIndexed :
      (i : Indexer) (path : Text) (w : World)
      → HasDigits sha
      → let (r, w') = index_file i path w in IsIndexed path w w' (succeeds r)
  unfolding index_file
  index_file-IsIndexed i path w digits =
      let (files, same, got) = read_file_lem path w in
      after_read i path (codes "indexer: read " ++ (path ++ codes ": ")) _ w _ digits files same got
