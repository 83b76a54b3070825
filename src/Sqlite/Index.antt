-- ===== src/Sqlite/Index.antt =====
-- internal/sqlite/sqlite.go: the table index_entries.
use mouse.Prelude.{ℕ, Bool, none, some, List, [], map, Text, codes, take}
use mouse.Prelude.Int.{ℤ}
use mouse.Prelude.Sort.{sort_by}
use mouse.Host.{Env}
use mouse.Host.Rows.{IndexEntry, Tables}
use mouse.Host.Action.{Action, fail, wrap, ◌>>=◌, perform, query, timestamp}
use mouse.Sqlite.Base.{Db, nil_db, open_db, change_db, or_default, text_ltb, guarded}
use mouse.Sqlite.Keyed.{find, upsert, delete}

-- UpsertIndexEntry: ON CONFLICT(path) DO UPDATE writes every other column
unfoldable pub write_index_entry : IndexEntry → Tables → Tables
unfolding upsert
write_index_entry e t = record t {
  index_entries =
      upsert (λ i. i.path) e
        (λ i. record i {
          content = e.content;
          tokens = e.tokens;
          content_hash = e.content_hash;
          updated_at = e.updated_at;
        })
        t.index_entries;
}

abbrev pub later_entry : IndexEntry → IndexEntry → Bool
later_entry a b = text_ltb b.updated_at a.updated_at

unfoldable pub select_index_entries : ℕ → Tables → List IndexEntry
unfolding text_ltb sort_by
select_index_entries limit t = take limit (sort_by later_entry t.index_entries)

-- DELETE FROM index_entries WHERE path = ?
abbrev pub drop_index_entry : Text → Tables → Tables
drop_index_entry path t = record t { index_entries = delete (λ i. i.path) path t.index_entries }

module _ ⦃env : Env⦄ where
  -- `UpsertIndexEntry`
  unfoldable pub upsert_index_entry : Db → Text → Text → Text → Text → Action (Unit {0})
  unfolding guarded write_index_entry
  upsert_index_entry d path content tokens hash =
      guarded d path (codes "sqlite: index path is required") do
        now ← timestamp
        let row : IndexEntry = record {
          path = path;
          content = content;
          tokens = tokens;
          content_hash = hash;
          updated_at = now;
        }
        wrap (codes "sqlite: upsert index entry: ") (perform (change_db (write_index_entry row)))

  -- `GetIndexHash`: the empty text for a path that is not indexed
  unfoldable pub get_index_hash : Db → Text → Action Text
  unfolding guarded find
  get_index_hash d path = guarded d path (codes "sqlite: index path is required") (
      wrap (codes "sqlite: get index hash: ") (
        query (λ w. elim (find (λ i. i.path) path w.db.index_entries) [
          | none ↦ []
          | some i ↦ i.content_hash
        ])))

  -- `ListIndexEntries`
  unfoldable pub list_index_entries : Db → ℤ → Action (List IndexEntry)
  unfolding or_default select_index_entries
  list_index_entries nil_db limit = fail (codes "sqlite: db not initialized")
  list_index_entries open_db limit =
      wrap (codes "sqlite: list index entries: ")
        (query (λ w. select_index_entries (or_default 200 limit) w.db))

  -- `ListIndexPaths`
  unfoldable pub list_index_paths : Db → Action (List Text)
  list_index_paths nil_db = fail (codes "sqlite: db not initialized")
  list_index_paths open_db =
      wrap (codes "sqlite: list index paths: ") (query (λ w. map (λ i. i.path) w.db.index_entries))

  -- `DeleteIndexEntry`
  unfoldable pub delete_index_entry : Db → Text → Action (Unit {0})
  unfolding guarded delete
  delete_index_entry d path =
      guarded d path (codes "sqlite: index path is required")
        (wrap (codes "sqlite: delete index entry: ") (perform (change_db (drop_index_entry path))))
