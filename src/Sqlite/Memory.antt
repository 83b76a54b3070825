-- ===== src/Sqlite/Memory.antt =====
-- internal/sqlite/sqlite.go: the table memory_entries.
pub mod Laws
use mouse.Prelude.{
  ℕ, ◌+◌, Bool, true, false, ◌||◌, ◌&&◌, Option, none, some, List, [], ◌∷◌, ◌++◌, map, Text, codes,
  text_eq, ltb, ◌==◌, if◌then◌else◌, filter, take,
}
use mouse.Prelude.Int.{ℤ, pos, negsuc}
use mouse.Prelude.Sort.{sort_by}
use mouse.Strings.{Unicode, to_lower, is_blank}
use mouse.Host.{Env, World}
use mouse.Host.Rows.{SessionMessage, MemoryEntry, CronRow, IndexEntry, Tables}
use mouse.Host.Action.{
  Action, pure, fail, wrap, ◌>>=◌, ◌>>◌, perform, query, update, timestamp, count_call,
}
use mouse.Sqlite.Base.{Db, nil_db, open_db, change_db, or_default, text_ltb, guarded}
use mouse.Sqlite.Keyed.{find, upsert, delete}

-- UpsertMemory: ON CONFLICT(key) DO UPDATE keeps created_at
unfoldable pub write_memory : Text → Text → Text → Tables → Tables
unfolding upsert
write_memory k text now t = record t {
  memory =
      upsert (λ m. m.key) (record { key = k; content = text; created_at = now; updated_at = now })
        (λ m. record m { content = text; updated_at = now }) t.memory;
}

-- ORDER BY updated_at DESC, on the stored text
abbrev pub later_memory : MemoryEntry → MemoryEntry → Bool
later_memory a b = text_ltb b.updated_at a.updated_at

unfoldable pub select_memory : ℕ → Tables → List MemoryEntry
unfolding text_ltb sort_by
select_memory limit t = take limit (sort_by later_memory t.memory)

module _ ⦃env : Env⦄ where
  -- `UpsertMemory`
  unfoldable pub upsert_memory : Db → Text → Text → Action (Unit {0})
  unfolding guarded write_memory
  upsert_memory d key content = guarded d key (codes "sqlite: memory key is required") do
    now ← timestamp
    wrap (codes "sqlite: upsert memory: ") (perform (change_db (write_memory key content now)))

  -- `GetMemory`: `none` is the nil entry that a missing key gives
  unfoldable pub get_memory : Db → Text → Action (Option MemoryEntry)
  unfolding guarded find
  get_memory d key =
      guarded d key (codes "sqlite: memory key is required")
        (wrap (codes "sqlite: get memory: ") (query (λ w. find (λ m. m.key) key w.db.memory)))

  -- `ListMemory`
  unfoldable pub list_memory : Db → ℤ → Action (List MemoryEntry)
  unfolding or_default select_memory
  list_memory nil_db limit = fail (codes "sqlite: db not initialized")
  list_memory open_db limit =
      wrap (codes "sqlite: list memory: ") (query (λ w. select_memory (or_default 100 limit) w.db))

  -- `DeleteMemory`
  unfoldable pub delete_memory : Db → Text → Action (Unit {0})
  unfolding guarded delete
  delete_memory d key = guarded d key (codes "sqlite: memory key is required") (
      wrap (codes "sqlite: delete memory: ")
        (perform (change_db (λ t. record t { memory = delete (λ m. m.key) key t.memory }))))
