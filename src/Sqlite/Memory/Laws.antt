-- ===== src/Sqlite/Memory/Laws.antt =====
-- The memory table is a map from keys to entries that remembers when a key was first written.
use mouse.Prelude.{◌≡◌}
use mouse.Host.{Env, World}
use mouse.Host.Rows.{MemoryEntry, Tables}
use mathlib.Core.Path.{subst}
use mouse.Prelude.{
  Text, Option, none, some, if◌then◌else◌, text_eq, ◌∙◌, ◌+◌, arith, Bool-cases, Option-cases, inl,
  inr, false, ok, ap,
}
use mouse.Host.Action.{quiet, IsQuiet, IsQuiet-quiet}
use mouse.Strings.{is_blank}
use mouse.Sqlite.Base.{Db, nil_db, open_db}
use mouse.Sqlite.Keyed.{find, UniqueKeys, find-upsert, upsert-UniqueKeys, delete-UniqueKeys}
use mouse.Sqlite.Memory.{write_memory, upsert_memory, get_memory, delete_memory}

abbrev pub memory_key : MemoryEntry → Text
memory_key m = m.key

-- What `UpsertMemory` leaves for its key, by what was there.
abbrev pub written : Text → Text → Text → Option MemoryEntry → MemoryEntry
written k content now none = record {
  key = k;
  content = content;
  created_at = now;
  updated_at = now;
}
written k content now (some m) = record m { content = content; updated_at = now }

find-write :
    (k j content now : Text) (t : Tables)
    → find memory_key j (write_memory k content now t).memory ≡ (
        if text_eq k j
        then some (written k content now (find memory_key k t.memory))
        else find memory_key j t.memory)
unfolding write_memory
find-write k j content now t =
    find-upsert memory_key (written k content now none) (λ m. written k content now (some m))
      (λ m h. h) j t.memory
    ∙ ground (arith)

write_memory-UniqueKeys :
    (k content now : Text) (t : Tables)
    → UniqueKeys memory_key t.memory
    → UniqueKeys memory_key (write_memory k content now t).memory
unfolding write_memory
write_memory-UniqueKeys k content now t u =
    upsert-UniqueKeys memory_key (written k content now none) (λ m. written k content now (some m))
      (λ m h. h) t.memory u

-- If no key of the memory has two entries, none has after an upsert, however the statement ends.
pub upsert_memory-UniqueKeys :
    ⦃env : Env⦄ (d : Db) (k content : Text) (w : World)
    → UniqueKeys memory_key w.db.memory
    → UniqueKeys memory_key (upsert_memory d k content w).1.db.memory
unfolding upsert_memory
upsert_memory-UniqueKeys nil_db k content w u = u
upsert_memory-UniqueKeys ⦃env⦄ open_db k content w u = elim (Bool-cases (is_blank k)) [
  | inl blank ↦ rw blank u
  | inr named ↦ elim (Option-cases (env.fault (w.calls + 1))) [
    | inl fine ↦ rw (named, fine) (write_memory-UniqueKeys k content _ w.db u)
    | inr (e, failed) ↦ rw (named, failed) u
  ]
]

pub delete_memory-UniqueKeys :
    ⦃env : Env⦄ (d : Db) (k : Text) (w : World)
    → UniqueKeys memory_key w.db.memory
    → UniqueKeys memory_key (delete_memory d k w).1.db.memory
unfolding delete_memory
delete_memory-UniqueKeys nil_db k w u = u
delete_memory-UniqueKeys ⦃env⦄ open_db k w u = elim (Bool-cases (is_blank k)) [
  | inl blank ↦ rw blank u
  | inr named ↦ elim (Option-cases (env.fault w.calls)) [
    | inl fine ↦ rw (named, fine) (delete-UniqueKeys memory_key k w.db.memory u)
    | inr (e, failed) ↦ rw (named, failed) u
  ]
]

get-upsert_quiet :
    (env : Env) (k j content : Text) (w : World)
    → is_blank k ≡ false
    → is_blank j ≡ false
    → (get_memory ⦃env = quiet env⦄ open_db j
        (upsert_memory ⦃env = quiet env⦄ open_db k content w).1).0
      ≡ ok (
          if text_eq k j
          then some (
              written k content (env.format_time (env.now w.calls)) (find memory_key k w.db.memory))
          else find memory_key j w.db.memory)
unfolding upsert_memory get_memory
get-upsert_quiet env k j content w bk bj =
    rw (bk, bj) (ap ok (find-write k j content (env.format_time (env.now w.calls)) w.db))

-- With no failing call and two keys that are not blank: after an upsert its key has the new
-- content, and keeps the time of its first write; every other key has what it had.
pub get-upsert :
    (env : Env) (k j content : Text) (w : World)
    → IsQuiet env
    → is_blank k ≡ false
    → is_blank j ≡ false
    → (get_memory ⦃env = env⦄ open_db j (upsert_memory ⦃env = env⦄ open_db k content w).1).0
      ≡ ok (
          if text_eq k j
          then some (
              written k content (env.format_time (env.now w.calls)) (find memory_key k w.db.memory))
          else find memory_key j w.db.memory)
get-upsert env k j content w q bk bj =
    subst
      (λ (e : Env).
        (get_memory ⦃env = e⦄ open_db j (upsert_memory ⦃env = e⦄ open_db k content w).1).0
        ≡ ok (
            if text_eq k j
            then some (
                written k content (env.format_time (env.now w.calls))
                  (find memory_key k w.db.memory))
            else find memory_key j w.db.memory))
      (IsQuiet-quiet env q) (get-upsert_quiet env k j content w bk bj)
