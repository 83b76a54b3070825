-- ===== src/Sqlite/Messages.antt =====
-- internal/sqlite/sqlite.go: the table session_messages.
pub mod Order
pub mod Laws
use mouse.Prelude.{
  ℕ, ◌+◌, Bool, true, false, ◌||◌, ◌&&◌, Option, none, some, List, [], ◌∷◌, ◌++◌, map, Text, codes,
  text_eq, ltb, ◌==◌, if◌then◌else◌, filter, take,
}
use mouse.Prelude.Int.{ℤ, pos, negsuc}
use mouse.Prelude.Sort.{sort_by}
use mouse.Strings.{Unicode, to_lower, is_blank}
use mouse.Host.{Env, World}
use mouse.Host.Rows.{SessionMessage, MemoryEntry, CronRow, IndexEntry, Tables}
use mouse.Host.Action.{
  Action, pure, fail, wrap, ◌>>=◌, ◌>>◌, perform, query, update, timestamp, count_call,
}
use mouse.Sqlite.Base.{Db, nil_db, open_db, change_db, or_default, text_ltb, guarded}

-- `ListSessionMessages`: ORDER BY id DESC
abbrev pub newer : SessionMessage → SessionMessage → Bool
newer a b = ltb b.id a.id

abbrev pub of_session : Text → SessionMessage → Bool
of_session session_id m = text_eq m.session_id session_id

-- INSERT INTO session_messages
unfoldable pub insert_message : Text → Text → Text → Text → Tables → Tables
insert_message session_id role content created_at t = record t {
  messages =
      t.messages
      ++ (record {
        id = t.next_id;
        session_id = session_id;
        role = role;
        content = content;
        created_at = created_at;
      }
          ∷ []);
  next_id = t.next_id + 1;
}

unfoldable pub select_messages : Text → ℕ → Tables → List SessionMessage
unfolding text_eq sort_by
select_messages session_id limit t =
    take limit (sort_by newer (filter (of_session session_id) t.messages))

unfoldable pub delete_messages : Text → Tables → Tables
unfolding text_eq
delete_messages session_id t = record t {
  messages = filter (λ m. if of_session session_id m then false else true) t.messages;
}

abbrev pub or_user : Text → Text
or_user role = if is_blank role then codes "user" else role

module _ ⦃u : Unicode⦄ ⦃env : Env⦄ where
  -- `AppendSessionMessage`
  unfoldable pub append_session_message : Db → Text → Text → Text → Action ℕ
  unfolding guarded insert_message
  append_session_message d session_id role content =
      guarded d session_id (codes "sqlite: session id is required") do
        stamp ← timestamp
        wrap (codes "sqlite: insert session message: ") (
            update (λ w. w.db.next_id)
              (change_db (insert_message session_id (to_lower (or_user role)) content stamp)))

module _ ⦃env : Env⦄ where
  -- `ListSessionMessages`
  unfoldable pub list_session_messages : Db → Text → ℤ → Action (List SessionMessage)
  unfolding or_default select_messages
  list_session_messages nil_db session_id limit = fail (codes "sqlite: db not initialized")
  list_session_messages open_db session_id limit =
      wrap (codes "sqlite: list session messages: ")
        (query (λ w. select_messages session_id (or_default 100 limit) w.db))

  -- `DeleteSession`
  unfoldable pub delete_session : Db → Text → Action (Unit {0})
  unfolding guarded delete_messages
  delete_session d session_id =
      guarded d session_id (codes "sqlite: session id is required")
        (wrap (codes "sqlite: delete session: ") (perform (change_db (delete_messages session_id))))
