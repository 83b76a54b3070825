-- ===== src/Examples/Stores.antt =====
-- The theorems on the session files and the tables, on a small machine.
use mouse.Examples.{ascii, machine, machine-IsQuiet, world, world-IsOrdered, store}
use mouse.Sessions.{or_user, or_unknown, session_path, append}
use mouse.Sqlite.Memory.{upsert_memory, get_memory}
use mouse.Prelude.{
  refl, filter, reverse, take, some, ◌∷◌, text_eq, ◌++◌, ok, ◌≢◌, if◌then◌else◌, ◌≡◌, codes, Text,
}
use mouse.Sqlite.Messages.{of_session, append_session_message, list_session_messages}
use mouse.Sqlite.Keyed.{find}
use mouse.Sqlite.Base.{open_db}
use mouse.Sessions.Files.{append_frame, append_succeeds, append-Appended, Appended}
use mouse.Strings.Decimal.{format_int}
use mouse.Sessions.Ids.{session_path_inside, session_path_collides, IsId}
use mouse.Prelude.Int.{pos, negsuc}
use mouse.Sqlite.Messages.Laws.{list-append, stored}
use mouse.Strings.Paths.{base}
use mouse.Prelude.Dict.{lookup}
use mouse.Sqlite.Memory.Laws.{get-upsert, memory_key, written}
use mouse.Strings.{is_blank}

session_path_inside_example :
    (name : Text) × IsId name
    × (session_path (record { dir = codes "/data" }) (codes "../../etc")
        ≡ base (codes "/data") ++ (name ++ codes ".md"))
session_path_inside_example = session_path_inside b'/' (codes "data") (codes "../../etc")

session_path_collides_example :
    session_path store (format_int (negsuc 4)) ≡ session_path store (format_int (pos 5))
session_path_collides_example = session_path_collides store 4

append-Appended_example :
    (stamp : Text) × Appended
      (session_path store (or_unknown (codes "7")))
      (or_unknown (codes "7"))
      (or_user (codes "user"))
      (codes "hi")
      stamp
      world
      (append store (codes "7") (codes "user") (codes "hi") world).0
      (append store (codes "7") (codes "user") (codes "hi") world).1
append-Appended_example = append-Appended store (codes "7") (codes "user") (codes "hi") world

append_frame_example :
    let w' = (append store (codes "7") (codes "user") (codes "hi") world).1 in
    ((q : Text)
      → session_path store (or_unknown (codes "7")) ≢ q
      → lookup q w'.files ≡ lookup q world.files)
    × (w'.db ≡ world.db)
    × (w'.log ≡ world.log)
    × (w'.requests ≡ world.requests)
append_frame_example = append_frame store (codes "7") (codes "user") (codes "hi") world

append_succeeds_example :
    (append store (codes "7") (codes "user") (codes "hi") world).0
    ≡ ok (session_path store (or_unknown (codes "7")))
append_succeeds_example =
    append_succeeds store (codes "7") (codes "user") (codes "hi") world machine-IsQuiet

list-append_example :
    (list_session_messages open_db
      (codes "7")
      (pos 10)
      (append_session_message open_db (codes "7") (codes "user") (codes "hi") world).1).0
    ≡ ok (
        stored machine (codes "7") (codes "user") (codes "hi") world
        ∷ take 9 (reverse (filter (of_session (codes "7")) world.db.messages)))
list-append_example =
    list-append machine (codes "7") (codes "user") (codes "hi") 9 world machine-IsQuiet
      world-IsOrdered (unfold is_blank in refl)

get-upsert_example :
    (get_memory open_db
      (codes "name")
      (upsert_memory open_db (codes "name") (codes "cat") world).1).0
    ≡ ok (
        if text_eq (codes "name") (codes "name")
        then some (
            written
              (codes "name")
              (codes "cat")
              (machine.format_time (machine.now world.calls))
              (find memory_key (codes "name") world.db.memory))
        else find memory_key (codes "name") world.db.memory)
get-upsert_example =
    get-upsert machine (codes "name") (codes "name") (codes "cat") world machine-IsQuiet
      (unfold is_blank in refl) (unfold is_blank in refl)
