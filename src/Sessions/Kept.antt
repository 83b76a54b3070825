-- ===== src/Sessions/Kept.antt =====
-- internal/sessions/store.go: what an append keeps.
use mouse.Effects.{timestamp-Keeps, query-Keeps, read_on-Keeps, Closed}
use mouse.Host.Keeps.{writing-Keeps, Keeps, bind-Keeps, pure-Keeps, wrap-Keeps}
use mouse.Strings.{Unicode}
use mouse.Host.{World, Env}
use mouse.Sessions.{
  entry, or_user, create_file, session_path, or_unknown, header, append_file, change_files, Store,
  append_at, write_header, append,
}
use mouse.Prelude.{ok, if◌then◌else◌, false, true, codes, Text, Bool}
use mouse.Host.Action.{timestamp, wrap, query, perform}
use mouse.Prelude.Dict.{has}
use mouse.Host.Rows.{IndexEntry}

module _ {ι} {Told : IndexEntry → Type 0} {I : World → Type ι} (c : Closed Told I) ⦃u : Unicode⦄
    ⦃env : Env⦄ where
  created-Keeps :
      (prefix path : Text) → Keeps I (wrap prefix (perform (change_files (create_file path))))
  created-Keeps prefix path =
      wrap-Keeps prefix _
        (writing-Keeps c.called (change_files (create_file path)) (λ w h. c.created w path h))

  appended-Keeps :
      (prefix path text : Text)
      → Keeps I (wrap prefix (perform (change_files (append_file path text))))
  appended-Keeps prefix path text = wrap-Keeps prefix _ (
      writing-Keeps c.called (change_files (append_file path text))
        (λ w h. c.appended w path text h))

  write_header-Keeps :
      (fresh : Bool) (path session_id : Text) → Keeps I (write_header fresh path session_id)
  unfolding write_header
  write_header-Keeps true path session_id =
      appended-Keeps (codes "sessions: write header: ") path (header session_id)
  write_header-Keeps false path session_id = pure-Keeps _

  append_at-Keeps :
      (path session_id role content : Text) → Keeps I (append_at path session_id role content)
  unfolding append_at
  append_at-Keeps path session_id role content =
      bind-Keeps _ _
        (wrap-Keeps (codes "sessions: create dir: ") (perform (λ w. w)) (read_on-Keeps c))
        λ _.
          bind-Keeps _ _
            (wrap-Keeps (codes "sessions: stat: ") (query (λ w. has path w.files))
              (query-Keeps c (λ w. has path w.files)))
            λ exists. bind-Keeps _ _ (created-Keeps (codes "sessions: open: ") path) λ _.
              bind-Keeps _ _ (write_header-Keeps (if exists then false else true) path session_id)
                λ _. bind-Keeps timestamp _ (timestamp-Keeps c) λ stamp.
                  bind-Keeps _ _
                    (appended-Keeps (codes "sessions: write entry: ") path
                      (entry stamp role content))
                    λ _. pure-Keeps (ok path)

  pub append-Keeps :
      (s : Store) (session_id role content : Text) → Keeps I (append s session_id role content)
  unfolding append
  append-Keeps s session_id role content =
      let id = or_unknown session_id in
      append_at-Keeps (session_path s id) id (or_user role) content
