-- ===== src/Sessions/Files.antt =====
-- What `Append` leaves in the files.
use mouse.Prelude.{
  true, ◌+◌, ◌≡◌, refl, ◌≢◌, ◌⊎◌, [], ◌++◌, arith, Text, text_eq_refl, text_eq_ne, if◌then◌else◌,
  Result, ok, err, append_assoc,
}
use mouse.Prelude.Dict.{Dict, lookup, has, lookup-insert}
use mouse.Strings.{Unicode}
use mouse.Host.{Env, World}
use mathlib.Core.Path.{subst}
use mouse.Host.Action.{quiet, IsQuiet, IsQuiet-quiet}
use mouse.Sessions.{
  Store, session_path, content_of, create_file, append_file, header, entry, or_unknown, or_user,
  append_at, append,
}

module _ (path : Text) (files : Dict Text) where
  pub content_of-create_file : content_of path (create_file path files) ≡ content_of path files
  unfolding content_of create_file
  content_of-create_file = ground (arith, lookup-insert path path [] files, text_eq_refl path)

  pub content_of-append_file :
      (text : Text) → content_of path (append_file path text files) ≡ content_of path files ++ text
  unfolding content_of append_file
  content_of-append_file text =
      ground
        (arith, lookup-insert path path (content_of path files ++ text) files, text_eq_refl path)

  has-append_file : (text : Text) → has path (append_file path text files) ≡ true
  unfolding append_file
  has-append_file text =
      ground
        (arith, lookup-insert path path (content_of path files ++ text) files, text_eq_refl path)

  module _ (q : Text) (ne : path ≢ q) where
    pub lookup-create_file : lookup q (create_file path files) ≡ lookup q files
    unfolding create_file
    lookup-create_file = ground (arith, lookup-insert path q [] files, text_eq_ne path q ne)

    pub lookup-append_file : (text : Text) → lookup q (append_file path text files) ≡ lookup q files
    unfolding append_file
    lookup-append_file text = rw lookup-insert (rw (text_eq_ne path q ne))

-- What stands in front of the first entry of a file.
abbrev pub lead : Text → Text → World → Text
lead path session_id w = if has path w.files then [] else header session_id

module _ ⦃u : Unicode⦄ ⦃env : Env⦄ (path session_id role content : Text) (w : World) where
  abbrev opened : Dict Text
  opened = create_file path w.files

  abbrev headed : Dict Text
  headed = append_file path (header session_id) opened

  -- The entry's time is read after the file is open and has its header.
  abbrev stamp_at : Text
  stamp_at =
      env.format_time
        (env.now (if has path w.files then w.calls + 1 + 1 + 1 else w.calls + 1 + 1 + 1 + 1))

  append_at-ok :
      {p : Text} {w' : World}
      → append_at path session_id role content w ≡ (ok p, w')
      → (p ≡ path)
        × (content_of path w'.files
            ≡ content_of path w.files ++ (lead path session_id w ++ entry stamp_at role content))
        × (has path w'.files ≡ true)
  unfolding append_at
  append_at-ok h = ground (
    arith,
    content_of-create_file path w.files,
    content_of-append_file path opened (header session_id),
    content_of-append_file path opened (entry stamp_at role content),
    content_of-append_file path headed (entry stamp_at role content),
    has-append_file path opened (entry stamp_at role content),
    has-append_file path headed (entry stamp_at role content),
    append_assoc (content_of path w.files) (header session_id) (entry stamp_at role content),
  )

  append_at-err :
      {e : Text} {w' : World}
      → append_at path session_id role content w ≡ (err e, w')
      → (content_of path w'.files ≡ content_of path w.files)
        ⊎ (content_of path w'.files ≡ content_of path w.files ++ lead path session_id w)
  unfolding append_at
  append_at-err h = ground (
    arith,
    content_of-create_file path w.files,
    content_of-append_file path opened (header session_id),
  )

  -- Nothing but the session's own file changes, whatever fails.
  append_at_frame :
      let w' = (append_at path session_id role content w).1 in
      ((q : Text) → path ≢ q → lookup q w'.files ≡ lookup q w.files)
      × (w'.db ≡ w.db)
      × (w'.log ≡ w.log)
      × (w'.requests ≡ w.requests)
  unfolding append_at
  append_at_frame = (
    (λ q ne. ground (
      arith,
      lookup-create_file path w.files q ne,
      lookup-append_file path opened q ne (header session_id),
      lookup-append_file path opened q ne (entry stamp_at role content),
      lookup-append_file path headed q ne (entry stamp_at role content),
    )),
    ground arith,
    ground arith,
    ground arith,
  )

append_at-quiet :
    ⦃u : Unicode⦄ (env : Env) (path session_id role content : Text) (w : World)
    → (append_at ⦃env = quiet env⦄ path session_id role content w).0 ≡ ok path
unfolding append_at
append_at-quiet env path session_id role content w = ground arith

-- What `Append` did to the session's file, by how it ended: on success the file has one more entry,
-- behind a header if the file is new; on an error it is as before, but for that header.
abbrev pub Appended :
    ⦃u : Unicode⦄ → Text → Text → Text → Text → Text → World → Result Text → World → Type 0
Appended path session_id role content stamp w (ok p) w' =
    (p ≡ path)
    × (content_of path w'.files
        ≡ content_of path w.files ++ (lead path session_id w ++ entry stamp role content))
    × (has path w'.files ≡ true)
Appended path session_id role content stamp w (err e) w' =
    (content_of path w'.files ≡ content_of path w.files)
    ⊎ (content_of path w'.files ≡ content_of path w.files ++ lead path session_id w)

append_at-Appended :
    ⦃u : Unicode⦄ ⦃env : Env⦄ (path session_id role content : Text) (w : World) (r : Result Text)
    (w' : World)
    → append_at path session_id role content w ≡ (r, w')
    → Appended path session_id role content (stamp_at path session_id role content w) w r w'
append_at-Appended path session_id role content w (ok p) w' h =
    append_at-ok path session_id role content w h
append_at-Appended path session_id role content w (err e) w' h =
    append_at-err path session_id role content w h

module _ ⦃u : Unicode⦄ ⦃env : Env⦄ (s : Store) (id role content : Text) (w : World) where
  abbrev path_of : Text
  path_of = session_path s (or_unknown id)

  -- However the calls end, `Append` returns the file's path and has added the entry, behind a
  -- header exactly if there was no file; or it reports an error, and the file's text is as it was
  -- or has gained the header alone.
  pub append-Appended :
      (stamp : Text) × Appended path_of
        (or_unknown id)
        (or_user role)
        content
        stamp
        w
        (append s id role content w).0
        (append s id role content w).1
  unfolding append
  append-Appended = (
    stamp_at path_of (or_unknown id) (or_user role) content w,
    append_at-Appended path_of (or_unknown id) (or_user role) content w _ _ refl,
  )

  -- Whatever fails, `Append` changes no other file, and neither the tables, the log nor the
  -- requests.
  pub append_frame :
      let w' = (append s id role content w).1 in
      ((q : Text) → path_of ≢ q → lookup q w'.files ≡ lookup q w.files)
      × (w'.db ≡ w.db)
      × (w'.log ≡ w.log)
      × (w'.requests ≡ w.requests)
  unfolding append
  append_frame = append_at_frame path_of (or_unknown id) (or_user role) content w

  -- With no failing call `Append` succeeds and returns the file's path.
  pub append_succeeds : IsQuiet env → (append s id role content w).0 ≡ ok path_of
  unfolding append
  append_succeeds h =
      subst (λ e. (append ⦃env = e⦄ s id role content w).0 ≡ ok path_of) (IsQuiet-quiet env h)
        (append_at-quiet env path_of (or_unknown id) (or_user role) content w)
