-- ===== src/Sessions.antt =====
-- internal/sessions/store.go: one Markdown file for each session, to which messages are appended.
pub mod Ids
pub mod Files
pub mod Kept
use mouse.Prelude.{
  ℕ, ◌+◌, ◌-◌, Bool, true, false, ◌&&◌, ◌||◌, Option, none, some, List, [], ◌∷◌, ◌++◌, map, Text,
  codes, text_eq, ltb, leb, ◌==◌, if◌then◌else◌, Result, ok, err, length, take,
}
use mouse.Prelude.Dict.{Dict, lookup, insert, has}
use mouse.Strings.{Unicode, within, to_lower, trim, trim_left, trim_right, trim_space, is_blank}
use mouse.Strings.Paths.{join_path}
use mouse.Host.{Env, World}
use mouse.Host.Action.{Action, pure, fail, wrap, ◌>>=◌, ◌>>◌, perform, query, timestamp}

pub record Store : Type 0 where
  pub dir : Text

-- `NewStore`
unfoldable pub new_store : Text → Result Store
unfolding is_blank
new_store dir =
    if is_blank dir then err (codes "sessions: dir is required") else ok (record { dir = dir })

-- The function that `sanitizeID` maps over the characters.
unfoldable pub sanitize_rune : ℕ → ℕ
sanitize_rune r =
    if within b'a' b'z' r
    then r
    else if within b'A' b'Z' r
    then r + (b'a' - b'A')
    else if within b'0' b'9' r
    then r
    else if r == b'-' || r == b'_'
    then r
    else b'-'

-- The end of `sanitizeID`. What is mapped is ASCII, so a length in characters is one in bytes.
fit_id : Text → Text
fit_id mapped =
    if text_eq mapped []
    then codes "session"
    else if ltb 64 (length mapped)
    then take 64 mapped
    else mapped

unfoldable pub sanitize_id : Text → Text
unfolding sanitize_rune fit_id trim_left trim_right text_eq
sanitize_id id = fit_id (trim (λ r. r == b'-') (map sanitize_rune id))

-- `filepath.Join(s.dir, cleanID+".md")`
unfoldable pub session_path : Store → Text → Text
unfolding sanitize_id join_path
session_path s session_id = join_path s.dir (sanitize_id session_id ++ codes ".md")

-- The text of a file, empty if there is none.
unfoldable pub content_of : Text → Dict Text → Text
content_of path files = elim (lookup path files) [ none ↦ [] | some text ↦ text ]

-- `OpenFile` with O_CREATE
unfoldable pub create_file : Text → Dict Text → Dict Text
create_file path files = if has path files then files else insert path [] files

-- `WriteString` with O_APPEND
unfoldable pub append_file : Text → Text → Dict Text → Dict Text
unfolding content_of
append_file path text files = insert path (content_of path files ++ text) files

abbrev pub change_files : (Dict Text → Dict Text) → World → World
change_files change w = record w { files = change w.files }

-- `"# Session %s\n\n"`
abbrev pub header : Text → Text
header session_id = codes "# Session " ++ (session_id ++ codes "\n\n")

-- `"## %s %s\n\n%s\n\n"`
abbrev pub entry : ⦃u : Unicode⦄ → Text → Text → Text → Text
entry stamp role content =
    codes "## "
    ++ (stamp
        ++ (codes " " ++ (to_lower role ++ (codes "\n\n" ++ (trim_space content ++ codes "\n\n")))))

abbrev pub or_unknown : Text → Text
or_unknown session_id = if is_blank session_id then codes "unknown" else session_id

abbrev pub or_user : Text → Text
or_user role = if is_blank role then codes "user" else role

module _ ⦃u : Unicode⦄ ⦃env : Env⦄ where
  write_header : Bool → Text → Text → Action (Unit {0})
  write_header true path session_id =
      wrap (codes "sessions: write header: ")
        (perform (change_files (append_file path (header session_id))))
  write_header false path session_id = pure tt

  -- The file part of `Append`, after the defaults. `Close` cannot fail in a way that is seen.
  append_at : Text → Text → Text → Text → Action Text
  unfolding write_header
  append_at path session_id role content = do
    wrap (codes "sessions: create dir: ") (perform (λ w. w))
    exists ← wrap (codes "sessions: stat: ") (query (λ w. has path w.files))
    wrap (codes "sessions: open: ") (perform (change_files (create_file path)))
    write_header (if exists then false else true) path session_id
    stamp ← timestamp
    wrap (codes "sessions: write entry: ")
        (perform (change_files (append_file path (entry stamp role content))))
    pure path

  -- `Append`
  unfoldable pub append : Store → Text → Text → Text → Action Text
  unfolding append_at
  append s session_id role content =
      let id = or_unknown session_id in append_at (session_path s id) id (or_user role) content
