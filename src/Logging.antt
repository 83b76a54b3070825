-- ===== src/Logging.antt =====
-- internal/logging/logging.go: a logger's lines, on the standard output and in the log file. The
-- actions of the other modules keep their entries in `World.log`; here they become text.
pub mod Contents
use mouse.Host.{LogEntry}
use mouse.Prelude.{
  codes, err, none, ok, some, text_eq, [], ◌++◌, ◌∷◌, if◌then◌else◌, Done, List, Option, Result,
  Text,
}
use mouse.Prelude.Dict.{Dict}
use mouse.Sessions.{append_file, create_file}

-- The files, the one that is open (`filePath` beside `file`), and what went to the two outputs.
pub record Sink : Type 0 where
  pub files : Dict Text
  pub opened : Option Text
  pub printed : Text
  pub complaints : Text

-- `entry`: a line of the log with its time
pub record Stamped : Type 0 where
  pub timestamp : Text
  pub entry : LogEntry

-- `json.Marshal`
pub record Marshal : Type 0 where
  pub encode : Stamped → Result Text

-- `WriteString` on the open file: its error is dropped.
write_file : Option Text → Option Text → Text → Dict Text → Dict Text
unfolding append_file
write_file fault none text files = files
write_file (some e) (some path) text files = files
write_file none (some path) text files = append_file path text files

-- `write` behind the encoding
write_encoded : Option Text → Result Text → Sink → Sink
unfolding write_file
write_encoded fault (err e) s = record s {
  complaints = s.complaints ++ (codes "log marshal error: " ++ (e ++ codes "\n"));
}
write_encoded fault (ok text) s = record s {
  printed = s.printed ++ (text ++ codes "\n");
  files = write_file fault s.opened (text ++ codes "\n") s.files;
}

-- `write`, with the error of the write to the file, if there is one
unfoldable pub write : ⦃m : Marshal⦄ → Option Text → Stamped → Sink → Sink
unfolding write_encoded
write ⦃m⦄ fault e s = write_encoded fault (m.encode e) s

-- Opening ends the old file and starts with the new one.
open_log : Option Text → Text → Sink → Done × Sink
unfolding create_file
open_log (some e) path s = (err (codes "log open: " ++ e), s)
open_log none path s = (ok tt, record s { files = create_file path s.files; opened = some path })

make_dir : Option Text → Option Text → Text → Sink → Done × Sink
unfolding open_log
make_dir (some e) open_fault path s = (err (codes "log mkdir: " ++ e), s)
make_dir none open_fault path s = open_log open_fault path s

-- `SetFile`, with the errors of its two calls
unfoldable pub set_file : Option Text → Option Text → Text → Sink → Done × Sink
unfolding make_dir text_eq
set_file dir_fault open_fault path s =
    if text_eq path [] then (ok tt, s) else make_dir dir_fault open_fault path s

-- One write after the other, each to the end.
unfoldable pub write_all : ⦃m : Marshal⦄ → List Stamped → Sink → Sink
unfolding write
write_all [] s = s
write_all (e ∷ es) s = write_all es (write none e s)
