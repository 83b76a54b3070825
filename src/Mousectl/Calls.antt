-- ===== src/Mousectl/Calls.antt =====
-- cmd/mousectl/main.go: what the client reads and prints, and what it relies on.
use mouse.Prelude.{codes, none, [], ◌++◌, Bool, List, Option, Result, Text, ℕ}
use mouse.Prelude.Int.{ℤ}

-- `resultResponse`
pub record ResultResponse : Type 0 where
  pub is_ok : Bool
  pub stdout : Text
  pub stderr : Text
  pub exit_code : ℤ
  pub duration_ms : ℤ
  pub error : Text

-- One of the matches of `searchResponse`, with its score as `%0.2f` prints it.
pub record Match : Type 0 where
  pub path : Text
  pub score : Text
  pub snippet : Text

-- `logEntry`, without its fields, which are not printed
pub record LogLine : Type 0 where
  pub timestamp : Text
  pub level : Text
  pub service : Text
  pub message : Text

-- A request, and what comes back: an error, or a status with the part of the body that can be read.
pub record Call : Type 0 where
  pub method : Text
  pub url : Text
  pub body : Text

pub data Answer : Type 0 where
  unreached : Text → Answer
  answered : ℕ → Text → Answer

-- What the flags of a command hold; `args` is what follows them.
pub record Flags : Type 0 where
  pub addr : Text
  pub tool : Text
  pub query : Text
  pub limit : ℤ
  pub path : Text
  pub lines : ℤ
  pub args : List Text

-- The flags were read, or `ExitOnError` ends the run with this status and this text.
pub data Parsed : Type 0 where
  parsed : Flags → Parsed
  stopped : ℕ → Text → Parsed

-- The packages flag, net/http, encoding/json and net/url, and the system's files. `decode_result`
-- and `decode_matches` give what is left in the zero value when their error is dropped.
pub record Remote : Type 0 where
  pub parse : Text → Flags → List Text → Parsed
  pub answer : Call → Answer
  pub read_file : Text → Result Text
  pub encode_run : Text → List Text → Text
  pub encode_id : Text → Text
  pub decode_result : Text → ResultResponse
  pub decode_matches : Text → List Match
  pub decode_line : Text → Option LogLine
  pub query_escape : Text → Text

-- A run: the request, what is printed on the two outputs, and the exit status.
pub record Outcome : Type 0 where
  pub sent : Option Call
  pub out : Text
  pub complaint : Text
  pub status : ℕ

-- `fmt.Println`
abbrev pub line : Text → Text
line s = s ++ codes "\n"

-- `os.Exit(2)`, before anything is sent
abbrev pub misused : Text → Outcome
misused complaint = record { sent = none; out = []; complaint = line complaint; status = 2 }

-- `os.Exit(1)`
abbrev pub failed : Option Call → Text → Outcome
failed sent complaint = record { sent = sent; out = []; complaint = complaint; status = 1 }

-- `main` returns.
abbrev pub done : Option Call → Text → Outcome
done sent out = record { sent = sent; out = out; complaint = []; status = 0 }
