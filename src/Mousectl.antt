-- ===== src/Mousectl.antt =====
-- cmd/mousectl/main.go: the client of the server, command by command. A run of it reads its flags,
-- sends at most one request, prints, and exits with a status.
pub mod Calls
pub mod Output
pub mod Logs
pub mod Exits
pub mod Runs
pub mod Shown
use mouse.Mousectl.Calls.{misused, parsed, stopped, Call, Flags, Outcome, Parsed, Remote}
use mouse.Mousectl.Output.{confirmed, logs_read, run_answered, search_answered, status_answered}
use mouse.Host.Http.{method_get, method_post, status_ok}
use mouse.Prelude.{
  codes, drop, err, if◌then◌else◌, is_empty, length, ltb, none, not, ok, some, text_eq, [], ◌++◌,
  ◌-◌, ◌==◌, ◌&&◌, ◌||◌, ◌∷◌, Bool, List, Option, Result, Text, ℕ,
}
use mouse.Prelude.Int.{negsuc, pos, ℤ}
use mouse.Strings.{trim_right, trim_space}
use mouse.Strings.Decimal.{format_int}

-- `usage`
usage : Outcome
usage = misused (codes "mousectl <status|run|reindex|search|approve|logs>")

-- `strings.TrimRight(addr, "/") + path`
unfoldable pub endpoint : Text → Text → Text
unfolding trim_right
endpoint addr path = trim_right (λ c. c == b'/') addr ++ path

-- The defaults of all the flags; each command declares some of them.
abbrev pub defaults : Flags
defaults = record {
  addr = codes "http://localhost:8080";
  tool = codes "exec";
  query = [];
  limit = pos 5;
  path = codes "./runtime/logs/mouse.log";
  lines = pos 50;
  args = [];
}

module _ ⦃remote : Remote⦄ where
  -- The requests of the commands.
  abbrev pub status_call : Flags → Call
  status_call f = record { method = method_get; url = endpoint f.addr (codes "/health"); body = [] }

  abbrev pub run_call : Flags → Call
  run_call f = record {
    method = method_post;
    url = endpoint f.addr (codes "/tools/run");
    body = remote.encode_run f.tool f.args;
  }

  abbrev pub reindex_call : Flags → Call
  reindex_call f = record {
    method = method_post;
    url = endpoint f.addr (codes "/index/reindex");
    body = [];
  }

  abbrev pub search_call : Flags → Call
  search_call f = record {
    method = method_get;
    url =
        endpoint f.addr (codes "/index/search?q=")
        ++ (remote.query_escape f.query ++ (codes "&limit=" ++ format_int f.limit));
    body = [];
  }

  abbrev pub approve_call : Flags → Text → Call
  approve_call f id = record {
    method = method_post;
    url = endpoint f.addr (codes "/approvals/submit");
    body = remote.encode_id id;
  }

  -- `statusCmd`, `runCmd`, `reindexCmd`, `searchCmd`, `approveCmd` and `logsCmd`, on their flags
  unfoldable pub status_cmd : Flags → Outcome
  unfolding status_answered endpoint
  status_cmd f = status_answered (status_call f) (remote.answer (status_call f))

  unfoldable pub run_cmd : Flags → Outcome
  unfolding run_answered endpoint
  run_cmd f =
      if is_empty f.args
      then misused (codes "run requires command")
      else run_answered (run_call f) (remote.answer (run_call f))

  unfoldable pub reindex_cmd : Flags → Outcome
  unfolding confirmed endpoint
  reindex_cmd f = confirmed (codes "reindex") (reindex_call f) (remote.answer (reindex_call f))

  unfoldable pub search_cmd : Flags → Outcome
  unfolding search_answered endpoint format_int text_eq
  search_cmd f =
      if text_eq f.query []
      then misused (codes "search requires -q query")
      else search_answered (search_call f) (remote.answer (search_call f))

  approve_args : Flags → List Text → Outcome
  unfolding confirmed endpoint
  approve_args f [] = misused (codes "approve requires id")
  approve_args f (id ∷ more) =
      confirmed (codes "approve") (approve_call f id) (remote.answer (approve_call f id))

  unfoldable pub approve_cmd : Flags → Outcome
  unfolding approve_args
  approve_cmd f = approve_args f f.args

  unfoldable pub logs_cmd : Flags → Outcome
  unfolding logs_read
  logs_cmd f = logs_read f.lines (remote.read_file f.path)

  -- A command behind the reading of its flags.
  on_flags : (Flags → Outcome) → Parsed → Outcome
  on_flags cmd (parsed f) = cmd f
  on_flags cmd (stopped status complaint) = record {
    sent = none;
    out = [];
    complaint = complaint;
    status = status;
  }

  -- The command of a name.
  command : Text → Option (Flags → Outcome)
  unfolding status_cmd run_cmd reindex_cmd search_cmd approve_cmd logs_cmd text_eq
  command name =
      if text_eq name (codes "status")
      then some status_cmd
      else if text_eq name (codes "run")
      then some run_cmd
      else if text_eq name (codes "reindex")
      then some reindex_cmd
      else if text_eq name (codes "search")
      then some search_cmd
      else if text_eq name (codes "approve")
      then some approve_cmd
      else if text_eq name (codes "logs")
      then some logs_cmd
      else none

  dispatch : Text → List Text → Option (Flags → Outcome) → Outcome
  unfolding usage on_flags
  dispatch name rest none = usage
  dispatch name rest (some cmd) = on_flags cmd (remote.parse name defaults rest)

  -- `main`, on `os.Args` behind the program's name
  unfoldable pub main : List Text → Outcome
  unfolding dispatch command usage
  main [] = usage
  main (name ∷ rest) = dispatch name rest (command name)
