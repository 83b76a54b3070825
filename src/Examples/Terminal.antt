-- ===== src/Examples/Terminal.antt =====
-- The theorems on the client, on one connection and one log.
use mouse.Examples.{ascii, machine, world}
use mouse.Examples.Codec.{
  entry_text, payload_text, read_line, read_line-text, read_payload, read_payload-text,
  write_fields-IsBraced,
}
use mouse.Examples.Gates.{runner}
use mouse.Host.Http.{method_post}
use mouse.Logging.{set_file, write_all, Marshal, Sink, Stamped}
use mouse.Mousectl.Calls.{done, parsed, Flags, Remote}
use mouse.Mousectl.Output.{shown}
use mouse.Mousectl.{defaults, logs_cmd, main, run_cmd}
use mouse.Mousectl.Exits.{main-IsHonest, IsHonest, success}
use mouse.Mousectl.Logs.{logs_cmd-AreLast, AreLast, IsLine}
use mouse.Mousectl.Runs.{respond, run_cmd-RunsWell}
use mouse.Mousectl.Shown.{logs_cmd-write_all, shown_lines, IsCodec}
use mouse.Prelude.{
  All, ◌++◌, arith, codes, inl, inr, none, ok, refl, some, true, [], ◌∷◌, ◌↔◌, ◌≡◌, List, Text,
}
use mouse.Prelude.Int.{pos}
use mouse.Sandbox.{run}
use mouse.Sessions.{content_of}
use mouse.Prelude.Dict.{lookup}
use mouse.Tools.Handler.{serve_http}
use mouse.Tools.Handler.Safety.{configured}
use mouse.Tools.Handler.Success.{RunsWell}
use mouse.Tools.Policy.{allowed, new_policy, Policy}
use mouse.Strings.{trim_space, join}

abbrev policy : Policy
policy = new_policy (codes "exec" ∷ []) []

-- `mousectl run ls`
abbrev ls_flags : Flags
ls_flags = record defaults { args = codes "ls" ∷ [] }

-- Two entries, and the log file that they are written to.
abbrev entry_of : Text → Stamped
entry_of message = record {
  timestamp = codes "2025-01-01T00:00:00Z";
  entry = record {
    level = codes "info";
    service = codes "mouse";
    message = message;
    log_fields = [];
  };
}

instance abbrev small_json : Marshal
small_json = record { encode = λ e. ok (entry_text e) }

abbrev sink : Sink
sink = record { files = []; opened = none; printed = []; complaints = [] }

abbrev log_path : Text
log_path = codes "/srv/logs/mouse.log"

abbrev log_text : Text
log_text =
    content_of log_path
      (write_all (entry_of (codes "one") ∷ entry_of (codes "two") ∷ [])
        (set_file none none log_path sink).1).files

-- Every request reaches the tools' handler, and every file is the log.
instance abbrev connection : Remote
connection = record {
  parse = λ name flags rest. parsed (record flags { args = rest });
  answer = λ call.
      respond payload_text
        (serve_http (configured policy runner none) method_post
          (some (record { tool = codes "exec"; command = codes "ls" ∷ [] })) world).0;
  read_file = λ path. ok log_text;
  encode_run = λ tool command. tool;
  encode_id = λ id. id;
  decode_result = read_payload;
  decode_matches = λ body. [];
  decode_line = read_line;
  query_escape = λ s. s;
}

main-IsHonest_example : IsHonest (success (codes "run")) (main (codes "run" ∷ codes "ls" ∷ []))
main-IsHonest_example = main-IsHonest (codes "run") (codes "ls" ∷ []) ls_flags (inr (inl refl)) refl

run_cmd-RunsWell_example : ((run_cmd ls_flags).status ≡ 0) ↔ (
    (allowed (some policy) (codes "exec") ≡ true)
    × RunsWell (run (some runner) (codes "ls" ∷ []) world).0)
run_cmd-RunsWell_example =
    run_cmd-RunsWell payload_text ls_flags policy runner none world read_payload-text refl refl

small_json-IsCodec : IsCodec entry_text
small_json-IsCodec = record {
  encoded = λ e. refl;
  braced = λ e.
      write_fields-IsBraced (e.timestamp ∷ e.entry.level ∷ e.entry.service ∷ e.entry.message ∷ []);
  decoded = read_line-text;
}

no_log_yet : content_of log_path sink.files ≡ []
unfolding content_of lookup
no_log_yet = refl

-- `mousectl logs -n 1`
abbrev one_line_flags : Flags
one_line_flags = record defaults { path = log_path; lines = pos 1 }

logs_cmd-write_all_example :
    (hidden kept : List Stamped) × (hidden ++ kept
      ≡ entry_of (codes "one") ∷ entry_of (codes "two") ∷ [])
    × AreLast (pos 1) hidden kept
    × (logs_cmd one_line_flags ≡ done none (shown_lines kept))
logs_cmd-write_all_example =
    logs_cmd-write_all entry_text log_path one_line_flags (entry_of (codes "one"))
      (entry_of (codes "two") ∷ []) sink small_json-IsCodec (ground arith) no_log_yet refl

logs_cmd-AreLast_example :
    (hidden kept : List Text) × (join (codes "\n") (hidden ++ kept) ≡ trim_space log_text)
    × All IsLine (hidden ++ kept)
    × AreLast (pos 1) hidden kept
    × (logs_cmd one_line_flags ≡ done none (shown kept))
logs_cmd-AreLast_example = logs_cmd-AreLast one_line_flags log_text refl
