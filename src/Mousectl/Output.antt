-- ===== src/Mousectl/Output.antt =====
-- cmd/mousectl/main.go: what the commands make of an answer, and of the log file.
use mouse.Mousectl.Calls.{
  answered, done, failed, line, unreached, Answer, Call, LogLine, Match, Outcome, Remote,
  ResultResponse,
}
use mouse.Host.Http.{status_ok}
use mouse.Prelude.{
  codes, drop, err, if◌then◌else◌, length, ltb, none, not, ok, some, text_eq, [], ◌++◌, ◌-◌, ◌==◌,
  ◌&&◌, ◌||◌, ◌∷◌, List, Option, Result, Text, ℕ,
}
use mouse.Prelude.Int.{negsuc, pos, ℤ}
use mouse.Strings.{trim_space}
use mouse.Strings.Decimal.{format_int}

-- What `statusCmd` makes of the answer.
unfoldable pub status_answered : Call → Answer → Outcome
unfolding format_int
status_answered call (unreached e) = failed (some call) (line (codes "status error: " ++ e))
status_answered call (answered code body) =
    if code == status_ok
    then done (some call) (codes "ok\n")
    else failed (some call) (line (codes "status error: http " ++ format_int (pos code)))

-- And `reindexCmd`, `approveCmd`.
unfoldable pub confirmed : Text → Call → Answer → Outcome
confirmed name call (unreached e) = failed (some call) (line (name ++ (codes " error: " ++ e)))
confirmed name call (answered code body) =
    if code == status_ok
    then done (some call) (codes "ok\n")
    else failed (some call) (line (name ++ (codes " failed: " ++ body)))

-- A text that is printed on a line of its own, if there is one.
optional_line : Text → Text
unfolding text_eq
optional_line s = if text_eq s [] then [] else line s

-- The rest of `runCmd`, on the decoded response.
unfoldable pub run_result : Call → ℕ → ResultResponse → Outcome
unfolding optional_line
run_result call code result =
    if not (code == status_ok) || not result.is_ok
    then failed (some call)
        (line (codes "run failed: " ++ result.error) ++ optional_line result.stderr)
    else done (some call) result.stdout

-- The two lines of a match, and all of them.
match_lines : Match → Text
unfolding optional_line
match_lines m = line (m.score ++ (codes " " ++ m.path)) ++ optional_line m.snippet

all_matches : List Match → Text
unfolding match_lines
all_matches [] = []
all_matches (m ∷ ms) = match_lines m ++ all_matches ms

-- `strings.Split(s, "\n")`
unfoldable pub prepend : ℕ → List Text → List Text
prepend c [] = (c ∷ []) ∷ []
prepend c (s ∷ rest) = (c ∷ s) ∷ rest

unfoldable pub split_lines : Text → List Text
unfolding prepend
split_lines [] = [] ∷ []
split_lines (c ∷ s) = let rest = split_lines s in if c == b'\n' then [] ∷ rest else prepend c rest

-- The lines that `logsCmd` keeps.
unfoldable pub last_lines {ℓ} : {A : Type ℓ} → ℤ → List A → List A
last_lines (pos n) entries =
    if ltb 0 n && ltb n (length entries) then drop (length entries - n) entries else entries
last_lines (negsuc n) entries = entries

module _ ⦃remote : Remote⦄ where
  unfoldable pub run_answered : Call → Answer → Outcome
  unfolding run_result
  run_answered call (unreached e) = failed (some call) (line (codes "run error: " ++ e))
  run_answered call (answered code body) = run_result call code (remote.decode_result body)

  unfoldable pub search_answered : Call → Answer → Outcome
  unfolding all_matches
  search_answered call (unreached e) = failed (some call) (line (codes "search error: " ++ e))
  search_answered call (answered code body) =
      if code == status_ok
      then done (some call) (all_matches (remote.decode_matches body))
      else failed (some call) (line (codes "search failed: " ++ body))

  -- One line of the log as it is shown.
  unfoldable pub shown_entry : Text → Option LogLine → Text
  shown_entry raw none = line raw
  shown_entry raw (some e) = line (
      e.timestamp
      ++ (codes " [" ++ (e.level ++ (codes "] " ++ (e.service ++ (codes ": " ++ e.message))))))

  unfoldable pub shown : List Text → Text
  unfolding shown_entry
  shown [] = []
  shown (raw ∷ rest) = shown_entry raw (remote.decode_line raw) ++ shown rest

  -- What `logsCmd` makes of the file.
  unfoldable pub logs_read : ℤ → Result Text → Outcome
  unfolding shown last_lines split_lines trim_space
  logs_read n (err e) = failed none (line (codes "logs error: " ++ e))
  logs_read n (ok text) = done none (shown (last_lines n (split_lines (trim_space text))))
