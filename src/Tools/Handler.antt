-- ===== src/Tools/Handler.antt =====
-- internal/tools/handler.go: POST /tools/run
pub mod Safety
pub mod Success
pub mod Kept
use mouse.Prelude.{
  ℕ, ◌/◌, Bool, true, false, not, ◌||◌, Option, none, some, List, [], ◌∷◌, ◌++◌, Text, codes,
  text_eq, ◌==◌, if◌then◌else◌, is_empty, is_none,
}
use mouse.Prelude.Int.{ℤ, pos, negsuc}
use mouse.Prelude.Dict.{Dict}
use mouse.Strings.{Unicode, trim_space, byte_length}
use mouse.Strings.Decimal.{format_int}
use mouse.Host.{Env}
use mouse.Host.Action.{Action, pure, ◌>>=◌, ◌>>◌, log}
use mouse.Host.Http.{
  status_ok, status_bad_request, status_forbidden, status_method_not_allowed, status_internal_error,
  status_unavailable, method_post,
}
use mouse.Sandbox.{Runner, RunResult, Ran, run}
use mouse.Tools.Policy.{Policy, allowed}

pub record ToolRequest : Type 0 where
  pub tool : Text
  pub command : List Text

-- The JSON response; a handler that writes only a status answers `none` for it.
pub record Response : Type 0 where
  pub is_ok : Bool
  pub stdout : Text
  pub stderr : Text
  pub exit_code : ℤ
  pub duration_ms : ℕ
  pub error : Text

pub record Handler : Type 0 where
  pub policy : Option Policy
  pub runner : Option Runner
  pub logger : Option Text

-- What is written: the status, and the payload if there is one.
abbrev pub Answer : Type 0
Answer = ℕ × Option Response

-- `writeError`
unfoldable pub write_error : ℕ → Text → Answer
write_error status message = (
  status,
  some (record {
    is_ok = false;
    stdout = [];
    stderr = [];
    exit_code = pos 0;
    duration_ms = 0;
    error = message;
  }),
)

-- `Duration.Milliseconds`
abbrev milliseconds : ℕ → ℕ
milliseconds d = d / 1000000

unfoldable pub exit_zero : ℤ → Bool
exit_zero (pos n) = n == 0
exit_zero (negsuc n) = false

abbrev pub result_fields : Text → RunResult → Dict Text
result_fields tool r =
    (codes "tool", tool)
    ∷ (codes "exit_code", format_int r.exit_code)
    ∷ (codes "duration_ms", format_int (pos (milliseconds r.duration)))
    ∷ (codes "stdout_bytes", format_int (pos (byte_length r.stdout)))
    ∷ (codes "stderr_bytes", format_int (pos (byte_length r.stderr)))
    ∷ []

-- `logDenied`
log_denied : Option Text → Text → Action (Unit {0})
log_denied logger tool = log logger (codes "warn") (codes "tool denied") ((codes "tool", tool) ∷ [])

-- `logSuccess`
log_success : Option Text → Text → RunResult → Action (Unit {0})
log_success logger tool r = log logger (codes "info") (codes "tool executed") (result_fields tool r)

-- `logFailure`
log_failure : Option Text → Text → RunResult → Text → Action (Unit {0})
log_failure logger tool r e =
    log logger (codes "error") (codes "tool failed")
      (result_fields tool r ++ (codes "error", e) ∷ [])

module _ ⦃u : Unicode⦄ ⦃env : Env⦄ where
  -- The end of `ServeHTTP`, after the command was run.
  report : Handler → Text → Ran → Action Answer
  unfolding log_success log_failure exit_zero write_error
  report h tool (r, some e) = do
    log_failure h.logger tool r e
    pure (write_error status_internal_error e)
  report h tool (r, none) = do
    if exit_zero r.exit_code
        then log_success h.logger tool r
        else log_failure h.logger tool r (codes "exit " ++ format_int r.exit_code)
    pure (
      status_ok,
      some (record {
        is_ok = exit_zero r.exit_code;
        stdout = r.stdout;
        stderr = r.stderr;
        exit_code = r.exit_code;
        duration_ms = milliseconds r.duration;
        error = [];
      }),
    )

  -- `ServeHTTP` with a policy and a runner, on a decoded request.
  serve_tool : Handler → ToolRequest → Action Answer
  unfolding report log_denied trim_space
  serve_tool h req =
      let tool = trim_space req.tool in
      if text_eq tool []
      then pure (write_error status_bad_request (codes "tool is required"))
      else if not (allowed h.policy tool)
      then (do
        log_denied h.logger tool
        pure (write_error status_forbidden (codes "tool is not allowed")))
      else if is_empty req.command
      then pure (write_error status_bad_request (codes "command is required"))
      else (do ran ← run h.runner req.command; report h tool ran)

  -- `ServeHTTP` behind the decoding of the body.
  serve_decoded : Handler → Option ToolRequest → Action Answer
  unfolding serve_tool
  serve_decoded h none = pure (write_error status_bad_request (codes "invalid json"))
  serve_decoded h (some req) = serve_tool h req

  -- `ServeHTTP`; the body is `none` if it is no JSON of the right form
  unfoldable pub serve_http : Handler → Text → Option ToolRequest → Action Answer
  unfolding serve_decoded
  serve_http h method body =
      if not (text_eq method method_post)
      then pure (status_method_not_allowed, none)
      else if is_none h.runner || is_none h.policy
      then pure (write_error status_unavailable (codes "tool runner not configured"))
      else serve_decoded h body
