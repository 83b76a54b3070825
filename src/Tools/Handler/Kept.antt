-- ===== src/Tools/Handler/Kept.antt =====
-- internal/tools/handler.go: what a request to the tools keeps, if the start of a process keeps it.
use mouse.Host.Rows.{IndexEntry}
use mouse.Host.{Env, World}
use mouse.Effects.{log-Keeps, Closed}
use mouse.Prelude.{
  ◌||◌, is_empty, is_none, not, none, text_eq, some, Option, [], ◌∷◌, ◌++◌, Text, List,
}
use mouse.Strings.{trim_space, Unicode}
use mouse.Tools.Handler.{
  exit_zero, ToolRequest, log_failure, Handler, log_success, log_denied, report, serve_http,
  serve_tool, serve_decoded,
}
use mouse.Sandbox.{Ran, Runner, run}
use mouse.Host.Keeps.{bind-Keeps, pure-Keeps, if-Keeps, Keeps}
use mouse.Host.Http.{method_post}
use mouse.Tools.Policy.{allowed}

module _ {ι} {Told : IndexEntry → Type 0} {I : World → Type ι} (c : Closed Told I)
    (ran : (w : World) (command : List Text)
      → I w
      → I (record w { commands = w.commands ++ command ∷ [] }))
    ⦃u : Unicode⦄ ⦃env : Env⦄ where
  run-Keeps : (r : Option Runner) (command : List Text) → Keeps I (run r command)
  unfolding run
  run-Keeps none command = pure-Keeps _
  run-Keeps (some r) [] = pure-Keeps _
  run-Keeps (some r) (word ∷ words) = record {
    after = λ w h. c.called _ (c.called _ (ran _ _ (c.called w h)));
  }

  report-Keeps : (h : Handler) (tool : Text) (outcome : Ran) → Keeps I (report h tool outcome)
  unfolding report log_success log_failure
  report-Keeps h tool (r, some e) = bind-Keeps _ _ (log-Keeps c h.logger _ _ _) λ _. pure-Keeps _
  report-Keeps h tool (r, none) =
      bind-Keeps _ _
        (if-Keeps (exit_zero r.exit_code) _ _ (log-Keeps c h.logger _ _ _)
          (log-Keeps c h.logger _ _ _))
        λ _. pure-Keeps _

  serve_tool-Keeps : (h : Handler) (req : ToolRequest) → Keeps I (serve_tool h req)
  unfolding serve_tool log_denied
  serve_tool-Keeps h req = if-Keeps (text_eq (trim_space req.tool) []) _ _ (pure-Keeps _) (
      if-Keeps (not (allowed h.policy (trim_space req.tool))) _ _
        (bind-Keeps _ _ (log-Keeps c h.logger _ _ _) λ _. pure-Keeps _)
        (if-Keeps (is_empty req.command) _ _ (pure-Keeps _) (
          bind-Keeps (run h.runner req.command) _ (run-Keeps h.runner req.command)
            (report-Keeps h (trim_space req.tool)))))

  decoded-Keeps : (h : Handler) (body : Option ToolRequest) → Keeps I (serve_decoded h body)
  unfolding serve_decoded
  decoded-Keeps h none = pure-Keeps _
  decoded-Keeps h (some req) = serve_tool-Keeps h req

  pub serve_http-Keeps :
      (h : Handler) (method : Text) (body : Option ToolRequest) → Keeps I (serve_http h method body)
  unfolding serve_http
  serve_http-Keeps h method body =
      if-Keeps (not (text_eq method method_post)) _ _ (pure-Keeps _)
        (if-Keeps (is_none h.runner || is_none h.policy) _ _ (pure-Keeps _) (decoded-Keeps h body))
