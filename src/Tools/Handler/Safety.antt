-- ===== src/Tools/Handler/Safety.antt =====
-- Which requests start a process.
use mouse.Prelude.{
  inr, text_eq_iff, inl, append-nil, Bool-cases, text_eq, is_empty, not, ◌&&◌, if◌then◌else◌, arith,
  refl, [], none, ◌++◌, some, ◌∷◌, codes, List, Text, Option, ◌≡◌,
}
use mouse.Tools.Policy.{Policy, normalize, allowed}
use mouse.Strings.{trim_space, Unicode}
use mouse.Host.{World, Env}
use mouse.Sandbox.{Ran, build_docker_args, run, Runner}
use mouse.Strings.Trim.{trim_space_idem}
use mouse.Tools.Handler.{serve_http, log_denied, ToolRequest, Handler, report, serve_tool}
use mouse.Host.Http.{method_post}

allowed-trim_space :
    ⦃u : Unicode⦄ (p : Option Policy) (tool : Text) → allowed p (trim_space tool) ≡ allowed p tool
unfolding allowed normalize
allowed-trim_space none tool = refl
allowed-trim_space (some p) tool = rw (trim_space_idem tool)

module _ ⦃u : Unicode⦄ ⦃env : Env⦄ where
  report_commands :
      (h : Handler) (tool : Text) (ran : Ran) (w : World)
      → (report h tool ran w).1.commands ≡ w.commands
  unfolding report
  report_commands h tool (r, e) w = ground arith

  run_commands :
      (r : Runner) (c : Text) (cs : List Text) (w : World)
      → (run (some r) (c ∷ cs) w).1.commands
        ≡ w.commands ++ (codes "docker" ∷ build_docker_args r.cfg.docker (c ∷ cs)) ∷ []
  unfolding run
  run_commands r c cs w = refl

  -- The one process that a request for a permitted tool starts.
  abbrev pub docker_run : Runner → List Text → List Text
  docker_run r command = codes "docker" ∷ build_docker_args r.cfg.docker command

  -- A handler as `NewHandler` makes it, with a policy and a runner.
  abbrev pub configured : Policy → Runner → Option Text → Handler
  configured p r logger = record { policy = some p; runner = some r; logger = logger }

  serve_tool_commands :
      (p : Policy) (r : Runner) (logger : Option Text) (tool : Text) (command : List Text)
      (w : World)
      → (serve_tool
          (configured p r logger)
          (record { tool = tool; command = command })
          w).1.commands
        ≡ (if not (text_eq (trim_space tool) [])
              && allowed (some p) (trim_space tool)
              && not (is_empty command)
            then w.commands ++ docker_run r command ∷ []
            else w.commands)
  unfolding serve_tool log_denied
  serve_tool_commands p r logger tool [] w = ground arith
  serve_tool_commands p r logger tool (c ∷ cs) w =
      ground (
        arith,
        run_commands r c cs w,
        report_commands (configured p r logger) (trim_space tool) _ _,
      )

  pub not_blank :
      (p : Policy) (tool : Text)
      → (not (text_eq (trim_space tool) []) && allowed (some p) (trim_space tool))
        ≡ allowed (some p) tool
  unfolding allowed normalize text_eq
  not_blank p tool = elim (Bool-cases (text_eq (trim_space tool) [])) [
    | inl blank ↦ rw ((text_eq_iff (trim_space tool) []).0 blank)
    | inr named ↦ rw named (allowed-trim_space (some p) tool)
  ]

  -- The processes that a request starts.
  abbrev pub started : Policy → Runner → Text → Option ToolRequest → List (List Text)
  started p r method none = []
  started p r method (some req) =
      if text_eq method method_post && allowed (some p) req.tool && not (is_empty req.command)
      then docker_run r req.command ∷ []
      else []

  -- In a handler with a policy and a runner, a request starts a process exactly if it is a POST of
  -- a JSON body with a command and with a tool that the policy allows. It starts one, `docker` with
  -- the configured arguments and the whole command, and no other part of the request has a say.
  pub serve_http_commands :
      (p : Policy) (r : Runner) (logger : Option Text) (method : Text) (body : Option ToolRequest)
      (w : World)
      → (serve_http (configured p r logger) method body w).1.commands
        ≡ w.commands ++ started p r method body
  unfolding serve_http
  serve_http_commands p r logger method none w = ground (arith, append-nil w.commands)
  serve_http_commands p r logger method (some req) w = ground (
    arith,
    append-nil w.commands,
    serve_tool_commands p r logger req.tool req.command w,
    not_blank p req.tool,
  )
