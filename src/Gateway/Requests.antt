-- ===== src/Gateway/Requests.antt =====
-- internal/gateway/gateway.go: which processes a request starts, route by route.
use mouse.Config.{Config}
use mouse.Approvals.{serve_http as approvals_http}
use mouse.Tools.Handler.{ToolRequest}
use mouse.Sandbox.{build_docker_args, Runner}
use mouse.Strings.{Unicode}
use mouse.Host.{World, Env}
use mouse.Gateway.{
  tool_run, index_reindex, index_search, approvals, webhook_request, answering, health, Route,
  serve_route, HttpRequest,
}
use mouse.Indexer.Scan.{Hashing}
use mouse.Prelude.{
  err, ℕ, Result, text_eq_iff, inr, is_empty, not, ◌&&◌, text_eq, Bool-cases, append-nil, ◌∙◌,
  Option, refl, [], none, some, ◌∷◌, arith, ok, inl, ◌++◌, codes, true, ◌⊎◌, ◌≡◌, Text, List,
}
use mouse.Gateway.Settings.{IsToolRun, IsIndex, IsWebhook}
use mouse.Host.Http.{method_post}
use mouse.Telegram.Handler.Kept.{serve_http-after}
use mouse.Tools.Policy.{new_policy, allowed}
use mouse.Orchestrator.{process}
use mouse.Orchestrator.Kept.{process-after}
use mouse.Effects.{Closed-commands}
use mouse.Indexer.Scan.Kept.{IsTold}
use mouse.Tools.Handler.Safety.{configured, serve_http_commands, started}
use mouse.Indexer.Handlers.Answers.{serve_search-OnlyRead}
use mouse.Indexer.Handlers.Kept.{serve_reindex-Keeps}
use mathlib.Core.Path.{subst}
use mouse.Host.Action.{pure, continue}

-- The request asks for a command, by POST on the tools' path, with a tool that the sandbox's policy
-- allows, and the sandbox is on.
pub record Permits ⦃u : Unicode⦄ (cfg : Config) (r : HttpRequest) (command : List Text)
    : Type 0 where
  pub sandbox_on : cfg.sandbox.enabled ≡ true
  pub on_path : r.path ≡ codes "/tools/run"
  pub is_post : r.method ≡ method_post
  pub tool : Text
  pub asked : r.tool ≡ some (record { tool = tool; command = command })
  pub allowed_tool :
      allowed (some (new_policy cfg.sandbox.tools.allow cfg.sandbox.tools.deny)) tool ≡ true

-- No process is started, or the one that a permitted request asks for, in the configured container.
abbrev pub RunsPermitted : ⦃u : Unicode⦄ → Config → HttpRequest → World → World → Type 0
RunsPermitted cfg r w w' =
    (w'.commands ≡ w.commands)
    ⊎ ((command : List Text) × Permits cfg r command
        × (w'.commands
            ≡ w.commands ++ (codes "docker" ∷ build_docker_args cfg.sandbox.docker command) ∷ []))

module _ ⦃u : Unicode⦄ ⦃env : Env⦄ ⦃sha : Hashing⦄ where
  -- What a route does with a request for its path.
  abbrev pub Behaves : Config → Text → Route → Type 0
  Behaves cfg path route =
      (r : HttpRequest)
      → r.path ≡ path
      → (w : World) → RunsPermitted cfg r w (serve_route route r w).1

  pub health-Behaves : (cfg : Config) (path : Text) → Behaves cfg path health
  unfolding serve_route
  health-Behaves cfg path r e w = inl refl

  pub approvals-Behaves :
      (cfg : Config) (path : Text) (logger : Option Text) → Behaves cfg path (approvals logger)
  unfolding serve_route approvals_http
  approvals-Behaves cfg path logger r e w = inl (ground arith)

  pub webhook-Behaves :
      (cfg : Config) (path : Text) (route : Route) → IsWebhook cfg route → Behaves cfg path route
  unfolding serve_route answering webhook_request
  webhook-Behaves cfg path route (o, configured, made) r e w =
      let unstarted = Closed-commands IsTold w.commands in
      rw made (
        inl (
          serve_http-after unstarted
            (record {
              cfg = record {
                allow_from = cfg.telegram.allow_from;
                secret_token = cfg.telegram.webhook.secret;
                require_webhook = cfg.telegram.webhook.enabled;
              };
              logger = codes "telegram";
              proc = none;
            })
            (process o) (process-after unstarted o) (webhook_request r) w refl))

  -- The tools' route: what `serve_http_commands` says, in the configuration's words.
  permitted :
      (cfg : Config) (r : HttpRequest) (w w' : World) (runner : Runner) (body : Option ToolRequest)
      → cfg.sandbox.enabled ≡ true
      → runner.cfg ≡ cfg.sandbox
      → r.path ≡ codes "/tools/run"
      → r.tool ≡ body
      → w'.commands
        ≡ w.commands
          ++ started
              (new_policy cfg.sandbox.tools.allow cfg.sandbox.tools.deny)
              runner
              r.method
              body
      → RunsPermitted cfg r w w'
  permitted cfg r w w' runner none on same e asked h = inl (h ∙ append-nil w.commands)
  permitted cfg r w w' runner (some req) on same e asked h =
      elim (Bool-cases (
        text_eq r.method method_post
        && allowed (some (new_policy cfg.sandbox.tools.allow cfg.sandbox.tools.deny)) req.tool
        && not (is_empty req.command))) [
          | inr refused ↦ inl ((rw refused at h) ∙ append-nil w.commands)
          | inl runs ↦ inr (
            req.command,
            record {
              sandbox_on = on;
              on_path = e;
              is_post = (text_eq_iff r.method method_post).0 (ground arith);
              tool = req.tool;
              asked = asked;
              allowed_tool = ground arith;
            },
            subst
                (λ c.
                  w'.commands
                  ≡ w.commands ++ (codes "docker" ∷ build_docker_args c.docker req.command) ∷ [])
                same (rw runs at h),
          )
        ]

  -- What is left of an answer is its status.
  status_commands {ℓ} :
      {B : Type ℓ} (r : Result (ℕ × B)) (w : World)
      → (continue r (λ answer. pure answer.0) w).1.commands ≡ w.commands
  status_commands (ok a) w = refl
  status_commands (err e) w = refl

  pub tool_run-Behaves :
      (cfg : Config) (route : Route)
      → (cfg.sandbox.enabled ≡ true)
      → IsToolRun cfg route
      → Behaves cfg (codes "/tools/run") route
  unfolding serve_route
  tool_run-Behaves cfg route on (runner, built, same, made) r e w = rw made (
      permitted cfg r w
        (serve_route
          (tool_run (
            configured (new_policy cfg.sandbox.tools.allow cfg.sandbox.tools.deny) runner
              (some (codes "tools"))))
          r w).1
        runner r.tool on same e refl
        (status_commands _ _ ∙ serve_http_commands _ runner _ r.method r.tool w))

  pub index_search-Behaves :
      (cfg : Config) (path : Text) (route : Route)
      → IsIndex cfg index_search route
      → Behaves cfg path route
  unfolding serve_route
  index_search-Behaves cfg path route (i, watched, made) r e w = rw made (
      inl (
        status_commands _ _
        ∙ (serve_search-OnlyRead (some i) _ r.method r.query r.raw_limit w).commands))

  pub index_reindex-Behaves :
      (cfg : Config) (path : Text) (route : Route)
      → IsIndex cfg index_reindex route
      → Behaves cfg path route
  unfolding serve_route
  index_reindex-Behaves cfg path route (i, watched, made) r e w = rw made (
      inl (
        status_commands _ _
        ∙ (serve_reindex-Keeps (Closed-commands IsTold w.commands) (some i) _ r.method).after w
            refl))
