-- ===== src/Gateway.antt =====
-- internal/gateway/gateway.go: the server's parts, its routes, and the requests it serves.
pub mod Plan
pub mod Settings
pub mod Routes
pub mod Promises
pub mod Kept
pub mod Requests
pub mod Served
pub mod Commands
pub mod Scheduled
use mouse.Config.{Config}
use mouse.Approvals.{serve_http as approvals_http}
use mouse.Cron.{Job, Scheduler, new as new_scheduler}
use mouse.Indexer.Scan.{Indexer, Hashing, new as new_indexer}
use mouse.Llm.{new as new_client}
use mouse.Orchestrator.{llm_config, Orchestrator, new as new_orchestrator, process}
use mouse.Sandbox.{Runner, new as new_runner}
use mouse.Telegram.Handler.{Handler as TelegramHandler, WebhookRequest, serve_http as telegram_http}
use mouse.Tools.Handler.{Handler as ToolsHandler, ToolRequest, serve_http as tools_http}
use mouse.Strings.{Unicode}
use mouse.Prelude.{
  map, ◌||◌, not, is_empty, ◌&&◌, ◌∷◌, none, [], err, text_eq, ok, some, ℕ, codes, Result,
  if◌then◌else◌, Option, Text,
}
use mouse.Prelude.Dict.{has, Dict, lookup, insert}
use mouse.Host.{World, Env}
use mouse.Host.Action.{◌>>◌, log, ◌>>=◌, pure, update, Action}
use mouse.Tools.Policy.{new_policy}
use mouse.Telegram.Allow.{Update}
use mouse.Host.Http.{status_ok}
use mouse.Sqlite.Base.{Db}
use mouse.Sqlite.Opening.{open_file}
use mouse.Indexer.Handlers.{serve_reindex, serve_search}
use mouse.Sessions.{new_store}

-- What is registered with the mux.
pub data Route : Type 0 where
  health : Route
  approvals : Option Text → Route
  webhook : TelegramHandler → Route
  tool_run : ToolsHandler → Route
  index_search : Option Indexer → Option Text → Route
  index_reindex : Option Indexer → Option Text → Route

-- `Server`, with the scheduler that it starts.
pub record Server : Type 0 where
  pub routes : Dict Route
  pub scheduler : Option (Scheduler × Dict Job)

-- `NewServer` returns a server, or a registration panics.
pub data Boot : Type 0 where
  up : Server → Boot
  panics : Boot

-- `mux.Handle`: a pattern that is registered already panics, and so does one that the mux refuses.
unfoldable pub register : ⦃env : Env⦄ → Text → Route → Dict Route → Option (Dict Route)
unfolding lookup insert
register ⦃env⦄ path route routes =
    if has path routes || env.refuses (map (λ e. e.0) routes) path
    then none
    else some (insert path route routes)

-- A failure is logged and returned.
logged_failure {ℓ} : {A : Type ℓ} → Option Text → Text → Result A → Action A
logged_failure logger message (ok a) w = (ok a, w)
logged_failure logger message (err e) w =
    (err e, (log logger (codes "error") message ((codes "error", e) ∷ []) w).1)

or_logged {ℓ} : {A : Type ℓ} → Option Text → Text → Action A → Action A
unfolding logged_failure
or_logged logger message m w = logged_failure logger message (m w).0 (m w).1

fixed_routes : Dict Route
unfolding insert
fixed_routes =
    insert (codes "/approvals/submit") (approvals (some (codes "approvals")))
      (insert (codes "/health") health [])

-- What comes next, unless the registration panicked.
unless_panic : Option (Dict Route) → (Dict Route → Action Boot) → Action Boot
unless_panic none next = pure panics
unless_panic (some routes) next = next routes

module _ ⦃u : Unicode⦄ ⦃env : Env⦄ where
  webhook_handler : Config → Orchestrator → TelegramHandler
  webhook_handler cfg o = record {
    cfg = record {
      allow_from = cfg.telegram.allow_from;
      secret_token = cfg.telegram.webhook.secret;
      require_webhook = cfg.telegram.webhook.enabled;
    };
    logger = codes "telegram";
    proc = some (process o);
  }

  add_webhook : Config → Db → Option Text → Dict Route → Action (Option (Dict Route))
  unfolding register or_logged text_eq webhook_handler
  add_webhook cfg db logger routes =
      if cfg.telegram.enabled && not (text_eq cfg.telegram.webhook.path [])
      then (do
        o ←
            or_logged logger (codes "orchestrator init failed")
              (new_orchestrator cfg db (some (codes "orchestrator")))
        pure (register cfg.telegram.webhook.path (webhook (webhook_handler cfg o)) routes))
      else pure (some routes)

  tool_handler : Config → Runner → ToolsHandler
  unfolding new_policy
  tool_handler cfg runner = record {
    policy = some (new_policy cfg.sandbox.tools.allow cfg.sandbox.tools.deny);
    runner = some runner;
    logger = some (codes "tools");
  }

  add_tools : Config → Option Text → Dict Route → Action (Option (Dict Route))
  unfolding register or_logged tool_handler
  add_tools cfg logger routes =
      if cfg.sandbox.enabled
      then (do
        runner ← or_logged logger (codes "sandbox init failed") (λ w. (new_runner cfg.sandbox, w))
        pure (register (codes "/tools/run") (tool_run (tool_handler cfg runner)) routes))
      else pure (some routes)

  warn_cron_client : Option Text → Option Text → Action (Unit {0})
  warn_cron_client logger none = pure tt
  warn_cron_client logger (some e) =
      log logger (codes "warn") (codes "cron llm init failed") ((codes "error", e) ∷ [])

  -- The scheduler; `llm.New` always returns a client.
  add_scheduler : Config → Db → Option Text → Action (Option (Scheduler × Dict Job))
  unfolding or_logged warn_cron_client
  add_scheduler cfg db logger = do
    let built = new_client (llm_config cfg.llm) (some (codes "cron-llm"))
    warn_cron_client logger built.1
    if cfg.cron.enabled
        then (do
          store ←
              or_logged logger (codes "cron session store init failed")
                (λ w. (new_store cfg.sessions.dir, w))
          made ←
              or_logged logger (codes "cron init failed")
                (new_scheduler cfg.cron db built.0 store (some (codes "cron")))
          pure (some made))
        else pure none

  -- The two routes of the index.
  add_reindex : Indexer → Option (Dict Route) → Option (Dict Route)
  unfolding register
  add_reindex i none = none
  add_reindex i (some routes) =
      register (codes "/index/reindex") (index_reindex (some i) (some (codes "indexer-http")))
        routes

  register_index : Indexer → Dict Route → Option (Dict Route)
  unfolding register add_reindex
  register_index i routes = add_reindex i (
      register (codes "/index/search") (index_search (some i) (some (codes "indexer-http"))) routes)

  add_index : Config → Db → Option Text → Dict Route → Action (Option (Dict Route))
  unfolding register_index or_logged
  add_index cfg db logger routes =
      if not (is_empty cfg.index.watch_paths)
      then (do
        i ←
            or_logged logger (codes "indexer init failed")
              (λ w. (new_indexer cfg.index.watch_paths db (some (codes "indexer")), w))
        pure (register_index i routes))
      else pure (some routes)

  -- `NewServer`; the goroutines that it starts are left out
  unfoldable pub new_server : Config → Option Text → Action Boot
  unfolding add_webhook add_tools add_scheduler add_index unless_panic fixed_routes
  new_server cfg logger = do
    db ← or_logged logger (codes "sqlite init failed") (open_file cfg.index.sqlite_path)
    with_webhook ← add_webhook cfg db logger fixed_routes
    unless_panic with_webhook λ routes₁. do
      with_tools ← add_tools cfg logger routes₁
      unless_panic with_tools λ routes₂. do
        scheduler ← add_scheduler cfg db logger
        with_index ← add_index cfg db logger routes₂
        unless_panic with_index
            λ routes₃. pure (up (record { routes = routes₃; scheduler = scheduler }))

-- A request, with its body as each handler reads it.
pub record HttpRequest : Type 0 where
  pub path : Text
  pub method : Text
  pub secret : Text
  pub remote : Text
  pub update : Result (Result Update)
  pub tool : Option ToolRequest
  pub approval : Option Text
  pub query : Text
  pub raw_limit : Text

module _ ⦃u : Unicode⦄ ⦃env : Env⦄ ⦃sha : Hashing⦄ where
  webhook_request : HttpRequest → WebhookRequest
  webhook_request r = record {
    method = r.method;
    secret = r.secret;
    remote = r.remote;
    body = r.update;
  }

  answering : (World → ℕ × World) → Action ℕ
  answering m w = (ok (m w).0, (m w).1)

  -- The status that a route answers with.
  unfoldable pub serve_route : Route → HttpRequest → Action ℕ
  unfolding webhook_request answering
  serve_route health r = pure status_ok
  serve_route (approvals logger) r = do
    answer ← approvals_http logger r.method r.approval
    pure answer.0
  serve_route (webhook h) r = answering (telegram_http h (webhook_request r))
  serve_route (tool_run h) r = do answer ← tools_http h r.method r.tool; pure answer.0
  serve_route (index_search i logger) r = do
    answer ← serve_search i logger r.method r.query r.raw_limit
    pure answer.0
  serve_route (index_reindex i logger) r = do
    answer ← serve_reindex i logger r.method
    pure answer.0

  -- A path without a route is not found.
  serve_found : Option Route → HttpRequest → Action ℕ
  unfolding serve_route
  serve_found none r = pure 404
  serve_found (some route) r = serve_route route r

  -- `Handler().ServeHTTP`: the mux, for patterns that are plain paths and a path that is already
  -- clean
  unfoldable pub serve : Server → HttpRequest → Action ℕ
  unfolding serve_found lookup
  serve s r = serve_found (lookup r.path s.routes) r
