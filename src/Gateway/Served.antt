-- ===== src/Gateway/Served.antt =====
-- internal/gateway/gateway.go: what the requests to a server keep, if the start of a process keeps it.
use mouse.Config.{Config}
use mouse.Strings.{Unicode}
use mouse.Host.{World, Env}
use mouse.Effects.{Closed}
use mouse.Host.Keeps.{Keeps, bind-Keeps, pure-Keeps}
use mouse.Host.Action.{◌>>=◌, Action}
use mouse.Indexer.Scan.{Hashing}
use mouse.Indexer.Scan.Kept.{IsTold}
use mouse.Indexer.Handlers.Kept.{serve_search-Keeps, serve_reindex-Keeps}
use mouse.Tools.Handler.Kept.{serve_http-Keeps as tools-Keeps}
use mouse.Telegram.Handler.Kept.{serve_http-after as telegram-after}
use mouse.Approvals.Kept.{serve_http-Keeps as approvals-Keeps}
use mouse.Orchestrator.{process}
use mouse.Orchestrator.Kept.{process-after}
use mouse.Gateway.{
  serve_found, serve_route, serve, HttpRequest, Server, Route, webhook_request, answering, health,
  approvals, index_search, index_reindex,
}
use mouse.Gateway.Settings.{IsWebhook, IsToolRun, IsIndex, plan}
use mouse.Gateway.Plan.{Matches}
use mouse.Gateway.Promises.{Routewise, OfFound, found-OfFound}
use mouse.Prelude.{codes, none, some, ok, ◌++◌, ◌∷◌, [], ℕ, Option, Text, List}
use mouse.Prelude.Dict.{lookup}

module _ {ι} {I : World → Type ι} ⦃u : Unicode⦄ ⦃env : Env⦄ ⦃sha : Hashing⦄ (c : Closed IsTold I)
    (ran : (w : World) (command : List Text)
      → I w
      → I (record w { commands = w.commands ++ command ∷ [] })) where
  abbrev Serves : Text → Route → Type ι
  Serves path route = (r : HttpRequest) → Keeps I (serve_route route r)

  status-Keeps {ℓ} :
      {B : Type ℓ} (m : Action (ℕ × B)) → Keeps I m → Keeps I (m >>= λ answer w. (ok answer.0, w))
  status-Keeps m k = bind-Keeps m _ k λ answer. pure-Keeps (ok answer.0)

  webhook-Serves :
      (cfg : Config) (path : Text) (route : Route) → IsWebhook cfg route → Serves path route
  unfolding serve_route answering webhook_request
  webhook-Serves cfg path route (o, configured, made) r = rw made (record {
    after = λ w h.
        telegram-after c
          (record {
            cfg = record {
              allow_from = cfg.telegram.allow_from;
              secret_token = cfg.telegram.webhook.secret;
              require_webhook = cfg.telegram.webhook.enabled;
            };
            logger = codes "telegram";
            proc = none;
          })
          (process o) (process-after c o) (webhook_request r) w h;
  })

  health-Serves : (path : Text) → Serves path health
  unfolding serve_route
  health-Serves path r = pure-Keeps _

  approvals-Serves : (path : Text) (logger : Option Text) → Serves path (approvals logger)
  unfolding serve_route
  approvals-Serves path logger r = status-Keeps _ (approvals-Keeps c logger r.method r.approval)

  tool_run-Serves :
      (cfg : Config) (path : Text) (route : Route) → IsToolRun cfg route → Serves path route
  unfolding serve_route
  tool_run-Serves cfg path route (runner, built, same, made) r =
      rw made (status-Keeps _ (tools-Keeps c ran _ r.method r.tool))

  search-Serves :
      (cfg : Config) (path : Text) (route : Route)
      → IsIndex cfg index_search route
      → Serves path route
  unfolding serve_route
  search-Serves cfg path route (i, watched, made) r =
      rw made (status-Keeps _ (serve_search-Keeps c (some i) _ r.method r.query r.raw_limit))

  reindex-Serves :
      (cfg : Config) (path : Text) (route : Route)
      → IsIndex cfg index_reindex route
      → Serves path route
  unfolding serve_route
  reindex-Serves cfg path route (i, watched, made) r =
      rw made (status-Keeps _ (serve_reindex-Keeps c (some i) _ r.method))

  serving : (cfg : Config) → Routewise cfg Serves
  serving cfg = record {
    health = λ path route made. rw made (health-Serves path);
    approvals = λ path route made. rw made (approvals-Serves path _);
    webhook = webhook-Serves cfg;
    tool_run = λ route on. tool_run-Serves cfg (codes "/tools/run") route;
    search = search-Serves cfg;
    reindex = reindex-Serves cfg;
  }

  found-Keeps :
      (cfg : Config) (r : HttpRequest) (found : Option Route)
      → OfFound cfg Serves r.path found
      → Keeps I (serve_found found r)
  unfolding serve_found
  found-Keeps cfg r none h = pure-Keeps _
  found-Keeps cfg r (some route) h = h r

  pub serve-Keeps :
      (cfg : Config) (s : Server) (r : HttpRequest)
      → Matches (plan cfg) s.routes
      → Keeps I (serve s r)
  unfolding serve
  serve-Keeps cfg s r m =
      found-Keeps cfg r (lookup r.path s.routes)
        (found-OfFound cfg Serves r.path s.routes (serving cfg) m)
