-- ===== src/Gateway/Settings.antt =====
-- internal/gateway/gateway.go: the routes that a configuration calls for, with their settings.
use mouse.Gateway.Plan.{Planned}
use mouse.Config.{Config}
use mouse.Sandbox.{new as new_runner}
use mouse.Prelude.{
  ok, is_empty, ◌&&◌, not, codes, if◌then◌else◌, text_eq, some, [], ◌∷◌, Option, Bool, ◌≡◌, ◌++◌,
  Text, List,
}
use mouse.Gateway.{tool_run, index_reindex, index_search, webhook, health, approvals, Route}
use mouse.Strings.{Unicode}
use mouse.Host.{Env}
use mouse.Orchestrator.{process, Orchestrator}
use mouse.Sandbox.{Runner}
use mouse.Indexer.Scan.{Indexer}
use mouse.Tools.Policy.{new_policy}
use mouse.Sqlite.Base.{open_db}
use mouse.Orchestrator.Built.{AsConfigured}

module _ ⦃u : Unicode⦄ ⦃env : Env⦄ where
  -- The settings that a route is made with.
  abbrev pub IsHealth : Route → Type 0
  IsHealth route = route ≡ health

  abbrev pub IsApprovals : Route → Type 0
  IsApprovals route = route ≡ approvals (some (codes "approvals"))

  abbrev pub IsWebhook : Config → Route → Type 0
  IsWebhook cfg route =
      (o : Orchestrator) × AsConfigured cfg (some (codes "orchestrator")) o
      × route
        ≡ webhook (record {
          cfg = record {
            allow_from = cfg.telegram.allow_from;
            secret_token = cfg.telegram.webhook.secret;
            require_webhook = cfg.telegram.webhook.enabled;
          };
          logger = codes "telegram";
          proc = some (process o);
        })

  abbrev pub IsToolRun : Config → Route → Type 0
  IsToolRun cfg route =
      (runner : Runner) × (new_runner cfg.sandbox ≡ ok runner)
      × (runner.cfg ≡ cfg.sandbox)
      × (route
          ≡ tool_run (record {
            policy = some (new_policy cfg.sandbox.tools.allow cfg.sandbox.tools.deny);
            runner = some runner;
            logger = some (codes "tools");
          }))

  abbrev pub IsIndex : Config → (Option Indexer → Option Text → Route) → Route → Type 0
  IsIndex cfg made route =
      (i : Indexer) × (i
        ≡ record { watch = cfg.index.watch_paths; db = open_db; logger = some (codes "indexer") })
      × (route ≡ made (some i) (some (codes "indexer-http")))

  abbrev pub planned : Bool → List Planned → List Planned
  planned on ps = if on then ps else []

  -- What the configuration calls for, in the order of registration.
  abbrev pub webhook_route : Config → Planned
  webhook_route cfg = record { path = cfg.telegram.webhook.path; serves = IsWebhook cfg }

  abbrev pub webhook_on : Config → Bool
  webhook_on cfg = cfg.telegram.enabled && not (text_eq cfg.telegram.webhook.path [])

  abbrev pub plan_webhook : Config → List Planned
  plan_webhook cfg = planned (webhook_on cfg) (webhook_route cfg ∷ [])

  abbrev pub tools_route : Config → Planned
  tools_route cfg = record { path = codes "/tools/run"; serves = IsToolRun cfg }

  abbrev pub plan_tools : Config → List Planned
  plan_tools cfg = planned cfg.sandbox.enabled (tools_route cfg ∷ [])

  abbrev pub search_route : Config → Planned
  search_route cfg = record { path = codes "/index/search"; serves = IsIndex cfg index_search }

  abbrev pub reindex_route : Config → Planned
  reindex_route cfg = record { path = codes "/index/reindex"; serves = IsIndex cfg index_reindex }

  abbrev pub index_routes : Config → List Planned
  index_routes cfg = search_route cfg ∷ reindex_route cfg ∷ []

  abbrev pub plan_index : Config → List Planned
  plan_index cfg = planned (not (is_empty cfg.index.watch_paths)) (index_routes cfg)

  abbrev pub fixed_plan : List Planned
  fixed_plan =
      record { path = codes "/health"; serves = IsHealth }
      ∷ record { path = codes "/approvals/submit"; serves = IsApprovals }
      ∷ []

  abbrev pub plan : Config → List Planned
  plan cfg = ((fixed_plan ++ plan_webhook cfg) ++ plan_tools cfg) ++ plan_index cfg
