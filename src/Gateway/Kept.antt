-- ===== src/Gateway/Kept.antt =====
-- internal/gateway/gateway.go: what the start of a server and its requests keep.
use mouse.Orchestrator.{llm_config}
use mouse.Orchestrator.Kept.{new-Keeps as new_orchestrator-Keeps}
use mouse.Cron.{new as new_scheduler}
use mouse.Cron.Kept.{new-Keeps as new_scheduler-Keeps}
use mouse.Llm.{new as new_client}
use mouse.Sandbox.{new as new_runner}
use mouse.Indexer.Scan.{Hashing, new as new_indexer}
use mouse.Config.{Config}
use mouse.Host.{Env, World}
use mouse.Strings.{Unicode}
use mouse.Effects.{log-Keeps, Closed}
use mouse.Indexer.Scan.Kept.{IsTold}
use mouse.Gateway.{
  up, tool_handler, fixed_routes, register_index, tool_run, webhook_handler, register, webhook,
  Boot, Route, warn_cron_client, add_tools, logged_failure, add_scheduler, add_webhook, or_logged,
  new_server, add_index, unless_panic,
}
use mouse.Prelude.{is_empty, none, err, some, codes, not, ok, Result, Text, Option}
use mouse.Sqlite.Base.{Db}
use mouse.Prelude.Dict.{Dict}
use mouse.Host.Keeps.{if-Keeps, bind-Keeps, pure-Keeps, Keeps}
use mouse.Host.Action.{Action}
use mouse.Gateway.Settings.{webhook_on}
use mouse.Sqlite.Opening.{open_file}
use mouse.Sessions.{new_store}
use mouse.Sqlite.Opening.Kept.{open_file-Keeps}

module _ {ι} {I : World → Type ι} ⦃u : Unicode⦄ ⦃env : Env⦄ ⦃sha : Hashing⦄
    (c : Closed IsTold I) where
  logged-Keeps {ℓ} :
      {A : Type ℓ} (logger : Option Text) (message : Text) (r : Result A)
      → Keeps I (logged_failure logger message r)
  unfolding logged_failure
  logged-Keeps logger message (ok a) = pure-Keeps _
  logged-Keeps logger message (err e) = record {
    after = λ w h. (log-Keeps c logger _ _ _).after w h;
  }

  or_logged-Keeps {ℓ} :
      {A : Type ℓ} (logger : Option Text) (message : Text) (m : Action A)
      → Keeps I m
      → Keeps I (or_logged logger message m)
  unfolding or_logged
  or_logged-Keeps logger message m k = record {
    after = λ w h. (logged-Keeps logger message (m w).0).after (m w).1 (k.after w h);
  }

  unless_panic-Keeps :
      (o : Option (Dict Route)) (next : Dict Route → Action Boot)
      → ((routes : Dict Route) → Keeps I (next routes))
      → Keeps I (unless_panic o next)
  unfolding unless_panic
  unless_panic-Keeps none next k = pure-Keeps _
  unless_panic-Keeps (some routes) next k = k routes

  add_webhook-Keeps :
      (cfg : Config) (db : Db) (logger : Option Text) (routes : Dict Route)
      → Keeps I (add_webhook cfg db logger routes)
  unfolding add_webhook
  add_webhook-Keeps cfg db logger routes =
      if-Keeps (webhook_on cfg) _ _
        (bind-Keeps _ _
          (or_logged-Keeps logger (codes "orchestrator init failed") _
            (new_orchestrator-Keeps c cfg db (some (codes "orchestrator"))))
          λ o.
            pure-Keeps
              (ok (register cfg.telegram.webhook.path (webhook (webhook_handler cfg o)) routes)))
        (pure-Keeps (ok (some routes)))

  add_tools-Keeps :
      (cfg : Config) (logger : Option Text) (routes : Dict Route)
      → Keeps I (add_tools cfg logger routes)
  unfolding add_tools
  add_tools-Keeps cfg logger routes =
      if-Keeps cfg.sandbox.enabled _ _
        (bind-Keeps _ _
          (or_logged-Keeps logger (codes "sandbox init failed") (λ w. (new_runner cfg.sandbox, w))
            (pure-Keeps _))
          λ runner.
            pure-Keeps
              (ok (register (codes "/tools/run") (tool_run (tool_handler cfg runner)) routes)))
        (pure-Keeps (ok (some routes)))

  warn_cron_client-Keeps : (logger e : Option Text) → Keeps I (warn_cron_client logger e)
  unfolding warn_cron_client
  warn_cron_client-Keeps logger none = pure-Keeps _
  warn_cron_client-Keeps logger (some e) = log-Keeps c logger _ _ _

  add_scheduler-Keeps :
      (cfg : Config) (db : Db) (logger : Option Text) → Keeps I (add_scheduler cfg db logger)
  unfolding add_scheduler
  add_scheduler-Keeps cfg db logger =
      let built = new_client (llm_config cfg.llm) (some (codes "cron-llm")) in
      bind-Keeps (warn_cron_client logger built.1) _ (warn_cron_client-Keeps logger built.1) λ _.
        if-Keeps cfg.cron.enabled _ _
          (bind-Keeps _ _
            (or_logged-Keeps logger (codes "cron session store init failed")
              (λ w. (new_store cfg.sessions.dir, w)) (pure-Keeps _))
            λ store.
              bind-Keeps _ _
                (or_logged-Keeps logger (codes "cron init failed")
                  (new_scheduler cfg.cron db built.0 store (some (codes "cron")))
                  (new_scheduler-Keeps c cfg.cron db built.0 store (some (codes "cron"))))
                λ made. pure-Keeps (ok (some made)))
          (pure-Keeps (ok none))

  add_index-Keeps :
      (cfg : Config) (db : Db) (logger : Option Text) (routes : Dict Route)
      → Keeps I (add_index cfg db logger routes)
  unfolding add_index
  add_index-Keeps cfg db logger routes =
      if-Keeps (not (is_empty cfg.index.watch_paths)) _ _
        (bind-Keeps _ _
          (or_logged-Keeps logger (codes "indexer init failed")
            (λ w. (new_indexer cfg.index.watch_paths db (some (codes "indexer")), w))
            (pure-Keeps _))
          λ i. pure-Keeps (ok (register_index i routes)))
        (pure-Keeps (ok (some routes)))

  pub new_server-Keeps : (cfg : Config) (logger : Option Text) → Keeps I (new_server cfg logger)
  unfolding new_server
  new_server-Keeps cfg logger =
      bind-Keeps _ _
        (or_logged-Keeps logger (codes "sqlite init failed") (open_file cfg.index.sqlite_path)
          (open_file-Keeps c cfg.index.sqlite_path))
        λ db.
          bind-Keeps (add_webhook cfg db logger fixed_routes) _
            (add_webhook-Keeps cfg db logger fixed_routes)
            λ o₁. unless_panic-Keeps o₁ _ λ routes₁.
              bind-Keeps (add_tools cfg logger routes₁) _ (add_tools-Keeps cfg logger routes₁) λ o₂.
                unless_panic-Keeps o₂ _ λ routes₂.
                  bind-Keeps (add_scheduler cfg db logger) _ (add_scheduler-Keeps cfg db logger)
                    λ scheduler.
                      bind-Keeps (add_index cfg db logger routes₂) _
                        (add_index-Keeps cfg db logger routes₂)
                        λ o₃. unless_panic-Keeps o₃ _ λ routes₃.
                          pure-Keeps (ok (up (record { routes = routes₃; scheduler = scheduler })))
