-- ===== src/Gateway/Scheduled.antt =====
-- internal/gateway/gateway.go: the jobs that a server starts with.
use mouse.Config.{Config}
use mouse.Cron.{load_jobs, new as new_scheduler, CronConfig, Job, Scheduler}
use mouse.Cron.Ticks.{load_jobs-AsLoaded, AsLoaded, Loaded}
use mouse.Gateway.{
  add_tools, fixed_routes, add_webhook, add_index, add_scheduler, logged_failure, new_server,
  or_logged, panics, unless_panic, up, Boot, Route,
}
use mouse.Host.{Env, World}
use mouse.Host.Yields.{bind-Yields, if-Yields, pure-Yields, then-Yields, IfOk, Yields}
use mouse.Host.Action.{pure, Action}
use mouse.Indexer.Scan.{Hashing}
use mouse.Llm.{Client}
use mouse.Prelude.{codes, err, none, ok, some, Option, Result, Text}
use mouse.Prelude.Dict.{Dict}
use mouse.Sessions.{Store}
use mouse.Sqlite.Base.{nil_db, open_db, Db}
use mouse.Strings.{Unicode}
use mouse.Sqlite.Opening.{open_file}

-- Every job of the scheduler is ready.
abbrev pub Scheduled : Option (Scheduler × Dict Job) → Type 0
Scheduled none = Unit
Scheduled (some (s, jobs)) = Loaded jobs

abbrev pub BootScheduled : Boot → Type 0
BootScheduled (up s) = Scheduled s.scheduler
BootScheduled panics = Unit

module _ ⦃u : Unicode⦄ ⦃env : Env⦄ ⦃sha : Hashing⦄ where
  logged-IfOk {ι ℓ} :
      {A : Type ℓ} (P : A → Type ι) (logger : Option Text) (message : Text) (r : Result A)
      (w : World)
      → IfOk P r
      → IfOk P (logged_failure logger message r w).0
  unfolding logged_failure
  logged-IfOk P logger message (ok a) w h = h
  logged-IfOk P logger message (err e) w h = tt

  or_logged-Yields {ι ℓ} :
      {A : Type ℓ} (P : A → Type ι) (logger : Option Text) (message : Text) (m : Action A)
      → Yields P m
      → Yields P (or_logged logger message m)
  unfolding or_logged
  or_logged-Yields P logger message m h = record {
    holds = λ w. logged-IfOk P logger message (m w).0 (m w).1 (h.holds w);
  }

  abbrev MadeReady : Scheduler × Dict Job → Type 0
  MadeReady (s, jobs) = Loaded jobs

  Loaded-IfOk : (r : Result (Dict Job)) → AsLoaded r → IfOk Loaded r
  Loaded-IfOk (ok jobs) h = h
  Loaded-IfOk (err e) h = tt

  new-Yields :
      (cfg : CronConfig) (d : Db) (client : Client) (store : Store) (logger : Option Text)
      → Yields MadeReady (new_scheduler cfg d client store logger)
  unfolding new_scheduler
  new-Yields cfg nil_db client store logger = pure-Yields MadeReady (err _) tt
  new-Yields cfg open_db client store logger =
      let s : Scheduler = record {
        db = open_db;
        llm = client;
        sessions = store;
        logger = logger;
      } in
      if-Yields MadeReady cfg.enabled _ _
        (bind-Yields Loaded MadeReady (load_jobs s cfg.jobs) _
          (record { holds = λ w. Loaded-IfOk _ (load_jobs-AsLoaded s cfg.jobs w) })
          λ jobs h. pure-Yields MadeReady (ok (s, jobs)) h)
        (pure-Yields MadeReady (err (codes "cron: disabled")) tt)

  add_scheduler-Yields :
      (cfg : Config) (db : Db) (logger : Option Text)
      → Yields Scheduled (add_scheduler cfg db logger)
  unfolding add_scheduler
  add_scheduler-Yields cfg db logger = then-Yields Scheduled _ _ λ _.
      if-Yields Scheduled cfg.cron.enabled _ _
        (then-Yields Scheduled _ _ λ store.
          bind-Yields MadeReady Scheduled _ _
            (or_logged-Yields MadeReady logger _ _ (new-Yields cfg.cron db _ store _))
            λ made h. pure-Yields Scheduled (ok (some made)) h)
        (pure-Yields Scheduled (ok none) tt)

  unless_panic-Yields :
      (o : Option (Dict Route)) (next : Dict Route → Action Boot)
      → ((routes : Dict Route) → Yields BootScheduled (next routes))
      → Yields BootScheduled (unless_panic o next)
  unfolding unless_panic
  unless_panic-Yields none next go_on = pure-Yields BootScheduled (ok panics) tt
  unless_panic-Yields (some routes) next go_on = go_on routes

  -- A server that starts has only jobs whose schedules parse, each with a time.
  pub new_server-Scheduled :
      (cfg : Config) (logger : Option Text) → Yields BootScheduled (new_server cfg logger)
  unfolding new_server
  new_server-Scheduled cfg logger =
      then-Yields BootScheduled
        (or_logged logger (codes "sqlite init failed") (open_file cfg.index.sqlite_path)) _
        λ db. then-Yields BootScheduled (add_webhook cfg db logger fixed_routes) _ λ o₁.
          unless_panic-Yields o₁ _ λ routes₁.
            then-Yields BootScheduled (add_tools cfg logger routes₁) _ λ o₂.
              unless_panic-Yields o₂ _ λ routes₂.
                bind-Yields Scheduled BootScheduled (add_scheduler cfg db logger) _
                  (add_scheduler-Yields cfg db logger)
                  λ made h.
                    then-Yields BootScheduled (add_index cfg db logger routes₂)
                      (λ o.
                        unless_panic o
                          λ routes. pure (up (record { routes = routes; scheduler = made })))
                      λ o₃. unless_panic-Yields o₃ _ λ routes₃.
                        pure-Yields BootScheduled
                          (ok (up (record { routes = routes₃; scheduler = made }))) h
