-- ===== src/System/Safe.antt =====
-- What holds of a running server at any time.
use mathlib.Core.List.Permᴰ.{Permᴰ}
use mathlib.Core.Path.{subst}
use mouse.Config.{Config}
use mouse.Cron.{tick, Job}
use mouse.Cron.Ticks.{tick-Resting, IsReady, Loaded, Resting}
use mouse.Cron.Kept.{tick-after}
use mouse.Effects.{Closed-commands}
use mouse.Gateway.{new_server, serve, up, HttpRequest, Server}
use mouse.Gateway.Commands.{serve_commands}
use mouse.Gateway.Kept.{new_server-Keeps}
use mouse.Gateway.Plan.{Matches}
use mouse.Gateway.Requests.{RunsPermitted}
use mouse.Gateway.Routes.{new_server-AsPlanned, AsPlanned}
use mouse.Gateway.Scheduled.{new_server-Scheduled, BootScheduled, Scheduled}
use mouse.Gateway.Served.{serve-Keeps}
use mouse.Gateway.Settings.{plan}
use mouse.Host.{Env, World}
use mouse.Host.Yields.{IfOk}
use mouse.Indexer.Scan.{Hashing}
use mouse.Indexer.Scan.Kept.{IsTold}
use mouse.Indexer.Ticks.{first_scan, tick_scan, first_scan-after, tick_scan-after}
use mouse.Prelude.{
  refl, ok, some, none, sym, true, All, All-append, [], ◌∷◌, ◌≡◌, inl, inr, codes, List, Option,
  Text,
}
use mouse.Prelude.Dict.{Dict}
use mouse.Sandbox.{build_docker_args}
use mouse.Strings.{Unicode}
use mouse.System.{loaded_jobs, running, Reach, Running, Step}
use mouse.System.Tables.{Closed-IsConsistent, IsConsistent}
use mouse.Tools.Policy.{allowed, new_policy}

-- A process that the configuration allows: `docker` with the configured arguments, for a tool that
-- the sandbox's policy allows, in a sandbox that is on.
pub record IsAllowedRun ⦃u : Unicode⦄ (cfg : Config) (started : List Text) : Type 0 where
  pub sandbox_on : cfg.sandbox.enabled ≡ true
  pub tool : Text
  pub allowed_tool :
      allowed (some (new_policy cfg.sandbox.tools.allow cfg.sandbox.tools.deny)) tool ≡ true
  pub command : List Text
  pub in_docker : started ≡ codes "docker" ∷ build_docker_args cfg.sandbox.docker command

-- The routes are those of the configuration, the tables are consistent, every job has a schedule
-- that parses and a time, and every process that was started is an allowed one.
pub record IsSafe ⦃u : Unicode⦄ ⦃env : Env⦄ ⦃sha : Hashing⦄ (cfg : Config) (st : Running)
    : Type 0 where
  pub routes : Matches (plan cfg) st.server.routes
  pub tables : IsConsistent st.world.db
  pub jobs_ready : All IsReady st.jobs
  pub only_allowed : All (IsAllowedRun cfg) st.world.commands

module _ ⦃u : Unicode⦄ ⦃env : Env⦄ ⦃sha : Hashing⦄ (cfg : Config) where
  permitted_runs :
      (r : HttpRequest) (w w' : World)
      → RunsPermitted cfg r w w'
      → All (IsAllowedRun cfg) w.commands
      → All (IsAllowedRun cfg) w'.commands
  permitted_runs r w w' (inl same) h = subst (All (IsAllowedRun cfg)) (sym same) h
  permitted_runs r w w' (inr (command, permits, started)) h =
      subst (All (IsAllowedRun cfg)) (sym started) (
        All-append (IsAllowedRun cfg) w.commands _ h (
          record {
            sandbox_on = permits.sandbox_on;
            tool = permits.tool;
            allowed_tool = permits.allowed_tool;
            command = command;
            in_docker = refl;
          },
          tt,
        ))

  -- A step that starts no process.
  unstarted :
      (w w' : World)
      → w'.commands ≡ w.commands
      → All (IsAllowedRun cfg) w.commands
      → All (IsAllowedRun cfg) w'.commands
  unstarted w w' same h = subst (All (IsAllowedRun cfg)) (sym same) h

  All-perm : (jobs order : List Job) → Permᴰ jobs order → All IsReady jobs → All IsReady order
  All-perm _ _ Permᴰ.nil h = h
  All-perm _ _ (Permᴰ.cons same rest) (first, h) = (subst IsReady same first, All-perm _ _ rest h)
  All-perm _ _ (Permᴰ.swap e f) (first, (second, h)) =
      (subst IsReady f second, (subst IsReady e first, h))
  All-perm _ _ (Permᴰ.trans p q) h = All-perm _ _ q (All-perm _ _ p h)

  ready : (now : _) (jobs : List Job) → All (Resting now) jobs → All IsReady jobs
  ready now [] h = tt
  ready now (job ∷ jobs) (first, h) = (first.0, ready now jobs h)

  Step-IsSafe : {st st' : Running} → Step st st' → IsSafe cfg st → IsSafe cfg st'
  Step-IsSafe (Step.served st r) h = record {
    routes = h.routes;
    tables =
        (serve-Keeps Closed-IsConsistent (λ w command k. k) cfg st.server r h.routes).after st.world
          h.tables;
    jobs_ready = h.jobs_ready;
    only_allowed =
        permitted_runs r st.world (serve st.server r st.world).1
          (serve_commands cfg st.server r st.world h.routes) h.only_allowed;
  }
  Step-IsSafe (Step.ticked st s jobs order on p) h = record {
    routes = h.routes;
    tables = tick-after Closed-IsConsistent s order st.world h.tables;
    jobs_ready = ready _ _ (tick-Resting s order st.world (All-perm st.jobs order p h.jobs_ready));
    only_allowed =
        unstarted st.world (tick s order st.world).1
          (tick-after (Closed-commands IsTold st.world.commands) s order st.world refl)
          h.only_allowed;
  }
  Step-IsSafe (Step.indexing st i made) h = record {
    routes = h.routes;
    tables = first_scan-after Closed-IsConsistent i st.world h.tables;
    jobs_ready = h.jobs_ready;
    only_allowed =
        unstarted st.world (first_scan i st.world)
          (first_scan-after (Closed-commands IsTold st.world.commands) i st.world refl)
          h.only_allowed;
  }
  Step-IsSafe (Step.scanned st i made) h = record {
    routes = h.routes;
    tables = tick_scan-after Closed-IsConsistent i st.world h.tables;
    jobs_ready = h.jobs_ready;
    only_allowed =
        unstarted st.world (tick_scan i st.world)
          (tick_scan-after (Closed-commands IsTold st.world.commands) i st.world refl)
          h.only_allowed;
  }
  Step-IsSafe (Step.edited st files) h = record {
    routes = h.routes;
    tables = h.tables;
    jobs_ready = h.jobs_ready;
    only_allowed = h.only_allowed;
  }

  Reach-IsSafe : {start st : Running} → Reach start st → IsSafe cfg start → IsSafe cfg st
  Reach-IsSafe Reach.here h = h
  Reach-IsSafe (Reach.next before step) h = Step-IsSafe step (Reach-IsSafe before h)

  Scheduled-loaded_jobs :
      (scheduler : _) → Scheduled scheduler → All IsReady (loaded_jobs scheduler)
  Scheduled-loaded_jobs none h = tt
  Scheduled-loaded_jobs (some (s, jobs)) h = values jobs h
    where
      values : (jobs : Dict Job) → Loaded jobs → All IsReady (loaded_jobs (some (s, jobs)))
      values [] h = tt
      values (entry ∷ jobs) (first, h) = (first, values jobs h)

  start-IsSafe :
      (logger : Option Text) (w₀ : World) (s : Server)
      → (new_server cfg logger w₀).0 ≡ ok (up s)
      → IsConsistent w₀.db
      → w₀.commands ≡ []
      → IsSafe cfg (running s (new_server cfg logger w₀).1)
  start-IsSafe logger w₀ s started consistent none_yet = record {
    routes = (subst (AsPlanned cfg) started (new_server-AsPlanned cfg logger w₀)).0;
    tables = (new_server-Keeps Closed-IsConsistent cfg logger).after w₀ consistent;
    jobs_ready =
        Scheduled-loaded_jobs s.scheduler
          (subst (IfOk BootScheduled) started ((new_server-Scheduled cfg logger).holds w₀));
    only_allowed =
        subst (All (IsAllowedRun cfg))
          (sym ((new_server-Keeps (Closed-commands IsTold []) cfg logger).after w₀ none_yet)) tt;
  }

  -- If `NewServer` returns a server, from consistent tables and before any process was started,
  -- then whatever requests, ticks of the scheduler, scans of the indexer and changes of the files
  -- follow, in whatever order and with whatever failures, the server has the routes of its
  -- configuration, the tables are consistent (messages numbered in the order of their insertion, no
  -- id of a job and no indexed path twice, every index entry with the hash and the words of its
  -- text), every job has a schedule that parses and a time, and every process started is `docker`
  -- with the configured arguments, for a tool that the policy allows, with the sandbox on.
  pub new_server-IsSafe :
      (logger : Option Text) (w₀ : World) (s : Server) (st : Running)
      → (new_server cfg logger w₀).0 ≡ ok (up s)
      → IsConsistent w₀.db
      → w₀.commands ≡ []
      → Reach (running s (new_server cfg logger w₀).1) st
      → IsSafe cfg st
  new_server-IsSafe logger w₀ s st started consistent none_yet reached =
      Reach-IsSafe reached (start-IsSafe logger w₀ s started consistent none_yet)
