-- ===== src/Cron/Kept.antt =====
-- internal/cron/cron.go: what the scheduler keeps.
use mouse.Cron.{rescheduled, new}
use mouse.Host.Rows.{CronRow, IndexEntry}
use mouse.Host.{Env, World}
use mouse.Effects.{read_clock-Keeps, timestamp-Keeps, log-Keeps, Closed}
use mouse.Strings.{trim_space, is_blank, Unicode}
use mouse.Cron.{
  is_due, Job, CronConfig, CronJob, load_jobs, job_error, tick_job, Scheduler, tick, tick_jobs,
  load_from, run_job, or_log, load_job, new, reschedule, run_prompt, step,
}
use mouse.Sqlite.CronJobs.{write_cron_job, upsert_cron_job}
use mouse.Sqlite.Base.{change_db, open_db, nil_db, Db, guarded}
use mouse.Prelude.{
  true, if◌then◌else◌, inl, ok, inr, text_eq, [], codes, err, Result, Bool-cases, ◌∷◌, Bool, Text,
  List, ℕ, Option,
}
use mouse.Host.Action.{read_clock, timestamp, count_call, Action}
use mouse.Prelude.Dict.{insert, Dict}
use mouse.Host.Keeps.{writing-Keeps, wrap-Keeps, bind-Keeps, if-Keeps, pure-Keeps, Keeps}
use mouse.Llm.{Client}
use mouse.Sessions.Kept.{append-Keeps}
use mouse.Sessions.{Store}
use mouse.Cron.Times.{next, parse_schedule, Schedule}
use mouse.Orchestrator.Kept.{append_session_message-Keeps}
use mouse.Llm.Kept.{complete_prompt-Keeps}

module _ {ι} {Told : IndexEntry → Type 0} {I : World → Type ι} (c : Closed Told I) ⦃u : Unicode⦄
    ⦃env : Env⦄ where
  or_log-Keeps {ℓ} :
      {A : Type ℓ} (logger : Option Text) (message : Text) (job : Job)
      (more : A → Action (Unit {0})) (r : Result A)
      → ((a : A) → Keeps I (more a))
      → Keeps I (or_log logger message job more r)
  unfolding or_log job_error
  or_log-Keeps logger message job more (err e) k = log-Keeps c logger _ _ _
  or_log-Keeps logger message job more (ok a) k = k a

  step-Keeps {ℓ} :
      {A : Type ℓ} (logger : Option Text) (message : Text) (job : Job) (m : Action A)
      (more : A → Action (Unit {0}))
      → Keeps I m
      → ((a : A) → Keeps I (more a))
      → Keeps I (step logger message job m more)
  unfolding step
  step-Keeps logger message job m more k l = record {
    after = λ w h. (or_log-Keeps logger message job more (m w).0 l).after (m w).1 (k.after w h);
  }

  run_prompt-Keeps : (s : Scheduler) (job : Job) (prompt : Text) → Keeps I (run_prompt s job prompt)
  unfolding run_prompt
  run_prompt-Keeps s job prompt =
      step-Keeps s.logger _ job _ _ (append-Keeps c s.sessions job.session (codes "system") prompt)
        λ _.
          step-Keeps s.logger _ job _ _
            (append_session_message-Keeps c s.db job.session (codes "system") prompt)
            λ _. step-Keeps s.logger _ job _ _ (complete_prompt-Keeps c s.llm prompt) λ response.
              step-Keeps s.logger _ job _ _
                (append-Keeps c s.sessions job.session (codes "assistant") response)
                λ _.
                  step-Keeps s.logger _ job _ _
                    (append_session_message-Keeps c s.db job.session (codes "assistant") response)
                    λ _. log-Keeps c s.logger _ _ _

  run_job-Keeps : (s : Scheduler) (job : Job) → Keeps I (run_job s job)
  unfolding run_job
  run_job-Keeps s job =
      if-Keeps (text_eq (trim_space job.prompt) []) _ _ (pure-Keeps _)
        (run_prompt-Keeps s job (trim_space job.prompt))

  rescheduled-after :
      (s : Scheduler) (now : ℕ) (job : Job) (parsed : Result Schedule) (w : World)
      → I w
      → I (rescheduled s now job parsed w).1
  unfolding rescheduled job_error
  rescheduled-after s now job (err e) w h = (log-Keeps c s.logger _ _ _).after w h
  rescheduled-after s now job (ok sched) w h = h

  tick_jobs-after :
      (s : Scheduler) (now : ℕ) (jobs : List Job) (w : World) → I w → I (tick_jobs s now jobs w).1
  unfolding tick_jobs tick_job reschedule
  tick_jobs-after s now [] w h = h
  tick_jobs-after s now (job ∷ jobs) w h = elim (Bool-cases (is_due now job)) [
    | inr early ↦ rw early (tick_jobs-after s now jobs w h)
    | inl due ↦ rw due (
        tick_jobs-after s now jobs _ (
          rescheduled-after s now job (parse_schedule job.schedule) _
            ((run_job-Keeps s job).after w h)))
  ]

  pub tick-after : (s : Scheduler) (jobs : List Job) (w : World) → I w → I (tick s jobs w).1
  unfolding tick
  tick-after s [] w h = h
  tick-after s (job ∷ jobs) w h =
      tick_jobs-after s (env.now w.calls) (job ∷ jobs) (count_call w) (c.called w h)

  upsert_cron_job-Keeps :
      (d : Db) (id schedule session prompt : Text) (enabled : Bool)
      → Keeps I (upsert_cron_job d id schedule session prompt enabled)
  unfolding upsert_cron_job guarded
  upsert_cron_job-Keeps nil_db id schedule session prompt enabled = pure-Keeps _
  upsert_cron_job-Keeps open_db id schedule session prompt enabled =
      if-Keeps (is_blank id) _ _ (pure-Keeps _) (
        bind-Keeps timestamp _ (timestamp-Keeps c) λ now.
          let row : CronRow = record {
            id = id;
            schedule = schedule;
            session = session;
            prompt = prompt;
            enabled = if enabled then 1 else 0;
            updated_at = now;
          } in
          wrap-Keeps (codes "sqlite: upsert cron job: ") _
            (writing-Keeps c.called (change_db (write_cron_job row)) (λ w h. c.scheduled w row h)))

  load_job-Keeps :
      (s : Scheduler) (cfg : CronJob) (jobs : Dict Job) (parsed : Result Schedule)
      → Keeps I (load_job s cfg jobs parsed)
  unfolding load_job
  load_job-Keeps s cfg jobs (err e) = pure-Keeps _
  load_job-Keeps s cfg jobs (ok sched) = bind-Keeps read_clock _ (read_clock-Keeps c) λ now.
      bind-Keeps _ _ (upsert_cron_job-Keeps s.db cfg.id cfg.schedule cfg.session cfg.prompt true)
        λ _.
          let job : Job = record {
            id = cfg.id;
            schedule = cfg.schedule;
            session = cfg.session;
            prompt = cfg.prompt;
            next_run = next sched now;
          } in
          pure-Keeps (ok (insert cfg.id job jobs))

  load_from-Keeps :
      (s : Scheduler) (cfgs : List CronJob) (jobs : Dict Job) → Keeps I (load_from s cfgs jobs)
  unfolding load_from
  load_from-Keeps s [] jobs = pure-Keeps _
  load_from-Keeps s (cfg ∷ rest) jobs =
      bind-Keeps _ _ (load_job-Keeps s cfg jobs (parse_schedule cfg.schedule))
        (load_from-Keeps s rest)

  pub new-Keeps :
      (cfg : CronConfig) (d : Db) (client : Client) (store : Store) (logger : Option Text)
      → Keeps I (new cfg d client store logger)
  unfolding new load_jobs
  new-Keeps cfg nil_db client store logger = pure-Keeps _
  new-Keeps cfg open_db client store logger =
      if-Keeps cfg.enabled _ _
        (bind-Keeps _ _
          (load_from-Keeps
            (record { db = open_db; llm = client; sessions = store; logger = logger }) cfg.jobs [])
          λ jobs. pure-Keeps _)
        (pure-Keeps _)
