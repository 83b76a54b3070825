-- ===== src/Cron.antt =====
-- internal/cron/cron.go: the jobs, and what a tick does with them.
pub mod Times
pub mod Runs
pub mod Kept
pub mod Ticks
use mouse.Sqlite.Base.{open_db, nil_db, Db}
use mouse.Prelude.{
  Result, true, ◌++◌, ltb, ok, text_eq, [], ◌+◌, ◌||◌, err, codes, ◌∷◌, if◌then◌else◌, ◌==◌, not,
  List, Option, Bool, ℕ, Text,
}
use mouse.Strings.{trim_space, is_blank, Unicode}
use mouse.Host.{World, Env}
use mouse.Llm.{complete_prompt, Client}
use mouse.Host.Action.{◌>>◌, fail, try, read_clock, pure, ◌>>=◌, log, Action}
use mouse.Prelude.Dict.{Dict, insert}
use mouse.Sessions.{append, Store}
use mouse.Cron.Times.{next, parse_schedule, Schedule}
use mouse.Sqlite.Messages.{append_session_message}
use mouse.Sqlite.CronJobs.{upsert_cron_job}

-- `CronJob` of internal/config/config.go
pub record CronJob : Type 0 where
  pub id : Text
  pub schedule : Text
  pub session : Text
  pub prompt : Text

-- `CronConfig` of internal/config/config.go
pub record CronConfig : Type 0 where
  pub enabled : Bool
  pub jobs : List CronJob

-- `job`
pub record Job : Type 0 where
  pub id : Text
  pub schedule : Text
  pub session : Text
  pub prompt : Text
  pub next_run : ℕ

-- `Scheduler`, without its jobs
pub record Scheduler : Type 0 where
  pub db : Db
  pub llm : Client
  pub sessions : Store
  pub logger : Option Text

-- `job.next.IsZero() || job.next.After(now)`, turned round
abbrev pub is_due : ℕ → Job → Bool
is_due now job = not (job.next_run == 0 || ltb now job.next_run)

module _ ⦃u : Unicode⦄ ⦃env : Env⦄ where
  job_error : Option Text → Text → Job → Text → Action (Unit {0})
  job_error logger message job e =
      log logger (codes "error") message ((codes "id", job.id) ∷ (codes "error", e) ∷ [])

  -- What `runJob` makes of a result: an error ends the run with a line in the log.
  or_log {ℓ} :
      {A : Type ℓ}
      → Option Text
      → Text
      → Job
      → (A → Action (Unit {0}))
      → Result A
      → Action (Unit {0})
  unfolding job_error
  or_log logger message job more (err e) = job_error logger message job e
  or_log logger message job more (ok a) = more a

  step {ℓ} :
      {A : Type ℓ}
      → Option Text
      → Text
      → Job
      → Action A
      → (A → Action (Unit {0}))
      → Action (Unit {0})
  unfolding or_log
  step logger message job m more w = or_log logger message job more (m w).0 (m w).1

  run_prompt : Scheduler → Job → Text → Action (Unit {0})
  unfolding step
  run_prompt s job prompt =
      step s.logger (codes "cron append prompt failed") job
        (append s.sessions job.session (codes "system") prompt)
        λ _.
          step s.logger (codes "cron sqlite append prompt failed") job
            (append_session_message s.db job.session (codes "system") prompt)
            λ _.
              step s.logger (codes "cron llm failed") job (complete_prompt s.llm prompt) λ response.
                step s.logger (codes "cron append response failed") job
                  (append s.sessions job.session (codes "assistant") response)
                  λ _.
                    step s.logger (codes "cron sqlite append response failed") job
                      (append_session_message s.db job.session (codes "assistant") response)
                      λ _.
                        log s.logger (codes "info") (codes "cron job executed")
                          ((codes "id", job.id) ∷ [])

  -- `runJob`
  unfoldable pub run_job : Scheduler → Job → Action (Unit {0})
  unfolding run_prompt is_blank
  run_job s job =
      let prompt = trim_space job.prompt in
      if text_eq prompt [] then pure tt else run_prompt s job prompt

  -- The time of the next run, if the schedule parses.
  rescheduled : Scheduler → ℕ → Job → Result Schedule → World → Job × World
  unfolding job_error
  rescheduled s now job (err e) w =
      (job, (job_error s.logger (codes "cron schedule parse failed") job e w).1)
  rescheduled s now job (ok sched) w = (record job { next_run = next sched now }, w)

  -- What follows the run: the time of the next one.
  reschedule : Scheduler → ℕ → Job → World → Job × World
  unfolding rescheduled
  reschedule s now job w = rescheduled s now job (parse_schedule job.schedule) w

  -- One round of the loop of `tick`.
  tick_job : Scheduler → ℕ → Job → World → Job × World
  unfolding reschedule run_job
  tick_job s now job w =
      if is_due now job then reschedule s now job (run_job s job w).1 else (job, w)

  -- The loop, over the jobs in the order in which the map yields them.
  tick_jobs : Scheduler → ℕ → List Job → World → List Job × World
  unfolding tick_job
  tick_jobs s now [] w = ([], w)
  tick_jobs s now (job ∷ jobs) w =
      let (job', w₁) = tick_job s now job w in
      let (jobs', w₂) = tick_jobs s now jobs w₁ in (job' ∷ jobs', w₂)

  -- `tick`
  unfoldable pub tick : Scheduler → List Job → World → List Job × World
  unfolding tick_jobs
  tick s [] w = ([], w)
  tick s (job ∷ jobs) w =
      tick_jobs s (env.now w.calls) (job ∷ jobs) (record w { calls = w.calls + 1 })

  -- The body of the loop of `loadJobs`, behind `parseSchedule`.
  load_job : Scheduler → CronJob → Dict Job → Result Schedule → Action (Dict Job)
  unfolding insert
  load_job s cfg jobs (err e) =
      fail (codes "cron: invalid schedule " ++ (cfg.id ++ (codes ": " ++ e)))
  load_job s cfg jobs (ok sched) = do
    now ← read_clock
    let job : Job = record {
      id = cfg.id;
      schedule = cfg.schedule;
      session = cfg.session;
      prompt = cfg.prompt;
      next_run = next sched now;
    }
    upsert_cron_job s.db cfg.id cfg.schedule cfg.session cfg.prompt true
    pure (insert cfg.id job jobs)

  load_from : Scheduler → List CronJob → Dict Job → Action (Dict Job)
  unfolding load_job
  load_from s [] jobs = pure jobs
  load_from s (cfg ∷ rest) jobs = do
    jobs' ← load_job s cfg jobs (parse_schedule cfg.schedule)
    load_from s rest jobs'

  -- `loadJobs`
  unfoldable pub load_jobs : Scheduler → List CronJob → Action (Dict Job)
  unfolding load_from
  load_jobs s cfgs = load_from s cfgs []

  -- `New`: the scheduler and its jobs. The stores and the client that it is given are never nil here.
  unfoldable pub new :
      CronConfig → Db → Client → Store → Option Text → Action (Scheduler × Dict Job)
  unfolding load_jobs
  new cfg nil_db client sessions logger =
      fail (if cfg.enabled then codes "cron: db required" else codes "cron: disabled")
  new cfg open_db client sessions logger =
      let s : Scheduler = record {
        db = open_db;
        llm = client;
        sessions = sessions;
        logger = logger;
      } in
      if cfg.enabled
      then (do jobs ← load_jobs s cfg.jobs; pure (s, jobs))
      else fail (codes "cron: disabled")
