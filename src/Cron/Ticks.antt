-- ===== src/Cron/Ticks.antt =====
-- When the jobs run again.
use mouse.Cron.{
  Scheduler, Job, CronJob, tick, tick_job, tick_jobs, reschedule, is_due, load_jobs, load_from,
  load_job,
}
use mouse.Cron.Times.{Schedule, parse_schedule, next, next_lem, parse_schedule-InRange}
use mouse.Prelude.{
  ◌≤◌, [], text_eq, refl, Bool-cases, ◌∷◌, true, arith, inr, err, ◌⊎◌, ◌<◌, List, inl, ok, All,
  false, ℕ, Text, Result, ◌≡◌,
}
use mouse.Prelude.Dict.{insert, Dict}
use mouse.Strings.{Unicode}
use mouse.Host.{World, Env}
use mouse.Host.Action.{pure, continue}

-- A job as the scheduler keeps it: its schedule parses, and its time is set.
pub record IsReady (job : Job) : Type 0 where
  pub sched : Schedule
  pub parsed : parse_schedule job.schedule ≡ ok sched
  pub timed : 0 < job.next_run

-- The schedule of a job parses.
abbrev pub Parses : Job → Type 0
Parses job = (sched : Schedule) × (parse_schedule job.schedule ≡ ok sched)

-- What a tick at `now` makes of a job: one without a time, or whose time is still to come, stays as
-- it is. One whose time has come gets the next time of its schedule, and nothing else in it
-- changes.
abbrev pub Ticked : ℕ → Job → Job → Type 0
Ticked now job job' =
    (((job.next_run ≡ 0) ⊎ (now < job.next_run)) × (job' ≡ job))
    ⊎ ((0 < job.next_run)
        × (job.next_run ≤ now)
        × ((sched : Schedule) × (parse_schedule job.schedule ≡ ok sched)
            × (job' ≡ record job { next_run = next sched now })))

not_due : (now : ℕ) (job : Job) → is_due now job ≡ false → (job.next_run ≡ 0) ⊎ (now < job.next_run)
not_due now job h = ground arith

due_since :
    (now : ℕ) (job : Job) → is_due now job ≡ true → (0 < job.next_run) × (job.next_run ≤ now)
due_since now job h = ground arith

abbrev pub AllTicked : ℕ → List Job → List Job → Type 0
AllTicked now [] [] = Unit
AllTicked now [] (_ ∷ _) = ⊥
AllTicked now (_ ∷ _) [] = ⊥
AllTicked now (job ∷ jobs) (job' ∷ jobs') = Ticked now job job' × AllTicked now jobs jobs'

-- The time of the next run, for a schedule that was parsed.
later :
    (expr : Text) (sched : Schedule) (now : ℕ)
    → parse_schedule expr ≡ ok sched
    → now < next sched now
later expr sched now h = (next_lem sched now (parse_schedule-InRange expr sched h)).0

module _ ⦃u : Unicode⦄ ⦃env : Env⦄ (s : Scheduler) where
  reschedule_lem :
      (now : ℕ) (job : Job) (sched : Schedule) (w : World)
      → parse_schedule job.schedule ≡ ok sched
      → (reschedule s now job w).0 ≡ record job { next_run = next sched now }
  unfolding reschedule
  reschedule_lem now job sched w h = ground arith

  tick_job-Ticked :
      (now : ℕ) (job : Job) (w : World) → Parses job → Ticked now job (tick_job s now job w).0
  unfolding tick_job
  tick_job-Ticked now job w (sched, parsed) = elim (Bool-cases (is_due now job)) [
    | inl due ↦
        let (timed, come) = due_since now job due in
        rw due (inr (timed, come, (sched, parsed, reschedule_lem now job sched _ parsed)))
    | inr early ↦ let still = not_due now job early in rw early (inl (still, refl))
  ]

  tick_jobs-AllTicked :
      (now : ℕ) (jobs : List Job) (w : World)
      → All Parses jobs
      → AllTicked now jobs (tick_jobs s now jobs w).0
  unfolding tick_jobs
  tick_jobs-AllTicked now [] w ready = tt
  tick_jobs-AllTicked now (job ∷ jobs) w (first, rest) =
      (tick_job-Ticked now job w first, tick_jobs-AllTicked now jobs _ rest)

  -- If the schedule of every job parses, a tick leaves a job that has no time, or whose time is
  -- still to come, as it is. It gives a job whose time has come the next time of its schedule and
  -- changes nothing else in it, whatever happens in the runs and in whatever order the jobs come.
  pub tick-AllTicked :
      (jobs : List Job) (w : World)
      → All Parses jobs
      → AllTicked (env.now w.calls) jobs (tick s jobs w).0
  unfolding tick
  tick-AllTicked [] w ready = tt
  tick-AllTicked (job ∷ jobs) w ready = tick_jobs-AllTicked (env.now w.calls) (job ∷ jobs) _ ready

-- A job is ready, and its time is still to come.
abbrev pub Resting : ℕ → Job → Type 0
Resting now job = IsReady job × (now < job.next_run)

to_come : (now time : ℕ) → 0 < time → (time ≡ 0) ⊎ (now < time) → now < time
to_come now time timed (inl none_set) = omega arith
to_come now time timed (inr later_on) = later_on

Ticked-Resting : (now : ℕ) (job job' : Job) → IsReady job → Ticked now job job' → Resting now job'
Ticked-Resting now job job' ready (inl (early, same)) =
    let after : now < job.next_run = to_come now job.next_run ready.timed early in
    rw same (ready, after)
Ticked-Resting now job job' ready (inr (timed, come, (sched, parsed, moved))) =
    let after : now < next sched now = later job.schedule sched now parsed in
    rw moved (record { sched = sched; parsed = parsed; timed = omega arith }, after)

All-Parses : (jobs : List Job) → All IsReady jobs → All Parses jobs
All-Parses [] ready = tt
All-Parses (job ∷ jobs) (first, rest) = ((first.sched, first.parsed), All-Parses jobs rest)

AllTicked-Resting :
    (now : ℕ) (jobs jobs' : List Job)
    → All IsReady jobs
    → AllTicked now jobs jobs'
    → All (Resting now) jobs'
AllTicked-Resting now [] [] ready t = tt
AllTicked-Resting now [] (_ ∷ _) ready t = absurd t
AllTicked-Resting now (_ ∷ _) [] ready t = absurd t
AllTicked-Resting now (job ∷ jobs) (job' ∷ jobs') (first, rest) (t, ts) =
    (Ticked-Resting now job job' first t, AllTicked-Resting now jobs jobs' rest ts)

module _ ⦃u : Unicode⦄ ⦃env : Env⦄ (s : Scheduler) where
  -- If every job has a schedule that parses and a time, they all do after a tick, and the time of
  -- each is after the time the tick read.
  pub tick-Resting :
      (jobs : List Job) (w : World)
      → All IsReady jobs
      → All (Resting (env.now w.calls)) (tick s jobs w).0
  tick-Resting jobs w ready =
      AllTicked-Resting _ jobs _ ready (tick-AllTicked s jobs w (All-Parses jobs ready))

-- Every job in the map is ready.
abbrev pub Loaded : Dict Job → Type 0
Loaded = All (λ e. IsReady e.1)

insert-Loaded :
    (k : Text) (job : Job) (jobs : Dict Job)
    → IsReady job
    → Loaded jobs
    → Loaded (insert k job jobs)
unfolding insert
insert-Loaded k job [] ready h = (ready, tt)
insert-Loaded k job ((j, old) ∷ jobs) ready (first, rest) = elim (Bool-cases (text_eq j k)) [
  | inl same ↦ rw same (ready, rest)
  | inr other ↦ rw other (first, insert-Loaded k job jobs ready rest)
]

-- What a successful load leaves; an error leaves nothing to say.
abbrev pub AsLoaded : Result (Dict Job) → Type 0
AsLoaded (ok jobs) = Loaded jobs
AsLoaded (err e) = Unit

after_upsert :
    (r : Result (Unit {0})) (jobs : Dict Job) (w : World)
    → Loaded jobs
    → AsLoaded (continue {0, 0} r (λ _. pure jobs) w).0
after_upsert (ok _) jobs w h = h
after_upsert (err e) jobs w h = tt

module _ ⦃u : Unicode⦄ ⦃env : Env⦄ (s : Scheduler) where
  load_job_lem :
      (cfg : CronJob) (jobs : Dict Job) (w : World) (r : Result Schedule)
      → parse_schedule cfg.schedule ≡ r
      → Loaded jobs
      → AsLoaded (load_job s cfg jobs r w).0
  unfolding load_job
  load_job_lem cfg jobs w (err e) parsed h = tt
  load_job_lem cfg jobs w (ok sched) parsed h =
      let now = env.now w.calls in
      after_upsert _ _ _ (
        insert-Loaded cfg.id _ jobs
          (record {
            sched = sched;
            parsed = parsed;
            timed = omega (arith, later cfg.schedule sched now parsed);
          })
          h)

  after_load :
      (rest : List CronJob) (r : Result (Dict Job)) (w : World)
      → AsLoaded r
      → ((jobs : Dict Job) (w₁ : World) → Loaded jobs → AsLoaded (load_from s rest jobs w₁).0)
      → AsLoaded (continue {0, 0} r (λ jobs. load_from s rest jobs) w).0
  after_load rest (ok jobs) w h go_on = go_on jobs w h
  after_load rest (err e) w h go_on = tt

  load_from_lem :
      (cfgs : List CronJob) (jobs : Dict Job) (w : World)
      → Loaded jobs
      → AsLoaded (load_from s cfgs jobs w).0
  unfolding load_from
  load_from_lem [] jobs w h = h
  load_from_lem (cfg ∷ rest) jobs w h =
      after_load rest _ _ (load_job_lem cfg jobs w (parse_schedule cfg.schedule) refl h)
        (λ jobs₁ w₁ h₁. load_from_lem rest jobs₁ w₁ h₁)

  -- Every job that a successful load leaves in the map has a schedule that parses and a time.
  pub load_jobs-AsLoaded : (cfgs : List CronJob) (w : World) → AsLoaded (load_jobs s cfgs w).0
  unfolding load_jobs
  load_jobs-AsLoaded cfgs w = load_from_lem cfgs [] w tt
