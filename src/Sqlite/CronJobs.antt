-- ===== src/Sqlite/CronJobs.antt =====
-- internal/sqlite/sqlite.go: the table cron_jobs.
use mouse.Prelude.{Bool, Text, codes, if◌then◌else◌}
use mouse.Host.{Env}
use mouse.Host.Rows.{CronRow, Tables}
use mouse.Host.Action.{Action, wrap, ◌>>=◌, perform, timestamp}
use mouse.Sqlite.Base.{Db, change_db, guarded}
use mouse.Sqlite.Keyed.{upsert}

-- UpsertCronJob: ON CONFLICT(id) DO UPDATE writes every other column
unfoldable pub write_cron_job : CronRow → Tables → Tables
unfolding upsert
write_cron_job c t = record t {
  cron_jobs =
      upsert (λ j. j.id) c
        (λ j. record j {
          schedule = c.schedule;
          session = c.session;
          prompt = c.prompt;
          enabled = c.enabled;
          updated_at = c.updated_at;
        })
        t.cron_jobs;
}

module _ ⦃env : Env⦄ where
  -- `UpsertCronJob`
  unfoldable pub upsert_cron_job : Db → Text → Text → Text → Text → Bool → Action (Unit {0})
  unfolding guarded write_cron_job
  upsert_cron_job d id schedule session prompt enabled =
      guarded d id (codes "sqlite: cron job id required") do
        now ← timestamp
        let row : CronRow = record {
          id = id;
          schedule = schedule;
          session = session;
          prompt = prompt;
          enabled = if enabled then 1 else 0;
          updated_at = now;
        }
        wrap (codes "sqlite: upsert cron job: ") (perform (change_db (write_cron_job row)))
