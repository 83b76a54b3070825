-- ===== src/Examples/Services.antt =====
-- The theorems on the turn, the sender, the model and the schedule, on a small machine.
use mouse.Strings.{fields}
use mouse.Strings.Decimal.{atoi}
use mouse.Cron.Times.{parse_schedule}
use mouse.Cron.{tick, run_job, Scheduler, Job}
use mouse.Orchestrator.Outcome.{asked_of, Processed, process-Processed}
use mouse.Examples.{
  ascii, machine, machine-IsQuiet, world, store, sender, client, someone, update_of,
}
use mouse.Orchestrator.{Orchestrator, process}
use mouse.Strings.{fields, is_blank}
use mouse.Prelude.{
  All, arith, ◌≢◌, ℕ, [], ◌∷◌, ◌*◌, ◌||◌, ◌%◌, ◌++◌, ◌&&◌, true, none, ◌+◌, ◌⊎◌, false, refl, some,
  ◌≤◌, ◌≡◌, ◌<◌, codes,
}
use mouse.Telegram.Sender.Retry.{
  send_message_to_requests, succeeds-send_message_to, delivered, may_send, message_request,
  succeeds,
}
use mouse.Cron.Times.{
  parse_schedule, parse_schedule-InRange, InRange, next_lem, minute_length, day_length, next,
}
use mouse.Prelude.Int.{pos}
use mouse.Sqlite.Base.{open_db}
use mouse.Telegram.Sender.{send_message_to}
use mouse.Host.{World}
use mouse.Llm.Replies.{Asked, complete_prompt-ok, Answers}
use mouse.Llm.{complete_prompt}
use mouse.Strings.Decimal.{atoi}
use mouse.Cron.Ticks.{tick-Resting, Resting, tick-AllTicked, IsReady, AllTicked}
use mouse.Cron.Runs.{run_job-Beside, Beside}
use mouse.Sessions.{or_unknown, session_path}

abbrev orchestrator : Orchestrator
orchestrator = record {
  sessions = store;
  llm = client;
  db = open_db;
  sender = some sender;
  logger = none;
}

process-Processed_example :
    let ((session_id, r), w') = process orchestrator (update_of (codes " hi ")) world in
    Processed orchestrator.sessions
      (asked_of (update_of (codes " hi ")).message)
      world
      w'
      session_id
      (succeeds r)
process-Processed_example = process-Processed orchestrator (update_of (codes " hi ")) world refl

send_message_to_requests_example :
    let r = message_request sender (pos 7) (codes "hi") in
    let w' = (send_message_to sender (pos 7) (some someone) (codes "hi") world).1 in
    ((w'.requests ≡ world.requests)
      ⊎ ((may_send sender (pos 7) (some someone) (codes "hi") ≡ true)
          × (w'.requests ≡ world.requests ++ r ∷ []))
      ⊎ ((may_send sender (pos 7) (some someone) (codes "hi") ≡ true)
          × (w'.requests ≡ world.requests ++ r ∷ r ∷ [])))
    × (w'.files ≡ world.files)
    × (w'.db ≡ world.db)
send_message_to_requests_example =
    send_message_to_requests sender (pos 7) (some someone) (codes "hi") world

succeeds-send_message_to_example :
    succeeds (send_message_to sender (pos 7) (some someone) (codes "hi") world).0 ≡ (
      may_send sender (pos 7) (some someone) (codes "hi")
      && (delivered (machine.reply (world.calls + 1))
          || delivered (machine.reply (world.calls + 1 + 1 + 1))))
succeeds-send_message_to_example =
    succeeds-send_message_to sender (pos 7) (some someone) (codes "hi") world machine-IsQuiet

complete_prompt-ok_example :
    (is_blank (codes "hello") ≡ false)
    × Answers (machine.reply (world.calls + 1)) (codes "hello")
    × Asked client
        (codes "hi")
        world.requests
        (complete_prompt client (codes "hi") world).1.requests
complete_prompt-ok_example =
    complete_prompt-ok client (codes "hi") (codes "hello") world
      (complete_prompt client (codes "hi") world).1 (unfold complete_prompt is_blank in refl)

next_lem_example :
    let t = next (record { minute = 30; hour = 7 }) 1000 in
    (1000 < t)
    × (t ≤ 1000 + day_length)
    × (t % day_length ≡ (7 * 60 + 30) * minute_length)
    × ((t' : ℕ) → 1000 < t' → t' < t → t' % day_length ≢ (7 * 60 + 30) * minute_length)
next_lem_example = next_lem (record { minute = 30; hour = 7 }) 1000 (omega arith, omega arith)

parse_schedule-InRange_example : InRange (record { minute = 30; hour = 7 })
parse_schedule-InRange_example =
    parse_schedule-InRange (codes "30 7 * * *") (record { minute = 30; hour = 7 })
      (unfold parse_schedule fields atoi in refl)

abbrev scheduler : Scheduler
scheduler = record { db = open_db; llm = client; sessions = store; logger = none }

abbrev morning : Job
morning = record {
  id = codes "morning";
  schedule = codes "30 7 * * *";
  session = codes "daily";
  prompt = codes "plan the day";
  next_run = 1;
}

-- The clock reads 5 here, so the job is due.
abbrev late_world : World
late_world = record world { calls = 5 }

morning-IsReady : IsReady morning
morning-IsReady = record {
  sched = record { minute = 30; hour = 7 };
  parsed = unfold parse_schedule fields atoi in refl;
  timed = omega arith;
}

tick-AllTicked_example : AllTicked 5 (morning ∷ []) (tick scheduler (morning ∷ []) late_world).0
tick-AllTicked_example =
    tick-AllTicked scheduler (morning ∷ []) late_world
      ((morning-IsReady.sched, morning-IsReady.parsed), tt)

tick-Resting_example : All (Resting 5) (tick scheduler (morning ∷ []) late_world).0
tick-Resting_example = tick-Resting scheduler (morning ∷ []) late_world (morning-IsReady, tt)

run_job-Beside_example :
    Beside
      (session_path store (or_unknown (codes "daily")))
      (codes "daily")
      world
      (run_job scheduler morning world).1
run_job-Beside_example = run_job-Beside scheduler morning world
