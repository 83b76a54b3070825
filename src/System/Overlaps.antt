-- ===== src/System/Overlaps.antt =====
-- Requests, ticks and scans that overlap: each is made of single effects, and the effects of several
-- may come in any order.
use mouse.Config.{Config}
use mouse.Cron.{tick, Job, Scheduler}
use mouse.Cron.Kept.{tick-after}
use mouse.Effects.{Closed}
use mouse.Gateway.{new_server, serve, up, HttpRequest, Server}
use mouse.Gateway.Plan.{Matches}
use mouse.Gateway.Routes.{new_server-AsPlanned, AsPlanned}
use mouse.Gateway.Served.{serve-Keeps}
use mouse.Gateway.Settings.{plan}
use mouse.Host.{Env, LogEntry, Request, World}
use mouse.Host.Action.{count_call}
use mouse.Host.Rows.{CronRow, IndexEntry}
use mouse.Indexer.Scan.{Hashing, Indexer}
use mouse.Indexer.Scan.Kept.{IsTold}
use mouse.Indexer.Ticks.{first_scan, first_scan-after, tick_scan, tick_scan-after}
use mouse.Prelude.{ok, [], ◌++◌, ◌∷◌, ◌≡◌, List, Option, Text}
use mouse.Prelude.Dict.{Dict}
use mouse.Sessions.{append_file, change_files, create_file}
use mouse.Sqlite.Base.{change_db}
use mouse.Sqlite.CronJobs.{write_cron_job}
use mouse.Sqlite.Index.{drop_index_entry, write_index_entry}
use mouse.Sqlite.Messages.{insert_message}
use mouse.Strings.{Unicode}
use mouse.System.Tables.{Closed-IsConsistent, IsConsistent}
use mathlib.Core.Path.{subst}

module _ ⦃u : Unicode⦄ ⦃sha : Hashing⦄ where
  -- One effect on the world, of whichever of the goroutines, or a change that others make to the
  -- files.
  pub data Effect : World → World → Type 0 where
    called : (w : World) → Effect w (count_call w)
    logged : (w : World) (e : LogEntry) → Effect w (record w { log = w.log ++ e ∷ [] })
    sent : (w : World) (r : Request) → Effect w (record w { requests = w.requests ++ r ∷ [] })
    created : (w : World) (path : Text) → Effect w (change_files (create_file path) w)
    appended : (w : World) (path text : Text) → Effect w (change_files (append_file path text) w)
    messaged :
        (w : World) (session_id role content stamp : Text)
        → Effect w (change_db (insert_message session_id role content stamp) w)
    indexed : (w : World) (e : IndexEntry) → IsTold e → Effect w (change_db (write_index_entry e) w)
    unindexed : (w : World) (path : Text) → Effect w (change_db (drop_index_entry path) w)
    scheduled : (w : World) (row : CronRow) → Effect w (change_db (write_cron_job row) w)
    started :
        (w : World) (command : List Text)
        → Effect w (record w { commands = w.commands ++ command ∷ [] })
    edited : (w : World) (files : Dict Text) → Effect w (record w { files = files })

  pub data Effects (start : World) : World → Type 0 where
    quiet : Effects start start
    then : {mid end : World} → Effects start mid → Effect mid end → Effects start end

  Closed-Effects : (start : World) → Closed IsTold (Effects start)
  Closed-Effects start = record {
    called = λ w h. Effects.then h (Effect.called w);
    logged = λ w e h. Effects.then h (Effect.logged w e);
    sent = λ w r h. Effects.then h (Effect.sent w r);
    created = λ w path h. Effects.then h (Effect.created w path);
    appended = λ w path text h. Effects.then h (Effect.appended w path text);
    messaged = λ w session_id role content stamp h.
        Effects.then h (Effect.messaged w session_id role content stamp);
    indexed = λ w e told h. Effects.then h (Effect.indexed w e told);
    unindexed = λ w path h. Effects.then h (Effect.unindexed w path);
    scheduled = λ w row h. Effects.then h (Effect.scheduled w row);
  }

  Effect-IsConsistent : {w w' : World} → Effect w w' → IsConsistent w.db → IsConsistent w'.db
  Effect-IsConsistent (Effect.called w) h = h
  Effect-IsConsistent (Effect.logged w e) h = h
  Effect-IsConsistent (Effect.sent w r) h = h
  Effect-IsConsistent (Effect.created w path) h = h
  Effect-IsConsistent (Effect.appended w path text) h = h
  Effect-IsConsistent (Effect.messaged w session_id role content stamp) h =
      Closed-IsConsistent.messaged w session_id role content stamp h
  Effect-IsConsistent (Effect.indexed w e told) h = Closed-IsConsistent.indexed w e told h
  Effect-IsConsistent (Effect.unindexed w path) h = Closed-IsConsistent.unindexed w path h
  Effect-IsConsistent (Effect.scheduled w row) h = Closed-IsConsistent.scheduled w row h
  Effect-IsConsistent (Effect.started w command) h = h
  Effect-IsConsistent (Effect.edited w files) h = h

  Effects-IsConsistent : {w w' : World} → Effects w w' → IsConsistent w.db → IsConsistent w'.db
  Effects-IsConsistent Effects.quiet h = h
  Effects-IsConsistent (Effects.then before effect) h =
      Effect-IsConsistent effect (Effects-IsConsistent before h)

  module _ ⦃env : Env⦄ where
    -- In a server that `NewServer` returned, whatever fails: a request, a tick of the scheduler and
    -- a scan of the indexer are made of nothing but single effects on the world, and any sequence
    -- of such effects, in whatever order those of overlapping goroutines come, leaves consistent
    -- tables consistent.
    pub overlaps-IsConsistent :
        (cfg : Config) (logger : Option Text) (w₀ : World) (s : Server)
        → (new_server cfg logger w₀).0 ≡ ok (up s)
        → ((r : HttpRequest) (w : World) → Effects w (serve s r w).1)
          × ((scheduler : Scheduler) (jobs : List Job) (w : World)
              → Effects w (tick scheduler jobs w).1)
          × ((i : Indexer) (w : World) → Effects w (first_scan i w) × Effects w (tick_scan i w))
          × ((w w' : World) → Effects w w' → IsConsistent w.db → IsConsistent w'.db)
    overlaps-IsConsistent cfg logger w₀ s up_now =
        let planned : Matches (plan cfg) s.routes =
          (subst (AsPlanned cfg) up_now (new_server-AsPlanned cfg logger w₀)).0 in
        (
          (λ r w.
              (serve-Keeps (Closed-Effects w)
                  (λ w₁ command h. Effects.then h (Effect.started w₁ command)) cfg s r
                  planned).after
                w Effects.quiet),
          (λ scheduler jobs w. tick-after (Closed-Effects w) scheduler jobs w Effects.quiet),
          (λ i w. (
            first_scan-after (Closed-Effects w) i w Effects.quiet,
            tick_scan-after (Closed-Effects w) i w Effects.quiet,
          )),
          (λ w w' effects h. Effects-IsConsistent effects h),
        )
