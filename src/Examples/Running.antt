-- ===== src/Examples/Running.antt =====
-- The theorems on the running server, on one server.
use mouse.Cron.{tick, Job, Scheduler, new as new_scheduler}
use mouse.Cron.Times.{parse_schedule}
use mouse.Examples.{ascii, machine, world, world-IsOrdered}
use mouse.Examples.Index.{whole}
use mouse.Examples.Setup.{config, ls_request}
use mouse.Config.{Config}
use mouse.Gateway.{HttpRequest, new_server, panics, serve, up, Boot, Server}
use mouse.Indexer.Scan.{Indexer, new as new_indexer}
use mouse.Llm.{new as new_client}
use mouse.Orchestrator.{new as new_orchestrator}
use mouse.Prelude.{List, true, none, ok, err, refl, [], ◌∷◌, ◌≡◌, codes, Result}
use mouse.Sandbox.{new as new_runner}
use mouse.Sqlite.CronJobs.{upsert_cron_job}
use mouse.Sqlite.Opening.{open_file}
use mouse.Strings.{has_prefix, fields}
use mouse.Strings.Decimal.{atoi}
use mouse.System.{running, Reach, Running, Step}
use mouse.System.Overlaps.{Effects, overlaps-IsConsistent}
use mouse.System.History.{Reach-Remembers, Remembers}
use mouse.System.Safe.{new_server-IsSafe, IsSafe}
use mouse.System.Tables.{IsConsistent}
use mouse.Host.{World}
use mouse.Indexer.Ticks.{tick_scan, first_scan}

-- The same configuration with a job.
abbrev scheduled : Config
scheduled = record config {
  cron = record {
    enabled = true;
    jobs =
        (record {
          id = codes "j";
          schedule = codes "0 7";
          session = codes "s";
          prompt = codes "hi";
        })
        ∷ [];
  };
}

abbrev server_of : Result Boot → Server
server_of (ok (up s)) = s
server_of (ok panics) = record { routes = []; scheduler = none }
server_of (err e) = record { routes = []; scheduler = none }

abbrev the_server : Server
the_server = server_of (new_server scheduled none world).0

starts : (new_server scheduled none world).0 ≡ ok (up the_server)
unfolding new_server has_prefix open_file new_orchestrator new_client new_runner new_scheduler
    parse_schedule fields atoi upsert_cron_job new_indexer
starts = refl

world-IsConsistent : IsConsistent world.db
world-IsConsistent = record {
  messages = world-IsOrdered;
  cron_ids = tt;
  index = record { unique_paths = tt; told = tt };
}

-- It has run a tool, a file has been written, and it has run the tool again.
abbrev start_state : Running
start_state = running the_server (new_server scheduled none world).1

abbrev served_once : Running
served_once = record start_state { world = (serve the_server ls_request start_state.world).1 }

abbrev edited_once : Running
edited_once = record served_once {
  world = record served_once.world { files = (codes "/srv/notes/a.md", codes "hi") ∷ [] };
}

abbrev served_twice : Running
served_twice = record edited_once { world = (serve the_server ls_request edited_once.world).1 }

served_twice_reached : Reach start_state served_twice
served_twice_reached =
    Reach.next (Reach.next (Reach.next Reach.here (Step.served _ ls_request)) (Step.edited _ _))
      (Step.served _ ls_request)

new_server-IsSafe_example : IsSafe scheduled served_twice
new_server-IsSafe_example =
    new_server-IsSafe scheduled none world the_server served_twice starts world-IsConsistent refl
      served_twice_reached

Reach-Remembers_example : Remembers (new_server scheduled none world).1 served_twice.world
Reach-Remembers_example =
    Reach-Remembers scheduled none world the_server (new_server scheduled none world).1 served_twice
      starts served_twice_reached

overlaps-IsConsistent_example :
    ((r : HttpRequest) (w : World) → Effects w (serve the_server r w).1)
    × ((scheduler : Scheduler) (jobs : List Job) (w : World) → Effects w (tick scheduler jobs w).1)
    × ((i : Indexer) (w : World) → Effects w (first_scan i w) × Effects w (tick_scan i w))
    × ((w w' : World) → Effects w w' → IsConsistent w.db → IsConsistent w'.db)
overlaps-IsConsistent_example = overlaps-IsConsistent scheduled none world the_server starts
