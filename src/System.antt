-- ===== src/System.antt =====
-- The running server: the requests, the ticker of internal/cron/cron.go, the ticker of
-- internal/indexer/indexer.go and the changes that others make to the files, in any order. Each step
-- runs to its end before the next one starts.
pub mod Tables
pub mod Safe
pub mod History
pub mod Overlaps
use mathlib.Core.List.Permᴰ.{Permᴰ}
use mouse.Cron.{Job, Scheduler, tick}
use mouse.Gateway.{index_reindex, serve, HttpRequest, Server}
use mouse.Host.{Env, World}
use mouse.Indexer.Scan.{Hashing, Indexer}
use mouse.Indexer.Ticks.{first_scan, tick_scan}
use mouse.Prelude.{codes, map, none, some, [], ◌≡◌, List, Option, Text}
use mouse.Prelude.Dict.{lookup, Dict}
use mouse.Strings.{Unicode}

-- A server that has started, with its jobs as they are now.
pub record Running : Type 0 where
  pub server : Server
  pub jobs : List Job
  pub world : World

abbrev pub loaded_jobs : Option (Scheduler × Dict Job) → List Job
loaded_jobs none = []
loaded_jobs (some (s, jobs)) = map (λ entry. entry.1) jobs

abbrev pub running : Server → World → Running
running s w = record { server = s; jobs = loaded_jobs s.scheduler; world = w }

-- The indexer of the server: the one behind the routes of the index.
abbrev pub Indexes : Server → Indexer → Type 0
Indexes s i =
    (logger : Option Text) × (lookup (codes "/index/reindex") s.routes
      ≡ some (index_reindex (some i) logger))

module _ ⦃u : Unicode⦄ ⦃env : Env⦄ ⦃sha : Hashing⦄ where
  pub data Step : Running → Running → Type 0 where
    -- a request is served
    served :
        (st : Running) (r : HttpRequest)
        → Step st (record st { world = (serve st.server r st.world).1 })
    -- the scheduler's ticker: the map yields the jobs in any order
    ticked :
        (st : Running) (s : Scheduler) (jobs : Dict Job) (order : List Job)
        → st.server.scheduler ≡ some (s, jobs)
        → Permᴰ st.jobs order
        → Step st
            (record st { jobs = (tick s order st.world).0; world = (tick s order st.world).1 })
    -- the indexer's goroutine: its first scan, and the scans of its ticker
    indexing :
        (st : Running) (i : Indexer)
        → Indexes st.server i
        → Step st (record st { world = first_scan i st.world })
    scanned :
        (st : Running) (i : Indexer)
        → Indexes st.server i
        → Step st (record st { world = tick_scan i st.world })
    -- someone changes the files
    edited :
        (st : Running) (files : Dict Text)
        → Step st (record st { world = record st.world { files = files } })

  pub data Reach (start : Running) : Running → Type 0 where
    here : Reach start start
    next : {mid end : Running} → Reach start mid → Step mid end → Reach start end
