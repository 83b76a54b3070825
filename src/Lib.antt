-- ===== src/Lib.antt =====
-- mouse: a terminal-first agent runtime, as a library of definitions and theorems.
--
-- The program receives Telegram updates on a webhook (internal/telegram), passes the allowed ones to
-- the orchestrator (internal/orchestrator), which keeps every message in a Markdown transcript
-- (internal/sessions) and in a SQLite table (internal/sqlite), asks a language model for the answer
-- (internal/llm) and sends it back. Beside this it runs tools in Docker behind a policy
-- (internal/tools, internal/sandbox), prompts on a schedule (internal/cron) and an index of Markdown
-- files that can be searched (internal/indexer). internal/config reads the settings, and
-- internal/gateway puts the parts together and serves them over HTTP. cmd/mousectl is a client of that
-- server, which also shows the log that internal/logging writes.
--
-- Files, by the code they model:
-- - Sessions: internal/sessions/store.go. `append` is Store.Append, `sanitize_id` sanitizeID. Ids is
--   about the names of the files, Files about their contents.
-- - Sqlite: internal/sqlite/sqlite.go. Messages, Memory, Index and CronJobs hold the methods of DB for
--   one table each; an SQL statement is an operation on the rows. Keyed has the tables with a key.
-- - Sandbox: internal/sandbox/runner.go. Args reads the command line of buildDockerArgs back,
--   with any reader that keeps to Docker's rules for its options.
-- - Tools: Policy is internal/tools/policy.go, Handler is internal/tools/handler.go.
-- - Telegram: Allow is internal/telegram/allow.go, Sender internal/telegram/sender.go, Handler the
--   webhook of internal/telegram/telegram.go, over any processor, and Webhook SetWebhook of
--   internal/telegram/webhook.go.
-- - Llm: internal/llm/llm.go, both clients as the constructors of one type.
-- - Orchestrator: internal/orchestrator/orchestrator.go. `keep` is one message written to the file and
--   then to the table; Built is about what New returns, and Grown, Turns, Progress and Outcome say how
--   far a turn gets.
-- - Cron: internal/cron/cron.go. Times is parseSchedule and next; `tick` takes the jobs in the order in
--   which the map yields them, whatever it is. Ticks is about when the jobs run
--   again, Runs about what a run touches.
-- - Indexer: internal/indexer. Tokens, Scan and Search are indexer.go, Handlers handler.go. Scan/Mirror
--   says what a scan makes of the index, Scan/Passes when it goes through, Search/Ranking what a search
--   returns.
-- - Config: internal/config/config.go. Checks is about Validate and Load, Expand about the references
--   to the workspace. `Outside` is the environment and the decoding of YAML.
-- - Approvals: internal/approvals/handler.go.
-- - Gateway: internal/gateway/gateway.go. `new_server` is NewServer; Plan and Settings describe the
--   routes that a configuration calls for, Routes compares the two, Promises carries what each planned
--   route promises over to a request, and Requests and Commands are about the processes that requests
--   start. Kept, Served and Scheduled are about what the start of a server and its requests keep.
-- - Effects: the effects on the world that the parts are made of. A property of the world that is
--   closed under them is kept by every operation: the files named Kept, one beside each part, say so
--   once, and System and Gateway/Requests use it with the properties that they need.
-- - System: a running server. `Step` is a request, a tick of Start in internal/cron/cron.go, a scan of
--   Start in internal/indexer/indexer.go (Indexer/Ticks), or a change that others make to the files.
--   Tables is about the database, Safe about what always holds, History about what is never lost, and
--   Overlaps about requests, ticks and scans whose effects on the world come in any order.
-- - Start: cmd/mouse/main.go, and SetFile of internal/logging/logging.go. Outcomes says what holds
--   when the program serves.
-- - Logging: internal/logging/logging.go as text. `write` is Logger.write, Contents is about the file.
-- - Mousectl: cmd/mousectl/main.go. `Remote` of Calls is what lies outside it: flags, HTTP, JSON, files.
--   Output is what it prints, Exits is about the exit status, Runs about `run` against the tools'
--   handler, Logs and Shown about `logs`.
-- - Host: the machine. The world is the files, the tables, the log, the requests sent and the
--   processes started; an action takes a world to a result and a world. Every call of the system, of
--   the SQL engine or of a server has a number, and `Env` says how each ends, so a theorem for every
--   `Env` covers every pattern of failures. A write that fails writes nothing.
-- - Strings: what is used of the packages strings, strconv and path/filepath.
-- - Prelude: shared types and lemmas. Examples: a small machine, on which the theorems are applied.
--
-- Texts are lists of code points, so every text is valid UTF-8. The case mapping of Unicode is a
-- parameter; one theorem asks that it agrees with ASCII, is idempotent and keeps spaces. The JSON
-- bodies sent are values of a type, the decoding of an answer is a parameter, and a request's
-- body is given decoded. Integers are unbounded except where the code reads one from a text. Time
-- is a number of nanoseconds. A score is an exact fraction, which float64 orders the same way as long
-- as the counts are below 2^26; the order of matches with equal scores, which Go leaves open, is the
-- stored one. SHA-256 is a parameter. A walk of a directory visits the files of the world below it,
-- and may fail between any two of them; directories themselves are not part of the world. The mux
-- is modelled for plain paths, and which patterns it refuses to register is a parameter. All recursion is structural or well-founded, so no fuel is needed.
--
-- Not modelled: what overlapping requests read of each other's writes (a step of System runs to its end
-- before the next one starts, and Overlaps only says what any order of their effects keeps), the
-- clocks of the tickers (a tick may come at any time), a write to a file that stops half-way (one that fails writes nothing),
-- the headers of HTTP requests, and the decoding of the flags and of YAML and JSON, which belong to
-- other packages.
mod Prelude
pub mod Strings
pub mod Host
pub mod Sessions
pub mod Sqlite
pub mod Sandbox
pub mod Tools
pub mod Telegram
pub mod Llm
pub mod Orchestrator
pub mod Cron
pub mod Config
pub mod Effects
pub mod Gateway
pub mod System
pub mod Logging
pub mod Mousectl
pub mod Start
pub mod Approvals
pub mod Indexer
pub mod Examples
