-- ===== src/Effects.antt =====
-- The effects that the program has on the world, apart from starting processes, one by one: a property
-- that is closed under each is kept by all that the program does with them.
use mouse.Host.Keeps.{Keeps, reading-Keeps, writing-Keeps}
use mouse.Sessions.{create_file, append_file, change_files}
use mouse.Host.Rows.{CronRow, IndexEntry}
use mouse.Host.{Request, LogEntry, Env, World}
use mouse.Host.Action.{log, post, perform, read_clock, query, timestamp, count_call}
use mouse.Prelude.{◌≡◌, List, none, [], some, ◌∷◌, ◌++◌, Text, Option}
use mouse.Prelude.Dict.{Dict}
use mouse.Sqlite.Base.{change_db}
use mouse.Sqlite.Messages.{insert_message}
use mouse.Sqlite.Index.{drop_index_entry, write_index_entry}
use mouse.Sqlite.CronJobs.{write_cron_job}

-- `Told` holds of the entries that are written to the index.
pub record Closed {ι} (Told : IndexEntry → Type 0) (I : World → Type ι) : Type ι where
  pub called : (w : World) → I w → I (count_call w)
  pub logged : (w : World) (e : LogEntry) → I w → I (record w { log = w.log ++ e ∷ [] })
  pub sent : (w : World) (r : Request) → I w → I (record w { requests = w.requests ++ r ∷ [] })
  pub created : (w : World) (path : Text) → I w → I (change_files (create_file path) w)
  pub appended : (w : World) (path text : Text) → I w → I (change_files (append_file path text) w)
  pub messaged :
      (w : World) (session_id role content stamp : Text)
      → I w
      → I (change_db (insert_message session_id role content stamp) w)
  pub indexed : (w : World) (e : IndexEntry) → Told e → I w → I (change_db (write_index_entry e) w)
  pub unindexed : (w : World) (path : Text) → I w → I (change_db (drop_index_entry path) w)
  pub scheduled : (w : World) (row : CronRow) → I w → I (change_db (write_cron_job row) w)

module _ {ι} {Told : IndexEntry → Type 0} {I : World → Type ι} (c : Closed Told I) where
  pub log-Keeps :
      (logger : Option Text) (level message : Text) (about : Dict Text)
      → Keeps I (log logger level message about)
  log-Keeps none level message about = record { after = λ w h. h }
  log-Keeps (some service) level message about = record { after = λ w h. c.logged w _ h }

  module _ ⦃env : Env⦄ where
    pub query-Keeps {ℓ} : {A : Type ℓ} (read : World → A) → Keeps I (query read)
    query-Keeps = reading-Keeps c.called

    pub read_on-Keeps : Keeps I (perform (λ w. w))
    read_on-Keeps = writing-Keeps c.called (λ w. w) (λ w h. h)

    pub timestamp-Keeps : Keeps I timestamp
    timestamp-Keeps = record { after = λ w h. c.called w h }

    pub read_clock-Keeps : Keeps I read_clock
    read_clock-Keeps = record { after = λ w h. c.called w h }

    pub post-Keeps : (r : Request) → Keeps I (post r)
    post-Keeps r = record { after = λ w h. c.called _ (c.sent w r h) }

-- None of these effects starts a process.
pub Closed-commands :
    (Told : IndexEntry → Type 0) (started : List (List Text))
    → Closed Told (λ w. w.commands ≡ started)
Closed-commands Told started = record {
  called = λ w h. h;
  logged = λ w e h. h;
  sent = λ w r h. h;
  created = λ w path h. h;
  appended = λ w path text h. h;
  messaged = λ w session_id role content stamp h. h;
  indexed = λ w e told h. h;
  unindexed = λ w path h. h;
  scheduled = λ w row h. h;
}
