-- ===== src/System/Tables.antt =====
-- What holds of the tables at any time.
use mouse.Effects.{Closed}
use mouse.Host.Rows.{CronRow, IndexEntry, Tables}
use mouse.Indexer.Scan.{Hashing}
use mouse.Indexer.Scan.Kept.{IsTold}
use mouse.Indexer.Scan.Sound.{Closed-IsSound, IsSound}
use mouse.Prelude.{List}
use mouse.Sqlite.CronJobs.{write_cron_job}
use mouse.Sqlite.Index.{write_index_entry}
use mouse.Sqlite.Keyed.{upsert-UniqueKeys, UniqueKeys}
use mouse.Sqlite.Messages.{insert_message}
use mouse.Sqlite.Messages.Order.{insert_message-IsOrdered, IsOrdered}
use mouse.Strings.{Unicode}

module _ ⦃u : Unicode⦄ ⦃sha : Hashing⦄ where
  -- The messages are numbered in the order of their insertion, no two jobs have one id, no two
  -- entries of the index one path, and each entry holds the hash and the words of its text.
  pub record IsConsistent (t : Tables) : Type 0 where
    pub messages : IsOrdered t
    pub cron_ids : UniqueKeys (λ j. j.id) t.cron_jobs
    pub index : IsSound t

  -- The rest of the tables may change.
  IsOrdered-same :
      (t : Tables) (jobs : List CronRow) (entries : List IndexEntry)
      → IsOrdered t
      → IsOrdered (record t { cron_jobs = jobs; index_entries = entries })
  IsOrdered-same t jobs entries h = record { ascending = h.ascending; below = h.below }

  pub Closed-IsConsistent : Closed IsTold (λ w. IsConsistent w.db)
  unfolding insert_message write_cron_job write_index_entry
  Closed-IsConsistent = record {
    called = λ w h. h;
    logged = λ w e h. h;
    sent = λ w r h. h;
    created = λ w path h. h;
    appended = λ w path text h. h;
    messaged = λ w session_id role content stamp h. record {
      messages = insert_message-IsOrdered session_id role content stamp w.db h.messages;
      cron_ids = h.cron_ids;
      index = Closed-IsSound.messaged w session_id role content stamp h.index;
    };
    indexed = λ w e told h. record {
      messages = IsOrdered-same w.db _ _ h.messages;
      cron_ids = h.cron_ids;
      index = Closed-IsSound.indexed w e told h.index;
    };
    unindexed = λ w path h. record {
      messages = IsOrdered-same w.db _ _ h.messages;
      cron_ids = h.cron_ids;
      index = Closed-IsSound.unindexed w path h.index;
    };
    scheduled = λ w row h. record {
      messages = IsOrdered-same w.db _ _ h.messages;
      cron_ids = upsert-UniqueKeys (λ j. j.id) row _ (λ j same. same) w.db.cron_jobs h.cron_ids;
      index = Closed-IsSound.scheduled w row h.index;
    };
  }
