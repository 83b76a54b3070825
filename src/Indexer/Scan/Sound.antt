-- ===== src/Indexer/Scan/Sound.antt =====
-- What holds of the index entries at any time.
use mouse.Indexer.Scan.{Indexer, Hashing, scan_once}
use mouse.Indexer.Scan.Entries.{entry_path}
use mouse.Indexer.Scan.Kept.{IsTold, scan-Keeps}
use mouse.Effects.{Closed}
use mouse.Strings.{Unicode}
use mouse.Host.{World, Env}
use mouse.Host.Rows.{IndexEntry, Tables}
use mouse.Sqlite.Index.{write_index_entry}
use mouse.Sqlite.Keyed.{upsert-All, delete-All, delete-UniqueKeys, upsert-UniqueKeys, UniqueKeys}
use mouse.Prelude.{Option, All}
use mouse.Sqlite.Messages.{insert_message}
use mouse.Sqlite.CronJobs.{write_cron_job}

module _ ⦃u : Unicode⦄ ⦃sha : Hashing⦄ where
  -- No path has two entries, and each entry holds the hash and the words of its text.
  pub record IsSound (t : Tables) : Type 0 where
    pub unique_paths : UniqueKeys entry_path t.index_entries
    pub told : All IsTold t.index_entries

  write-IsSound :
      (e : IndexEntry) (t : Tables) → IsTold e → IsSound t → IsSound (write_index_entry e t)
  unfolding write_index_entry
  write-IsSound e t new h = record {
    unique_paths = upsert-UniqueKeys entry_path e _ (λ i same. same) t.index_entries h.unique_paths;
    told = upsert-All entry_path IsTold e _ t.index_entries new (λ i old same. new) h.told;
  }

  -- Nothing that the program does but a write of an entry and a removal touches the index.
  pub Closed-IsSound : Closed IsTold (λ w. IsSound w.db)
  unfolding insert_message write_cron_job
  Closed-IsSound = record {
    called = λ w h. h;
    logged = λ w e h. h;
    sent = λ w r h. h;
    created = λ w path h. h;
    appended = λ w path text h. h;
    messaged = λ w session_id role content stamp h. record {
      unique_paths = h.unique_paths;
      told = h.told;
    };
    indexed = λ w e told h. write-IsSound e w.db told h;
    unindexed = λ w path h. record {
      unique_paths = delete-UniqueKeys entry_path path w.db.index_entries h.unique_paths;
      told = delete-All entry_path IsTold path w.db.index_entries h.told;
    };
    scheduled = λ w row h. record { unique_paths = h.unique_paths; told = h.told };
  }

  -- A scan, whatever fails in it, keeps the index sound: no path has two entries, and each entry
  -- holds the hash and the words of its own text.
  pub scan_once-IsSound :
      ⦃env : Env⦄ (i : Option Indexer) (w : World) → IsSound w.db → IsSound (scan_once i w).1.db
  scan_once-IsSound i w = (scan-Keeps Closed-IsSound i).after w
