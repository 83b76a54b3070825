-- ===== src/Host/Rows.antt =====
-- The rows of the tables that internal/sqlite/sqlite.go creates.
use mouse.Prelude.{ℕ, List, Text}

-- session_messages
pub record SessionMessage : Type 0 where
  pub id : ℕ
  pub session_id : Text
  pub role : Text
  pub content : Text
  pub created_at : Text

-- memory_entries, without its id, which no statement reads
pub record MemoryEntry : Type 0 where
  pub key : Text
  pub content : Text
  pub created_at : Text
  pub updated_at : Text

-- cron_jobs
pub record CronRow : Type 0 where
  pub id : Text
  pub schedule : Text
  pub session : Text
  pub prompt : Text
  pub enabled : ℕ
  pub updated_at : Text

-- index_entries
pub record IndexEntry : Type 0 where
  pub path : Text
  pub content : Text
  pub tokens : Text
  pub content_hash : Text
  pub updated_at : Text

-- `next_id` is what AUTOINCREMENT gives to the next message: more than every id given so far.
pub record Tables : Type 0 where
  pub messages : List SessionMessage
  pub next_id : ℕ
  pub memory : List MemoryEntry
  pub cron_jobs : List CronRow
  pub index_entries : List IndexEntry
