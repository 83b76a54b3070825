-- ===== src/Examples.antt =====
-- A small machine to try the program on, and its data: the tests of the parts use them.
pub mod Stores
pub mod Gates
pub mod Docker
pub mod Services
pub mod Index
pub mod Setup
pub mod Running
pub mod Codec
pub mod Terminal
use mouse.Strings.Decimal.{format_int}
use mouse.Sqlite.Messages.Order.{IsOrdered}
use mouse.Telegram.Allow.{Update, User}
use mouse.Host.{exited, answered, Env, World}
use mouse.Host.Rows.{SessionMessage, MemoryEntry}
use mouse.Telegram.Sender.{Sender}
use mouse.Sessions.{Store}
use mouse.Host.Action.{IsQuiet}
use mouse.Llm.{anthropic, Client}
use mouse.Prelude.{not, ok, arith, some, ◌∷◌, [], none, codes, refl, Text}
use mouse.Strings.{has_prefix, ascii_lower, IsLawful, Unicode, is_space}
use mouse.Prelude.Int.{pos}

-- Unicode's table, cut down to ASCII.
instance abbrev pub ascii : Unicode
ascii = record { lower = ascii_lower }

pub ascii-IsLawful : IsLawful ascii
unfolding is_space
ascii-IsLawful = record {
  lower_ascii = λ c h. refl;
  lower_idem = λ c. ground arith;
  lower_space = λ c. ground arith;
}

-- Nothing fails, every server answers 200, the model says "hello", every process succeeds, and the
-- mux refuses what does not begin with a slash.
instance abbrev pub machine : Env
machine = record {
  fault = λ k. none;
  reply = λ k. answered 200 (codes "{}");
  exit = λ k. exited (pos 0) (codes "hi") [];
  now = λ k. k;
  decode_messages = λ body. ok (record {
    content = (record { block_type = codes "text"; text = codes "hello" }) ∷ [];
    stop_reason = codes "end_turn";
  });
  format_time = λ n. codes "2025-01-01T00:00:00Z";
  refuses = λ before path. not (has_prefix path (codes "/"));
}

abbrev pub machine-IsQuiet : IsQuiet machine
machine-IsQuiet = λ k. refl

-- A message of session 7 and an entry of the memory.
abbrev pub old_message : SessionMessage
old_message = record {
  id = 1;
  session_id = codes "7";
  role = codes "user";
  content = codes "before";
  created_at = codes "2024-01-01T00:00:00Z";
}

abbrev pub old_entry : MemoryEntry
old_entry = record {
  key = codes "name";
  content = codes "mouse";
  created_at = codes "2024-01-01T00:00:00Z";
  updated_at = codes "2024-01-01T00:00:00Z";
}

abbrev pub world : World
world = record {
  files = [];
  db = record {
    messages = old_message ∷ [];
    next_id = 2;
    memory = old_entry ∷ [];
    cron_jobs = [];
    index_entries = [];
  };
  log = [];
  requests = [];
  commands = [];
  calls = 0;
}

pub world-IsOrdered : IsOrdered world.db
world-IsOrdered = record { ascending = (tt, tt); below = (omega arith, tt) }

abbrev pub store : Store
store = record { dir = codes "/data" }

abbrev pub someone : User
someone = record { id = pos 5; username = codes "Ann" }

abbrev pub sender : Sender
sender = record { bot_token = codes "T"; allow_from = codes "@ann" ∷ []; logger = none }

abbrev pub client : Client
client = anthropic (codes "K") (codes "M") (pos 1024) none

abbrev pub update_of : Text → Update
update_of text = record {
  update_id = pos 1;
  message = some (record {
    message_id = pos 1;
    sender = some someone;
    chat = some (record { id = pos 7; chat_type = codes "private" });
    text = text;
  });
}
