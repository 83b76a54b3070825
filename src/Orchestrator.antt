-- ===== src/Orchestrator.antt =====
-- internal/orchestrator/orchestrator.go: one turn of a conversation.
pub mod Built
pub mod Grown
pub mod Outcome
pub mod Kept
pub mod Progress
pub mod Turns
use mouse.Config.{Config, LlmConfig}
use mouse.Llm
use mouse.Sessions.{new_store}
use mouse.Telegram.Sender.{new_sender}
use mouse.Sessions.{append, Store}
use mouse.Strings.{trim_space, Unicode}
use mouse.Llm.{complete_prompt, Client}
use mouse.Host.{World, Env}
use mouse.Prelude.{
  ◌∷◌, ok, text_eq, if◌then◌else◌, ◌++◌, err, codes, some, [], none, Result, Text, Option,
}
use mouse.Telegram.Allow.{Chat, User, Message, Update}
use mouse.Sqlite.Base.{open_db, nil_db, Db}
use mouse.Prelude.Int.{ℤ}
use mouse.Telegram.Sender.{send_message_to, Sender}
use mouse.Host.Action.{fail, log, ◌>>=◌, ◌>>◌, wrap, pure, Action}
use mouse.Strings.Decimal.{format_int}
use mouse.Sqlite.Messages.{append_session_message}

pub record Orchestrator : Type 0 where
  pub sessions : Store
  pub llm : Client
  pub db : Db
  pub sender : Option Sender
  pub logger : Option Text

module _ ⦃u : Unicode⦄ ⦃env : Env⦄ where
  -- `if o.db != nil { … AppendSessionMessage … }`
  mirror : Db → Text → Text → Text → Action (Unit {0})
  mirror nil_db session_id role content = pure tt
  mirror open_db session_id role content =
      wrap (codes "sqlite append " ++ (role ++ codes " message: "))
        do append_session_message open_db session_id role content; pure tt

  -- A message goes into the Markdown file first, then into the table.
  pub keep : Orchestrator → Text → Text → Text → Action (Unit {0})
  unfolding mirror
  keep o session_id role content = do
    wrap (codes "append " ++ (role ++ codes " message: "))
        (append o.sessions session_id role content)
    mirror o.db session_id role content

  -- `if o.sender != nil { … SendMessage … }`
  send_reply : Option Sender → ℤ → Option User → Text → Action (Unit {0})
  send_reply none chat_id user text = pure tt
  send_reply (some s) chat_id user text =
      wrap (codes "telegram send: ") (send_message_to s chat_id user text)

  -- `Process`, from the first write on.
  pub turn : Orchestrator → ℤ → Text → Option User → Text → Action (Unit {0})
  unfolding keep send_reply
  turn o chat_id session_id user text = do
    keep o session_id (codes "user") text
    response ← wrap (codes "llm completion: ") (complete_prompt o.llm text)
    keep o session_id (codes "assistant") response
    send_reply o.sender chat_id user response

  process_chat : Orchestrator → Message → Option Chat → World → (Text × Result (Unit {0})) × World
  unfolding turn
  process_chat o message none w = (([], err (codes "missing chat")), w)
  process_chat o message (some chat) w =
      let session_id = format_int chat.id in
      let text = trim_space message.text in
      if text_eq text []
      then ((session_id, err (codes "empty message")), w)
      else (let (r, w') = turn o chat.id session_id message.sender text w in ((session_id, r), w'))

  -- `Process`
  unfoldable pub process : Orchestrator → Update → World → (Text × Result (Unit {0})) × World
  unfolding process_chat
  process o update w = elim update.message [
    | none ↦ (([], err (codes "missing message")), w)
    | some message ↦ process_chat o message message.chat w
  ]

-- The configuration of the model's client.
abbrev pub llm_config : LlmConfig → Llm.Config
llm_config c = record {
  provider = c.provider;
  api_key = c.api_key;
  model = c.model;
  max_tokens = c.max_tokens;
}

-- `New`: the warning of the model's client goes to the log, and the client is used all the same.
warn_client : Option Text → Option Text → Action (Unit {0})
warn_client logger none = pure tt
warn_client logger (some e) =
    log logger (codes "warn") (codes "llm client initialized with warnings")
      ((codes "error", e) ∷ [])

with_sender : Store → Client → Db → Option Text → Result Sender → Action Orchestrator
with_sender store client db logger (err e) = fail e
with_sender store client db logger (ok s) =
    pure (record { sessions = store; llm = client; db = db; sender = some s; logger = logger })

with_db : Config → Store → Client → Db → Option Text → Action Orchestrator
unfolding with_sender new_sender
with_db cfg store client nil_db logger = fail (codes "sqlite db is required")
with_db cfg store client open_db logger =
    with_sender store client open_db logger
      (new_sender cfg.telegram.bot_token cfg.telegram.allow_from (some (codes "telegram-outbound")))

with_store : ⦃u : Unicode⦄ → Config → Db → Option Text → Result Store → Action Orchestrator
unfolding with_db warn_client
with_store cfg db logger (err e) = fail e
with_store cfg db logger (ok store) = do
  let built = Llm.new (llm_config cfg.llm) (some (codes "llm"))
  warn_client logger built.1
  with_db cfg store built.0 db logger

unfoldable pub new : ⦃u : Unicode⦄ → Config → Db → Option Text → Action Orchestrator
unfolding with_store new_store
new cfg db logger = with_store cfg db logger (new_store cfg.sessions.dir)
