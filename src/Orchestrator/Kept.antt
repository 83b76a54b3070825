-- ===== src/Orchestrator/Kept.antt =====
-- internal/orchestrator/orchestrator.go: what a turn keeps.
use mouse.Config.{Config}
use mouse.Orchestrator.{with_store, with_db, with_sender, warn_client, new}
use mouse.Effects.{log-Keeps, timestamp-Keeps, Closed}
use mouse.Host.Keeps.{updating-Keeps, Keeps, bind-Keeps, pure-Keeps, wrap-Keeps, if-Keeps}
use mouse.Strings.{to_lower, is_blank, trim_space, Unicode}
use mouse.Host.{World, Env}
use mouse.Orchestrator.{send_reply, keep, mirror, process, turn, process_chat, Orchestrator}
use mouse.Sqlite.Messages.{insert_message, append_session_message}
use mouse.Telegram.Allow.{Chat, User, Update, Message}
use mouse.Prelude.Int.{ℤ}
use mouse.Prelude.{
  ok, err, Result, Option-cases, inr, inl, text_eq, ◌++◌, Bool-cases, codes, [], some, none, Text,
  Option,
}
use mouse.Sqlite.Base.{change_db, open_db, nil_db, Db, guarded}
use mouse.Llm.{Client, complete_prompt}
use mouse.Telegram.Sender.{Sender}
use mouse.Sessions.{Store, new_store, or_user, append}
use mouse.Strings.Decimal.{format_int}
use mouse.Host.Rows.{IndexEntry}
use mouse.Llm.Kept.{complete_prompt-Keeps}
use mouse.Sessions.Kept.{append-Keeps}
use mouse.Telegram.Sender.Kept.{send_message_to-Keeps}
use mouse.Host.Action.{timestamp}

module _ {ι} {Told : IndexEntry → Type 0} {I : World → Type ι} (c : Closed Told I) ⦃u : Unicode⦄
    ⦃env : Env⦄ where
  pub append_session_message-Keeps :
      (d : Db) (session_id role content : Text)
      → Keeps I (append_session_message d session_id role content)
  unfolding append_session_message guarded
  append_session_message-Keeps nil_db session_id role content = pure-Keeps _
  append_session_message-Keeps open_db session_id role content =
      if-Keeps (is_blank session_id) _ _ (pure-Keeps _) (
        bind-Keeps timestamp _ (timestamp-Keeps c) λ stamp.
          wrap-Keeps (codes "sqlite: insert session message: ") _ (
            updating-Keeps c.called (λ w. w.db.next_id)
              (change_db (insert_message session_id (to_lower (or_user role)) content stamp))
              (λ w h. c.messaged w session_id (to_lower (or_user role)) content stamp h)))

  mirror-Keeps :
      (d : Db) (session_id role content : Text) → Keeps I (mirror d session_id role content)
  unfolding mirror
  mirror-Keeps nil_db session_id role content = pure-Keeps _
  mirror-Keeps open_db session_id role content =
      wrap-Keeps (codes "sqlite append " ++ (role ++ codes " message: ")) _ (
        bind-Keeps _ _ (append_session_message-Keeps open_db session_id role content)
          λ _. pure-Keeps _)

  keep-Keeps :
      (o : Orchestrator) (session_id role content : Text) → Keeps I (keep o session_id role content)
  unfolding keep
  keep-Keeps o session_id role content =
      bind-Keeps _ _
        (wrap-Keeps (codes "append " ++ (role ++ codes " message: "))
          (append o.sessions session_id role content)
          (append-Keeps c o.sessions session_id role content))
        λ _. mirror-Keeps o.db session_id role content

  send_reply-Keeps :
      (s : Option Sender) (chat_id : ℤ) (user : Option User) (text : Text)
      → Keeps I (send_reply s chat_id user text)
  unfolding send_reply
  send_reply-Keeps none chat_id user text = pure-Keeps _
  send_reply-Keeps (some s) chat_id user text =
      wrap-Keeps (codes "telegram send: ") _ (send_message_to-Keeps c s chat_id user text)

  turn-Keeps :
      (o : Orchestrator) (chat_id : ℤ) (session_id : Text) (user : Option User) (text : Text)
      → Keeps I (turn o chat_id session_id user text)
  unfolding turn
  turn-Keeps o chat_id session_id user text =
      bind-Keeps _ _ (keep-Keeps o session_id (codes "user") text) λ _.
        bind-Keeps _ _
          (wrap-Keeps (codes "llm completion: ") (complete_prompt o.llm text)
            (complete_prompt-Keeps c o.llm text))
          λ response.
            bind-Keeps _ _ (keep-Keeps o session_id (codes "assistant") response)
              λ _. send_reply-Keeps o.sender chat_id user response

  process_chat-after :
      (o : Orchestrator) (m : Message) (chat : Option Chat) (w : World)
      → I w
      → I (process_chat o m chat w).1
  unfolding process_chat
  process_chat-after o m none w h = h
  process_chat-after o m (some chat) w h = elim (Bool-cases (text_eq (trim_space m.text) [])) [
    | inl blank ↦ rw blank h
    | inr said ↦
        rw said ((turn-Keeps o chat.id (format_int chat.id) m.sender (trim_space m.text)).after w h)
  ]

  pub process-after :
      (o : Orchestrator) (update : Update) (w : World) → I w → I (process o update w).1
  unfolding process
  process-after o update w h = elim (Option-cases update.message) [
    | inl missing ↦ rw missing h
    | inr (m, sent) ↦ rw sent (process_chat-after o m m.chat w h)
  ]

  with_sender-Keeps :
      (store : Store) (client : Client) (d : Db) (logger : Option Text) (s : Result Sender)
      → Keeps I (with_sender store client d logger s)
  unfolding with_sender
  with_sender-Keeps store client d logger (ok s) = pure-Keeps _
  with_sender-Keeps store client d logger (err e) = pure-Keeps _

  with_db-Keeps :
      (cfg : Config) (store : Store) (client : Client) (d : Db) (logger : Option Text)
      → Keeps I (with_db cfg store client d logger)
  unfolding with_db
  with_db-Keeps cfg store client nil_db logger = pure-Keeps _
  with_db-Keeps cfg store client open_db logger = with_sender-Keeps store client open_db logger _

  warn_client-Keeps : (logger e : Option Text) → Keeps I (warn_client logger e)
  unfolding warn_client
  warn_client-Keeps logger none = pure-Keeps _
  warn_client-Keeps logger (some e) = log-Keeps c logger _ _ _

  with_store-Keeps :
      (cfg : Config) (d : Db) (logger : Option Text) (store : Result Store)
      → Keeps I (with_store cfg d logger store)
  unfolding with_store
  with_store-Keeps cfg d logger (err e) = pure-Keeps _
  with_store-Keeps cfg d logger (ok store) =
      bind-Keeps _ _ (warn_client-Keeps logger _) λ _. with_db-Keeps cfg store _ d logger

  pub new-Keeps : (cfg : Config) (d : Db) (logger : Option Text) → Keeps I (new cfg d logger)
  unfolding new
  new-Keeps cfg d logger = with_store-Keeps cfg d logger (new_store cfg.sessions.dir)
