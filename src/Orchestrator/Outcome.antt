-- ===== src/Orchestrator/Outcome.antt =====
-- What `Process` leaves behind, for every update and whatever fails.
use mouse.Orchestrator.{keep, turn, send_reply, Orchestrator, process, process_chat}
use mouse.Strings.Decimal.{format_int, format_int-not_blank}
use mouse.Strings.{is_blank, trim_space, Unicode}
use mouse.Prelude.{
  arith, append-nil, map, sym, ◌∙◌, ap, ◌∷◌, err, true, codes, ok, Result, inr, inl, [], Bool-cases,
  refl, text_eq, if◌then◌else◌, none, false, some, Bool, ◌≡◌, Option, Text,
}
use mouse.Host.{World, Env}
use mouse.Sessions.{session_path, Store}
use mouse.Telegram.Allow.{User, Chat, Update, Message}
use mouse.Prelude.Int.{ℤ}
use mouse.Sqlite.Base.{open_db}
use mouse.Telegram.Sender.Retry.{send_message_to_requests, succeeds}
use mouse.Orchestrator.Progress.{
  with_assistant, user_said, stop_at_user, Progress-frame, AfterUser, Progress,
}
use mouse.Telegram.Sender.{Sender}
use mouse.Orchestrator.Turns.{keep_lem, Kept}
use mouse.Host.Action.{◌>>=◌, ◌>>◌, wrap, wrapped, continue}
use mouse.Llm.{complete_prompt}
use mouse.Llm.Replies.{complete_prompt_frame}
use mouse.Orchestrator.Grown.{rows_of, view, Grown-frame}
use mouse.Host.Rows.{Tables}

module _ ⦃u : Unicode⦄ ⦃env : Env⦄ where
  send_reply_frame :
      (sender : Option Sender) (chat_id : ℤ) (user : Option User) (text : Text) (w : World)
      → let w' = (send_reply sender chat_id user text w).1 in (w'.files ≡ w.files) × (w'.db ≡ w.db)
  unfolding send_reply
  send_reply_frame none chat_id user text w = (refl, refl)
  send_reply_frame (some s) chat_id user text w =
      let (_, files, db) = send_message_to_requests s chat_id user text w in (files, db)

  module _ (o : Orchestrator) (chat_id : ℤ) (sid : Text) (user : Option User) (text : Text)
      (opened : o.db ≡ open_db) (named : is_blank sid ≡ false) (w : World) where
    abbrev path : Text
    path = session_path o.sessions sid

    after_assistant :
        (r : Result (Unit {0})) (w₃ : World) (response : Text)
        → Progress path sid text w w₃ (succeeds r)
        → let (r', w') = continue {0, 0} r (λ _. send_reply o.sender chat_id user response) w₃ in
          Progress path sid text w w' (succeeds r')
    after_assistant (ok _) w₃ response p =
        let (files, db) = send_reply_frame o.sender chat_id user response w₃ in
        Progress-frame path sid text w w₃ _ true _ p files db (λ _. refl)
    after_assistant (err e) w₃ response p = p

    after_response :
        (stamp prefix : Text) (r : Result Text) (w₁ w₂ : World)
        → AfterUser path sid text w w₁ stamp
        → w₂.files ≡ w₁.files
        → w₂.db ≡ w₁.db
        → let (r', w') =
            continue {0, 0}
              (wrapped prefix r)
              (λ response.
                keep o sid (codes "assistant") response
                >> send_reply o.sender chat_id user response)
              w₂ in
          Progress path sid text w w' (succeeds r')
    after_response stamp prefix (err e) w₁ w₂ (g, there, rows) files db =
        stop_at_user path sid text w stamp w₂ (
          Grown-frame path sid _ w w₁ w₂ g files,
          rw files there,
          ap (λ (t : Tables). map view t.messages) db ∙ rows,
        )
    after_response stamp prefix (ok response) w₁ w₂ u₁ files db =
        let (r₃, w₃) = keep o sid (codes "assistant") response w₂ in
        after_assistant r₃ w₃ response (
          with_assistant path sid text w stamp response w₁ w₂ w₃ (succeeds r₃) u₁ files
            (ap (λ (t : Tables). map view t.messages) db)
            (keep_lem o sid (codes "assistant") response w₂ opened named (unfold is_blank in refl)))

    after_keep :
        (r : Result (Unit {0})) (w₁ : World)
        → Kept path sid (codes "user") text w w₁ (succeeds r)
        → let (r', w') =
            continue {0, 0} r
              (λ _. wrap (codes "llm completion: ") (complete_prompt o.llm text) >>= λ response.
                keep o sid (codes "assistant") response
                >> send_reply o.sender chat_id user response)
              w₁ in
          Progress path sid text w w' (succeeds r')
    after_keep (ok _) w₁ (inl (stamp, _, g, there, rows)) =
        let (files, db) = complete_prompt_frame o.llm text w₁ in
        after_response stamp (codes "llm completion: ") _ w₁ _ (g, there, rows) files db
    after_keep (ok _) w₁ (inr (inl (stamp, failed, _, _))) = cc
    after_keep (ok _) w₁ (inr (inr (failed, _, _))) = cc
    after_keep (err e) w₁ (inl (stamp, done, _, _, _)) = cc
    after_keep (err e) w₁ (inr (inl (stamp, failed, g, rows))) = record {
      response = [];
      said = user_said path sid text w stamp ∷ [];
      rows = 0;
      grown = g;
      in_order = refl;
      stored = rows ∙ sym (append-nil (rows_of w));
      not_ahead = omega arith;
      not_behind = omega arith;
      complete = λ e. cc;
    }
    after_keep (err e) w₁ (inr (inr (failed, g, rows))) = record {
      response = [];
      said = [];
      rows = 0;
      grown = g;
      in_order = refl;
      stored = rows ∙ sym (append-nil (rows_of w));
      not_ahead = omega arith;
      not_behind = omega arith;
      complete = λ e. cc;
    }

    turn-Progress :
        let (r, w') = turn o chat_id sid user text w in Progress path sid text w w' (succeeds r)
    unfolding turn
    turn-Progress =
        after_keep _ _ (keep_lem o sid (codes "user") text w opened named (unfold is_blank in refl))

-- The session and the text that a message in a chat stands for, if it says something.
abbrev asked_in : ⦃u : Unicode⦄ → Text → Option Chat → Option (Text × Text)
asked_in text none = none
asked_in text (some chat) =
    if text_eq (trim_space text) [] then none else some (format_int chat.id, trim_space text)

abbrev pub asked_of : ⦃u : Unicode⦄ → Option Message → Option (Text × Text)
asked_of none = none
asked_of (some message) = asked_in message.text message.chat

-- What one run of `process` comes to: the world is as it was and an error came back, or the turn of
-- the conversation that the chat's number names got as far as `Progress` says.
abbrev pub Processed :
    ⦃u : Unicode⦄ → Store → Option (Text × Text) → World → World → Text → Bool → Type 0
Processed store none w w' session_id done = (w' ≡ w) × (done ≡ false)
Processed store (some (sid, text)) w w' session_id done =
    (session_id ≡ sid) × Progress (session_path store sid) sid text w w' done

module _ ⦃u : Unicode⦄ ⦃env : Env⦄ where
  process_chat_lem :
      (o : Orchestrator) (message : Message) (chat : Option Chat) (w : World)
      → o.db ≡ open_db
      → let ((session_id, r), w') = process_chat o message chat w in
        Processed o.sessions (asked_in message.text chat) w w' session_id (succeeds r)
  unfolding process_chat
  process_chat_lem o message none w opened = (refl, refl)
  process_chat_lem o message (some chat) w opened =
      elim (Bool-cases (text_eq (trim_space message.text) [])) [
        | inl blank ↦ rw blank (refl, refl)
        | inr said ↦ rw said (
          refl,
          turn-Progress o chat.id (format_int chat.id) message.sender (trim_space message.text)
              opened (format_int-not_blank chat.id) w,
        )
      ]

  processed :
      (o : Orchestrator) (message : Option Message) (update_id : ℤ) (w : World)
      → o.db ≡ open_db
      → let ((session_id, r), w') =
          process o (record { update_id = update_id; message = message }) w in
        Processed o.sessions (asked_of message) w w' session_id (succeeds r)
  unfolding process
  processed o none update_id w opened = (refl, refl)
  processed o (some message) update_id w opened = process_chat_lem o message message.chat w opened

  -- Over an open database, and whatever fails on the way: an update without a message, a chat or a
  -- text that is not blank leaves the world unchanged and comes back as an error. Any other update
  -- is answered in the session named by the chat's number: the session's file gains a prefix of the
  -- two entries of the turn (a header before them only if there was no file), the table of messages
  -- gains a prefix of the two rows of the turn, the table is never ahead of the file and at most
  -- one message behind, and on success both hold the whole turn.
  pub process-Processed :
      (o : Orchestrator) (update : Update) (w : World)
      → o.db ≡ open_db
      → let ((session_id, r), w') = process o update w in
        Processed o.sessions (asked_of update.message) w w' session_id (succeeds r)
  process-Processed o update w opened = processed o update.message update.update_id w opened
