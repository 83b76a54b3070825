-- ===== src/Telegram/Sender/Retry.antt =====
-- How often a message is sent, and to whom.
use mouse.Prelude.{
  ltb, codes, leb, ◌||◌, ◌+◌, append_assoc, arith, [], ◌∷◌, text_eq, ◌++◌, not, ◌⊎◌, ◌&&◌, false,
  ◌≡◌, err, ℕ, true, Text, ok, Option, Bool, Result,
}
use mouse.Host.{cut_off, unreached, send_message, answered, World, Request, Env, Reply}
use mouse.Telegram.Sender.{send_twice, send_message_to, zero_id, try_once, Sender}
use mouse.Strings.{trim_space, Unicode}
use mouse.Prelude.Int.{ℤ}
use mouse.Telegram.Allow.{is_allowed_user, User}
use mouse.Host.Action.{IsQuiet-quiet, IsQuiet, quiet}
use mathlib.Core.Path.{subst}

-- The answer came, and its status is one of the 200s.
abbrev pub delivered : Reply → Bool
delivered (answered status body) = leb 200 status && ltb status 300
delivered (unreached e) = false
delivered (cut_off status e) = false

abbrev pub succeeds {ℓ} : {A : Type ℓ} → Result A → Bool
succeeds (ok a) = true
succeeds (err e) = false

-- The conditions of `SendMessage` on its arguments.
abbrev pub may_send : ⦃u : Unicode⦄ → Sender → ℤ → Option User → Text → Bool
may_send s chat_id user text =
    is_allowed_user s.allow_from user && not (text_eq (trim_space text) []) && not (zero_id chat_id)

abbrev pub message_request : Sender → ℤ → Text → Request
message_request s chat_id text = record {
  url = codes "https://api.telegram.org/bot" ++ (s.bot_token ++ codes "/sendMessage");
  body = send_message chat_id (trim_space text);
}

module _ ⦃env : Env⦄ (s : Sender) (r : Request) (w : World) where
  -- One attempt sends the request once, or not at all; it touches neither files nor tables.
  try_once_lem :
      (n : ℕ)
      → let w' = (try_once s r n w).1 in
        ((w'.requests ≡ w.requests) ⊎ (w'.requests ≡ w.requests ++ r ∷ []))
        × (w'.files ≡ w.files)
        × (w'.db ≡ w.db)
  unfolding try_once
  try_once_lem n = ground arith

  -- Two attempts at most, and the second only if the first failed.
  send_twice_lem :
      let w' = (send_twice s r w).1 in
      ((w'.requests ≡ w.requests)
        ⊎ (w'.requests ≡ w.requests ++ r ∷ [])
        ⊎ (w'.requests ≡ w.requests ++ r ∷ r ∷ []))
      × (w'.files ≡ w.files)
      × (w'.db ≡ w.db)
  unfolding send_twice
  send_twice_lem = ground (arith, append_assoc w.requests (r ∷ []) (r ∷ []))

module _ ⦃u : Unicode⦄ ⦃env : Env⦄ (s : Sender) (chat_id : ℤ) (user : Option User) (text : Text)
    (w : World) where
  -- A message goes out at most twice, always to the same chat with the same text, and only to a
  -- user on the allow list; neither files nor tables change.
  pub send_message_to_requests :
      let r = message_request s chat_id text in
      let w' = (send_message_to s chat_id user text w).1 in
      ((w'.requests ≡ w.requests)
        ⊎ ((may_send s chat_id user text ≡ true) × (w'.requests ≡ w.requests ++ r ∷ []))
        ⊎ ((may_send s chat_id user text ≡ true) × (w'.requests ≡ w.requests ++ r ∷ r ∷ [])))
      × (w'.files ≡ w.files)
      × (w'.db ≡ w.db)
  unfolding send_message_to
  send_message_to_requests = ground (arith, send_twice_lem s (message_request s chat_id text) w)

  send_message_to-quiet : succeeds (send_message_to ⦃env = quiet env⦄ s chat_id user text w).0 ≡ (
      may_send s chat_id user text
      && (delivered (env.reply (w.calls + 1)) || delivered (env.reply (w.calls + 1 + 1 + 1))))
  unfolding send_message_to
  send_message_to-quiet = ground arith

  -- When no call of the system fails, `SendMessage` succeeds exactly if the message may be sent and
  -- one of the two attempts is answered with a success.
  pub succeeds-send_message_to :
      IsQuiet env
      → succeeds (send_message_to s chat_id user text w).0 ≡ (
          may_send s chat_id user text
          && (delivered (env.reply (w.calls + 1)) || delivered (env.reply (w.calls + 1 + 1 + 1))))
  succeeds-send_message_to h =
      subst
        (λ (e : Env). succeeds (send_message_to ⦃env = e⦄ s chat_id user text w).0 ≡ (
          may_send s chat_id user text
          && (delivered (env.reply (w.calls + 1)) || delivered (env.reply (w.calls + 1 + 1 + 1)))))
        (IsQuiet-quiet env h) send_message_to-quiet
