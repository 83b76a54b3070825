-- ===== src/Telegram/Sender.antt =====
-- internal/telegram/sender.go: sending a message, with one more try after a failure.
pub mod Retry
pub mod Kept
use mouse.Prelude.{
  none, [], not, ok, false, ◌∷◌, some, ltb, err, text_eq, ◌==◌, if◌then◌else◌, ◌&&◌, leb, Result,
  ◌++◌, List, Bool, codes, Option, ℕ, Text,
}
use mouse.Host.{answered, cut_off, send_message, unreached, Request, Reply, Env}
use mouse.Strings.{trim_space, is_blank, Unicode}
use mouse.Prelude.Int.{negsuc, pos, ℤ}
use mouse.Telegram.Allow.{User, is_allowed_user}
use mouse.Prelude.Dict.{Dict}
use mouse.Host.Action.{log, post, perform, wrap, try, pure, ◌>>=◌, ◌>>◌, fail, Action}
use mouse.Strings.Decimal.{format_int}

pub record Sender : Type 0 where
  pub bot_token : Text
  pub allow_from : List Text
  pub logger : Option Text

-- `NewSender`
unfoldable pub new_sender : Text → List Text → Option Text → Result Sender
unfolding is_blank
new_sender bot_token allow_from logger =
    if is_blank bot_token
    then err (codes "telegram: bot token is required")
    else ok (record { bot_token = bot_token; allow_from = allow_from; logger = logger })

abbrev pub send_url : Text → Text
send_url token = codes "https://api.telegram.org/bot" ++ (token ++ codes "/sendMessage")

abbrev pub is_success : ℕ → Bool
is_success status = leb 200 status && ltb status 300

abbrev pub zero_id : ℤ → Bool
zero_id (pos n) = n == 0
zero_id (negsuc n) = false

-- What one attempt comes to: `none`, or the error with the fields that are logged for it.
attempt_error : Reply → Option (Text × Dict Text)
attempt_error (unreached e) =
    let m = codes "telegram: send: " ++ e in some (m, (codes "error", m) ∷ [])
attempt_error (cut_off status e) =
    let m = codes "telegram: read response: " ++ e in some (m, (codes "error", m) ∷ [])
attempt_error (answered status body) =
    if is_success status
    then none
    else (let trimmed = trim_space body in
        some (
          codes "telegram: http " ++ (format_int (pos status) ++ (codes ": " ++ trimmed)),
          (codes "status", format_int (pos status)) ∷ (codes "body", trimmed) ∷ [],
        ))

module _ ⦃env : Env⦄ where
  -- `doRequest` behind the building of the request.
  send_built : Request → Result (Unit {0}) → Action (Option (Text × Dict Text))
  unfolding attempt_error
  send_built request (err e) = pure (some (e, (codes "error", e) ∷ []))
  send_built request (ok _) = do reply ← post request; pure (attempt_error reply)

  -- `doRequest`: the request is built, which may fail, and sent.
  do_request : Sender → Request → Action (Option (Text × Dict Text))
  unfolding send_built
  do_request s request = do
    built ← try (wrap (codes "telegram: build request: ") (perform (λ w. w)))
    send_built request built

  -- The failure of a round goes to the log.
  report_failure : Sender → ℕ → Option (Text × Dict Text) → Action (Option Text)
  report_failure s attempt none = pure none
  report_failure s attempt (some (e, what)) = do
    log s.logger (codes "error") (codes "telegram send failed")
        (what ++ (codes "attempt", format_int (pos attempt)) ∷ [])
    pure (some e)

  -- One round of the loop.
  try_once : Sender → Request → ℕ → Action (Option Text)
  unfolding do_request report_failure
  try_once s request attempt = do failed ← do_request s request; report_failure s attempt failed

  last_error : Option Text → Action (Unit {0})
  last_error none = pure tt
  last_error (some e) = fail e

  -- The second round, if the first failed.
  try_again : Sender → Request → Option Text → Action (Unit {0})
  unfolding try_once last_error
  try_again s request none = pure tt
  try_again s request (some _) = do second ← try_once s request 2; last_error second

  -- The loop: two attempts, and the last error.
  send_twice : Sender → Request → Action (Unit {0})
  unfolding try_once try_again
  send_twice s request = do first ← try_once s request 1; try_again s request first

module _ ⦃u : Unicode⦄ ⦃env : Env⦄ where
  -- `SendMessage`; the body is always a JSON object, so `Marshal` does not fail
  unfoldable pub send_message_to : Sender → ℤ → Option User → Text → Action (Unit {0})
  unfolding send_twice is_allowed_user trim_space text_eq
  send_message_to s chat_id user text =
      let trimmed = trim_space text in
      if not (is_allowed_user s.allow_from user)
      then fail (codes "telegram: user not allowed")
      else if text_eq trimmed []
      then fail (codes "telegram: message text is empty")
      else if zero_id chat_id
      then fail (codes "telegram: chat id is required")
      else send_twice s (record { url = send_url s.bot_token; body = send_message chat_id trimmed })
