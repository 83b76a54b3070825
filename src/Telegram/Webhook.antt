-- ===== src/Telegram/Webhook.antt =====
-- internal/telegram/webhook.go: telling Telegram where the webhook is.
pub mod Calls
use mouse.Host.{Reply, World, Request, Env, set_webhook_body, unreached, cut_off, answered}
use mouse.Prelude.{
  true, ◌+◌, ◌⊎◌, refl, false, ◌≡◌, ◌&&◌, if◌then◌else◌, not, ◌==◌, codes, Option, Bool, Text, [],
  ◌∷◌, ◌++◌, none, some,
}
use mouse.Strings.{trim_space, trim_right, is_blank}
use mouse.Host.Action.{post, ◌>>=◌, perform, wrap, log, fail, ◌>>◌, Action}
use mouse.Prelude.Dict.{Dict}
use mouse.Telegram.Sender.Retry.{delivered, succeeds}
use mouse.Telegram.Sender.{is_success}
use mouse.Strings.Decimal.{format_int}
use mouse.Prelude.Int.{pos}

abbrev pub webhook_url : Text → Text → Text
webhook_url public_url path = trim_right (λ c. c == b'/') public_url ++ path

-- The request; the secret is left out if it is blank.
abbrev pub webhook_request : Text → Text → Text → Text → Request
webhook_request token public_url path secret = record {
  url = codes "https://api.telegram.org/bot" ++ (token ++ codes "/setWebhook");
  body =
      set_webhook_body (webhook_url public_url path)
        (if is_blank secret then none else some secret);
}

module _ ⦃env : Env⦄ where
  -- What is made of the answer.
  read_webhook_reply : Option Text → Text → Reply → Action (Unit {0})
  read_webhook_reply logger url (unreached e) = fail (codes "telegram: webhook call: " ++ e)
  read_webhook_reply logger url (cut_off status e) =
      fail (codes "telegram: webhook response read: " ++ e)
  read_webhook_reply logger url (answered status reply_body) =
      if is_success status
      then log logger (codes "info") (codes "telegram webhook set") ((codes "url", url) ∷ [])
      else fail (
          codes "telegram: webhook status "
          ++ (format_int (pos status) ++ (codes ": " ++ trim_space reply_body)))

  call_webhook : Option Text → Text → Request → Action (Unit {0})
  unfolding read_webhook_reply
  call_webhook logger url request = do
    wrap (codes "telegram: request webhook: ") (perform (λ w. w))
    reply ← post request
    read_webhook_reply logger url reply

  -- `SetWebhook`; the body is always a JSON object, so `Marshal` does not fail
  unfoldable pub set_webhook : Text → Text → Text → Text → Option Text → Action (Unit {0})
  unfolding call_webhook is_blank
  set_webhook token public_url path secret logger =
      if is_blank token
      then fail (codes "telegram: bot token required")
      else if is_blank public_url
      then fail (codes "telegram: public url required")
      else if is_blank path
      then fail (codes "telegram: webhook path required")
      else call_webhook logger (webhook_url public_url path)
          (webhook_request token public_url path secret)
