-- ===== src/Llm.antt =====
-- internal/llm/llm.go: the language model behind `Client`.
pub mod Replies
pub mod Kept
use mouse.Prelude.{
  Result, ok, err, not, [], ◌&&◌, ◌||◌, ◌∷◌, none, ◌++◌, List, some, ◌==◌, codes, text_eq,
  if◌then◌else◌, Text, Option,
}
use mouse.Strings.{trim_space, to_lower, Unicode, is_blank}
use mouse.Prelude.Int.{negsuc, pos, ℤ}
use mouse.Host.{complete, answered, cut_off, ContentBlock, unreached, Reply, MessagesResponse, Env}
use mouse.Host.Action.{post, ◌>>=◌, perform, log, wrap, ◌>>◌, pure, fail, Action}
use mouse.Telegram.Sender.{is_success}
use mouse.Strings.Decimal.{format_int}

pub data Client : Type 0 where
  noop : Text → Client
  anthropic : Text → Text → ℤ → Option Text → Client

pub record Config : Type 0 where
  pub provider : Text
  pub api_key : Text
  pub model : Text
  pub max_tokens : ℤ

-- `maxTokens <= 0` gives 1024.
unfoldable pub tokens_of : ℤ → ℤ
tokens_of (pos n) = if n == 0 then pos 1024 else pos n
tokens_of (negsuc n) = pos 1024

anthropic_client : Config → Option Text → Client × Option Text
anthropic_client cfg logger =
    if is_blank cfg.api_key
    then (noop (codes "missing api key"), some (codes "llm: missing api key"))
    else if is_blank cfg.model
    then (noop (codes "missing model"), some (codes "llm: missing model"))
    else (anthropic cfg.api_key cfg.model (tokens_of cfg.max_tokens) logger, none)

-- `New`: a client always comes back, beside an error or not. `%q` quotes the provider's name; the
-- quotes are written without escapes.
unfoldable pub new : ⦃u : Unicode⦄ → Config → Option Text → Client × Option Text
unfolding anthropic_client tokens_of is_blank text_eq
new cfg logger =
    let provider = to_lower (trim_space cfg.provider) in
    if text_eq provider (codes "claude") || text_eq provider (codes "anthropic")
    then anthropic_client cfg logger
    else (let named = if text_eq provider [] then codes "unknown" else provider in
        (
          noop (codes "unsupported provider: " ++ named),
          some (codes "llm: unsupported provider \"" ++ (named ++ codes "\"")),
        ))

-- The loop over the content blocks: the first text that is not blank.
unfoldable pub first_text : List ContentBlock → Option Text
unfolding is_blank text_eq
first_text [] = none
first_text (block ∷ blocks) =
    let later = first_text blocks in
    if text_eq block.block_type (codes "text") && not (is_blank block.text)
    then some block.text
    else later

abbrev pub messages_url : Text
messages_url = codes "https://api.anthropic.com/v1/messages"

module _ ⦃env : Env⦄ where
  -- The text that was found, or a warning.
  found_text : Option Text → MessagesResponse → Option Text → Action Text
  found_text logger parsed (some text) = pure text
  found_text logger parsed none = do
    log logger (codes "warn") (codes "llm response contained no text")
        ((codes "stop_reason", parsed.stop_reason) ∷ [])
    fail (codes "llm: empty response")

  -- What is made of a decoded response.
  choose_text : Option Text → Result MessagesResponse → Action Text
  unfolding found_text first_text
  choose_text logger (err e) = fail (codes "llm: decode response: " ++ e)
  choose_text logger (ok parsed) = found_text logger parsed (first_text parsed.content)

  read_reply : Option Text → Reply → Action Text
  unfolding choose_text
  read_reply logger (unreached e) = fail (codes "llm: post: " ++ e)
  read_reply logger (cut_off status e) = fail (codes "llm: read response: " ++ e)
  read_reply logger (answered status body) =
      if is_success status
      then choose_text logger (env.decode_messages body)
      else fail (codes "llm: http " ++ (format_int (pos status) ++ (codes ": " ++ trim_space body)))

  -- `Complete` of each client. The headers (key, version, content type) are not part of the model.
  unfoldable pub complete_prompt : Client → Text → Action Text
  unfolding read_reply
  complete_prompt (noop reason) prompt = fail (codes "llm disabled: " ++ reason)
  complete_prompt (anthropic key model max_tokens logger) prompt = do
    wrap (codes "llm: request: ") (perform (λ w. w))
    reply ← post (record { url = messages_url; body = complete model max_tokens prompt })
    read_reply logger reply
