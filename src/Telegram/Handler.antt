-- ===== src/Telegram/Handler.antt =====
-- internal/telegram/telegram.go: the webhook.
pub mod Gate
pub mod Kept
use mouse.Prelude.{
  ◌++◌, none, ◌&&◌, ok, text_eq, some, not, ◌∷◌, Bool, [], if◌then◌else◌, err, codes, Result, List,
  Option, ℕ, Text,
}
use mouse.Strings.{Unicode}
use mouse.Host.{World}
use mouse.Telegram.Allow.{is_allowed_update, Update}
use mouse.Prelude.Dict.{Dict}
use mouse.Host.Http.{
  status_unauthorized, status_forbidden, status_method_not_allowed, status_ok, method_post,
  status_bad_request, status_internal_error,
}
use mouse.Host.Action.{log}
use mouse.Strings.Decimal.{format_int}

-- `Config`; RequireWebhook is read nowhere
pub record Config : Type 0 where
  pub allow_from : List Text
  pub secret_token : Text
  pub require_webhook : Bool

-- A request of the webhook: its method, the secret header, the remote address, and the body, which
-- cannot be read (`err`), is no update (`ok none`), or is one.
pub record WebhookRequest : Type 0 where
  pub method : Text
  pub secret : Text
  pub remote : Text
  pub body : Result (Result Update)

-- `Processor`: the session's id beside the error.
abbrev pub Processor : Type 0
Processor = Update → World → (Text × Result (Unit {0})) × World

-- The service of the logger, which `NewServer` always passes: ServeHTTP calls it without a test.
pub record Handler : Type 0 where
  pub cfg : Config
  pub logger : Text
  pub proc : Option Processor

abbrev level_info : Text
level_info = codes "info"

-- The fields of the last log line.
update_fields : Update → Dict Text
update_fields update = (codes "update_id", format_int update.update_id) ∷ elim update.message [
  | none ↦ []
  | some message ↦
      (elim message.sender [
        | none ↦ []
        | some user ↦
            (codes "from_id", format_int user.id) ∷ (codes "from_user", user.username) ∷ []
      ])
      ++ (elim message.chat [
        | none ↦ []
        | some chat ↦
            (codes "chat_id", format_int chat.id) ∷ (codes "chat_type", chat.chat_type) ∷ []
      ])
]

-- The handler writes a status and no body.
abbrev pub Answering : Type 0
Answering = World → ℕ × World

answer : ℕ → Answering
answer status w = (status, w)

-- A line of the log, and then the status.
log_and_answer : Option Text → Text → Text → Dict Text → ℕ → Answering
unfolding answer
log_and_answer logger level message entry_fields status w =
    answer status (log logger level message entry_fields w).1

-- What follows `Process`.
finish : Option Text → Update → Text × Result (Unit {0}) → Answering
unfolding log_and_answer update_fields
finish logger update (session_id, err e) =
    log_and_answer logger (codes "error") (codes "telegram processing failed")
      ((codes "error", e)
        ∷ (if text_eq session_id [] then [] else (codes "session_id", session_id) ∷ []))
      status_internal_error
finish logger update (session_id, ok _) =
    log_and_answer logger level_info (codes "telegram update received") (update_fields update)
      status_ok

process_with : Option Text → Option Processor → Update → Answering
unfolding finish
process_with logger none update =
    log_and_answer logger (codes "error") (codes "telegram processor not configured") []
      status_internal_error
process_with logger (some proc) update =
    λ w. let (outcome, w') = proc update w in finish logger update outcome w'

module _ ⦃u : Unicode⦄ where
  handle_body : Handler → Result (Result Update) → Answering
  unfolding process_with
  handle_body h (err e) =
      log_and_answer (some h.logger) (codes "error") (codes "telegram read body failed")
        ((codes "error", e) ∷ []) status_bad_request
  handle_body h (ok (err e)) =
      log_and_answer (some h.logger) (codes "warn") (codes "telegram invalid json")
        ((codes "error", e) ∷ []) status_bad_request
  handle_body h (ok (ok update)) =
      if is_allowed_update h.cfg.allow_from update
      then process_with (some h.logger) h.proc update
      else answer status_forbidden

  -- `ServeHTTP`
  unfoldable pub serve_http : Handler → WebhookRequest → Answering
  unfolding handle_body answer
  serve_http h r =
      if not (text_eq r.method method_post)
      then answer status_method_not_allowed
      else if not (text_eq h.cfg.secret_token []) && not (text_eq r.secret h.cfg.secret_token)
      then log_and_answer (some h.logger) (codes "warn") (codes "telegram webhook secret mismatch")
          ((codes "remote", r.remote) ∷ []) status_unauthorized
      else handle_body h r.body
