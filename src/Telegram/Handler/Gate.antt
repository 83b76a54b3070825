-- ===== src/Telegram/Handler/Gate.antt =====
-- Which requests of the webhook reach the processor.
use mouse.Prelude.{
  inl, refl, inr, ◌&&◌, ◌||◌, ok, [], ◌<◌, arith, text_eq, none, Bool-cases, ◌≤◌, some, ℕ, err,
  if◌then◌else◌, Bool, Text, ◌≡◌, Result, Option,
}
use mouse.Telegram.Handler.{finish, handle_body, WebhookRequest, Config, Processor}
use mouse.Strings.{Unicode}
use mouse.Host.{World}
use mouse.Telegram.Allow.{is_allowed_update, Update}
use mouse.Prelude.Dict.{Dict}
use mouse.Telegram.Handler.{Handler, serve_http}
use mouse.Host.Action.{log}
use mouse.Telegram.Sender.Retry.{succeeds}
use mouse.Host.Http.{status_internal_error, method_post, status_ok}

-- The secret is asked for exactly if one is configured.
abbrev pub secret_fits : Config → Text → Bool
secret_fits cfg secret = text_eq cfg.secret_token [] || text_eq secret cfg.secret_token

abbrev pub allowed_update : ⦃u : Unicode⦄ → Config → Result (Result Update) → Option Update
allowed_update cfg (err e) = none
allowed_update cfg (ok (err e)) = none
allowed_update cfg (ok (ok update)) =
    if is_allowed_update cfg.allow_from update then some update else none

-- The update that a request passes on to the processor, if it does.
abbrev pub admitted : ⦃u : Unicode⦄ → Config → WebhookRequest → Option Update
admitted cfg r =
    if text_eq r.method method_post && secret_fits cfg r.secret
    then allowed_update cfg r.body
    else none

-- The two worlds differ in the log at most.
pub record SameButLog (w w' : World) : Type 0 where
  pub files : w'.files ≡ w.files
  pub db : w'.db ≡ w.db
  pub requests : w'.requests ≡ w.requests
  pub commands : w'.commands ≡ w.commands
  pub calls : w'.calls ≡ w.calls

-- What a request comes to: an error of the client, with nothing done, or the processor's run.
abbrev pub Handled : Processor → World → Option Update → ℕ × World → Type 0
Handled proc w none (status, w') = (400 ≤ status) × (status < 500) × SameButLog w w'
Handled proc w (some update) (status, w') =
    (status ≡ (if succeeds (proc update w).0.1 then status_ok else status_internal_error))
    × SameButLog (proc update w).1 w'

log_SameButLog :
    (logger : Option Text) (level message : Text) (entry_fields : Dict Text) (w : World)
    → SameButLog w (log logger level message entry_fields w).1
log_SameButLog none level message entry_fields w = ground arith
log_SameButLog (some service) level message entry_fields w = ground arith

module _ ⦃u : Unicode⦄ (cfg : Config) (logger : Text) (proc : Processor) (w : World) where
  abbrev pub with_processor : Handler
  with_processor = record { cfg = cfg; logger = logger; proc = some proc }

  finish_lem :
      (update : Update) (outcome : Text × Result (Unit {0})) (w' : World)
      → let a = finish (some logger) update outcome w' in
        (a.0 ≡ (if succeeds outcome.1 then status_ok else status_internal_error))
        × SameButLog w' a.1
  unfolding finish
  finish_lem update (id, ok _) w' = (refl, log_SameButLog (some logger) _ _ _ w')
  finish_lem update (id, err e) w' = (refl, log_SameButLog (some logger) _ _ _ w')

  handle_body_lem :
      (body : Result (Result Update))
      → Handled proc w (allowed_update cfg body) (handle_body with_processor body w)
  unfolding handle_body
  handle_body_lem (err e) = (omega arith, omega arith, log_SameButLog (some logger) _ _ _ w)
  handle_body_lem (ok (err e)) = (omega arith, omega arith, log_SameButLog (some logger) _ _ _ w)
  handle_body_lem (ok (ok update)) = elim (Bool-cases (is_allowed_update cfg.allow_from update)) [
    | inl yes_allowed ↦ rw yes_allowed (finish_lem update (proc update w).0 (proc update w).1)
    | inr refused ↦ rw refused (omega arith, omega arith, ground arith)
  ]

  -- A request to a handler with a processor reaches it exactly if the request is a POST with the
  -- right secret whose body is an update from an allowed user. Then the answer is 200 or 500, as
  -- the processor succeeds or fails. Any other request is answered with an error of the client and
  -- changes at most the log.
  pub serve_http-Handled :
      (r : WebhookRequest) → Handled proc w (admitted cfg r) (serve_http with_processor r w)
  unfolding serve_http
  serve_http-Handled r = elim (Bool-cases (text_eq r.method method_post)) [
    | inr other ↦ rw other (omega arith, omega arith, ground arith)
    | inl posted ↦ elim (Bool-cases (text_eq cfg.secret_token [])) [
      | inl open_to_all ↦ rw (posted, open_to_all) (handle_body_lem r.body)
      | inr secret ↦ elim (Bool-cases (text_eq r.secret cfg.secret_token)) [
        | inl right ↦ rw (posted, secret, right) (handle_body_lem r.body)
        | inr wrong ↦
            rw (posted, secret, wrong)
              (omega arith, omega arith, log_SameButLog (some logger) _ _ _ w)
      ]
    ]
  ]
