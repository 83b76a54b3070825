-- ===== src/Telegram/Handler/Kept.antt =====
-- internal/telegram/telegram.go: what a request to the webhook keeps, if its processor keeps it.
use mouse.Effects.{log-Keeps, Closed}
use mouse.Telegram.Handler.{Handler, serve_http, Processor}
use mouse.Strings.{Unicode}
use mouse.Telegram.Handler.{
  process_with, WebhookRequest, handle_body, serve_http, Processor, answer, log_and_answer, finish,
  Handler,
}
use mouse.Prelude.{
  ◌&&◌, not, text_eq, inr, [], inl, Bool-cases, ok, err, some, ℕ, Result, Text, Option,
}
use mouse.Telegram.Allow.{is_allowed_update, Update}
use mouse.Host.{World}
use mouse.Prelude.Dict.{Dict}
use mouse.Host.Http.{
  method_post, status_bad_request, status_ok, status_internal_error, status_unauthorized,
}
use mouse.Host.Rows.{IndexEntry}

module _ {ι} {Told : IndexEntry → Type 0} {I : World → Type ι} (c : Closed Told I)
    ⦃u : Unicode⦄ where
  log_and_answer-after :
      (logger : Option Text) (level message : Text) (about : Dict Text) (status : ℕ) (w : World)
      → I w
      → I (log_and_answer logger level message about status w).1
  unfolding log_and_answer answer
  log_and_answer-after logger level message about status w h =
      (log-Keeps c logger level message about).after w h

  finish-after :
      (logger : Option Text) (update : Update) (outcome : Text × Result (Unit {0})) (w : World)
      → I w
      → I (finish logger update outcome w).1
  unfolding finish
  finish-after logger update (session_id, err e) w h =
      log_and_answer-after logger _ _ _ status_internal_error w h
  finish-after logger update (session_id, ok _) w h =
      log_and_answer-after logger _ _ _ status_ok w h

  -- Over a processor that keeps the property, the handler keeps it.
  module _ (h : Handler) (proc : Processor)
      (processed : (update : Update) (w : World) → I w → I (proc update w).1) where
    body-after :
        (body : Result (Result Update)) (w : World)
        → I w
        → I (handle_body (record h { proc = some proc }) body w).1
    unfolding handle_body process_with answer
    body-after (err e) w i = log_and_answer-after (some h.logger) _ _ _ status_bad_request w i
    body-after (ok (err e)) w i = log_and_answer-after (some h.logger) _ _ _ status_bad_request w i
    body-after (ok (ok update)) w i =
        elim (Bool-cases (is_allowed_update h.cfg.allow_from update)) [
          | inl known ↦ rw known (
              finish-after (some h.logger) update (proc update w).0 (proc update w).1
                (processed update w i))
          | inr other ↦ rw other i
        ]

    pub serve_http-after :
        (r : WebhookRequest) (w : World)
        → I w
        → I (serve_http (record h { proc = some proc }) r w).1
    unfolding serve_http answer
    serve_http-after r w i = elim (Bool-cases (text_eq r.method method_post)) [
      | inr other ↦ rw other i
      | inl post ↦
          elim (Bool-cases
            (not (text_eq h.cfg.secret_token []) && not (text_eq r.secret h.cfg.secret_token))) [
              | inl stranger ↦
                  rw (post, stranger)
                    (log_and_answer-after (some h.logger) _ _ _ status_unauthorized w i)
              | inr known ↦ rw (post, known) (body-after r.body w i)
            ]
    ]
